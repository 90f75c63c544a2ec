-- ===== src/Castore/Ingest/Decompose.antt =====
-- crates/ekapkgs-nix/src/decompose.rs: the client's decomposition of a tree, against the server's
-- `ingest_node` of crates/ekapkgs-serve/src/storage/castore.rs.
use ekapkgs_cli.Prelude.{
  ℕ, ◌≡◌, refl, ap, ap₂, some, List, [], ◌∷◌, ◌++◌, Bytes, contains, length, if◌then◌else◌,
}
use ekapkgs_cli.Nar.{NarNode, Entries, regular, directory, symlink, end, entry}
use ekapkgs_cli.Nar.Streaming.{CaNode, file_node, directory_node, symlink_node, CaDirectoryEntry}
use ekapkgs_cli.Castore.{CastoreBackend}
use ekapkgs_cli.Castore.Ingest.{
  Codecs, CodecLaws, concat, total_length, count_entries, insert_directory, ingest_node,
  ingest_entries,
}

-- `Chunk` of decompose.rs.
pub record ChunkData : Type 0 where
  pub digest : Bytes
  pub bytes : Bytes

-- The results that the recursion collects, and `chunk_seen`.
pub record Collected : Type 0 where
  pub chunks : List ChunkData
  pub chunk_seen : List Bytes
  pub directories : List (Bytes × List CaDirectoryEntry)
  pub file_chunk_mappings : List (Bytes × List (Bytes × ℕ))

pub record DecomposeResult : Type 0 where
  pub root_node : CaNode
  pub collected : Collected

module _ (k : Codecs) where
  -- `chunk_seen.insert(digest)`, and the chunk if it is new.
  unfoldable pub collect_chunk : Bytes → Collected → Collected
  collect_chunk c r = if contains (k.blake3 c) r.chunk_seen then r else record r {
    chunks = r.chunks ++ ((record { digest = k.blake3 c; bytes = c }) ∷ []);
    chunk_seen = k.blake3 c ∷ r.chunk_seen;
  }

  unfoldable pub collect_chunks : List Bytes → Collected → Collected
  collect_chunks [] r = r
  collect_chunks (c ∷ cs) r = collect_chunks cs (collect_chunk c r)

  unfoldable pub chunk_metas : List Bytes → List (Bytes × ℕ)
  chunk_metas [] = []
  chunk_metas (c ∷ cs) = (k.blake3 c, length c) ∷ chunk_metas cs

  -- The hasher that is fed the chunks gives the digest of what they make up.
  unfoldable pub decompose_file : Bytes → Collected → Bytes × Collected
  decompose_file bytes r =
      let file_digest = k.blake3 (concat (k.cdc bytes)) in
      let r' = collect_chunks (k.cdc bytes) r in
      (
        file_digest,
        elim (k.cdc bytes) [
          | [] ↦ r'
          | c ∷ cs ↦ record r' {
            file_chunk_mappings =
                r'.file_chunk_mappings ++ ((file_digest, chunk_metas (k.cdc bytes)) ∷ []);
          }
        ],
      )

  unfoldable mutual
    pub decompose_node : NarNode → Collected → CaNode × Collected
    decompose_node (regular executable bytes) r =
        let file = decompose_file bytes r in
        (file_node (some file.0) (total_length (k.cdc bytes)) executable, file.1)
    decompose_node (directory entries) r =
        let walked = decompose_entries entries r in
        let digest = k.blake3 (k.encode walked.0) in
        (
          directory_node (some digest) (count_entries entries),
          record walked.1 {
            directories = Collected.directories walked.1 ++ ((digest, walked.0) ∷ []);
          },
        )
    decompose_node (symlink target) r = (symlink_node target, r)

    pub decompose_entries : Entries → Collected → List CaDirectoryEntry × Collected
    decompose_entries end r = ([], r)
    decompose_entries (entry name node es) r =
        let child = decompose_node node r in
        let rest = decompose_entries es child.1 in
        ((record { name = name; node = some child.0 }) ∷ rest.0, rest.1)

  unfoldable pub decompose_nar : NarNode → DecomposeResult
  decompose_nar node =
      let r =
        decompose_node node
          (record { chunks = []; chunk_seen = []; directories = []; file_chunk_mappings = [] }) in
      record { root_node = r.0; collected = r.1 }

module _ (k : Codecs) (laws : CodecLaws k) where
  mutual
    unfolding decompose_node ingest_node decompose_file insert_directory

    same_node :
        (node : NarNode) (r : Collected) (s : CastoreBackend)
        → (decompose_node k node r).0 ≡ (ingest_node k node s).0
    same_node (regular executable bytes) r s =
        ap (λ x. file_node (some (k.blake3 x)) (total_length (k.cdc bytes)) executable)
          (laws.chunked bytes)
    same_node (directory entries) r s =
        ap (λ es. directory_node (some (k.blake3 (k.encode es))) (count_entries entries))
          (same_entries entries r s)
    same_node (symlink target) r s = refl

    same_entries :
        (entries : Entries) (r : Collected) (s : CastoreBackend)
        → (decompose_entries k entries r).0 ≡ (ingest_entries k entries s).0
    same_entries end r s = refl
    same_entries (entry name node es) r s =
        ap₂ (λ n rest. (record { name = name; node = some n }) ∷ rest) (same_node node r s)
          (same_entries es (decompose_node k node r).1 (ingest_node k node s).1)

  -- When the libraries keep their promises, the root node that the client computes for a tree is the
  -- one that the server computes when it ingests the tree.
  pub decompose_nar-ingest_node :
      (node : NarNode) (s : CastoreBackend)
      → (decompose_nar k node).root_node ≡ (ingest_node k node s).0
  unfolding decompose_nar
  decompose_nar-ingest_node node s = same_node node _ s
