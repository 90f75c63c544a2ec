-- ===== src/Castore/Walk.antt =====
-- `walk_cas_trees` and `walk_cas_node` of crates/ekapkgs-serve/src/storage/castore.rs, and the answer that
-- `negotiate_chunks` of crates/ekapkgs-serve/src/api/negotiate.rs makes of them.
pub mod Held
pub mod Files
pub mod Trees
pub mod Covers
use ekapkgs_cli.Prelude.{
  ℕ, zero, suc, ◌+◌, ◌/◌, ◌%◌, ltb, map, Bool, true, false, not, ◌&&◌, Option, none, some, List, [],
  ◌∷◌, ◌++◌, Bytes, bytes_eq, codes, contains, if◌then◌else◌,
}
use ekapkgs_cli.Nar.Streaming.{
  CaNode, no_variant, file_node, directory_node, symlink_node, CaDirectoryEntry,
}
use ekapkgs_cli.Bloom.{BloomFilter, maybe_contains}
use ekapkgs_cli.Castore.{CasPath, FileChunk, CastoreBackend, is_digest, chunks_of, order_by_index}
use ekapkgs_cli.Castore.Ingest.{Codecs, load_directory}
use ekapkgs_cli.ClientStore.Pull.{
  ChunkMeta, FileChunkMapping, CaDirectoryData, ChunkDownload, ChunkNegotiateResponse,
}

pub data ChunkHaveCheck : Type 0 where
  exact : List Bytes → ChunkHaveCheck
  bloom : BloomFilter → ChunkHaveCheck

-- `ChunkHaveCheck::contains`
unfoldable pub has_chunk : ChunkHaveCheck → Bytes → Bool
has_chunk (exact digests) d = contains d digests
has_chunk (bloom filter) d = maybe_contains d filter

unfoldable pub find_cas_root : Bytes → List CasPath → Option Bytes
find_cas_root h [] = none
find_cas_root h (p ∷ ps) =
    let rest = find_cas_root h ps in if bytes_eq p.hash h then some p.root_node else rest

-- What a walk collects.
pub record TreeWalk : Type 0 where
  pub chunk_seen : List Bytes
  pub missing_chunks : List ChunkMeta
  pub dir_seen : List Bytes
  pub directories : List (Bytes × List CaDirectoryEntry)
  pub file_seen : List Bytes
  pub file_mappings : List (Bytes × List (Bytes × ℕ))

-- The `filter_map` over the rows of a file.
unfoldable pub row_chunks : List FileChunk → List (Bytes × ℕ)
row_chunks [] = []
row_chunks (r ∷ rows) =
    let rest = row_chunks rows in
    if is_digest r.chunk_digest then (r.chunk_digest, r.chunk_size) ∷ rest else rest

unfoldable pub collect_missing : ChunkHaveCheck → List (Bytes × ℕ) → TreeWalk → TreeWalk
collect_missing have [] w = w
collect_missing have ((d, size) ∷ chunks) w =
    if not (has_chunk have d) && not (contains d w.chunk_seen)
    then collect_missing have chunks (record w {
      chunk_seen = d ∷ w.chunk_seen;
      missing_chunks = w.missing_chunks ++ ((record { digest = some d; size = size }) ∷ []);
    })
    else collect_missing have chunks w

-- The mapping of a file that has chunks.
unfoldable pub add_mapping : Bytes → List (Bytes × ℕ) → TreeWalk → TreeWalk
add_mapping f [] w = w
add_mapping f (c ∷ chunks) w = record w {
  file_mappings = w.file_mappings ++ ((f, c ∷ chunks) ∷ []);
}

unfoldable pub walk_file : ChunkHaveCheck → CastoreBackend → Bytes → TreeWalk → TreeWalk
walk_file have s f w =
    let chunks = row_chunks (order_by_index (chunks_of f s.file_chunks)) in
    if contains f w.file_seen
    then w
    else add_mapping f chunks
        (collect_missing have chunks (record w { file_seen = f ∷ w.file_seen }))

-- The children of a directory in turn.
unfoldable pub walk_entries :
    (CaNode → TreeWalk → TreeWalk) → List CaDirectoryEntry → TreeWalk → TreeWalk
walk_entries walk [] w = w
walk_entries walk (e ∷ es) w =
    walk_entries walk es (elim e.node [ none ↦ w | some child ↦ walk child w ])

unfoldable pub add_directory : Bytes → List CaDirectoryEntry → TreeWalk → TreeWalk
add_directory d es w = record w { directories = w.directories ++ ((d, es) ∷ []) }

unfoldable pub see_directory : Bytes → TreeWalk → TreeWalk
see_directory d w = record w { dir_seen = d ∷ w.dir_seen }

module _ (k : Codecs) (have : ChunkHaveCheck) (s : CastoreBackend) where
  -- On trees of at most the given number of levels.
  unfoldable pub walk_cas_node : ℕ → CaNode → TreeWalk → TreeWalk
  walk_cas_node zero node w = w
  walk_cas_node (suc fuel) no_variant w = w
  walk_cas_node (suc fuel) (file_node none size executable) w = w
  walk_cas_node (suc fuel) (file_node (some f) size executable) w =
      if is_digest f then walk_file have s f w else w
  walk_cas_node (suc fuel) (directory_node none size) w = w
  walk_cas_node (suc fuel) (directory_node (some d) size) w =
      let below =
        λ (es : List CaDirectoryEntry) (v : TreeWalk). walk_entries (walk_cas_node fuel) es v in
      if is_digest d
      then (if contains d w.dir_seen then w else elim (load_directory k s d) [
        | none ↦ see_directory d w
        | some es ↦ add_directory d es (below es (see_directory d w))
      ])
      else w
  walk_cas_node (suc fuel) (symlink_node target) w = w

  module _ (decode_node : Bytes → Option CaNode) (fuel : ℕ) where
    -- `get_root_node` and the walk, for each wanted hash; `none` where a root does not decode.
    unfoldable pub walk_wanted : List Bytes → TreeWalk → Option TreeWalk
    walk_wanted [] w = some w
    walk_wanted (hash ∷ hashes) w = elim (find_cas_root hash s.cas_paths) [
      | none ↦ walk_wanted hashes w
      | some root_bytes ↦ elim (decode_node root_bytes) [
        | none ↦ none
        | some root ↦ walk_wanted hashes (walk_cas_node fuel root w)
      ]
    ]

    unfoldable pub walk_cas_trees : List Bytes → Option TreeWalk
    walk_cas_trees want_hashes = walk_wanted want_hashes (record {
      chunk_seen = [];
      missing_chunks = [];
      dir_seen = [];
      directories = [];
      file_seen = [];
      file_mappings = [];
    })

-- `{b:02x}`
abbrev hex_digit : ℕ → ℕ
hex_digit n = if ltb n 10 then 48 + n else 87 + n

unfoldable pub hex_encode : Bytes → Bytes
hex_encode [] = []
hex_encode (b ∷ bs) = hex_digit (b / 16) ∷ hex_digit (b % 16) ∷ hex_encode bs

unfoldable pub chunk_download : ChunkMeta → ChunkDownload
chunk_download m = record {
  digest = m.digest;
  size = m.size;
  url = codes "cas/chunk/" ++ elim m.digest [ none ↦ [] | some d ↦ hex_encode d ];
}

abbrev pub chunk_meta : Bytes × ℕ → ChunkMeta
chunk_meta (d, size) = record { digest = some d; size = size }

unfoldable pub file_chunk_mapping : Bytes × List (Bytes × ℕ) → FileChunkMapping
file_chunk_mapping (f, chunks) = record { file_digest = some f; chunks = map chunk_meta chunks }

unfoldable pub ca_directory_data : Bytes × List CaDirectoryEntry → CaDirectoryData
ca_directory_data (d, es) = record { digest = some d; directory = some es }

-- The answer of `negotiate_chunks`, as far as the chunk store takes it in.
unfoldable pub chunk_response : TreeWalk → ChunkNegotiateResponse
chunk_response w = record {
  missing_chunks = map chunk_download w.missing_chunks;
  directories = map ca_directory_data w.directories;
  file_chunk_mappings = map file_chunk_mapping w.file_mappings;
}
