-- ===== src/Castore/Walk/Covers.antt =====
-- `walk_cas_trees` of crates/ekapkgs-serve/src/storage/castore.rs answers with all that a client lacks, and a
-- pull by `cas_pull` of crates/ekapkgs/src/cas_pull.rs from that answer writes the archives.
use ekapkgs_cli.Prelude.{
  ℕ, ◌≤◌, ◌≡◌, refl, sym, ap, subst, ◌∙◌, inl, inr, true, false, Option, some, List, [], ◌∷◌, map,
  Bytes, contains, length, All, Any, Empty, arith,
}
use ekapkgs_cli.Nar.{NarNode, Entries, regular, directory, symlink, end, entry}
use ekapkgs_cli.Nar.Writer.{write_nar}
use ekapkgs_cli.Nar.Streaming.{CaNode, CaDirectoryEntry, write_nar_streaming}
use ekapkgs_cli.Castore.{CastoreBackend}
use ekapkgs_cli.Castore.Ingest.{Codecs, CodecLaws, depth, sort_node}
use ekapkgs_cli.Castore.Ingest.Decompose.{chunk_metas}
use ekapkgs_cli.Castore.Ingest.Provided.{node_of, entries_of}
use ekapkgs_cli.Castore.Walk.{
  exact, has_chunk, TreeWalk, walk_cas_node, find_cas_root, walk_wanted, walk_cas_trees,
  chunk_download, chunk_meta, file_chunk_mapping, ca_directory_data, chunk_response,
}
use ekapkgs_cli.Castore.Walk.Held.{Held}
use ekapkgs_cli.Castore.Walk.Files.{IsCollected, pair_of, Well, Keeps, Keeps-refl, Keeps-trans}
use ekapkgs_cli.Castore.Walk.Trees.{digest_of, Done, DoneEntries, Done-Keeps, walked}
use ekapkgs_cli.ClientStore.{ChunkStore, all_chunk_digests, chunk_store_reader}
use ekapkgs_cli.ClientStore.Valid.{IsValid}
use ekapkgs_cli.ClientStore.Pull.{ChunkMeta, FileChunkMapping, index_response, store_results}
use ekapkgs_cli.ClientStore.Pull.Steps.{metas_of, mapping_of, directory_data}
use ekapkgs_cli.ClientStore.Pull.RoundTrip.{
  IsSound, IsSent, Covers, CoversEntries, AreResults, write_nar_streaming-index_response,
}

Any-map {ℓ κ} :
    {A : Type ℓ} {B : Type κ} (P : A → Type 0) (Q : B → Type 0) (f : A → B) (xs : List A)
    → ((x : A) → P x → Q (f x))
    → Any P xs
    → Any Q (map f xs)
Any-map P Q f [] h member = elim member [ ]
Any-map P Q f (x ∷ xs) h (inl here) = inl (h x here)
Any-map P Q f (x ∷ xs) h (inr later) = inr (Any-map P Q f xs h later)

All-map {ℓ κ} :
    {A : Type ℓ} {B : Type κ} (P : A → Type 0) (Q : B → Type 0) (f : A → B) (xs : List A)
    → ((x : A) → P x → Q (f x))
    → All P xs
    → All Q (map f xs)
All-map P Q f [] h all = tt
All-map P Q f (x ∷ xs) h all = (h x all.0, All-map P Q f xs h all.1)

module _ (k : Codecs) (laws : CodecLaws k) (digests : List Bytes) where
  chunk_metas-metas_of : (cs : List Bytes) → map chunk_meta (chunk_metas k cs) ≡ metas_of k cs
  unfolding chunk_metas
  chunk_metas-metas_of [] = refl
  chunk_metas-metas_of (c ∷ cs) =
      ap (λ ms. (record { digest = some (k.blake3 c); size = length c }) ∷ ms)
        (chunk_metas-metas_of cs)

  abbrev with_chunks : Bytes → List ChunkMeta → FileChunkMapping
  with_chunks bytes ms = record { file_digest = some (k.blake3 bytes); chunks = ms }

  mapping :
      (bytes : Bytes) (p : Bytes × List (Bytes × ℕ))
      → p ≡ pair_of k laws (exact digests) bytes
      → file_chunk_mapping p ≡ mapping_of k bytes
  unfolding file_chunk_mapping
  mapping bytes p same =
      ap file_chunk_mapping same ∙ ap (with_chunks bytes) (chunk_metas-metas_of (k.cdc bytes))

  listing :
      (es : List CaDirectoryEntry) (p : Bytes × List CaDirectoryEntry)
      → p ≡ (k.blake3 (k.encode es), es)
      → ca_directory_data p ≡ directory_data k es
  unfolding ca_directory_data
  listing es p same = ap ca_directory_data same

  missing_digest :
      (d : Bytes) (m : ChunkMeta) → m.digest ≡ some d → (chunk_download m).digest ≡ some d
  unfolding chunk_download
  missing_digest d m same = same

  chunk_response-IsSound :
      (w : TreeWalk) → Well k laws (exact digests) w → IsSound k (chunk_response w)
  unfolding chunk_response
  chunk_response-IsSound w well = (
    All-map _ _ file_chunk_mapping w.file_mappings
        (λ p (bytes, same). (bytes, mapping bytes p same)) well.mappings,
    All-map _ _ ca_directory_data w.directories (λ p (es, same). (es, listing es p same))
        well.directories,
  )

  All-IsSent :
      (w : TreeWalk) (cs : List Bytes)
      → All (IsCollected k laws (exact digests) w) cs
      → All (IsSent k digests (map chunk_download w.missing_chunks)) cs
  unfolding has_chunk
  All-IsSent w [] h = tt
  All-IsSent w (c ∷ cs) h = (
    elim h.0 [
      | inl there ↦ inl there
      | inr missing ↦
          inr (Any-map _ _ chunk_download w.missing_chunks (missing_digest (k.blake3 c)) missing)
    ],
    All-IsSent w cs h.1,
  )

  mutual
    unfolding Done Covers chunk_response

    covers :
        (w : TreeWalk) (node : NarNode)
        → Done k laws (exact digests) w node
        → Covers k (chunk_response w) digests node
    covers w (regular executable bytes) (mapped, collected) = (
      elim mapped [
        | inl empty ↦ inl empty
        | inr member ↦ inr (Any-map _ _ file_chunk_mapping w.file_mappings (mapping bytes) member)
      ],
      All-IsSent w (k.cdc bytes) collected,
    )
    covers w (directory es) (member, below) = (
      Any-map _ _ ca_directory_data w.directories (listing (entries_of k es)) member,
      covers_entries w es below,
    )
    covers w (symlink target) h = tt

    covers_entries :
        (w : TreeWalk) (es : Entries)
        → DoneEntries k laws (exact digests) w es
        → CoversEntries k (chunk_response w) digests es
    covers_entries w end h = tt
    covers_entries w (entry name node es) (here, rest) =
        (covers w node here, covers_entries w es rest)

module _ (k : Codecs) (laws : CodecLaws k) (s : CastoreBackend)
    (decode_node : Bytes → Option CaNode) (fuel : ℕ) where
  -- The wanted paths are recorded with the roots of trees that the store holds.
  abbrev pub AreHeld : List Bytes → List NarNode → Type 0
  AreHeld [] [] = Unit
  AreHeld [] (node ∷ nodes) = Empty
  AreHeld (hash ∷ hashes) [] = Empty
  AreHeld (hash ∷ hashes) (node ∷ nodes) =
      ((root_bytes : Bytes) × (find_cas_root hash s.cas_paths ≡ some root_bytes)
        × (decode_node root_bytes ≡ some (node_of k node)))
      × Held k s node
      × (depth node ≤ fuel)
      × AreHeld hashes nodes

  module _ (digests : List Bytes) where
    -- What a walk over the wanted paths ends with.
    abbrev Answers : TreeWalk → List NarNode → Option TreeWalk → Type 0
    Answers v nodes o =
        (w : TreeWalk) × (o ≡ some w)
        × Well k laws (exact digests) w
        × Keeps k laws (exact digests) v w
        × All (Done k laws (exact digests) w) nodes

    AllDone : TreeWalk → Type 0
    AllDone w =
        (es : Entries)
        → contains (digest_of k laws (exact digests) es) w.dir_seen ≡ true
        → Done k laws (exact digests) w (directory es)

    walk_wanted_next :
        (hash root_bytes : Bytes) (hashes : List Bytes) (root : CaNode) (v : TreeWalk)
        → find_cas_root hash s.cas_paths ≡ some root_bytes
        → decode_node root_bytes ≡ some root
        → walk_wanted k (exact digests) s decode_node fuel (hash ∷ hashes) v
          ≡ walk_wanted k
              (exact digests)
              s
              decode_node
              fuel
              hashes
              (walk_cas_node k (exact digests) s fuel root v)
    unfolding walk_wanted
    walk_wanted_next hash root_bytes hashes root v found decoded = ground (arith, found, decoded)

    walk_wanted-Answers :
        (hashes : List Bytes) (nodes : List NarNode) (v : TreeWalk)
        → AreHeld hashes nodes
        → Well k laws (exact digests) v
        → AllDone v
        → Answers v nodes (walk_wanted k (exact digests) s decode_node fuel hashes v)
    unfolding AllDone walk_wanted
    walk_wanted-Answers [] [] v held well done =
        (v, refl, well, Keeps-refl k laws (exact digests) v, tt)
    walk_wanted-Answers [] (node ∷ nodes) v held well done = elim held [ ]
    walk_wanted-Answers (hash ∷ hashes) [] v held well done = elim held [ ]
    walk_wanted-Answers (hash ∷ hashes) (node ∷ nodes) v
          ((root_bytes, found, decoded), held, enough, others) well done =
        let u = walk_cas_node k (exact digests) s fuel (node_of k node) v in
        let ((well', kept, old), finished) =
          walked k laws (exact digests) s node fuel v held enough well
            (λ es small seen. done es seen) in
        let (w, same, well'', kept', rest) =
          walk_wanted-Answers hashes nodes u others well' (λ es seen. elim (old es seen) [
            | inl before ↦
                Done-Keeps k laws (exact digests) v u (directory es) kept (done es before)
            | inr now ↦ now
          ]) in
        (
          w,
          walk_wanted_next hash root_bytes hashes (node_of k node) v found decoded ∙ same,
          well'',
          Keeps-trans k laws (exact digests) v u w kept kept',
          (Done-Keeps k laws (exact digests) u w node kept' finished, rest),
        )

    abbrev unwalked : TreeWalk
    unwalked = record {
      chunk_seen = [];
      missing_chunks = [];
      dir_seen = [];
      directories = [];
      file_seen = [];
      file_mappings = [];
    }

    unwalked-Well : Well k laws (exact digests) unwalked
    unfolding contains
    unwalked-Well = record {
      files = λ b seen. absurd (ground arith);
      chunks = λ d seen. absurd (ground arith);
      mappings = tt;
      directories = tt;
    }

    unwalked-AllDone : AllDone unwalked
    unfolding AllDone contains
    unwalked-AllDone es seen = absurd (ground arith)

    All-Covers :
        (w : TreeWalk) (nodes : List NarNode)
        → All (Done k laws (exact digests) w) nodes
        → All (Covers k (chunk_response w) digests) nodes
    All-Covers w [] h = tt
    All-Covers w (node ∷ nodes) h = (covers k laws digests w node h.0, All-Covers w nodes h.1)

    -- When the libraries keep their promises and the server holds the trees of the wanted paths, none
    -- with more levels than the fuel, the walk succeeds, its answer consists of the messages of files
    -- and directories, and covers each tree: every directory and every file with chunks has its
    -- message, and every chunk is in the client's exact list or among the missing.
    pub walk_cas_trees-Covers :
        (want_hashes : List Bytes) (nodes : List NarNode)
        → AreHeld want_hashes nodes
        → (w : TreeWalk) × (walk_cas_trees k (exact digests) s decode_node fuel want_hashes
            ≡ some w)
          × IsSound k (chunk_response w)
          × All (Covers k (chunk_response w) digests) nodes
    unfolding walk_cas_trees
    walk_cas_trees-Covers want_hashes nodes held =
        let (w, same, well, _, done) =
          walk_wanted-Answers want_hashes nodes unwalked held unwalked-Well unwalked-AllDone in
        (w, same, chunk_response-IsSound k laws digests w well, All-Covers w nodes done)

  -- When the libraries keep their promises, the server holds the trees of the wanted paths, none with
  -- more levels than the fuel, the client's store is valid, the server walks the trees with the exact
  -- list of the client's chunks, and no download of the answer's missing chunks fails, then the
  -- client's store, having taken in the answer and the downloads, gives for each wanted path the
  -- archive of its tree with the entries of every directory in order.
  pub write_nar_streaming-walk_cas_trees :
      (want_hashes : List Bytes) (nodes : List NarNode) (client : ChunkStore) (w : TreeWalk)
      (get_url : Bytes → Option Bytes) (results : List (Option (Bytes × Bytes)))
      → AreHeld want_hashes nodes
      → IsValid k client
      → walk_cas_trees k (exact (all_chunk_digests client)) s decode_node fuel want_hashes ≡ some w
      → AreResults k get_url (chunk_response w).missing_chunks results
      → (store_results results (index_response k (chunk_response w) client)).1 ≡ false
      → All
          (λ node.
            write_nar_streaming
              (chunk_store_reader k
                (store_results results (index_response k (chunk_response w) client)).0)
              fuel
              (node_of k node)
            ≡ some (write_nar (sort_node node)))
          nodes
  write_nar_streaming-walk_cas_trees want_hashes nodes client w get_url results held valid walk
        answered fine =
      let (v, same, sound, covers) =
        walk_cas_trees-Covers (all_chunk_digests client) want_hashes nodes held in
      let eq = walk_injective v w (sym same ∙ walk) in
      written want_hashes nodes held (subst (λ x. IsSound k (chunk_response x)) eq sound)
        (subst (λ x. All (Covers k (chunk_response x) (all_chunk_digests client)) nodes) eq covers)
    where
      walk_injective : (a b : TreeWalk) → some a ≡ some b → a ≡ b
      walk_injective a b h = cc

      written :
          (hashes : List Bytes) (nodes : List NarNode)
          → AreHeld hashes nodes
          → IsSound k (chunk_response w)
          → All (Covers k (chunk_response w) (all_chunk_digests client)) nodes
          → All
              (λ node.
                write_nar_streaming
                  (chunk_store_reader k
                    (store_results results (index_response k (chunk_response w) client)).0)
                  fuel
                  (node_of k node)
                ≡ some (write_nar (sort_node node)))
              nodes
      written [] [] held sound covers = tt
      written [] (node ∷ nodes) held sound covers = elim held [ ]
      written (hash ∷ hashes) [] held sound covers = tt
      written (hash ∷ hashes) (node ∷ nodes) (_, _, enough, others) sound covers = (
        write_nar_streaming-index_response k laws get_url (chunk_response w) results node client
            fuel valid sound covers.0 answered fine enough,
        written hashes nodes others sound covers.1,
      )
