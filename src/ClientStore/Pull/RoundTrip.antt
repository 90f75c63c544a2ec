-- ===== src/ClientStore/Pull/RoundTrip.antt =====
-- A pull as a whole: `cas_pull` of crates/ekapkgs/src/cas_pull.rs up to the archive that it writes.
use ekapkgs_cli.Prelude.{
  ℕ, if◌then◌else◌, ◌≤◌, ◌≡◌, ◌⊎◌, refl, sym, ap, subst, ◌∙◌, inl, inr, Bool, true, false, Option,
  none, some, List, [], ◌∷◌, Bytes, bytes_eq, bytes_eq→eq, contains, All, Any, arith,
}
use ekapkgs_cli.Nar.{NarNode, Entries, regular, directory, symlink, end, entry}
use ekapkgs_cli.Nar.Writer.{write_nar}
use ekapkgs_cli.Nar.Streaming.{CaDirectoryEntry, write_nar_streaming}
use ekapkgs_cli.Castore.{is_digest, find_file}
use ekapkgs_cli.Castore.Ingest.{Codecs, CodecLaws, find_directory, rows_from, depth, sort_node}
use ekapkgs_cli.Castore.Ingest.Provided.{
  node_of, entries_of, Provided, ProvidedEntries, write_nar_streaming-Provided,
}
use ekapkgs_cli.ClientStore.{
  ChunkStore, all_chunk_digests, get_chunk, load_directory, chunk_store_reader,
}
use ekapkgs_cli.ClientStore.Valid.{HasChunk, HasRows, IsValid, Grows, Grows-trans}
use ekapkgs_cli.ClientStore.Files.{read_file_data-HasRows}
use ekapkgs_cli.ClientStore.Pull.{
  FileChunkMapping, CaDirectoryData, ChunkDownload, ChunkNegotiateResponse, index_directories,
  index_response, store_results, download_chunk,
}
use ekapkgs_cli.ClientStore.Pull.Steps.{
  mapping_of, directory_data, Mapped, Listed, Arrived, IsGenuine, All-Any, Mapped-Grows,
  Listed-Grows, index_mappings-Grows, index_directories-Grows, store_results-Grows,
}

some_injective : (a b : Bytes) → some a ≡ some b → a ≡ b
some_injective a b h = ground arith

module _ (k : Codecs) where
  -- The messages of a response are those of files and of directories.
  abbrev pub IsSound : ChunkNegotiateResponse → Type 0
  IsSound response =
      All (λ m. (bytes : Bytes) × (m ≡ mapping_of k bytes)) response.file_chunk_mappings
      × All (λ m. (es : List CaDirectoryEntry) × (m ≡ directory_data k es)) response.directories

  -- A chunk is at hand or among those to be downloaded.
  abbrev pub IsSent : List Bytes → List ChunkDownload → Bytes → Type 0
  IsSent have missing c =
      (contains (k.blake3 c) have ≡ true)
      ⊎ Any (λ (d : ChunkDownload). d.digest ≡ some (k.blake3 c)) missing

  module _ (response : ChunkNegotiateResponse) (have : List Bytes) where
    -- All of a tree is at hand or in the response.
    unfoldable mutual
      pub Covers : NarNode → Type 0
      Covers (regular executable bytes) =
          ((k.cdc bytes ≡ []) ⊎ Any (λ m. m ≡ mapping_of k bytes) response.file_chunk_mappings)
          × All (IsSent have response.missing_chunks) (k.cdc bytes)
      Covers (directory entries) =
          Any (λ m. m ≡ directory_data k (entries_of k entries)) response.directories
          × CoversEntries entries
      Covers (symlink target) = Unit

      pub CoversEntries : Entries → Type 0
      CoversEntries end = Unit
      CoversEntries (entry name node es) = Covers node × CoversEntries es

  -- The results are those of the downloads, in any order.
  abbrev pub AreResults :
      (Bytes → Option Bytes) → List ChunkDownload → List (Option (Bytes × Bytes)) → Type 0
  AreResults get_url missing results =
      All (λ c. Any (λ r. r ≡ download_chunk k get_url c) results) missing
      × All (λ r. (c : ChunkDownload) × (r ≡ download_chunk k get_url c)) results

module _ (k : Codecs) (laws : CodecLaws k) (get_url : Bytes → Option Bytes) where
  abbrev Checked : ChunkDownload → Option (Bytes × Bytes) → Type 0
  Checked c none = Unit
  Checked c (some (d, x)) = (k.blake3 x ≡ d) × (c.digest ≡ some d)

  download_chunk-Checked : (c : ChunkDownload) → Checked c (download_chunk k get_url c)
  unfolding download_chunk
  download_chunk-Checked c = by_cases (get_url c.url) c.digest refl
    where
      checked :
          (bytes expected : Bytes) (same matching : Bool)
          → bytes_eq (k.blake3 bytes) expected ≡ same
          → c.digest ≡ some expected
          → Checked c (if same then (if matching then some (expected, bytes) else none) else none)
      checked bytes expected true true eq digest = (bytes_eq→eq _ _ eq, digest)
      checked bytes expected true false eq digest = tt
      checked bytes expected false matching eq digest = tt

      by_cases :
          (o : Option Bytes) (d : Option Bytes)
          → c.digest ≡ d
          → Checked c (elim o [
            | none ↦ none
            | some bytes ↦ elim d [
              | none ↦ none
              | some expected ↦
                  if bytes_eq (k.blake3 bytes) expected
                  then (if is_digest expected then some (expected, bytes) else none)
                  else none
            ]
          ])
      by_cases none d digest = tt
      by_cases (some bytes) none digest = tt
      by_cases (some bytes) (some expected) digest =
          checked bytes expected (bytes_eq (k.blake3 bytes) expected) (is_digest expected) refl
            digest

  genuine : (c : ChunkDownload) (r : Option (Bytes × Bytes)) → Checked c r → IsGenuine k r
  genuine c none h = tt
  genuine c (some (d, x)) h = h.0

  All-IsGenuine :
      (results : List (Option (Bytes × Bytes)))
      → All (λ r. (c : ChunkDownload) × (r ≡ download_chunk k get_url c)) results
      → All (IsGenuine k) results
  All-IsGenuine [] h = tt
  All-IsGenuine (r ∷ results) h =
      let (c, same) = h.0 in
      (
        subst (IsGenuine k) (sym same) (genuine c _ (download_chunk-Checked c)),
        All-IsGenuine results h.1,
      )

  module _ (t : ChunkStore) (results : List (Option (Bytes × Bytes)))
      (arrived : All (Arrived k t) results) where
    Arrived-chunk :
        (c : Bytes) (d : ChunkDownload) (r : Option (Bytes × Bytes))
        → Checked d r
        → Arrived k t r
        → d.digest ≡ some (k.blake3 c)
        → HasChunk k t c
    unfolding get_chunk
    Arrived-chunk c d none checked there digest = elim there [ ]
    Arrived-chunk c d (some (e, x)) checked there digest =
        let same : e ≡ k.blake3 c = some_injective e (k.blake3 c) (sym checked.1 ∙ digest) in
        let whole = laws.collision_free x c (checked.0 ∙ same) in
        subst (λ z. find_file z t.files ≡ some x) same there ∙ ap some whole

    downloaded :
        (c : Bytes) (missing : List ChunkDownload)
        → All (λ d. Any (λ r. r ≡ download_chunk k get_url d) results) missing
        → Any (λ (d : ChunkDownload). d.digest ≡ some (k.blake3 c)) missing
        → HasChunk k t c
    downloaded c [] answered member = elim member [ ]
    downloaded c (d ∷ missing) answered (inl here) =
        Arrived-chunk c d (download_chunk k get_url d) (download_chunk-Checked d)
          (All-Any (Arrived k t) results (download_chunk k get_url d) arrived answered.0) here
    downloaded c (d ∷ missing) answered (inr later) = downloaded c missing answered.1 later

  -- Every chunk that was at hand or sent is there.
  All-HasChunk :
      (have : List Bytes) (missing : List ChunkDownload) (t : ChunkStore) (cs : List Bytes)
      → ((c : Bytes) → contains (k.blake3 c) have ≡ true → HasChunk k t c)
      → ((c : Bytes)
          → Any (λ (d : ChunkDownload). d.digest ≡ some (k.blake3 c)) missing
          → HasChunk k t c)
      → All (IsSent k have missing) cs
      → All (HasChunk k t) cs
  All-HasChunk have missing t [] kept new h = tt
  All-HasChunk have missing t (c ∷ cs) kept new h = (
    elim h.0 [ inl old ↦ kept c old | inr sent ↦ new c sent ],
    All-HasChunk have missing t cs kept new h.1,
  )

  mapping_rows :
      (t : ChunkStore) (bytes : Bytes)
      → Mapped k t (mapping_of k bytes)
      → (k.cdc bytes ≡ []) ⊎ HasRows k t.file_chunks bytes
  mapping_rows t bytes (b, same, rows) =
      let eq =
        laws.collision_free bytes b (some_injective _ _ (ap FileChunkMapping.file_digest same)) in
      subst (λ z. (k.cdc z ≡ []) ⊎ HasRows k t.file_chunks z) (sym eq) rows

  Listed-directory :
      (t : ChunkStore) (es : List CaDirectoryEntry)
      → Listed k t (directory_data k es)
      → find_directory (k.blake3 (k.encode es)) t.directories ≡ some (k.encode es)
  Listed-directory t es (fs, same, found) =
      let digests = some_injective _ _ (ap CaDirectoryData.digest same) in
      let codes = laws.collision_free (k.encode es) (k.encode fs) digests in
      subst (λ z. find_directory (k.blake3 z) t.directories ≡ some z) (sym codes) found

  -- A file without chunks has no rows, and is empty.
  empty_rows :
      (t : ChunkStore) (bytes : Bytes)
      → IsValid k t
      → k.cdc bytes ≡ []
      → HasRows k t.file_chunks bytes
  unfolding rows_from
  empty_rows t bytes valid empty = elim (valid.file_valid (k.blake3 bytes)) [
    | inl none_there ↦ none_there ∙ sym (ap (rows_from k (k.blake3 bytes) 0) empty)
    | inr (b, same, rows) ↦ subst (HasRows k t.file_chunks) (laws.collision_free b bytes same) rows
  ]

  load_directory_found :
      (t : ChunkStore) (es : List CaDirectoryEntry)
      → find_directory (k.blake3 (k.encode es)) t.directories ≡ some (k.encode es)
      → load_directory k t (k.blake3 (k.encode es)) ≡ some es
  unfolding load_directory
  load_directory_found t es found = ground (arith, laws.decoded es)

  -- What the response covers is provided by a store that has taken it all in.
  module _ (response : ChunkNegotiateResponse) (have : List Bytes) (t : ChunkStore)
      (valid : IsValid k t) (mapped : All (Mapped k t) response.file_chunk_mappings)
      (listed : All (Listed k t) response.directories)
      (chunks : (cs : List Bytes)
        → All (IsSent k have response.missing_chunks) cs
        → All (HasChunk k t) cs) where
    mutual
      unfolding Covers Provided chunk_store_reader

      covered :
          (node : NarNode) → Covers k response have node → Provided k (chunk_store_reader k t) node
      covered (regular executable bytes) (rows, sent) =
          read_file_data-HasRows k laws t bytes
            (elim rows [
              | inl empty ↦ empty_rows t bytes valid empty
              | inr member ↦
                  elim (mapping_rows t bytes
                    (All-Any (Mapped k t) response.file_chunk_mappings _ mapped member)) [
                      | inl empty ↦ empty_rows t bytes valid empty
                      | inr there ↦ there
                    ]
            ])
            (chunks (k.cdc bytes) sent)
      covered (directory entries) (member, below) = (
        load_directory_found t (entries_of k entries) (
            Listed-directory t (entries_of k entries)
              (All-Any (Listed k t) response.directories _ listed member)),
        covered_entries entries below,
      )
      covered (symlink target) h = tt

      covered_entries :
          (entries : Entries)
          → CoversEntries k response have entries
          → ProvidedEntries k (chunk_store_reader k t) entries
      covered_entries end h = tt
      covered_entries (entry name node es) (here, rest) =
          (covered node here, covered_entries es rest)

  kept_chunk :
      {s t : ChunkStore}
      → IsValid k s
      → Grows k s t
      → (c : Bytes) → contains (k.blake3 c) (all_chunk_digests s) ≡ true
      → HasChunk k t c
  unfolding get_chunk
  kept_chunk {s} {t} valid grown c old =
      let (x, found) = valid.recorded (k.blake3 c) old in
      let whole = laws.collision_free x c (valid.chunk_valid (k.blake3 c) x found) in
      grown.chunks (k.blake3 c) x found ∙ ap some whole

  -- When the libraries keep their promises, the client's store is valid, the answer consists of the
  -- messages of files and directories and covers a tree with no more levels than the fuel, and no
  -- download of its missing chunks fails, then the client's store, having taken in the answer and the
  -- downloads, gives the archive of the tree with the entries of every directory in order.
  pub write_nar_streaming-index_response :
      (response : ChunkNegotiateResponse) (results : List (Option (Bytes × Bytes))) (node : NarNode)
      (s : ChunkStore) (fuel : ℕ)
      → IsValid k s
      → IsSound k response
      → Covers k response (all_chunk_digests s) node
      → AreResults k get_url response.missing_chunks results
      → (store_results results (index_response k response s)).1 ≡ false
      → depth node ≤ fuel
      → write_nar_streaming
          (chunk_store_reader k (store_results results (index_response k response s)).0)
          fuel
          (node_of k node)
        ≡ some (write_nar (sort_node node))
  unfolding index_response get_chunk
  write_nar_streaming-index_response response results node s fuel valid (mappings, directories)
        covers (answered, asked) fine enough =
      let (grown_a, listed) =
        index_directories-Grows k laws response.directories s valid directories in
      let (grown_b, mapped) =
        index_mappings-Grows k laws response.file_chunk_mappings
          (index_directories k response.directories s) grown_a.valid mappings in
      let (grown_c, arrive) =
        store_results-Grows k laws results (index_response k response s) grown_b.valid
          (All-IsGenuine results asked) in
      let t = (store_results results (index_response k response s)).0 in
      let grown = Grows-trans k _ _ _ grown_a (Grows-trans k _ _ _ grown_b grown_c) in
      let kept = kept_chunk valid grown in
      write_nar_streaming-Provided k laws (chunk_store_reader k t) node fuel
        (covered response (all_chunk_digests s) t grown_c.valid
          (Mapped-Grows k laws _ _ response.file_chunk_mappings grown_c mapped)
          (Listed-Grows k laws _ _ response.directories (Grows-trans k _ _ _ grown_b grown_c)
            listed)
          (λ cs sent.
            All-HasChunk (all_chunk_digests s) response.missing_chunks t cs kept
              (λ c member.
                downloaded t results (arrive fine) c response.missing_chunks answered member)
              sent)
          node covers)
        enough
