-- ===== src/ClientStore/Pull/Steps.antt =====
-- The steps of a pull, crates/ekapkgs/src/cas_pull.rs, on a valid store of the client: what each leaves.
use ekapkgs_cli.Prelude.{
  ◌≡◌, ◌⊎◌, refl, sym, ap, subst, ◌∙◌, inl, inr, false, Option, none, some, List, [], ◌∷◌, Bytes,
  length, All, Any, Empty, arith,
}
use ekapkgs_cli.Nar.Streaming.{CaDirectoryEntry}
use ekapkgs_cli.Castore.{find_file}
use ekapkgs_cli.Castore.Ingest.{Codecs, CodecLaws, find_directory}
use ekapkgs_cli.Castore.Ingest.Decompose.{chunk_metas}
use ekapkgs_cli.ClientStore.{ChunkStore, get_chunk, store_chunk, store_directory, store_file_chunks}
use ekapkgs_cli.ClientStore.Valid.{
  HasRows, IsValid, Grows, Grows-refl, Grows-trans, store_chunk-Grows, store_directory-Grows,
}
use ekapkgs_cli.ClientStore.Files.{mapped-Grows}
use ekapkgs_cli.ClientStore.Pull.{
  ChunkMeta, FileChunkMapping, CaDirectoryData, usable_chunks, index_mapping, index_mappings,
  store_results, index_directory, index_directories,
}

pub All-Any {ℓ} :
    {A : Type ℓ} (P : A → Type 0) (xs : List A) (v : A) → All P xs → Any (λ x. x ≡ v) xs → P v
All-Any P [] v h member = elim member [ ]
All-Any P (x ∷ xs) v h (inl here) = subst P here h.0
All-Any P (x ∷ xs) v h (inr later) = All-Any P xs v h.1 later

module _ (k : Codecs) where
  abbrev pub metas_of : List Bytes → List ChunkMeta
  metas_of [] = []
  metas_of (c ∷ cs) = (record { digest = some (k.blake3 c); size = length c }) ∷ metas_of cs

  -- The messages of a file and of a directory.
  abbrev pub mapping_of : Bytes → FileChunkMapping
  mapping_of bytes = record { file_digest = some (k.blake3 bytes); chunks = metas_of (k.cdc bytes) }

  abbrev pub directory_data : List CaDirectoryEntry → CaDirectoryData
  directory_data es = record { digest = some (k.blake3 (k.encode es)); directory = some es }

  -- What each message leaves in the store.
  abbrev pub Mapped : ChunkStore → FileChunkMapping → Type 0
  Mapped t m =
      (bytes : Bytes) × (m ≡ mapping_of bytes)
      × ((k.cdc bytes ≡ []) ⊎ HasRows k t.file_chunks bytes)

  abbrev pub Listed : ChunkStore → CaDirectoryData → Type 0
  Listed t m =
      (es : List CaDirectoryEntry) × (m ≡ directory_data es)
      × (find_directory (k.blake3 (k.encode es)) t.directories ≡ some (k.encode es))

  abbrev pub Arrived : ChunkStore → Option (Bytes × Bytes) → Type 0
  Arrived t none = Empty
  Arrived t (some (d, x)) = find_file d t.files ≡ some x

  -- A result is a failure, or data with its digest.
  abbrev pub IsGenuine : Option (Bytes × Bytes) → Type 0
  IsGenuine none = Unit
  IsGenuine (some (d, x)) = k.blake3 x ≡ d

module _ (k : Codecs) (laws : CodecLaws k) where
  usable_chunks-metas_of : (cs : List Bytes) → usable_chunks (metas_of k cs) ≡ chunk_metas k cs
  unfolding usable_chunks chunk_metas
  usable_chunks-metas_of [] = refl
  usable_chunks-metas_of (c ∷ cs) = ground (arith, laws.digest_length c, usable_chunks-metas_of cs)

  index_mapping_of :
      (bytes : Bytes) (s : ChunkStore)
      → ((k.cdc bytes ≡ []) × (index_mapping (mapping_of k bytes) s ≡ s))
        ⊎ (index_mapping (mapping_of k bytes) s
            ≡ store_file_chunks (k.blake3 bytes) (chunk_metas k (k.cdc bytes)) s)
  unfolding index_mapping chunk_metas usable_chunks
  index_mapping_of bytes s = by_chunks (k.cdc bytes) refl
    where
      by_chunks :
          (cs : List Bytes)
          → k.cdc bytes ≡ cs
          → ((k.cdc bytes ≡ []) × (index_mapping (mapping_of k bytes) s ≡ s))
            ⊎ (index_mapping (mapping_of k bytes) s
                ≡ store_file_chunks (k.blake3 bytes) (chunk_metas k (k.cdc bytes)) s)
      by_chunks [] eq =
          inl (eq, ground (arith, laws.digest_length bytes, usable_chunks-metas_of (k.cdc bytes)))
      by_chunks (c ∷ cs) eq =
          inr (ground (arith, laws.digest_length bytes, usable_chunks-metas_of (k.cdc bytes)))

  index_mapping-Grows :
      (bytes : Bytes) (s : ChunkStore)
      → IsValid k s
      → Grows k s (index_mapping (mapping_of k bytes) s)
        × ((k.cdc bytes ≡ []) ⊎ HasRows k (index_mapping (mapping_of k bytes) s).file_chunks bytes)
  index_mapping-Grows bytes s valid = elim (index_mapping_of bytes s) [
    | inl (empty, same) ↦ (subst (Grows k s) (sym same) (Grows-refl k s valid), inl empty)
    | inr stored ↦
        let (grown, rows) = mapped-Grows k laws bytes s valid in
        (
          subst (Grows k s) (sym stored) grown,
          inr (subst (λ (t : ChunkStore). HasRows k t.file_chunks bytes) (sym stored) rows),
        )
  ]

  -- What is mapped, listed or has arrived stays so.
  pub Mapped-Grows :
      (s t : ChunkStore) (ms : List FileChunkMapping)
      → Grows k s t
      → All (Mapped k s) ms
      → All (Mapped k t) ms
  Mapped-Grows s t [] grown h = tt
  Mapped-Grows s t (m ∷ ms) grown h =
      let (bytes, same, rows) = h.0 in
      (
        (
          bytes,
          same,
          elim rows [ inl empty ↦ inl empty | inr there ↦ inr (grown.rows bytes there) ],
        ),
        Mapped-Grows s t ms grown h.1,
      )

  pub Listed-Grows :
      (s t : ChunkStore) (ms : List CaDirectoryData)
      → Grows k s t
      → All (Listed k s) ms
      → All (Listed k t) ms
  Listed-Grows s t [] grown h = tt
  Listed-Grows s t (m ∷ ms) grown h =
      let (es, same, found) = h.0 in
      ((es, same, grown.directories _ _ found), Listed-Grows s t ms grown h.1)

  pub index_mappings-Grows :
      (ms : List FileChunkMapping) (s : ChunkStore)
      → IsValid k s
      → All (λ m. (bytes : Bytes) × (m ≡ mapping_of k bytes)) ms
      → Grows k s (index_mappings ms s) × All (Mapped k (index_mappings ms s)) ms
  unfolding index_mappings
  index_mappings-Grows [] s valid genuine = (Grows-refl k s valid, tt)
  index_mappings-Grows (m ∷ ms) s valid genuine =
      let (bytes, same) = genuine.0 in
      let (grown, rows) =
        subst
          (λ m'.
            Grows k s (index_mapping m' s)
            × ((k.cdc bytes ≡ []) ⊎ HasRows k (index_mapping m' s).file_chunks bytes))
          (sym same) (index_mapping-Grows bytes s valid) in
      let (grown', rest) = index_mappings-Grows ms (index_mapping m s) grown.valid genuine.1 in
      (
        Grows-trans k _ _ _ grown grown',
        (
          (
            bytes,
            same,
            elim rows [ inl empty ↦ inl empty | inr there ↦ inr (grown'.rows bytes there) ],
          ),
          rest,
        ),
      )

  index_directory_of :
      (es : List CaDirectoryEntry) (s : ChunkStore)
      → index_directory k (directory_data k es) s
        ≡ store_directory (k.blake3 (k.encode es)) (k.encode es) s
  unfolding index_directory
  index_directory_of es s = ground (arith, laws.digest_length (k.encode es))

  pub index_directories-Grows :
      (ms : List CaDirectoryData) (s : ChunkStore)
      → IsValid k s
      → All (λ m. (es : List CaDirectoryEntry) × (m ≡ directory_data k es)) ms
      → Grows k s (index_directories k ms s) × All (Listed k (index_directories k ms s)) ms
  unfolding index_directories
  index_directories-Grows [] s valid genuine = (Grows-refl k s valid, tt)
  index_directories-Grows (m ∷ ms) s valid genuine =
      let (es, same) = genuine.0 in
      let (grown, found) =
        subst
          (λ t.
            Grows k s t
            × (find_directory (k.blake3 (k.encode es)) (ChunkStore.directories t)
                ≡ some (k.encode es)))
          (sym (ap (λ m'. index_directory k m' s) same ∙ index_directory_of es s))
          (store_directory-Grows k laws (k.encode es) s valid) in
      let (grown', rest) =
        index_directories-Grows ms (index_directory k m s) grown.valid genuine.1 in
      (Grows-trans k _ _ _ grown grown', ((es, same, grown'.directories _ _ found), rest))

  -- Where no download failed, all have arrived.
  pub store_results-Grows :
      (results : List (Option (Bytes × Bytes))) (s : ChunkStore)
      → IsValid k s
      → All (IsGenuine k) results
      → Grows k s (store_results results s).0
        × ((store_results results s).1 ≡ false
            → All (Arrived k (store_results results s).0) results)
  unfolding store_results get_chunk
  store_results-Grows [] s valid genuine = (Grows-refl k s valid, λ _. tt)
  store_results-Grows (none ∷ results) s valid genuine = (
    let (grown, _) = store_results-Grows results s valid genuine.1 in grown,
    λ failed. absurd (ground arith),
  )
  store_results-Grows (some (d, x) ∷ results) s valid genuine =
      let (grown, there) =
        subst
          (λ e. Grows k s (store_chunk e x s) × (find_file e (store_chunk e x s).files ≡ some x))
          genuine.0 (store_chunk-Grows k laws x s valid) in
      let (grown', rest) = store_results-Grows results (store_chunk d x s) grown.valid genuine.1 in
      (Grows-trans k _ _ _ grown grown', λ fine. (grown'.chunks d x there, rest fine))
