-- ===== src/ClientStore/Valid.antt =====
-- What every operation of the client's chunk store, crates/ekapkgs/src/chunk_store.rs, keeps.
use ekapkgs_cli.Prelude.{
  ◌≡◌, ◌⊎◌, sym, ap, subst, ◌∙◌, inl, inr, true, false, some, List, [], Bytes, bytes_eq,
  bytes_eq→eq, bytes_eq_refl, contains, retain, Bool-cases, Option-cases, arith,
}
use ekapkgs_cli.Castore.{FileChunk, find_file, chunks_of}
use ekapkgs_cli.Castore.Ingest.{Codecs, CodecLaws, find_directory, rows_from}
use ekapkgs_cli.ClientStore.{
  ChunkStore, find_size, all_chunk_digests, store_chunk, get_chunk, store_directory,
}

module _ (k : Codecs) where
  abbrev pub HasChunk : ChunkStore → Bytes → Type 0
  HasChunk s x = get_chunk (k.blake3 x) s ≡ some x

  abbrev pub HasRows : List FileChunk → Bytes → Type 0
  HasRows rows bytes =
      chunks_of (k.blake3 bytes) rows ≡ rows_from k (k.blake3 bytes) 0 (k.cdc bytes)

  -- A chunk file and a directory are what their digest says; a recorded chunk has a file; a file has no row, or those of its chunks.
  pub record IsValid (s : ChunkStore) : Type 0 where
    pub chunk_valid : (d x : Bytes) → find_file d s.files ≡ some x → k.blake3 x ≡ d
    pub recorded :
        (d : Bytes)
        → contains d (all_chunk_digests s) ≡ true
        → (x : Bytes) × (find_file d s.files ≡ some x)
    pub file_valid :
        (f : Bytes)
        → (chunks_of f s.file_chunks ≡ [])
          ⊎ ((bytes : Bytes) × (k.blake3 bytes ≡ f) × HasRows s.file_chunks bytes)
    pub directory_valid : (d e : Bytes) → find_directory d s.directories ≡ some e → k.blake3 e ≡ d

  -- A later store is valid and still has what was there.
  pub record Grows (s t : ChunkStore) : Type 0 where
    pub valid : IsValid t
    pub chunks : (d x : Bytes) → find_file d s.files ≡ some x → find_file d t.files ≡ some x
    pub rows : (bytes : Bytes) → HasRows s.file_chunks bytes → HasRows t.file_chunks bytes
    pub directories :
        (d e : Bytes)
        → find_directory d s.directories ≡ some e
        → find_directory d t.directories ≡ some e

  pub Grows-refl : (s : ChunkStore) → IsValid s → Grows s s
  Grows-refl s valid = record {
    valid = valid;
    chunks = λ d x h. h;
    rows = λ b h. h;
    directories = λ d e h. h;
  }

  pub Grows-trans : (s t u : ChunkStore) → Grows s t → Grows t u → Grows s u
  Grows-trans s t u f g = record {
    valid = g.valid;
    chunks = λ d x h. g.chunks d x (f.chunks d x h);
    rows = λ b h. g.rows b (f.rows b h);
    directories = λ d e h. g.directories d e (f.directories d e h);
  }

bytes_eq_symm : (a b : Bytes) → bytes_eq a b ≡ bytes_eq b a
bytes_eq_symm a b = elim (Bool-cases (bytes_eq a b)) [
  | inl same ↦
      let eq = bytes_eq→eq a b same in same ∙ sym (ap (λ x. bytes_eq b x) eq ∙ bytes_eq_refl b)
  | inr other ↦ elim (Bool-cases (bytes_eq b a)) [
    | inl same ↦ let eq = bytes_eq→eq b a same in absurd (ground (arith, bytes_eq_refl a))
    | inr differ ↦ other ∙ sym differ
  ]
]

some_injective : (a b : Bytes) → some a ≡ some b → a ≡ b
some_injective a b h = ground arith

module _ (k : Codecs) (laws : CodecLaws k) where
  -- `store_chunk`, of data with the digest.
  find-store_chunk :
      (x : Bytes) (s : ChunkStore)
      → IsValid k s
      → find_file (k.blake3 x) (store_chunk (k.blake3 x) x s).files ≡ some x
  unfolding store_chunk find_file
  find-store_chunk x s valid = elim (Option-cases (find_file (k.blake3 x) s.files)) [
    | inl new ↦ ground (arith, bytes_eq_refl (k.blake3 x))
    | inr (old, found) ↦
        let same = laws.collision_free old x (valid.chunk_valid (k.blake3 x) old found) in
        ground arith
  ]

  find-store_chunk_other :
      (d x e : Bytes) (s : ChunkStore)
      → bytes_eq d e ≡ false
      → find_file e (store_chunk d x s).files ≡ find_file e s.files
  unfolding store_chunk find_file
  find-store_chunk_other d x e s other = ground arith

  store_chunk_tables :
      (d x : Bytes) (s : ChunkStore)
      → ((store_chunk d x s).file_chunks ≡ s.file_chunks)
        × ((store_chunk d x s).directories ≡ s.directories)
  unfolding store_chunk
  store_chunk_tables d x s = (ground arith, ground arith)

  recorded-store_chunk :
      (x d : Bytes) (s : ChunkStore)
      → bytes_eq (k.blake3 x) d ≡ false
      → contains d (all_chunk_digests (store_chunk (k.blake3 x) x s)) ≡ true
      → contains d (all_chunk_digests s) ≡ true
  unfolding store_chunk all_chunk_digests retain contains
  recorded-store_chunk x d s other found = elim (Option-cases (find_file (k.blake3 x) s.files)) [
    | inr (old, have) ↦ ground arith
    | inl new ↦ elim (Option-cases (find_size (k.blake3 x) s.chunks)) [
      | inr (size, row) ↦ ground arith
      | inl fresh ↦ ground (arith, laws.digest_length x, bytes_eq_symm (k.blake3 x) d)
    ]
  ]

  pub store_chunk-Grows :
      (x : Bytes) (s : ChunkStore)
      → IsValid k s
      → Grows k s (store_chunk (k.blake3 x) x s) × HasChunk k (store_chunk (k.blake3 x) x s) x
  unfolding get_chunk
  store_chunk-Grows x s valid =
      let stored = find-store_chunk x s valid in
      let (rows, directories) = store_chunk_tables (k.blake3 x) x s in
      (
        record {
          valid = record {
            chunk_valid = λ d y found. elim (Bool-cases (bytes_eq (k.blake3 x) d)) [
              | inl same ↦
                  let eq = bytes_eq→eq (k.blake3 x) d same in
                  let here =
                    subst (λ z. find_file z (store_chunk (k.blake3 x) x s).files ≡ some x) eq
                      stored in
                  ap k.blake3 (some_injective y x (sym found ∙ here)) ∙ eq
              | inr other ↦
                  valid.chunk_valid d y
                    (sym (find-store_chunk_other (k.blake3 x) x d s other) ∙ found)
            ];
            recorded = λ d found. elim (Bool-cases (bytes_eq (k.blake3 x) d)) [
              | inl same ↦ (
                x,
                subst (λ z. find_file z (store_chunk (k.blake3 x) x s).files ≡ some x)
                    (bytes_eq→eq (k.blake3 x) d same) stored,
              )
              | inr other ↦
                  let (y, old) = valid.recorded d (recorded-store_chunk x d s other found) in
                  (y, find-store_chunk_other (k.blake3 x) x d s other ∙ old)
            ];
            file_valid = λ f.
                subst
                  (λ table.
                    (chunks_of f table ≡ [])
                    ⊎ ((bytes : Bytes) × (k.blake3 bytes ≡ f) × HasRows k table bytes))
                  (sym rows) (valid.file_valid f);
            directory_valid = λ d e found.
                valid.directory_valid d e (ap (find_directory d) (sym directories) ∙ found);
          };
          chunks = λ d y found. elim (Bool-cases (bytes_eq (k.blake3 x) d)) [
            | inl same ↦
                let eq = bytes_eq→eq (k.blake3 x) d same in
                let kept = laws.collision_free y x (valid.chunk_valid d y found ∙ sym eq) in
                subst (λ z. find_file z (store_chunk (k.blake3 x) x s).files ≡ some x) eq stored
                ∙ ap some (sym kept)
            | inr other ↦ find-store_chunk_other (k.blake3 x) x d s other ∙ found
          ];
          rows = λ b h. subst (λ table. HasRows k table b) (sym rows) h;
          directories = λ d e h. ap (find_directory d) directories ∙ h;
        },
        stored,
      )

  -- `store_directory`, of an encoding with the digest.
  find-store_directory :
      (e : Bytes) (s : ChunkStore)
      → IsValid k s
      → find_directory (k.blake3 e) (store_directory (k.blake3 e) e s).directories ≡ some e
  unfolding store_directory find_directory
  find-store_directory e s valid = elim (Option-cases (find_directory (k.blake3 e) s.directories)) [
    | inl new ↦ ground (arith, bytes_eq_refl (k.blake3 e))
    | inr (old, found) ↦
        let same = laws.collision_free old e (valid.directory_valid (k.blake3 e) old found) in
        ground arith
  ]

  find-store_directory_other :
      (d e g : Bytes) (s : ChunkStore)
      → bytes_eq d g ≡ false
      → find_directory g (store_directory d e s).directories ≡ find_directory g s.directories
  unfolding store_directory find_directory
  find-store_directory_other d e g s other = ground arith

  pub store_directory-Grows :
      (e : Bytes) (s : ChunkStore)
      → IsValid k s
      → Grows k s (store_directory (k.blake3 e) e s)
        × (find_directory (k.blake3 e) (store_directory (k.blake3 e) e s).directories ≡ some e)
  unfolding store_directory all_chunk_digests
  store_directory-Grows e s valid =
      let stored = find-store_directory e s valid in
      (
        record {
          valid = record {
            chunk_valid = valid.chunk_valid;
            recorded = valid.recorded;
            file_valid = valid.file_valid;
            directory_valid = λ d g found. elim (Bool-cases (bytes_eq (k.blake3 e) d)) [
              | inl same ↦
                  let eq = bytes_eq→eq (k.blake3 e) d same in
                  let here =
                    subst
                      (λ z.
                        find_directory z (store_directory (k.blake3 e) e s).directories ≡ some e)
                      eq stored in
                  ap k.blake3 (some_injective g e (sym found ∙ here)) ∙ eq
              | inr other ↦
                  valid.directory_valid d g
                    (sym (find-store_directory_other (k.blake3 e) e d s other) ∙ found)
            ];
          };
          chunks = λ d x h. h;
          rows = λ b h. h;
          directories = λ d g found. elim (Bool-cases (bytes_eq (k.blake3 e) d)) [
            | inl same ↦
                let eq = bytes_eq→eq (k.blake3 e) d same in
                let kept = laws.collision_free g e (valid.directory_valid d g found ∙ sym eq) in
                subst
                  (λ z. find_directory z (store_directory (k.blake3 e) e s).directories ≡ some e) eq
                  stored
                ∙ ap some (sym kept)
            | inr other ↦ find-store_directory_other (k.blake3 e) e d s other ∙ found
          ];
        },
        stored,
      )
