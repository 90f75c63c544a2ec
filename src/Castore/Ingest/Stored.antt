-- ===== src/Castore/Ingest/Stored.antt =====
-- `store_chunk` of crates/ekapkgs-serve/src/storage/castore.rs keeps the store valid.
use ekapkgs_cli.Prelude.{
  ◌≡◌, ◌≤◌, length, sym, ap, subst, ◌∙◌, inl, inr, false, some, List, [], ◌∷◌, Bytes, bytes_eq,
  bytes_eq→eq, All, Bool-cases, Option-cases, arith,
}
use ekapkgs_cli.Castore.{
  chunk_max, Chunk, ChunkFile, CastoreBackend, find_chunk, find_file, insert_chunk_row,
  write_chunk_file, store_chunk, read_chunk, get_chunk_by_digest,
}
use ekapkgs_cli.Castore.Chunks.{get-fitting}
use ekapkgs_cli.Castore.Ingest.{Codecs, CodecLaws}
use ekapkgs_cli.Castore.Ingest.Valid.{get, HasChunk, IsValid, Extends}

module _ (k : Codecs) (laws : CodecLaws k) where
  abbrev after : Bytes → CastoreBackend → CastoreBackend
  after x s = (store_chunk k.blake3 k.level k.compress k.decompress x s).0

  written_digest :
      (x : Bytes) (files : List ChunkFile)
      → (write_chunk_file k.blake3 k.level k.compress k.decompress x files).digest ≡ k.blake3 x
  unfolding write_chunk_file
  written_digest x files = ground arith

  find_chunk-other :
      (x d : Bytes) (s : CastoreBackend)
      → bytes_eq (k.blake3 x) d ≡ false
      → find_chunk d (after x s).chunks ≡ find_chunk d s.chunks
  unfolding store_chunk insert_chunk_row find_chunk
  find_chunk-other x d s h = ground (arith, written_digest x s.files)

  find_file-other :
      (x d : Bytes) (s : CastoreBackend)
      → bytes_eq (k.blake3 x) d ≡ false
      → find_file d (after x s).files ≡ find_file d s.files
  unfolding store_chunk write_chunk_file find_file
  find_file-other x d s h = ground arith

  get-other :
      (x d : Bytes) (s : CastoreBackend)
      → bytes_eq (k.blake3 x) d ≡ false
      → get k (after x s) d ≡ get k s d
  unfolding get_chunk_by_digest
  get-other x d s h = ground (arith, find_chunk-other x d s h, find_file-other x d s h)

  -- What can be read has a row.
  pub has_row :
      (s : CastoreBackend) (d x : Bytes)
      → get k s d ≡ some (some x)
      → (c : Chunk) × (find_chunk d s.chunks ≡ some c)
  unfolding get_chunk_by_digest
  has_row s d x h = elim (Option-cases (find_chunk d s.chunks)) [
    | inl missing ↦ absurd (ground arith)
    | inr found ↦ found
  ]

  -- A chunk that has a row reads as before, also when its file was missing.
  get-again :
      (x : Bytes) (s : CastoreBackend) (c : Chunk) (y : Bytes)
      → find_chunk (k.blake3 x) s.chunks ≡ some c
      → get k s (k.blake3 x) ≡ some (some y)
      → get k (after x s) (k.blake3 x) ≡ some (some y)
  unfolding get_chunk_by_digest store_chunk write_chunk_file insert_chunk_row read_chunk
  get-again x s c y found reads = elim (Option-cases c.inline_data) [
    | inl on_disk ↦ elim (Option-cases (find_file (k.blake3 x) s.files)) [
      | inl gone ↦ absurd (ground arith)
      | inr (content, there) ↦ ground arith
    ]
    | inr (i, inline) ↦ ground arith
  ]

  get-stored :
      (x : Bytes) (s : CastoreBackend)
      → length x ≤ chunk_max
      → IsValid k s
      → get k (after x s) (k.blake3 x) ≡ some (some x)
  get-stored x s size valid = elim (Option-cases (find_chunk (k.blake3 x) s.chunks)) [
    | inl new_row ↦ elim (Option-cases (find_file (k.blake3 x) s.files)) [
      | inl new_file ↦
          get-fitting k.blake3 k.level k.compress k.decompress laws.lossless x s (omega arith)
            new_row new_file
      | inr (content, there) ↦
          let (c, row) = valid.no_orphan (k.blake3 x) content there in absurd (ground arith)
    ]
    | inr (c, found) ↦
        let (y, reads, same) = valid.chunk_valid (k.blake3 x) c found in
        get-again x s c x found (reads ∙ ap (λ z. some (some z)) (laws.collision_free y x same))
  ]

  pub HasChunk-stored :
      (x : Bytes) (s : CastoreBackend)
      → length x ≤ chunk_max
      → IsValid k s
      → HasChunk k (after x s) x
  HasChunk-stored x s size valid = has_row (after x s) (k.blake3 x) x (get-stored x s size valid)

  HasChunk-kept :
      (x y : Bytes) (s : CastoreBackend)
      → length x ≤ chunk_max
      → IsValid k s
      → HasChunk k s y
      → HasChunk k (after x s) y
  HasChunk-kept x y s size valid (c, row) = elim (Bool-cases (bytes_eq (k.blake3 x) (k.blake3 y))) [
    | inl same ↦
        subst (λ d. (c : Chunk) × (find_chunk d (after x s).chunks ≡ some c)) (bytes_eq→eq _ _ same)
          (HasChunk-stored x s size valid)
    | inr other ↦ (c, find_chunk-other x (k.blake3 y) s other ∙ row)
  ]

  pub All-HasChunk :
      (s t : CastoreBackend) (cs : List Bytes)
      → ((x : Bytes) → HasChunk k s x → HasChunk k t x)
      → All (HasChunk k s) cs
      → All (HasChunk k t) cs
  All-HasChunk s t [] f h = tt
  All-HasChunk s t (c ∷ cs) f h = (f c h.0, All-HasChunk s t cs f h.1)

  pub store_chunk-IsValid :
      (x : Bytes) (s : CastoreBackend) → length x ≤ chunk_max → IsValid k s → IsValid k (after x s)
  unfolding store_chunk
  store_chunk-IsValid x s size valid = record {
    chunk_valid = λ d c found. elim (Bool-cases (bytes_eq (k.blake3 x) d)) [
      | inl same ↦
          let eq = bytes_eq→eq (k.blake3 x) d same in
          (x, subst (λ e. get k (after x s) e ≡ some (some x)) eq (get-stored x s size valid), eq)
      | inr other ↦
          let (y, reads, digest) =
            valid.chunk_valid d c (sym (find_chunk-other x d s other) ∙ found) in
          (y, get-other x d s other ∙ reads, digest)
    ];
    no_orphan = λ d content there. elim (Bool-cases (bytes_eq (k.blake3 x) d)) [
      | inl same ↦
          subst (λ e. (c : Chunk) × (find_chunk e (after x s).chunks ≡ some c))
            (bytes_eq→eq (k.blake3 x) d same) (HasChunk-stored x s size valid)
      | inr other ↦
          let (c, row) = valid.no_orphan d content (sym (find_file-other x d s other) ∙ there) in
          (c, find_chunk-other x d s other ∙ row)
    ];
    file_valid = λ f. elim (valid.file_valid f) [
      | inl empty ↦ inl empty
      | inr (bytes, digest, rows, present) ↦ inr (
        bytes,
        digest,
        rows,
        All-HasChunk s (after x s) (k.cdc bytes) (λ y. HasChunk-kept x y s size valid) present,
      )
    ];
    directory_valid = valid.directory_valid;
  }

  pub store_chunk-Extends :
      (x : Bytes) (s : CastoreBackend)
      → length x ≤ chunk_max
      → IsValid k s
      → Extends k s (after x s)
  unfolding store_chunk
  store_chunk-Extends x s size valid = record {
    chunks = λ y. HasChunk-kept x y s size valid;
    files = λ bytes rows. rows;
    directories = λ d e found. found;
  }
