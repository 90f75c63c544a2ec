-- ===== src/Castore/Chunks.antt =====
-- `store_chunk` and `get_chunk_by_digest` of crates/ekapkgs-serve/src/storage/castore.rs.
use ekapkgs_cli.Prelude.{
  ℕ, ◌*◌, ◌≤◌, ◌<◌, ◌&&◌, ◌∙◌, refl, if◌then◌else◌, ◌≡◌, ◌⊎◌, inl, inr, true, false, Option, none,
  some, Bytes, bytes_eq_refl, length, ltb, Bool-cases, arith,
}
use ekapkgs_cli.Castore.{
  chunk_max, Chunk, CastoreBackend, find_chunk, find_file, insert_chunk_row, inline_threshold,
  write_chunk_file, store_chunk, read_chunk, get_chunk_by_digest,
}

-- zstd reads back what it has written, where that fits the capacity.
module _ (blake3 : Bytes → Bytes) (level : ℕ) (compress : Bytes → Bytes)
    (decompress : ℕ → Bytes → Option Bytes)
    (lossless : (capacity : ℕ) (x : Bytes)
      → length x ≤ capacity
      → decompress capacity (compress x) ≡ some x) where
  -- With a lossless compressor, a chunk of at most twice `chunk_max` bytes that had neither a row nor a
  -- file is read back as it was stored.
  pub get-fitting :
      (bytes : Bytes) (s : CastoreBackend)
      → length bytes ≤ chunk_max * 2
      → find_chunk (blake3 bytes) s.chunks ≡ none
      → find_file (blake3 bytes) s.files ≡ none
      → get_chunk_by_digest blake3 level compress decompress
          (store_chunk blake3 level compress decompress bytes s).0
          (blake3 bytes)
        ≡ some (some bytes)
  unfolding get_chunk_by_digest store_chunk write_chunk_file insert_chunk_row find_chunk find_file
      read_chunk
  get-fitting bytes s fits new_row new_file =
      elim (Bool-cases (ltb (length bytes) inline_threshold)) [
        | inl small ↦
            ground (arith, lossless (chunk_max * 2) bytes fits, bytes_eq_refl (blake3 bytes))
        | inr big ↦ elim (Bool-cases (ltb (length (compress bytes)) (length bytes))) [
          | inl shrinks ↦
              ground (arith, lossless (chunk_max * 2) bytes fits, bytes_eq_refl (blake3 bytes))
          | inr grows ↦
              ground (arith, lossless (chunk_max * 2) bytes fits, bytes_eq_refl (blake3 bytes))
        ]
      ]

  -- With a lossless compressor whose reader refuses what is larger than the capacity, a chunk that had
  -- neither a row nor a file is read back as it was stored, but for a chunk of more than twice
  -- CHUNK_MAX bytes that compression makes smaller, whose reading is an error.
  pub get_chunk_by_digest-store_chunk :
      ((capacity : ℕ) (x : Bytes) → capacity < length x → decompress capacity (compress x) ≡ none)
      → (bytes : Bytes) (s : CastoreBackend) → find_chunk (blake3 bytes) s.chunks ≡ none
      → find_file (blake3 bytes) s.files ≡ none
      → get_chunk_by_digest blake3 level compress decompress
          (store_chunk blake3 level compress decompress bytes s).0
          (blake3 bytes)
        ≡ (if ltb (chunk_max * 2) (length bytes) && ltb (length (compress bytes)) (length bytes)
            then none
            else some (some bytes))
  unfolding get_chunk_by_digest store_chunk write_chunk_file insert_chunk_row find_chunk find_file
      read_chunk
  get_chunk_by_digest-store_chunk refused bytes s new_row new_file =
      elim (Bool-cases (ltb (chunk_max * 2) (length bytes))) [
        | inr fits ↦ get-fitting bytes s (ground arith) new_row new_file ∙ rw fits refl
        | inl large ↦ elim (Bool-cases (ltb (length (compress bytes)) (length bytes))) [
          | inl shrinks ↦
              ground
                (arith, refused (chunk_max * 2) bytes (ground arith), bytes_eq_refl (blake3 bytes))
          | inr grows ↦ ground (arith, bytes_eq_refl (blake3 bytes))
        ]
      ]

  -- Storing a chunk that has a row, and is small or has a file, changes nothing.
  store_chunk_again :
      (bytes : Bytes) (s : CastoreBackend) (row : Chunk)
      → find_chunk (blake3 bytes) s.chunks ≡ some row
      → (ltb (length bytes) inline_threshold ≡ true)
        ⊎ ((content : Bytes) × (find_file (blake3 bytes) s.files ≡ some content))
      → store_chunk blake3 level compress decompress bytes s ≡ (s, blake3 bytes)
  unfolding store_chunk write_chunk_file insert_chunk_row
  store_chunk_again bytes s row found (inl small) = ground arith
  store_chunk_again bytes s row found (inr (content, stored)) =
      elim (Bool-cases (ltb (length bytes) inline_threshold)) [
        | inl small ↦ ground arith
        | inr big ↦ ground arith
      ]

  -- A large chunk whose compressed file has no row is stored without the mark of compression, and
  -- reading it gives the compressed bytes.
  pub store_chunk_orphan :
      (bytes : Bytes) (s : CastoreBackend)
      → find_chunk (blake3 bytes) s.chunks ≡ none
      → find_file (blake3 bytes) s.files ≡ some (compress bytes)
      → ltb (length bytes) inline_threshold ≡ false
      → get_chunk_by_digest blake3 level compress decompress
          (store_chunk blake3 level compress decompress bytes s).0
          (blake3 bytes)
        ≡ some (some (compress bytes))
  unfolding get_chunk_by_digest store_chunk write_chunk_file insert_chunk_row find_chunk find_file
      read_chunk
  store_chunk_orphan bytes s new_row orphan big = ground (arith, bytes_eq_refl (blake3 bytes))
