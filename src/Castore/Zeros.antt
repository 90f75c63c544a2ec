-- ===== src/Castore/Zeros.antt =====
-- A concrete compressor for crates/ekapkgs-serve/src/storage/castore.rs, which makes data of zeros shorter,
-- and a chunk that is too large to be read back.
use ekapkgs_cli.Prelude.{
  ℕ, zero, suc, ◌*◌, ◌≤◌, ◌<◌, ◌≡◌, ◌∙◌, refl, inl, inr, Bool, true, ◌&&◌, Option, none, some, [],
  ◌∷◌, Bytes, length, length-replicate, replicate, ltb, leb, ◌==◌, Bool-cases, if◌then◌else◌, arith,
}
use ekapkgs_cli.Castore.{
  CastoreBackend, chunk_max, find_chunk, find_file, store_chunk, get_chunk_by_digest,
}
use ekapkgs_cli.Castore.Chunks.{get_chunk_by_digest-store_chunk}

all_zero : Bytes → Bool
all_zero [] = true
all_zero (b ∷ bs) = (b == 0) && all_zero bs

compress : Bytes → Bytes
compress x = if all_zero x then 0 ∷ length x ∷ [] else 1 ∷ x

-- The content, where it fits the capacity.
decompress : ℕ → Bytes → Option Bytes
decompress capacity (zero ∷ n ∷ bs) = if leb n capacity then some (replicate n 0) else none
decompress capacity (zero ∷ []) = none
decompress capacity (suc t ∷ bs) = if leb (length bs) capacity then some bs else none
decompress capacity [] = none

zeros : (x : Bytes) → all_zero x ≡ true → replicate (length x) 0 ≡ x
unfolding all_zero
zeros [] h = refl
zeros (b ∷ bs) h = ground (arith, zeros bs)

lossless :
    (capacity : ℕ) (x : Bytes) → length x ≤ capacity → decompress capacity (compress x) ≡ some x
unfolding compress decompress
lossless capacity x h = elim (Bool-cases (all_zero x)) [
  | inl empty ↦ ground (arith, zeros x empty)
  | inr mixed ↦ ground arith
]

refused : (capacity : ℕ) (x : Bytes) → capacity < length x → decompress capacity (compress x) ≡ none
unfolding compress decompress
refused capacity x h = elim (Bool-cases (all_zero x)) [
  | inl empty ↦ ground arith
  | inr mixed ↦ ground arith
]

blake3 : Bytes → Bytes
blake3 bytes = length bytes ∷ replicate 31 0

abbrev empty_store : CastoreBackend
empty_store = record {
  cas_paths = [];
  path_files = [];
  file_chunks = [];
  chunks = [];
  files = [];
  directories = [];
}

-- A mebibyte of zeros.
large : Bytes
large = replicate 1048576 0

get_chunk_by_digest-store_chunk_example :
    get_chunk_by_digest blake3 3 compress decompress
      (store_chunk blake3 3 compress decompress large empty_store).0
      (blake3 large)
    ≡ (if ltb (chunk_max * 2) (length large) && ltb (length (compress large)) (length large)
        then none
        else some (some large))
unfolding find_chunk find_file
get_chunk_by_digest-store_chunk_example =
    get_chunk_by_digest-store_chunk blake3 3 compress decompress lossless refused large empty_store
      refl refl

large_zero : (n : ℕ) → all_zero (replicate n 0) ≡ true
unfolding all_zero
large_zero zero = refl
large_zero (suc n) = large_zero n

shrunk :
    (x : Bytes)
    → all_zero x ≡ true
    → chunk_max * 2 < length x
    → (ltb (chunk_max * 2) (length x) && ltb (length (compress x)) (length x)) ≡ true
unfolding compress
shrunk x h size = ground arith

-- Zeros beyond the capacity are stored, and reading them is an error.
zeros_refused :
    (n : ℕ)
    → chunk_max * 2 < n
    → get_chunk_by_digest blake3 3 compress decompress
        (store_chunk blake3 3 compress decompress (replicate n 0) empty_store).0
        (blake3 (replicate n 0))
      ≡ none
unfolding find_chunk find_file
zeros_refused n h =
    get_chunk_by_digest-store_chunk blake3 3 compress decompress lossless refused (replicate n 0)
      empty_store refl refl
    ∙ rw (shrunk (replicate n 0) (large_zero n) (rw (length-replicate {A = ℕ} n 0) h)) refl
