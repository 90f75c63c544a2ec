-- ===== src/Castore/Reclaim.antt =====
-- `evict_path` of crates/ekapkgs-serve/src/storage/castore.rs: the bytes that it reports.
use ekapkgs_cli.Prelude.{
  ℕ, ◌+◌, ◌≡◌, refl, sym, ◌∙◌, inl, inr, false, not, none, some, List, [], ◌∷◌, Bytes, bytes_eq,
  bytes_eq→eq, bytes_eq_refl, contains, any, retain, map, length, ◌==◌, AllDistinct, Bool-cases,
  arith,
}
use ekapkgs_cli.Castore.{
  FileChunk, Chunk, CastoreBackend, Freed, find_chunk, total_size, total_chunk_bytes, owned_files,
  release_files, delete_chunk, release_chunks, delete_path, evict_path,
}

-- `digest` is the key of the table `chunks`.
abbrev pub digests : List Chunk → List Bytes
digests cs = map Chunk.digest cs

-- The size of a chunk, 0 for one that is not there.
size_of : Bytes → List Chunk → ℕ
size_of d cs = elim (find_chunk d cs) [ none ↦ 0 | some c ↦ c.size ]

without : Bytes → List Chunk → List Chunk
without d = retain (λ (c : Chunk). not (bytes_eq c.digest d))

absent :
    (d : Bytes) (cs : List Chunk)
    → contains d (digests cs) ≡ false
    → (total_size (without d cs) ≡ total_size cs) × (size_of d cs ≡ 0)
unfolding total_size without retain contains size_of find_chunk
absent d [] h = (refl, refl)
absent d (c ∷ cs) h = elim (Bool-cases (bytes_eq c.digest d)) [
  | inl e ↦ let same = bytes_eq→eq c.digest d e in absurd (ground (arith, same, bytes_eq_refl d))
  | inr n ↦
      let rest = absent d cs (ground arith) in (ground (arith, rest.0), ground (arith, rest.1))
]

total_size-without :
    (d : Bytes) (cs : List Chunk)
    → AllDistinct (digests cs)
    → total_size (without d cs) + size_of d cs ≡ total_size cs
unfolding total_size without retain contains size_of find_chunk
total_size-without d [] h = refl
total_size-without d (c ∷ cs) h = elim (Bool-cases (bytes_eq c.digest d)) [
  | inl e ↦
      let same = bytes_eq→eq c.digest d e in
      let gone = absent d cs (rw (sym same) h.0) in ground (arith, gone.0)
  | inr n ↦ ground (arith, total_size-without d cs h.1)
]

contains-without :
    (x d : Bytes) (cs : List Chunk)
    → contains x (digests cs) ≡ false
    → contains x (digests (without d cs)) ≡ false
unfolding without retain contains
contains-without x d [] h = refl
contains-without x d (c ∷ cs) h = ground (arith, contains-without x d cs)

without-AllDistinct :
    (d : Bytes) (cs : List Chunk) → AllDistinct (digests cs) → AllDistinct (digests (without d cs))
unfolding without retain
without-AllDistinct d [] h = tt
without-AllDistinct d (c ∷ cs) h = elim (Bool-cases (bytes_eq c.digest d)) [
  | inl e ↦ rw e (without-AllDistinct d cs h.1)
  | inr n ↦ rw n (contains-without c.digest d cs h.0, without-AllDistinct d cs h.1)
]

delete_chunk-total :
    (d : Bytes) (f : Freed)
    → AllDistinct (digests f.chunks)
    → total_size (delete_chunk d f).chunks + (delete_chunk d f).bytes_freed
      ≡ total_size f.chunks + f.bytes_freed
unfolding delete_chunk without size_of
delete_chunk-total d f h = ground (arith, total_size-without d f.chunks h)

release_chunks-total :
    (ds : List Bytes) (rows : List FileChunk) (f : Freed)
    → AllDistinct (digests f.chunks)
    → total_size (release_chunks ds rows f).chunks + (release_chunks ds rows f).bytes_freed
      ≡ total_size f.chunks + f.bytes_freed
unfolding release_chunks delete_chunk without
release_chunks-total [] rows f h = refl
release_chunks-total (d ∷ ds) rows f h =
    elim (Bool-cases (any (λ (r : FileChunk). bytes_eq r.chunk_digest d) rows)) [
      | inl kept ↦ rw kept (release_chunks-total ds rows f h)
      | inr gone ↦ rw gone (
          release_chunks-total ds rows (delete_chunk d f) (without-AllDistinct d f.chunks h)
          ∙ delete_chunk-total d f h)
    ]

-- With digest a key of the chunks, the bytes that an eviction reports are those that the store loses.
pub evict_path-total_chunk_bytes :
    (hash : Bytes) (s : CastoreBackend)
    → AllDistinct (map Chunk.digest s.chunks)
    → total_chunk_bytes (evict_path hash s).0 + (evict_path hash s).1 ≡ total_chunk_bytes s
unfolding evict_path total_chunk_bytes delete_path
evict_path-total_chunk_bytes hash s h =
    let released =
      release_files (owned_files hash s.path_files) (delete_path hash s).path_files s.file_chunks
        [] in
    let freed =
      release_chunks-total released.1 released.0
        (record { chunks = s.chunks; files = s.files; bytes_freed = 0 }) h in
    elim (Bool-cases (length (owned_files hash s.path_files) == 0)) [
      | inl empty ↦ rw empty (omega arith)
      | inr own ↦ rw own (omega (arith, freed))
    ]

release_chunks-AllDistinct :
    (ds : List Bytes) (rows : List FileChunk) (f : Freed)
    → AllDistinct (digests f.chunks)
    → AllDistinct (digests (release_chunks ds rows f).chunks)
unfolding release_chunks delete_chunk without
release_chunks-AllDistinct [] rows f h = h
release_chunks-AllDistinct (d ∷ ds) rows f h =
    elim (Bool-cases (any (λ (r : FileChunk). bytes_eq r.chunk_digest d) rows)) [
      | inl kept ↦ rw kept (release_chunks-AllDistinct ds rows f h)
      | inr gone ↦
          rw gone (
            release_chunks-AllDistinct ds rows (delete_chunk d f)
              (without-AllDistinct d f.chunks h))
    ]

pub evict_path-AllDistinct :
    (hash : Bytes) (s : CastoreBackend)
    → AllDistinct (digests s.chunks)
    → AllDistinct (digests (evict_path hash s).0.chunks)
unfolding evict_path delete_path
evict_path-AllDistinct hash s h =
    let released =
      release_files (owned_files hash s.path_files) (delete_path hash s).path_files s.file_chunks
        [] in
    let kept =
      release_chunks-AllDistinct released.1 released.0
        (record { chunks = s.chunks; files = s.files; bytes_freed = 0 }) h in
    elim (Bool-cases (length (owned_files hash s.path_files) == 0)) [
      | inl empty ↦ rw empty h
      | inr own ↦ rw own kept
    ]
