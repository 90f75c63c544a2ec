-- ===== src/Castore/Evict.antt =====
-- `evict_path` of crates/ekapkgs-serve/src/storage/castore.rs: what other paths share stays.
use ekapkgs_cli.Prelude.{
  ◌≡◌, refl, sym, ap, ◌∙◌, inl, inr, Bool, true, false, not, ◌&&◌, List, [], ◌∷◌, Bytes, bytes_eq,
  bytes_eq→eq, bytes_eq_refl, any, retain, retain-retain, retain_same, Bool-cases, arith,
}
use ekapkgs_cli.Castore.{
  PathFile, FileChunk, Chunk, ChunkFile, Freed, find_chunk, find_file, chunks_of, release_files,
  delete_chunk, release_chunks,
}

-- A path refers to the file; a file row refers to the chunk.
unfoldable pub file_used : Bytes → List PathFile → Bool
file_used f rows = any (λ (r : PathFile). bytes_eq r.file_digest f) rows

unfoldable pub chunk_used : Bytes → List FileChunk → Bool
chunk_used c rows = any (λ (r : FileChunk). bytes_eq r.chunk_digest c) rows

differs :
    (x a b : Bytes) → bytes_eq a b ≡ false → (not (bytes_eq x a) && bytes_eq x b) ≡ bytes_eq x b
differs x a b h = elim (Bool-cases (bytes_eq x b)) [
  | inl e ↦
      let same = bytes_eq→eq x b e in
      elim (Bool-cases (bytes_eq x a)) [
        | inl d ↦
            let also = bytes_eq→eq x a d in
            absurd (ground (arith, ap (λ y. bytes_eq y b) (sym also ∙ same), bytes_eq_refl b))
        | inr d ↦ ground arith
      ]
  | inr e ↦ ground arith
]

used_differ : (a b : Bytes) (t : Bytes → Bool) → t a ≡ false → t b ≡ true → bytes_eq a b ≡ false
used_differ a b t p q = elim (Bool-cases (bytes_eq a b)) [
  | inl e ↦ let same = ap t (bytes_eq→eq a b e) in absurd (ground arith)
  | inr e ↦ e
]

chunks_of-delete :
    (d f : Bytes) (rows : List FileChunk)
    → bytes_eq d f ≡ false
    → chunks_of f (retain (λ (r : FileChunk). not (bytes_eq r.file_digest d)) rows)
      ≡ chunks_of f rows
unfolding chunks_of
chunks_of-delete d f rows h =
    retain-retain _ _ rows ∙ retain_same _ _ rows (λ r. differs r.file_digest d f h)

pub chunks_of-release_files :
    (f : Bytes) (ds : List Bytes) (path_files : List PathFile) (rows : List FileChunk)
    (to_check : List Bytes)
    → file_used f path_files ≡ true
    → chunks_of f (release_files ds path_files rows to_check).0 ≡ chunks_of f rows
unfolding release_files file_used
chunks_of-release_files f [] path_files rows to_check used = refl
chunks_of-release_files f (d ∷ ds) path_files rows to_check used =
    elim (Bool-cases (any (λ (r : PathFile). bytes_eq r.file_digest d) path_files)) [
      | inl kept ↦ rw kept (chunks_of-release_files f ds path_files rows to_check used)
      | inr gone ↦ rw gone (
          chunks_of-release_files f ds path_files _ _ used
          ∙ chunks_of-delete d f rows (
              used_differ d f (λ x. any (λ (r : PathFile). bytes_eq r.file_digest x) path_files)
                gone used))
    ]

find_chunk-delete :
    (d c : Bytes) (cs : List Chunk)
    → bytes_eq d c ≡ false
    → find_chunk c (retain (λ (x : Chunk). not (bytes_eq x.digest d)) cs) ≡ find_chunk c cs
unfolding find_chunk retain
find_chunk-delete d c [] h = refl
find_chunk-delete d c (x ∷ cs) h =
    ground (arith, find_chunk-delete d c cs h, differs x.digest d c h)

find_file-delete :
    (d c : Bytes) (cs : List ChunkFile)
    → bytes_eq d c ≡ false
    → find_file c (retain (λ (x : ChunkFile). not (bytes_eq x.digest d)) cs) ≡ find_file c cs
unfolding find_file retain
find_file-delete d c [] h = refl
find_file-delete d c (x ∷ cs) h = ground (arith, find_file-delete d c cs h, differs x.digest d c h)

pub find-release_chunks :
    (c : Bytes) (ds : List Bytes) (rows : List FileChunk) (f : Freed)
    → chunk_used c rows ≡ true
    → (find_chunk c (release_chunks ds rows f).chunks ≡ find_chunk c f.chunks)
      × (find_file c (release_chunks ds rows f).files ≡ find_file c f.files)
unfolding release_chunks chunk_used delete_chunk
find-release_chunks c [] rows f used = (refl, refl)
find-release_chunks c (d ∷ ds) rows f used =
    elim (Bool-cases (any (λ (r : FileChunk). bytes_eq r.chunk_digest d) rows)) [
      | inl kept ↦ rw kept (find-release_chunks c ds rows f used)
      | inr gone ↦
          let differ =
            used_differ d c (λ x. any (λ (r : FileChunk). bytes_eq r.chunk_digest x) rows) gone
              used in
          let rest = find-release_chunks c ds rows (delete_chunk d f) used in
          rw gone (
            rest.0 ∙ find_chunk-delete d c f.chunks differ,
            rest.1 ∙ find_file-delete d c f.files differ,
          )
    ]
