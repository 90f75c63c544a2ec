-- ===== src/Castore/Shared.antt =====
-- `evict_path` and `read_file_data` of crates/ekapkgs-serve/src/storage/castore.rs: the files of the other
-- paths.
use ekapkgs_cli.Prelude.{
  ℕ, ◌≡◌, refl, ap, ◌∙◌, inl, inr, Bool, true, false, not, Option, List, [], ◌∷◌, Bytes, bytes_eq,
  bytes_eq_refl, any, retain, length, ltb, ◌==◌, if◌then◌else◌, All, Bool-cases, arith,
}
use ekapkgs_cli.Castore.{
  PathFile, FileChunk, CastoreBackend, chunks_of, owned_files, release_files, delete_path,
  evict_path, insert_by_index, order_by_index, get_chunk_by_digest, concat_chunks, read_file_data,
}
use ekapkgs_cli.Castore.Evict.{file_used, chunk_used, chunks_of-release_files, find-release_chunks}

-- The rows of a list all stand in a table, as far as their chunks go.
Covered : List FileChunk → List FileChunk → Type 0
Covered table rows = All (λ r. chunk_used r.chunk_digest table ≡ true) rows

Covered-cons :
    (q : FileChunk) (table rows : List FileChunk) → Covered table rows → Covered (q ∷ table) rows
unfolding Covered chunk_used any
Covered-cons q table [] h = tt
Covered-cons q table (r ∷ rows) h = (ground (arith, h.0), Covered-cons q table rows h.1)

head_used : (r : FileChunk) (table : List FileChunk) → chunk_used r.chunk_digest (r ∷ table) ≡ true
unfolding chunk_used any
head_used r table = rw (bytes_eq_refl r.chunk_digest) refl

chunks_of-Covered : (f : Bytes) (table : List FileChunk) → Covered table (chunks_of f table)
unfolding chunks_of retain Covered
chunks_of-Covered f [] = tt
chunks_of-Covered f (r ∷ table) =
    let rest = Covered-cons r table (chunks_of f table) (chunks_of-Covered f table) in
    elim (Bool-cases (bytes_eq r.file_digest f)) [
      | inl c ↦ rw c (head_used r table, rest)
      | inr c ↦ rw c rest
    ]

insert-Covered :
    (table : List FileChunk) (r : FileChunk) (rows : List FileChunk)
    → chunk_used r.chunk_digest table ≡ true
    → Covered table rows
    → Covered table (insert_by_index r rows)
unfolding Covered insert_by_index
insert-Covered table r [] h k = (h, tt)
insert-Covered table r (q ∷ rows) h k = elim (Bool-cases (ltb q.chunk_index r.chunk_index)) [
  | inl c ↦ rw c (k.0, insert-Covered table r rows h k.1)
  | inr c ↦ rw c (h, k)
]

order-Covered :
    (table rows : List FileChunk) → Covered table rows → Covered table (order_by_index rows)
unfolding Covered order_by_index
order-Covered table [] h = tt
order-Covered table (r ∷ rows) h =
    insert-Covered table r (order_by_index rows) h.0 (order-Covered table rows h.1)

module _ (blake3 : Bytes → Bytes) (level : ℕ) (compress : Bytes → Bytes)
    (decompress : ℕ → Bytes → Option Bytes) where
  abbrev read : CastoreBackend → Bytes → Option Bytes
  read s f = read_file_data blake3 level compress decompress s f

  concat_same :
      (s t : CastoreBackend) (table rows : List FileChunk)
      → ((c : Bytes)
          → chunk_used c table ≡ true
          → get_chunk_by_digest blake3 level compress decompress s c
            ≡ get_chunk_by_digest blake3 level compress decompress t c)
      → Covered table rows
      → concat_chunks blake3 level compress decompress s rows
        ≡ concat_chunks blake3 level compress decompress t rows
  unfolding concat_chunks Covered
  concat_same s t table [] same h = refl
  concat_same s t table (r ∷ rows) same h =
      ground (arith, same r.chunk_digest h.0, concat_same s t table rows same h.1)

  abbrev get : CastoreBackend → Bytes → Option (Option Bytes)
  get s c = get_chunk_by_digest blake3 level compress decompress s c

  either_kept :
      (b : Bool) (s t u : CastoreBackend) (n : ℕ) (c : Bytes)
      → get t c ≡ get s c
      → (chunk_used c u.file_chunks ≡ true → get u c ≡ get s c)
      → chunk_used c (if◌then◌else◌ {A = CastoreBackend × ℕ} b (t, 0) (u, n)).0.file_chunks ≡ true
      → get (if◌then◌else◌ {A = CastoreBackend × ℕ} b (t, 0) (u, n)).0 c ≡ get s c
  either_kept true s t u n c same kept used = same
  either_kept false s t u n c same kept used = kept used

  chunk_kept :
      (hash : Bytes) (s : CastoreBackend) (c : Bytes)
      → chunk_used c (evict_path hash s).0.file_chunks ≡ true
      → get (evict_path hash s).0 c ≡ get s c
  unfolding evict_path get_chunk_by_digest delete_path
  chunk_kept hash s c =
      let released =
        release_files (owned_files hash s.path_files) (delete_path hash s).path_files s.file_chunks
          [] in
      let kept =
        find-release_chunks c released.1 released.0
          (record { chunks = s.chunks; files = s.files; bytes_freed = 0 }) in
      either_kept (length (owned_files hash s.path_files) == 0) s (delete_path hash s) _ _ c refl
        (λ used. let same = kept used in ground (arith, same.0, same.1))

  rows_kept :
      (hash : Bytes) (s : CastoreBackend) (f : Bytes)
      → file_used f (delete_path hash s).path_files ≡ true
      → chunks_of f (evict_path hash s).0.file_chunks ≡ chunks_of f s.file_chunks
  unfolding evict_path delete_path
  rows_kept hash s f used =
      let kept =
        chunks_of-release_files f (owned_files hash s.path_files) (delete_path hash s).path_files
          s.file_chunks [] used in
      elim (Bool-cases (length (owned_files hash s.path_files) == 0)) [
        | inl empty ↦ rw empty refl
        | inr own ↦ rw own kept
      ]

  -- After the eviction of a path, every file that another path still refers to reads as before.
  pub evict_path-read_file_data :
      (hash : Bytes) (s : CastoreBackend) (f : Bytes)
      → any
          (λ (r : PathFile). bytes_eq r.file_digest f)
          (retain (λ (r : PathFile). not (bytes_eq r.path_hash hash)) s.path_files)
        ≡ true
      → read_file_data blake3 level compress decompress (evict_path hash s).0 f
        ≡ read_file_data blake3 level compress decompress s f
  unfolding read_file_data file_used delete_path
  evict_path-read_file_data hash s f used =
      let rows = rows_kept hash s f used in
      concat_same (evict_path hash s).0 s (evict_path hash s).0.file_chunks _ (chunk_kept hash s)
        (order-Covered _ _ (chunks_of-Covered f (evict_path hash s).0.file_chunks))
      ∙ ap (λ rs. concat_chunks blake3 level compress decompress s (order_by_index rs)) rows
