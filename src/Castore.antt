-- ===== src/Castore.antt =====
-- crates/ekapkgs-serve/src/storage/castore.rs: the content-addressed store. The SQLite tables are lists of
-- rows and the chunk files a list by digest, as `chunk_path` gives each digest its own file. Statements
-- and file operations are taken to succeed. blake3 and zstd are parameters.
pub mod Evict
pub mod Shared
pub mod Reclaim
pub mod Ingest
pub mod DirCache
pub mod Walk
pub mod Chunks
mod Examples
mod Zeros
use ekapkgs_cli.Prelude.{
  ℕ, zero, suc, ◌+◌, ◌-◌, ◌*◌, ◌%◌, Bool, true, false, not, ◌&&◌, Option, none, some, List, [], ◌∷◌,
  ◌++◌, Bytes, bytes_eq, contains, any, retain, map, length, ltb, ◌==◌, if◌then◌else◌,
}

-- A row of the table `cas_paths`, with the columns that are read here.
pub record CasPath : Type 0 where
  pub hash : Bytes
  pub root_node : Bytes
  pub nar_size : ℕ
  pub last_access : ℕ

-- A row of the table `path_files`.
pub record PathFile : Type 0 where
  pub path_hash : Bytes
  pub file_digest : Bytes

-- A row of the table `file_chunks`.
pub record FileChunk : Type 0 where
  pub file_digest : Bytes
  pub chunk_index : ℕ
  pub chunk_digest : Bytes
  pub chunk_size : ℕ

-- A row of the table `chunks`.
pub record Chunk : Type 0 where
  pub digest : Bytes
  pub size : ℕ
  pub zstd_level : Option ℕ
  pub disk_size : ℕ
  pub inline_data : Option Bytes

-- A chunk file.
pub record ChunkFile : Type 0 where
  pub digest : Bytes
  pub content : Bytes

-- A row of the table `directories`, an encoded directory.
pub record Directory : Type 0 where
  pub digest : Bytes
  pub encoded : Bytes

pub record CastoreBackend : Type 0 where
  pub cas_paths : List CasPath
  pub path_files : List PathFile
  pub file_chunks : List FileChunk
  pub chunks : List Chunk
  pub files : List ChunkFile
  pub directories : List Directory

-- `SELECT … FROM chunks WHERE digest = ?1`, one row as `digest` is the key.
unfoldable pub find_chunk : Bytes → List Chunk → Option Chunk
find_chunk d [] = none
find_chunk d (c ∷ cs) = let rest = find_chunk d cs in if bytes_eq c.digest d then some c else rest

unfoldable pub find_file : Bytes → List ChunkFile → Option Bytes
find_file d [] = none
find_file d (f ∷ fs) =
    let rest = find_file d fs in if bytes_eq f.digest d then some f.content else rest

abbrev pub is_digest : Bytes → Bool
is_digest d = length d == 32

-- `SELECT COALESCE(SUM(size), 0) FROM chunks`
unfoldable pub total_size : List Chunk → ℕ
total_size [] = 0
total_size (c ∷ cs) = c.size + total_size cs

unfoldable pub total_chunk_bytes : CastoreBackend → ℕ
total_chunk_bytes s = total_size s.chunks

unfoldable pub total_paths : CastoreBackend → ℕ
total_paths s = length s.cas_paths

-- `update_access` at the time `now`.
unfoldable pub update_access : ℕ → List Bytes → CastoreBackend → CastoreBackend
update_access now batch s = record s {
  cas_paths =
      map
        (λ (p : CasPath).
          if contains p.hash batch then record p { last_access = now - now % 3600 } else p)
        s.cas_paths;
}

-- `HashSet::insert`
unfoldable pub insert : Bytes → List Bytes → List Bytes
insert d ds = if contains d ds then ds else d ∷ ds

unfoldable pub insert_all : List Bytes → List Bytes → List Bytes
insert_all [] ds = ds
insert_all (x ∷ xs) ds = insert_all xs (insert x ds)

-- The digests of a query's rows: `filter_map` keeps those of 32 bytes.
unfoldable pub owned_files : Bytes → List PathFile → List Bytes
owned_files hash rows =
    retain is_digest
      (map PathFile.file_digest (retain (λ (r : PathFile). bytes_eq r.path_hash hash) rows))

unfoldable pub chunks_of : Bytes → List FileChunk → List FileChunk
chunks_of digest = retain (λ (r : FileChunk). bytes_eq r.file_digest digest)

-- Step 3 of `evict_path`: the file rows that no path refers to any more go, their chunks are collected.
unfoldable pub release_files :
    List Bytes → List PathFile → List FileChunk → List Bytes → List FileChunk × List Bytes
release_files [] path_files rows to_check = (rows, to_check)
release_files (d ∷ ds) path_files rows to_check =
    if any (λ (r : PathFile). bytes_eq r.file_digest d) path_files
    then release_files ds path_files rows to_check
    else release_files ds path_files
        (retain (λ (r : FileChunk). not (bytes_eq r.file_digest d)) rows)
        (insert_all (retain is_digest (map FileChunk.chunk_digest (chunks_of d rows))) to_check)

-- The rows, the files and the freed bytes of step 4.
pub record Freed : Type 0 where
  pub chunks : List Chunk
  pub files : List ChunkFile
  pub bytes_freed : ℕ

unfoldable pub delete_chunk : Bytes → Freed → Freed
delete_chunk d f = record {
  chunks = retain (λ (c : Chunk). not (bytes_eq c.digest d)) f.chunks;
  files = retain (λ (c : ChunkFile). not (bytes_eq c.digest d)) f.files;
  bytes_freed = elim (find_chunk d f.chunks) [
    | none ↦ f.bytes_freed
    | some c ↦ f.bytes_freed + c.size
  ];
}

-- Step 4: the collected chunks that no file row refers to any more go.
unfoldable pub release_chunks : List Bytes → List FileChunk → Freed → Freed
release_chunks [] rows f = f
release_chunks (d ∷ ds) rows f =
    if any (λ (r : FileChunk). bytes_eq r.chunk_digest d) rows
    then release_chunks ds rows f
    else release_chunks ds rows (delete_chunk d f)

unfoldable pub delete_path : Bytes → CastoreBackend → CastoreBackend
delete_path hash s = record s {
  cas_paths = retain (λ (p : CasPath). not (bytes_eq p.hash hash)) s.cas_paths;
  path_files = retain (λ (r : PathFile). not (bytes_eq r.path_hash hash)) s.path_files;
}

-- The store afterwards and the freed bytes.
unfoldable pub evict_path : Bytes → CastoreBackend → CastoreBackend × ℕ
evict_path hash s =
    let file_digests = owned_files hash s.path_files in
    let s' = delete_path hash s in
    let released = release_files file_digests s'.path_files s.file_chunks [] in
    let freed =
      release_chunks released.1 released.0
        (record { chunks = s.chunks; files = s.files; bytes_freed = 0 }) in
    if length file_digests == 0 then (s', 0) else (
      record s' { file_chunks = released.0; chunks = freed.chunks; files = freed.files },
      freed.bytes_freed,
    )

-- `INLINE_THRESHOLD`
abbrev pub inline_threshold : ℕ
inline_threshold = 1024

abbrev pub inline_of : Bytes → Option Bytes
inline_of bytes = if ltb (length bytes) inline_threshold then some bytes else none

-- What `write_chunk_file` returns, and the chunk files afterwards.
pub record Written : Type 0 where
  pub digest : Bytes
  pub zstd_level : Option ℕ
  pub disk_size : ℕ
  pub files : List ChunkFile

-- `INSERT OR IGNORE INTO chunks`
unfoldable pub insert_chunk_row : Chunk → List Chunk → List Chunk
insert_chunk_row c cs = elim (find_chunk c.digest cs) [ none ↦ c ∷ cs | some old ↦ cs ]

-- `INSERT OR IGNORE INTO file_chunks`, whose key is the file and the index.
unfoldable pub insert_file_chunk_row : FileChunk → List FileChunk → List FileChunk
insert_file_chunk_row r rows =
    if any
      (λ (q : FileChunk). bytes_eq q.file_digest r.file_digest && (q.chunk_index == r.chunk_index))
      rows
    then rows
    else rows ++ (r ∷ [])

-- `ORDER BY chunk_index`: two rows of a file never have the same index.
unfoldable pub insert_by_index : FileChunk → List FileChunk → List FileChunk
insert_by_index r [] = r ∷ []
insert_by_index r (q ∷ rows) =
    let rest = insert_by_index r rows in
    if ltb q.chunk_index r.chunk_index then q ∷ rest else r ∷ q ∷ rows

unfoldable pub order_by_index : List FileChunk → List FileChunk
order_by_index [] = []
order_by_index (r ∷ rows) = insert_by_index r (order_by_index rows)

-- `CHUNK_MAX`
abbrev pub chunk_max : ℕ
chunk_max = 262144

-- blake3, zstd at the configured level, and zstd's reader with the capacity of its output, which refuses a
-- corrupt frame and one whose content is larger.
module _ (blake3 : Bytes → Bytes) (level : ℕ) (compress : Bytes → Bytes)
    (decompress : ℕ → Bytes → Option Bytes) where
  unfoldable pub write_chunk_file : Bytes → List ChunkFile → Written
  write_chunk_file bytes files =
      let digest = blake3 bytes in
      let compressed = compress bytes in
      if ltb (length bytes) inline_threshold
      then record { digest = digest; zstd_level = none; disk_size = 0; files = files }
      else elim (find_file digest files) [
        | some content ↦ record {
          digest = digest;
          zstd_level = none;
          disk_size = length content;
          files = files;
        }
        | none ↦
            if ltb (length compressed) (length bytes)
            then record {
              digest = digest;
              zstd_level = some level;
              disk_size = length compressed;
              files = (record { digest = digest; content = compressed }) ∷ files;
            }
            else record {
              digest = digest;
              zstd_level = none;
              disk_size = length bytes;
              files = (record { digest = digest; content = bytes }) ∷ files;
            }
      ]

  unfoldable pub store_chunk : Bytes → CastoreBackend → CastoreBackend × Bytes
  store_chunk bytes s =
      let w = write_chunk_file bytes s.files in
      let row : Chunk = record {
        digest = w.digest;
        size = length bytes;
        zstd_level = w.zstd_level;
        disk_size = w.disk_size;
        inline_data = inline_of bytes;
      } in
      (record s { chunks = insert_chunk_row row s.chunks; files = w.files }, w.digest)

  -- The outer `none` is the error of the reader.
  unfoldable pub read_chunk : Chunk → Option Bytes → Option (Option Bytes)
  read_chunk c file = elim c.inline_data [
    | some bytes ↦ some (some bytes)
    | none ↦ elim file [
      | none ↦ some none
      | some content ↦ elim c.zstd_level [
        | none ↦ some (some content)
        | some l ↦ elim (decompress (chunk_max * 2) content) [
          | none ↦ none
          | some bytes ↦ some (some bytes)
        ]
      ]
    ]
  ]

  unfoldable pub get_chunk_by_digest : CastoreBackend → Bytes → Option (Option Bytes)
  get_chunk_by_digest s digest = elim (find_chunk digest s.chunks) [
    | none ↦ some none
    | some c ↦ read_chunk c (find_file digest s.files)
  ]

  -- The loop of `read_file_data`: an error of the reader, and a chunk that is missing, end it.
  unfoldable pub concat_chunks : CastoreBackend → List FileChunk → Option Bytes
  concat_chunks s [] = some []
  concat_chunks s (r ∷ rows) =
      let rest = concat_chunks s rows in
      if is_digest r.chunk_digest
      then elim (get_chunk_by_digest s r.chunk_digest) [
        | none ↦ none
        | some none ↦ none
        | some (some bytes) ↦ elim rest [ none ↦ none | some more ↦ some (bytes ++ more) ]
      ]
      else none

  unfoldable pub read_file_data : CastoreBackend → Bytes → Option Bytes
  read_file_data s digest = concat_chunks s (order_by_index (chunks_of digest s.file_chunks))
