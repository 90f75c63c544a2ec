-- ===== src/ClientStore.antt =====
-- crates/ekapkgs/src/chunk_store.rs: the client's chunk store. The SQLite tables are lists of rows, the chunk
-- files a list by digest, as `chunk_path` gives each digest its own file. Statements and file operations
-- are taken to succeed. The encoding of messages is a parameter, as is the order of `ORDER BY added_at`.
pub mod Evict
pub mod Accounts
pub mod Valid
pub mod Files
pub mod Pull
mod Examples
use ekapkgs_cli.Prelude.{
  ℕ, zero, suc, ◌+◌, ◌-◌, ◌≡◌, Bool, true, false, not, Option, none, some, List, [], ◌∷◌, ◌++◌,
  Bytes, bytes_eq, any, retain, map, length, leb, if◌then◌else◌,
}
use ekapkgs_cli.Nar.Streaming.{
  CaNode, no_variant, file_node, directory_node, symlink_node, CaDirectoryEntry, ChunkReader,
}
use ekapkgs_cli.Castore.{
  FileChunk, ChunkFile, Directory, find_file, is_digest, chunks_of, insert_file_chunk_row,
  order_by_index,
}
use ekapkgs_cli.Castore.Ingest.{Codecs, find_directory}

-- A row of the table `chunks`.
pub record StoredChunk : Type 0 where
  pub digest : Bytes
  pub size : ℕ

-- A row of the table `cas_paths`.
pub record CasRoot : Type 0 where
  pub hash : Bytes
  pub root_node : Bytes
  pub added_at : ℕ

pub record ChunkStore : Type 0 where
  pub chunks : List StoredChunk
  pub file_chunks : List FileChunk
  pub directories : List Directory
  pub cas_paths : List CasRoot
  pub files : List ChunkFile

unfoldable pub find_size : Bytes → List StoredChunk → Option ℕ
find_size d [] = none
find_size d (c ∷ cs) =
    let rest = find_size d cs in if bytes_eq c.digest d then some c.size else rest

unfoldable pub find_root : Bytes → List CasRoot → Option Bytes
find_root h [] = none
find_root h (p ∷ ps) =
    let rest = find_root h ps in if bytes_eq p.hash h then some p.root_node else rest

-- `all_chunk_digests`
unfoldable pub all_chunk_digests : ChunkStore → List Bytes
all_chunk_digests s = retain is_digest (map StoredChunk.digest s.chunks)

unfoldable pub store_chunk : Bytes → Bytes → ChunkStore → ChunkStore
store_chunk digest bytes s = elim (find_file digest s.files) [
  | some old ↦ s
  | none ↦ record s {
    files = (record { digest = digest; content = bytes }) ∷ s.files;
    chunks = elim (find_size digest s.chunks) [
      | some old ↦ s.chunks
      | none ↦ (record { digest = digest; size = length bytes }) ∷ s.chunks
    ];
  }
]

unfoldable pub get_chunk : Bytes → ChunkStore → Option Bytes
get_chunk digest s = find_file digest s.files

unfoldable pub store_directory : Bytes → Bytes → ChunkStore → ChunkStore
store_directory digest encoded s = record s {
  directories = elim (find_directory digest s.directories) [
    | some old ↦ s.directories
    | none ↦ (record { digest = digest; encoded = encoded }) ∷ s.directories
  ];
}

-- The rows of `store_file_chunks`, from the given index on, each ignored where its key is taken.
unfoldable pub store_rows : Bytes → ℕ → List (Bytes × ℕ) → List FileChunk → List FileChunk
store_rows f index [] rows = rows
store_rows f index ((d, size) ∷ cs) rows = store_rows f (index + 1) cs (
    insert_file_chunk_row
      (record { file_digest = f; chunk_index = index; chunk_digest = d; chunk_size = size }) rows)

unfoldable pub store_file_chunks : Bytes → List (Bytes × ℕ) → ChunkStore → ChunkStore
store_file_chunks f cs s = record s { file_chunks = store_rows f 0 cs s.file_chunks }

unfoldable pub read_chunks : ChunkStore → List FileChunk → Option Bytes
read_chunks s [] = some []
read_chunks s (r ∷ rows) =
    if is_digest r.chunk_digest
    then elim (get_chunk r.chunk_digest s) [
      | none ↦ none
      | some bytes ↦ elim (read_chunks s rows) [ none ↦ none | some rest ↦ some (bytes ++ rest) ]
    ]
    else none

unfoldable pub read_file_data : ChunkStore → Bytes → Option Bytes
read_file_data s f = read_chunks s (order_by_index (chunks_of f s.file_chunks))

-- `INSERT OR REPLACE INTO cas_paths`, at the time `now`.
unfoldable pub record_cas_path : ℕ → Bytes → Bytes → ChunkStore → ChunkStore
record_cas_path now hash root_bytes s = record s {
  cas_paths =
      (record { hash = hash; root_node = root_bytes; added_at = now })
      ∷ retain (λ (p : CasRoot). not (bytes_eq p.hash hash)) s.cas_paths;
}

unfoldable pub total_size : List StoredChunk → ℕ
total_size [] = 0
total_size (c ∷ cs) = c.size + total_size cs

unfoldable pub total_chunk_bytes : ChunkStore → ℕ
total_chunk_bytes s = total_size s.chunks

-- The loop over a path's files: their chunks are collected, and the rows go unless other paths exist.
unfoldable pub release_files :
    Bool → List Bytes → List FileChunk → List Bytes → List FileChunk × List Bytes
release_files others [] rows chunk_digests = (rows, chunk_digests)
release_files others (f ∷ fs) rows chunk_digests =
    let found = chunk_digests ++ retain is_digest (map FileChunk.chunk_digest (chunks_of f rows)) in
    if others
    then release_files others fs rows found
    else release_files others fs (retain (λ (r : FileChunk). not (bytes_eq r.file_digest f)) rows)
        found

-- The tables and the freed bytes of the loop over the collected chunks.
pub record Reclaimed : Type 0 where
  pub chunks : List StoredChunk
  pub files : List ChunkFile
  pub total_freed : ℕ

unfoldable pub delete_chunk : Bytes → Reclaimed → Reclaimed
delete_chunk d r = record {
  chunks = retain (λ (c : StoredChunk). not (bytes_eq c.digest d)) r.chunks;
  files = retain (λ (c : ChunkFile). not (bytes_eq c.digest d)) r.files;
  total_freed = elim (find_size d r.chunks) [
    | none ↦ r.total_freed
    | some size ↦ r.total_freed + size
  ];
}

unfoldable pub delete_orphans : List Bytes → List FileChunk → Reclaimed → Reclaimed
delete_orphans [] rows r = r
delete_orphans (d ∷ ds) rows r =
    if any (λ (q : FileChunk). bytes_eq q.chunk_digest d) rows
    then delete_orphans ds rows r
    else delete_orphans ds rows (delete_chunk d r)

module _ (k : Codecs) where
  unfoldable pub load_directory : ChunkStore → Bytes → Option (List CaDirectoryEntry)
  load_directory s digest = elim (find_directory digest s.directories) [
    | none ↦ none
    | some encoded ↦ k.decode encoded
  ]

  unfoldable pub chunk_store_reader : ChunkStore → ChunkReader
  chunk_store_reader s = record {
    read_file_data = read_file_data s;
    load_directory = load_directory s;
  }

  -- `collect_file_digests` on the entries of a directory.
  unfoldable pub collect_from_entries : (CaNode → List Bytes) → List CaDirectoryEntry → List Bytes
  collect_from_entries collect [] = []
  collect_from_entries collect (e ∷ es) =
      elim e.node [ none ↦ [] | some child ↦ collect child ] ++ collect_from_entries collect es

  -- `collect_file_digests` on a tree of at most the given number of levels.
  unfoldable pub collect_file_digests : ℕ → ChunkStore → CaNode → List Bytes
  collect_file_digests zero s node = []
  collect_file_digests (suc fuel) s no_variant = []
  collect_file_digests (suc fuel) s (file_node none size executable) = []
  collect_file_digests (suc fuel) s (file_node (some d) size executable) =
      if is_digest d then d ∷ [] else []
  collect_file_digests (suc fuel) s (directory_node none size) = []
  collect_file_digests (suc fuel) s (directory_node (some d) size) =
      let below =
        λ (es : List CaDirectoryEntry). collect_from_entries (collect_file_digests fuel s) es in
      if is_digest d
      then elim (load_directory s d) [ none ↦ [] | some entries ↦ below entries ]
      else []
  collect_file_digests (suc fuel) s (symlink_node target) = []

  -- Messages decode by `decode_node`; `fuel` bounds the levels of a tree.
  module _ (decode_node : Bytes → Option CaNode) (fuel : ℕ) where
    unfoldable pub file_digests_of : Bytes → ChunkStore → List Bytes
    file_digests_of root_bytes s = elim (decode_node root_bytes) [
      | none ↦ []
      | some node ↦ collect_file_digests fuel s node
    ]

    -- One round of `evict_to_size`: the store afterwards and `total_freed`.
    unfoldable pub evict_root : Bytes → ChunkStore → ℕ → ChunkStore × ℕ
    evict_root hash s total_freed = elim (find_root hash s.cas_paths) [
      | none ↦ (s, total_freed)
      | some root_bytes ↦
          let cas_paths = retain (λ (p : CasRoot). not (bytes_eq p.hash hash)) s.cas_paths in
          let others = any (λ (p : CasRoot). not (bytes_eq p.hash hash)) cas_paths in
          let released = release_files others (file_digests_of root_bytes s) s.file_chunks [] in
          let freed =
            delete_orphans released.1 released.0
              (record { chunks = s.chunks; files = s.files; total_freed = total_freed }) in
          (
            record s {
              cas_paths = cas_paths;
              file_chunks = released.0;
              chunks = freed.chunks;
              files = freed.files;
            },
            freed.total_freed,
          )
    ]

    unfoldable pub evict_roots : ℕ → List Bytes → ChunkStore → ℕ → ChunkStore × ℕ
    evict_roots to_free [] s total_freed = (s, total_freed)
    evict_roots to_free (hash ∷ hashes) s total_freed =
        let round = evict_root hash s total_freed in
        let rest = evict_roots to_free hashes round.0 round.1 in
        if leb to_free total_freed then (s, total_freed) else rest

    unfoldable pub evict_to_size : (List CasRoot → List CasRoot) → ℕ → ChunkStore → ChunkStore × ℕ
    evict_to_size by_age target_bytes s =
        let current = total_chunk_bytes s in
        if leb current target_bytes
        then (s, 0)
        else evict_roots (current - target_bytes) (map CasRoot.hash (by_age s.cas_paths)) s 0
