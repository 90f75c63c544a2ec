-- ===== src/Castore/Ingest.antt =====
-- `ingest_node` and `load_directory` of crates/ekapkgs-serve/src/storage/castore.rs. The libraries are
-- parameters: blake3, zstd, the FastCDC chunker, and the encoding of a directory message. The Bloom filter
-- of chunks, which follows the insertions, is left to Bloom.
pub mod Decompose
pub mod Valid
pub mod Stored
pub mod Rows
pub mod Files
pub mod Extends
pub mod Trees
pub mod Provided
pub mod Streamed
pub mod RoundTrip
pub mod Codec
mod Examples
use ekapkgs_cli.Prelude.{
  ℕ, zero, suc, ◌+◌, ◌≤◌, All, max, ◌≡◌, Bool, true, false, Option, none, some, List, [], ◌∷◌, ◌++◌,
  Bytes, bytes_eq, length, if◌then◌else◌,
}
use ekapkgs_cli.Nar.{NarNode, Entries, regular, directory, symlink, end, entry}
use ekapkgs_cli.Nar.Streaming.{
  CaNode, file_node, directory_node, symlink_node, CaDirectoryEntry, ChunkReader, sort_entries,
}
use ekapkgs_cli.Castore.{
  chunk_max, FileChunk, Directory, CastoreBackend, store_chunk, insert_file_chunk_row,
  read_file_data, is_digest, get_chunk_by_digest, order_by_index, chunks_of,
}

pub record Codecs : Type 0 where
  pub blake3 : Bytes → Bytes
  pub level : ℕ
  pub compress : Bytes → Bytes
  pub decompress : ℕ → Bytes → Option Bytes
  pub cdc : Bytes → List Bytes
  pub encode : List CaDirectoryEntry → Bytes
  pub decode : Bytes → Option (List CaDirectoryEntry)

abbrev pub concat : List Bytes → Bytes
concat [] = []
concat (c ∷ cs) = c ++ concat cs

-- What the libraries promise: digests have 32 bytes and do not collide, zstd reads
-- back what fits the capacity, the encoding is lossless, and the chunks of some data make it up, none
-- longer than `chunk_max`.
pub record CodecLaws (k : Codecs) : Type 0 where
  pub digest_length : (x : Bytes) → length (k.blake3 x) ≡ 32
  pub collision_free : (x y : Bytes) → k.blake3 x ≡ k.blake3 y → x ≡ y
  pub lossless :
      (capacity : ℕ) (x : Bytes)
      → length x ≤ capacity
      → k.decompress capacity (k.compress x) ≡ some x
  pub chunked : (x : Bytes) → concat (k.cdc x) ≡ x
  pub chunk_size : (x : Bytes) → All (λ c. length c ≤ chunk_max) (k.cdc x)
  pub decoded : (es : List CaDirectoryEntry) → k.decode (k.encode es) ≡ some es

-- `SELECT data FROM directories WHERE digest = ?1`
unfoldable pub find_directory : Bytes → List Directory → Option Bytes
find_directory d [] = none
find_directory d (r ∷ rows) =
    let rest = find_directory d rows in if bytes_eq r.digest d then some r.encoded else rest

-- `sum of chunk.length`
unfoldable pub total_length : List Bytes → ℕ
total_length [] = 0
total_length (c ∷ cs) = length c + total_length cs

unfoldable pub count_entries : Entries → ℕ
count_entries end = 0
count_entries (entry name node es) = suc (count_entries es)

module _ (k : Codecs) where
  -- `INSERT OR IGNORE INTO directories`, and the digest.
  unfoldable pub insert_directory : List CaDirectoryEntry → CastoreBackend → CastoreBackend × Bytes
  insert_directory es s =
      let digest = k.blake3 (k.encode es) in
      (
        record s {
          directories = elim (find_directory digest s.directories) [
            | none ↦ (record { digest = digest; encoded = k.encode es }) ∷ s.directories
            | some old ↦ s.directories
          ];
        },
        digest,
      )

  -- `load_directory` on a cache miss, with the check of the digest.
  unfoldable pub load_directory : CastoreBackend → Bytes → Option (List CaDirectoryEntry)
  load_directory s digest = elim (find_directory digest s.directories) [
    | none ↦ none
    | some encoded ↦ if bytes_eq (k.blake3 encoded) digest then k.decode encoded else none
  ]

  -- The loop over the chunks of a file: `write_chunk_file` and `insert_chunk_row`, as `store_chunk` does.
  unfoldable pub store_chunks : List Bytes → CastoreBackend → CastoreBackend
  store_chunks [] s = s
  store_chunks (c ∷ cs) s =
      store_chunks cs (store_chunk k.blake3 k.level k.compress k.decompress c s).0

  -- The rows of a file, from the chunk of the given index on.
  unfoldable pub rows_from : Bytes → ℕ → List Bytes → List FileChunk
  rows_from digest index [] = []
  rows_from digest index (c ∷ cs) =
      (record {
        file_digest = digest;
        chunk_index = index;
        chunk_digest = k.blake3 c;
        chunk_size = length c;
      })
      ∷ rows_from digest (index + 1) cs

  unfoldable pub insert_rows : List FileChunk → List FileChunk → List FileChunk
  insert_rows [] table = table
  insert_rows (r ∷ rows) table = insert_rows rows (insert_file_chunk_row r table)

  unfoldable pub ingest_file : Bytes → CastoreBackend → CastoreBackend
  ingest_file bytes s =
      let s' = store_chunks (k.cdc bytes) s in
      record s' {
        file_chunks = insert_rows (rows_from (k.blake3 bytes) 0 (k.cdc bytes)) s'.file_chunks;
      }

  unfoldable mutual
    pub ingest_node : NarNode → CastoreBackend → CaNode × CastoreBackend
    ingest_node (regular executable bytes) s = (
      file_node (some (k.blake3 bytes)) (total_length (k.cdc bytes)) executable,
      ingest_file bytes s,
    )
    ingest_node (directory entries) s =
        let walked = ingest_entries entries s in
        let stored = insert_directory walked.0 walked.1 in
        (directory_node (some stored.1) (count_entries entries), stored.0)
    ingest_node (symlink target) s = (symlink_node target, s)

    -- The loop over the entries of a directory.
    pub ingest_entries : Entries → CastoreBackend → List CaDirectoryEntry × CastoreBackend
    ingest_entries end s = ([], s)
    ingest_entries (entry name node es) s =
        let child = ingest_node node s in
        let rest = ingest_entries es child.1 in
        ((record { name = name; node = some child.0 }) ∷ rest.0, rest.1)

  -- The store as the reader of `reconstruct_node`.
  unfoldable pub castore_reader : CastoreBackend → ChunkReader
  castore_reader s = record {
    read_file_data = read_file_data k.blake3 k.level k.compress k.decompress s;
    load_directory = load_directory s;
  }

  -- `write_file_data_to`: the chunks of a file, rows without a digest of 32 bytes left out.
  unfoldable pub stream_chunks : CastoreBackend → List FileChunk → Option Bytes
  stream_chunks s [] = some []
  stream_chunks s (r ∷ rows) =
      let rest = stream_chunks s rows in
      if is_digest r.chunk_digest
      then elim (get_chunk_by_digest k.blake3 k.level k.compress k.decompress s r.chunk_digest) [
        | none ↦ none
        | some none ↦ none
        | some (some bytes) ↦ elim rest [ none ↦ none | some more ↦ some (bytes ++ more) ]
      ]
      else rest

  unfoldable pub write_file_data_to : CastoreBackend → Bytes → Option Bytes
  write_file_data_to s digest = stream_chunks s (order_by_index (chunks_of digest s.file_chunks))

  -- The store as the reader of the streaming writer, which writes files by `write_file_data_to`.
  unfoldable pub castore_streamer : CastoreBackend → ChunkReader
  castore_streamer s = record {
    read_file_data = write_file_data_to s;
    load_directory = load_directory s;
  }

unfoldable mutual
  -- The levels of a tree, and the tree with the entries of every directory in order.
  pub depth : NarNode → ℕ
  depth (regular executable bytes) = 1
  depth (directory entries) = suc (depth_entries entries)
  depth (symlink target) = 1

  pub depth_entries : Entries → ℕ
  depth_entries end = 0
  depth_entries (entry name node es) = max (depth node) (depth_entries es)

unfoldable mutual
  pub sort_node : NarNode → NarNode
  sort_node (regular executable bytes) = regular executable bytes
  sort_node (directory entries) = directory (sort_entries (sort_children entries))
  sort_node (symlink target) = symlink target

  pub sort_children : Entries → Entries
  sort_children end = end
  sort_children (entry name node es) = entry name (sort_node node) (sort_children es)
