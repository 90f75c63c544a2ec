-- ===== src/Castore/Examples.antt =====
-- Concrete evictions and chunks.
use ekapkgs_cli.Prelude.{
  ℕ, ◌+◌, ◌≤◌, leb, if◌then◌else◌, arith, ◌≡◌, refl, true, not, Option, none, some, [], ◌∷◌, Bytes,
  bytes_eq, any, retain, map, replicate, AllDistinct, contains, length,
}
use ekapkgs_cli.Castore.{
  PathFile, FileChunk, Chunk, CastoreBackend, find_chunk, find_file, total_chunk_bytes, evict_path,
  store_chunk, get_chunk_by_digest, read_file_data,
}
use ekapkgs_cli.Castore.Shared.{evict_path-read_file_data}
use ekapkgs_cli.Castore.Reclaim.{evict_path-total_chunk_bytes}
use ekapkgs_cli.Castore.Chunks.{store_chunk_orphan}

abbrev digest : ℕ → Bytes
digest n = replicate 32 n

abbrev small : ℕ → Chunk
small n = record {
  digest = digest n;
  size = 3;
  zstd_level = none;
  disk_size = 0;
  inline_data = some (n ∷ n ∷ n ∷ []);
}

abbrev row : ℕ → ℕ → ℕ → FileChunk
row f i c = record {
  file_digest = digest f;
  chunk_index = i;
  chunk_digest = digest c;
  chunk_size = 3;
}

-- Path 1 owns the files 10 and 11, path 2 the file 11, which shares the chunk 21 with file 10.
abbrev store : CastoreBackend
store = record {
  cas_paths =
      (record { hash = 1 ∷ []; root_node = []; nar_size = 300; last_access = 0 })
      ∷ (record { hash = 2 ∷ []; root_node = []; nar_size = 200; last_access = 0 })
      ∷ [];
  path_files =
      (record { path_hash = 1 ∷ []; file_digest = digest 10 })
      ∷ (record { path_hash = 1 ∷ []; file_digest = digest 11 })
      ∷ (record { path_hash = 2 ∷ []; file_digest = digest 11 })
      ∷ [];
  file_chunks = row 10 0 20 ∷ row 10 1 21 ∷ row 11 1 22 ∷ row 11 0 21 ∷ [];
  chunks = small 20 ∷ small 21 ∷ small 22 ∷ [];
  files = [];
  directories = [];
}

abbrev blake3 : Bytes → Bytes
blake3 bytes = digest (length bytes)

abbrev compress : Bytes → Bytes
compress bytes = 7 ∷ bytes

abbrev decompress : ℕ → Bytes → Option Bytes
decompress capacity [] = none
decompress capacity (b ∷ bs) = if leb (length bs) capacity then some bs else none

shared :
    any
      (λ (r : PathFile). bytes_eq r.file_digest (digest 11))
      (retain (λ (r : PathFile). not (bytes_eq r.path_hash (1 ∷ []))) store.path_files)
    ≡ true
unfolding any bytes_eq retain
shared = refl

evict_path-read_file_data_example :
    read_file_data blake3 3 compress decompress (evict_path (1 ∷ []) store).0 (digest 11)
    ≡ read_file_data blake3 3 compress decompress store (digest 11)
evict_path-read_file_data_example =
    evict_path-read_file_data blake3 3 compress decompress (1 ∷ []) store (digest 11) shared

distinct_digests : AllDistinct (map Chunk.digest store.chunks)
unfolding contains bytes_eq
distinct_digests = (refl, (refl, (refl, tt)))

evict_path-total_chunk_bytes_example :
    total_chunk_bytes (evict_path (1 ∷ []) store).0 + (evict_path (1 ∷ []) store).1
    ≡ total_chunk_bytes store
evict_path-total_chunk_bytes_example = evict_path-total_chunk_bytes (1 ∷ []) store distinct_digests

lossless :
    (capacity : ℕ) (x : Bytes) → length x ≤ capacity → decompress capacity (compress x) ≡ some x
lossless capacity x h = ground arith

abbrev big : Bytes
big = replicate 1024 1

abbrev crashed : CastoreBackend
crashed = record {
  cas_paths = [];
  path_files = [];
  file_chunks = [];
  chunks = [];
  files = (record { digest = blake3 big; content = compress big }) ∷ [];
  directories = [];
}

crashed_row : find_chunk (blake3 big) crashed.chunks ≡ none
unfolding find_chunk
crashed_row = refl

crashed_file : find_file (blake3 big) crashed.files ≡ some (compress big)
unfolding find_file bytes_eq
crashed_file = refl

store_chunk_orphan_example :
    get_chunk_by_digest blake3 3 compress decompress
      (store_chunk blake3 3 compress decompress big crashed).0
      (blake3 big)
    ≡ some (some (compress big))
store_chunk_orphan_example =
    store_chunk_orphan blake3 3 compress decompress lossless big crashed crashed_row crashed_file
      refl
