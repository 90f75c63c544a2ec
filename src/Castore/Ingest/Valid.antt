-- ===== src/Castore/Ingest/Valid.antt =====
-- What every operation of the content-addressed store, crates/ekapkgs-serve/src/storage/castore.rs, keeps.
use ekapkgs_cli.Prelude.{◌≡◌, ◌⊎◌, Option, some, [], Bytes, All}
use ekapkgs_cli.Castore.{
  Chunk, CastoreBackend, find_chunk, find_file, get_chunk_by_digest, chunks_of,
}
use ekapkgs_cli.Castore.Ingest.{Codecs, find_directory, rows_from}

module _ (k : Codecs) where
  abbrev pub get : CastoreBackend → Bytes → Option (Option Bytes)
  get s d = get_chunk_by_digest k.blake3 k.level k.compress k.decompress s d

  -- The chunk has a row.
  abbrev pub HasChunk : CastoreBackend → Bytes → Type 0
  HasChunk s x = (c : Chunk) × (find_chunk (k.blake3 x) s.chunks ≡ some c)

  -- The file's rows are those of its chunks.
  abbrev pub HasFile : CastoreBackend → Bytes → Type 0
  HasFile s bytes =
      chunks_of (k.blake3 bytes) s.file_chunks ≡ rows_from k (k.blake3 bytes) 0 (k.cdc bytes)

  -- A chunk row is readable and gives what its digest says; a chunk file has a row; a file has no row, or
  -- those of some data of its digest, whose chunks have rows; a directory has its digest.
  pub record IsValid (s : CastoreBackend) : Type 0 where
    pub chunk_valid :
        (d : Bytes) (c : Chunk)
        → find_chunk d s.chunks ≡ some c
        → (x : Bytes) × (get s d ≡ some (some x)) × (k.blake3 x ≡ d)
    pub no_orphan :
        (d content : Bytes)
        → find_file d s.files ≡ some content
        → (c : Chunk) × (find_chunk d s.chunks ≡ some c)
    pub file_valid :
        (f : Bytes)
        → (chunks_of f s.file_chunks ≡ [])
          ⊎ ((bytes : Bytes) × (k.blake3 bytes ≡ f)
              × HasFile s bytes
              × All (HasChunk s) (k.cdc bytes))
    pub directory_valid : (d e : Bytes) → find_directory d s.directories ≡ some e → k.blake3 e ≡ d

  -- What a later store still has.
  pub record Extends (s t : CastoreBackend) : Type 0 where
    pub chunks : (x : Bytes) → HasChunk s x → HasChunk t x
    pub files : (bytes : Bytes) → HasFile s bytes → HasFile t bytes
    pub directories :
        (d e : Bytes)
        → find_directory d s.directories ≡ some e
        → find_directory d t.directories ≡ some e
