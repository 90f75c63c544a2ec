-- ===== src/ClientStore/Pull.antt =====
-- `index_response` of crates/ekapkgs/src/chunk_store.rs, and the steps of `cas_pull` in
-- crates/ekapkgs/src/cas_pull.rs that fill the chunk store. A GET of a chunk is a parameter.
pub mod Steps
pub mod RoundTrip
use ekapkgs_cli.Prelude.{
  ℕ, ◌≡◌, Bool, true, false, Option, none, some, List, [], ◌∷◌, Bytes, bytes_eq, if◌then◌else◌,
}
use ekapkgs_cli.Nar.Streaming.{CaDirectoryEntry}
use ekapkgs_cli.Castore.{is_digest}
use ekapkgs_cli.Castore.Ingest.{Codecs}
use ekapkgs_cli.ClientStore.{ChunkStore, store_chunk, store_directory, store_file_chunks}

pub record ChunkMeta : Type 0 where
  pub digest : Option Bytes
  pub size : ℕ

pub record FileChunkMapping : Type 0 where
  pub file_digest : Option Bytes
  pub chunks : List ChunkMeta

pub record CaDirectoryData : Type 0 where
  pub digest : Option Bytes
  pub directory : Option (List CaDirectoryEntry)

pub record ChunkDownload : Type 0 where
  pub digest : Option Bytes
  pub size : ℕ
  pub url : Bytes

-- The fields that fill the store.
pub record ChunkNegotiateResponse : Type 0 where
  pub missing_chunks : List ChunkDownload
  pub directories : List CaDirectoryData
  pub file_chunk_mappings : List FileChunkMapping

-- The `filter_map` over the chunks of a mapping.
unfoldable pub usable_chunks : List ChunkMeta → List (Bytes × ℕ)
usable_chunks [] = []
usable_chunks (c ∷ cs) =
    let rest = usable_chunks cs in
    elim c.digest [ none ↦ rest | some d ↦ if is_digest d then (d, c.size) ∷ rest else rest ]

unfoldable pub index_mapping : FileChunkMapping → ChunkStore → ChunkStore
index_mapping m s = elim m.file_digest [
  | none ↦ s
  | some f ↦
      let stored : ChunkStore = elim (usable_chunks m.chunks) [
        | [] ↦ s
        | c ∷ cs ↦ store_file_chunks f (c ∷ cs) s
      ] in
      if is_digest f then stored else s
]

unfoldable pub index_mappings : List FileChunkMapping → ChunkStore → ChunkStore
index_mappings [] s = s
index_mappings (m ∷ ms) s = index_mappings ms (index_mapping m s)

-- The loop over the results of the downloads, in the order in which they arrive; with `any_failed`.
unfoldable pub store_results : List (Option (Bytes × Bytes)) → ChunkStore → ChunkStore × Bool
store_results [] s = (s, false)
store_results (none ∷ results) s = ((store_results results s).0, true)
store_results (some (digest, bytes) ∷ results) s =
    store_results results (store_chunk digest bytes s)

module _ (k : Codecs) where
  unfoldable pub index_directory : CaDirectoryData → ChunkStore → ChunkStore
  index_directory m s = elim m.digest [
    | none ↦ s
    | some d ↦
        let stored : ChunkStore = elim m.directory [
          | none ↦ s
          | some es ↦ store_directory d (k.encode es) s
        ] in
        if is_digest d then stored else s
  ]

  unfoldable pub index_directories : List CaDirectoryData → ChunkStore → ChunkStore
  index_directories [] s = s
  index_directories (m ∷ ms) s = index_directories ms (index_directory m s)

  unfoldable pub index_response : ChunkNegotiateResponse → ChunkStore → ChunkStore
  index_response response s =
      index_mappings response.file_chunk_mappings (index_directories response.directories s)

  -- A GET, the check of the digest, and its length.
  unfoldable pub download_chunk : (Bytes → Option Bytes) → ChunkDownload → Option (Bytes × Bytes)
  download_chunk get_url chunk = elim (get_url chunk.url) [
    | none ↦ none
    | some bytes ↦ elim chunk.digest [
      | none ↦ none
      | some expected ↦
          if bytes_eq (k.blake3 bytes) expected
          then (if is_digest expected then some (expected, bytes) else none)
          else none
    ]
  ]
