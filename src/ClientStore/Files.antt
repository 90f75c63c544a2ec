-- ===== src/ClientStore/Files.antt =====
-- Files in the client's chunk store, crates/ekapkgs/src/chunk_store.rs: `store_file_chunks` and `read_file_data`.
use ekapkgs_cli.Prelude.{
  ℕ, ◌+◌, ◌≡◌, refl, sym, ap, subst, ◌∙◌, inl, inr, false, some, List, [], ◌∷◌, Bytes, bytes_eq,
  bytes_eq→eq, All, Bool-cases, arith,
}
use ekapkgs_cli.Castore.{FileChunk, chunks_of, order_by_index}
use ekapkgs_cli.Castore.Ingest.{Codecs, CodecLaws, concat, rows_from, insert_rows}
use ekapkgs_cli.Castore.Ingest.Rows.{
  insert_rows-first, insert_rows-again, insert_rows-other, order_by_index-rows_from,
}
use ekapkgs_cli.Castore.Ingest.Decompose.{chunk_metas}
use ekapkgs_cli.ClientStore.{
  ChunkStore, all_chunk_digests, store_rows, store_file_chunks, read_chunks, read_file_data,
}
use ekapkgs_cli.ClientStore.Valid.{HasChunk, HasRows, IsValid, Grows}

module _ (k : Codecs) (laws : CodecLaws k) where
  store_rows-chunk_metas :
      (f : Bytes) (i : ℕ) (cs : List Bytes) (rows : List FileChunk)
      → store_rows f i (chunk_metas k cs) rows ≡ insert_rows k (rows_from k f i cs) rows
  unfolding store_rows chunk_metas insert_rows rows_from
  store_rows-chunk_metas f i [] rows = refl
  store_rows-chunk_metas f i (c ∷ cs) rows = store_rows-chunk_metas f (i + 1) cs _

  -- The store after the mapping of a file.
  abbrev pub mapped : Bytes → ChunkStore → ChunkStore
  mapped bytes s = store_file_chunks (k.blake3 bytes) (chunk_metas k (k.cdc bytes)) s

  mapped_rows :
      (bytes : Bytes) (s : ChunkStore)
      → (mapped bytes s).file_chunks
        ≡ insert_rows k (rows_from k (k.blake3 bytes) 0 (k.cdc bytes)) s.file_chunks
  unfolding store_file_chunks
  mapped_rows bytes s = store_rows-chunk_metas (k.blake3 bytes) 0 (k.cdc bytes) s.file_chunks

  HasRows-mapped :
      (bytes : Bytes) (s : ChunkStore) → IsValid k s → HasRows k (mapped bytes s).file_chunks bytes
  HasRows-mapped bytes s valid =
      subst (λ t. HasRows k t bytes) (sym (mapped_rows bytes s))
        (elim (valid.file_valid (k.blake3 bytes)) [
          | inl empty ↦ insert_rows-first k (k.blake3 bytes) (k.cdc bytes) s.file_chunks empty
          | inr (b, same, rows) ↦
              let has = subst (HasRows k s.file_chunks) (laws.collision_free b bytes same) rows in
              ap (chunks_of (k.blake3 bytes))
                (insert_rows-again k (k.blake3 bytes) _ s.file_chunks has)
              ∙ has
        ])

  mapped_other :
      (bytes g : Bytes) (s : ChunkStore)
      → bytes_eq (k.blake3 bytes) g ≡ false
      → chunks_of g (mapped bytes s).file_chunks ≡ chunks_of g s.file_chunks
  mapped_other bytes g s other =
      ap (chunks_of g) (mapped_rows bytes s)
      ∙ insert_rows-other k (k.blake3 bytes) g 0 (k.cdc bytes) s.file_chunks other

  mapped-IsValid : (bytes : Bytes) (s : ChunkStore) → IsValid k s → IsValid k (mapped bytes s)
  unfolding store_file_chunks all_chunk_digests
  mapped-IsValid bytes s valid = record {
    chunk_valid = valid.chunk_valid;
    recorded = valid.recorded;
    file_valid = λ g. elim (Bool-cases (bytes_eq (k.blake3 bytes) g)) [
      | inl same ↦ inr (bytes, bytes_eq→eq _ _ same, HasRows-mapped bytes s valid)
      | inr other ↦
          let kept = mapped_other bytes g s other in
          elim (valid.file_valid g) [
            | inl empty ↦ inl (kept ∙ empty)
            | inr (b, digest, rows) ↦ inr (
              b,
              digest,
              subst (λ h. chunks_of h (mapped bytes s).file_chunks ≡ chunks_of h s.file_chunks)
                    (sym digest) kept
                  ∙ rows,
            )
          ]
    ];
    directory_valid = valid.directory_valid;
  }

  pub mapped-Grows :
      (bytes : Bytes) (s : ChunkStore)
      → IsValid k s
      → Grows k s (mapped bytes s) × HasRows k (mapped bytes s).file_chunks bytes
  unfolding store_file_chunks
  mapped-Grows bytes s valid = (
    record {
      valid = mapped-IsValid bytes s valid;
      chunks = λ d x h. h;
      rows = λ b rows. elim (Bool-cases (bytes_eq (k.blake3 bytes) (k.blake3 b))) [
        | inl same ↦
            subst (HasRows k (mapped bytes s).file_chunks)
              (laws.collision_free bytes b (bytes_eq→eq _ _ same)) (HasRows-mapped bytes s valid)
        | inr other ↦ mapped_other bytes (k.blake3 b) s other ∙ rows
      ];
      directories = λ d e h. h;
    },
    HasRows-mapped bytes s valid,
  )

  read_chunks-rows_from :
      (s : ChunkStore) (f : Bytes) (i : ℕ) (cs : List Bytes)
      → All (HasChunk k s) cs
      → read_chunks s (rows_from k f i cs) ≡ some (concat cs)
  unfolding read_chunks rows_from
  read_chunks-rows_from s f i [] present = refl
  read_chunks-rows_from s f i (c ∷ cs) present =
      let rest = read_chunks-rows_from s f (i + 1) cs present.1 in
      let reads = present.0 in let size = laws.digest_length c in ground arith

  -- A file whose rows and chunks are there reads as it was.
  pub read_file_data-HasRows :
      (s : ChunkStore) (bytes : Bytes)
      → HasRows k s.file_chunks bytes
      → All (HasChunk k s) (k.cdc bytes)
      → read_file_data s (k.blake3 bytes) ≡ some bytes
  unfolding read_file_data
  read_file_data-HasRows s bytes rows present =
      ap (λ rs. read_chunks s (order_by_index rs)) rows
      ∙ (ap (read_chunks s) (order_by_index-rows_from k (k.blake3 bytes) 0 (k.cdc bytes))
          ∙ (read_chunks-rows_from s (k.blake3 bytes) 0 (k.cdc bytes) present
              ∙ ap some (laws.chunked bytes)))
