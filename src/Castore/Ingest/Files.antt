-- ===== src/Castore/Ingest/Files.antt =====
-- A file of `ingest_node` in crates/ekapkgs-serve/src/storage/castore.rs: stored, and read back.
use ekapkgs_cli.Prelude.{
  ℕ, ◌+◌, ◌≡◌, refl, sym, ap, subst, ◌∙◌, inl, inr, some, List, [], ◌∷◌, Bytes, bytes_eq,
  bytes_eq→eq, All, Bool-cases, arith,
}
use ekapkgs_cli.Castore.{
  FileChunk, CastoreBackend, get_chunk_by_digest, chunks_of, concat_chunks, order_by_index,
  read_file_data,
}
use ekapkgs_cli.Castore.Ingest.{
  Codecs, CodecLaws, concat, store_chunks, rows_from, insert_rows, ingest_file,
}
use ekapkgs_cli.Castore.Ingest.Valid.{get, HasChunk, HasFile, IsValid, Extends}
use ekapkgs_cli.Castore.Ingest.Stored.{All-HasChunk}
use ekapkgs_cli.Castore.Ingest.Rows.{
  insert_rows-again, insert_rows-first, insert_rows-other, order_by_index-rows_from,
}
use ekapkgs_cli.Castore.Ingest.Extends.{Extends-trans, store_chunks-IsValid}

module _ (k : Codecs) (laws : CodecLaws k) where
  -- The table after the rows of the file.
  abbrev table_of : Bytes → CastoreBackend → List FileChunk
  table_of bytes s = insert_rows k (rows_from k (k.blake3 bytes) 0 (k.cdc bytes)) s.file_chunks

  abbrev with_rows : Bytes → CastoreBackend → CastoreBackend
  with_rows bytes s = record s { file_chunks = table_of bytes s }

  HasFile-inserted :
      (bytes : Bytes) (s : CastoreBackend) → IsValid k s → HasFile k (with_rows bytes s) bytes
  HasFile-inserted bytes s valid = elim (valid.file_valid (k.blake3 bytes)) [
    | inl empty ↦ insert_rows-first k (k.blake3 bytes) (k.cdc bytes) s.file_chunks empty
    | inr (b, same, rows, present) ↦
        let has = subst (HasFile k s) (laws.collision_free b bytes same) rows in
        ap (chunks_of (k.blake3 bytes)) (insert_rows-again k (k.blake3 bytes) _ s.file_chunks has)
        ∙ has
  ]

  with_rows-Extends :
      (bytes : Bytes) (s : CastoreBackend) → IsValid k s → Extends k s (with_rows bytes s)
  with_rows-Extends bytes s valid = record {
    chunks = λ x h. h;
    files = λ b rows. elim (Bool-cases (bytes_eq (k.blake3 bytes) (k.blake3 b))) [
      | inl same ↦
          subst (HasFile k (with_rows bytes s)) (laws.collision_free bytes b (bytes_eq→eq _ _ same))
            (HasFile-inserted bytes s valid)
      | inr other ↦
          insert_rows-other k (k.blake3 bytes) (k.blake3 b) 0 (k.cdc bytes) s.file_chunks other
          ∙ rows
    ];
    directories = λ d e h. h;
  }

  with_rows-IsValid :
      (bytes : Bytes) (s : CastoreBackend)
      → IsValid k s
      → All (HasChunk k s) (k.cdc bytes)
      → IsValid k (with_rows bytes s)
  unfolding get_chunk_by_digest
  with_rows-IsValid bytes s valid present = record {
    chunk_valid = valid.chunk_valid;
    no_orphan = valid.no_orphan;
    file_valid = λ g. elim (Bool-cases (bytes_eq (k.blake3 bytes) g)) [
      | inl same ↦ inr (bytes, bytes_eq→eq _ _ same, HasFile-inserted bytes s valid, present)
      | inr other ↦
          let kept = insert_rows-other k (k.blake3 bytes) g 0 (k.cdc bytes) s.file_chunks other in
          elim (valid.file_valid g) [
            | inl empty ↦ inl (kept ∙ empty)
            | inr (b, digest, rows, there) ↦ inr (
              b,
              digest,
              subst (λ h. chunks_of h (table_of bytes s) ≡ chunks_of h s.file_chunks) (sym digest)
                    kept
                  ∙ rows,
              there,
            )
          ]
    ];
    directory_valid = valid.directory_valid;
  }

  -- The rows and the chunks of a file are there.
  abbrev pub FileStored : CastoreBackend → Bytes → Type 0
  FileStored s bytes = HasFile k s bytes × All (HasChunk k s) (k.cdc bytes)

  pub FileStored-Extends :
      (s t : CastoreBackend) (bytes : Bytes)
      → Extends k s t
      → FileStored s bytes
      → FileStored t bytes
  FileStored-Extends s t bytes grown (rows, present) =
      (grown.files bytes rows, All-HasChunk k laws s t (k.cdc bytes) grown.chunks present)

  pub ingest_file-IsValid :
      (bytes : Bytes) (s : CastoreBackend)
      → IsValid k s
      → IsValid k (ingest_file k bytes s)
        × Extends k s (ingest_file k bytes s)
        × FileStored (ingest_file k bytes s) bytes
  unfolding ingest_file
  ingest_file-IsValid bytes s valid =
      let (valid', grown, present) =
        store_chunks-IsValid k laws (k.cdc bytes) s (laws.chunk_size bytes) valid in
      let s' = store_chunks k (k.cdc bytes) s in
      (
        with_rows-IsValid bytes s' valid' present,
        Extends-trans k _ _ _ grown (with_rows-Extends bytes s' valid'),
        (HasFile-inserted bytes s' valid', present),
      )

  chunk_read :
      (s : CastoreBackend) (c : Bytes)
      → IsValid k s
      → HasChunk k s c
      → get k s (k.blake3 c) ≡ some (some c)
  chunk_read s c valid (row, found) =
      let (x, reads, same) = valid.chunk_valid (k.blake3 c) row found in
      reads ∙ ap (λ z. some (some z)) (laws.collision_free x c same)

  concat_chunks-rows_from :
      (s : CastoreBackend) (f : Bytes) (i : ℕ) (cs : List Bytes)
      → IsValid k s
      → All (HasChunk k s) cs
      → concat_chunks k.blake3 k.level k.compress k.decompress s (rows_from k f i cs)
        ≡ some (concat cs)
  unfolding concat_chunks rows_from
  concat_chunks-rows_from s f i [] valid present = refl
  concat_chunks-rows_from s f i (c ∷ cs) valid present =
      let rest = concat_chunks-rows_from s f (i + 1) cs valid present.1 in
      let reads = chunk_read s c valid present.0 in let size = laws.digest_length c in ground arith

  -- A stored file reads as it was.
  pub read_file_data-FileStored :
      (s : CastoreBackend) (bytes : Bytes)
      → IsValid k s
      → FileStored s bytes
      → read_file_data k.blake3 k.level k.compress k.decompress s (k.blake3 bytes) ≡ some bytes
  unfolding read_file_data
  read_file_data-FileStored s bytes valid (rows, present) =
      ap (λ rs. concat_chunks k.blake3 k.level k.compress k.decompress s (order_by_index rs)) rows
      ∙ (ap (concat_chunks k.blake3 k.level k.compress k.decompress s)
            (order_by_index-rows_from k (k.blake3 bytes) 0 (k.cdc bytes))
          ∙ (concat_chunks-rows_from s (k.blake3 bytes) 0 (k.cdc bytes) valid present
              ∙ ap some (laws.chunked bytes)))
