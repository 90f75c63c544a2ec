-- ===== src/Castore/Ingest/Streamed.antt =====
-- `write_file_data_to` of crates/ekapkgs-serve/src/storage/castore.rs: what it writes is what `read_file_data`
-- reads, and it provides the streaming writer with a stored tree.
use ekapkgs_cli.Prelude.{
  ℕ, ◌≡◌, sym, subst, ◌∙◌, inl, inr, some, List, [], ◌∷◌, Bytes, All, Bool-cases, Option-cases,
  arith,
}
use ekapkgs_cli.Nar.{NarNode, Entries, regular, directory, symlink, end, entry}
use ekapkgs_cli.Castore.{
  FileChunk, CastoreBackend, is_digest, get_chunk_by_digest, concat_chunks, read_file_data,
}
use ekapkgs_cli.Castore.Ingest.{
  Codecs, CodecLaws, rows_from, stream_chunks, write_file_data_to, castore_streamer,
}
use ekapkgs_cli.Castore.Ingest.Valid.{HasChunk, HasFile, IsValid}
use ekapkgs_cli.Castore.Ingest.Files.{FileStored, read_file_data-FileStored}
use ekapkgs_cli.Castore.Ingest.Trees.{load-added}
use ekapkgs_cli.Castore.Ingest.Provided.{entries_of, Provided, ProvidedEntries}
use ekapkgs_cli.Castore.Walk.Held.{Held, HeldEntries}

module _ (k : Codecs) where
  stream_chunks-concat_chunks :
      (s : CastoreBackend) (rows : List FileChunk) (bytes : Bytes)
      → concat_chunks k.blake3 k.level k.compress k.decompress s rows ≡ some bytes
      → stream_chunks k s rows ≡ some bytes
  unfolding concat_chunks stream_chunks
  stream_chunks-concat_chunks s [] bytes h = h
  stream_chunks-concat_chunks s (r ∷ rows) bytes h = elim (Bool-cases (is_digest r.chunk_digest)) [
    | inr bad ↦ absurd (ground arith)
    | inl good ↦
        elim (Option-cases
          (get_chunk_by_digest k.blake3 k.level k.compress k.decompress s r.chunk_digest)) [
            | inl failed ↦ absurd (ground arith)
            | inr (found, got) ↦ elim (Option-cases found) [
              | inl missing ↦ absurd (ground arith)
              | inr (chunk, there) ↦
                  elim (Option-cases
                    (concat_chunks k.blake3 k.level k.compress k.decompress s rows)) [
                      | inl stuck ↦ absurd (ground arith)
                      | inr (more, read) ↦
                          let streamed = stream_chunks-concat_chunks s rows more read in
                          ground arith
                    ]
            ]
          ]
  ]

  -- A file that reads is written the same.
  pub write_file_data_to-read_file_data :
      (s : CastoreBackend) (digest bytes : Bytes)
      → read_file_data k.blake3 k.level k.compress k.decompress s digest ≡ some bytes
      → write_file_data_to k s digest ≡ some bytes
  unfolding read_file_data write_file_data_to
  write_file_data_to-read_file_data s digest bytes h = stream_chunks-concat_chunks s _ bytes h

module _ (k : Codecs) (laws : CodecLaws k) (s : CastoreBackend) (valid : IsValid k s) where
  nothing_present :
      (f : Bytes) (i : ℕ) (cs : List Bytes) → rows_from k f i cs ≡ [] → All (HasChunk k s) cs
  unfolding rows_from
  nothing_present f i [] h = tt
  nothing_present f i (c ∷ cs) h = absurd (ground arith)

  -- The chunks of a file whose rows are there are there too.
  HasFile-FileStored : (bytes : Bytes) → HasFile k s bytes → FileStored k laws s bytes
  HasFile-FileStored bytes rows = (
    rows,
    elim (valid.file_valid (k.blake3 bytes)) [
      | inl empty ↦ nothing_present (k.blake3 bytes) 0 (k.cdc bytes) (sym rows ∙ empty)
      | inr (b, same, others, present) ↦
          subst (λ x. All (HasChunk k s) (k.cdc x)) (laws.collision_free b bytes same) present
    ],
  )

  mutual
    unfolding Held Provided castore_streamer

    pub castore_streamer-Provided :
        (node : NarNode) → Held k s node → Provided k (castore_streamer k s) node
    castore_streamer-Provided (regular executable bytes) held =
        write_file_data_to-read_file_data k s (k.blake3 bytes) bytes
          (read_file_data-FileStored k laws s bytes valid (HasFile-FileStored bytes held))
    castore_streamer-Provided (directory entries) (found, below) =
        (load-added k laws (entries_of k entries) s found, entries-Provided entries below)
    castore_streamer-Provided (symlink target) held = tt

    entries-Provided :
        (entries : Entries)
        → HeldEntries k s entries
        → ProvidedEntries k (castore_streamer k s) entries
    entries-Provided end h = tt
    entries-Provided (entry name node es) (here, rest) =
        (castore_streamer-Provided node here, entries-Provided es rest)
