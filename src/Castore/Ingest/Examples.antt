-- ===== src/Castore/Ingest/Examples.antt =====
-- Concrete archives in the content-addressed store.
use ekapkgs_cli.Prelude.{◌≤◌, ◌≡◌, refl, true, some, [], ◌∷◌, inl, codes, arith}
use ekapkgs_cli.Nar.{NarNode, regular, directory, symlink, end, entry}
use ekapkgs_cli.Nar.Writer.{write_nar}
use ekapkgs_cli.Nar.Streaming.{reconstruct_node, write_nar_streaming}
use ekapkgs_cli.Castore.{CastoreBackend, find_chunk, find_file, chunks_of}
use ekapkgs_cli.Prelude.{retain}
use ekapkgs_cli.Castore.Ingest.{
  find_directory, ingest_node, castore_reader, castore_streamer, depth, sort_node,
}
use ekapkgs_cli.Castore.Ingest.Valid.{IsValid, Extends}
use ekapkgs_cli.Castore.Ingest.Extends.{Extends-refl}
use ekapkgs_cli.Castore.Ingest.Codec.{codecs, codecs-CodecLaws}
use ekapkgs_cli.Castore.Ingest.RoundTrip.{ingest_node-IsValid, write_nar_streaming-ingest_node}
use ekapkgs_cli.Castore.Ingest.Decompose.{decompose_nar, decompose_nar-ingest_node}

abbrev empty : CastoreBackend
empty = record {
  cas_paths = [];
  path_files = [];
  file_chunks = [];
  chunks = [];
  files = [];
  directories = [];
}

empty-IsValid : IsValid codecs empty
unfolding find_chunk find_file chunks_of retain find_directory
empty-IsValid = record {
  chunk_valid = λ d c found. absurd (ground arith);
  no_orphan = λ d content found. absurd (ground arith);
  file_valid = λ f. inl refl;
  directory_valid = λ d e found. absurd (ground arith);
}

-- Two equal files, out of order.
abbrev tree : NarNode
tree = directory (
    entry (codes "b") (regular true (7 ∷ 8 ∷ []))
      (entry (codes "a") (regular true (7 ∷ 8 ∷ [])) (entry (codes "c") (symlink (codes "a")) end)))

ingest_node-IsValid_example :
    IsValid codecs (ingest_node codecs tree empty).1
    × Extends codecs empty (ingest_node codecs tree empty).1
ingest_node-IsValid_example = ingest_node-IsValid codecs codecs-CodecLaws tree empty empty-IsValid

shallow : depth tree ≤ 2
unfolding depth
shallow = omega arith

write_nar_streaming-ingest_node_example :
    (reconstruct_node
        (castore_reader codecs (ingest_node codecs tree empty).1)
        2
        (ingest_node codecs tree empty).0
      ≡ some (sort_node tree))
    × (write_nar_streaming
          (castore_streamer codecs (ingest_node codecs tree empty).1)
          2
          (ingest_node codecs tree empty).0
        ≡ some (write_nar (sort_node tree)))
write_nar_streaming-ingest_node_example =
    write_nar_streaming-ingest_node codecs codecs-CodecLaws tree empty
      (ingest_node codecs tree empty).1 2 empty-IsValid
      (ingest_node-IsValid codecs codecs-CodecLaws tree empty empty-IsValid).0
      (Extends-refl codecs (ingest_node codecs tree empty).1) shallow

decompose_nar-ingest_node_example :
    (decompose_nar codecs tree).root_node ≡ (ingest_node codecs tree empty).0
decompose_nar-ingest_node_example = decompose_nar-ingest_node codecs codecs-CodecLaws tree empty
