-- ===== src/Castore/DirCache/Examples.antt =====
-- A cache for one directory over a store that holds an archive.
use ekapkgs_cli.Prelude.{◌≡◌, refl, true, [], ◌∷◌, Bytes, arith}
use ekapkgs_cli.Nar.{Entries, regular, directory, end, entry}
use ekapkgs_cli.Castore.{CastoreBackend}
use ekapkgs_cli.Castore.Ingest.{ingest_node, load_directory}
use ekapkgs_cli.Castore.Ingest.Provided.{entries_of}
use ekapkgs_cli.Castore.Ingest.Codec.{codecs, put_directory, digest_of}
use ekapkgs_cli.Castore.DirCache.{new, find_cached, load_directory_through}
use ekapkgs_cli.Castore.DirCache.Bounded.{Agrees, IsBounded}
use ekapkgs_cli.Castore.DirCache.Laws.{load_directory_through_lem}

abbrev files : Entries
files = entry (1 ∷ []) (regular true (7 ∷ 8 ∷ [])) end

abbrev backend : CastoreBackend
backend =
    (ingest_node codecs (directory files) (record {
      cas_paths = [];
      path_files = [];
      file_chunks = [];
      chunks = [];
      files = [];
      directories = [];
    })).1

abbrev root : Bytes
root = digest_of (put_directory (entries_of codecs files))

new-Agrees : Agrees codecs backend (new 1)
unfolding new find_cached
new-Agrees d es found = absurd (ground arith)

new-IsBounded : IsBounded (new 1)
unfolding new
new-IsBounded = (
  record { order_distinct = tt; keys_distinct = tt; lengths = refl; members = λ x. refl },
  omega arith,
)

load_directory_through_lem_example :
    ((load_directory_through codecs backend root (new 1)).0 ≡ load_directory codecs backend root)
    × Agrees codecs backend (load_directory_through codecs backend root (new 1)).1
    × IsBounded (load_directory_through codecs backend root (new 1)).1
load_directory_through_lem_example =
    load_directory_through_lem codecs backend root (new 1) new-Agrees new-IsBounded
