-- ===== src/Castore/Ingest/Codec/Pull.antt =====
-- A concrete pull: an archive in the server's store, a client that has nothing.
use ekapkgs_cli.Prelude.{
  ◌≤◌, ◌≡◌, refl, sym, ap, subst, inl, inr, true, false, Option, none, some, List, [], ◌∷◌, ◌++◌,
  map, Bytes, bytes_eq, codes, contains, retain, any, if◌then◌else◌, All, Any, arith,
}
use ekapkgs_cli.Nar.{NarNode, regular, directory, end, entry}
use ekapkgs_cli.Nar.Writer.{write_nar}
use ekapkgs_cli.Nar.Streaming.{write_nar_streaming}
use ekapkgs_cli.Castore.{
  CastoreBackend, find_chunk, find_file, chunks_of, store_chunk, insert_chunk_row, write_chunk_file,
  insert_file_chunk_row, insert_by_index, order_by_index,
}
use ekapkgs_cli.Castore.Ingest.{
  find_directory, ingest_node, ingest_entries, insert_directory, ingest_file, store_chunks,
  rows_from, insert_rows, load_directory, total_length, count_entries, depth, sort_node,
}
use ekapkgs_cli.Castore.Ingest.Valid.{Extends}
use ekapkgs_cli.Castore.Ingest.Provided.{node_of, entries_of}
use ekapkgs_cli.Castore.Ingest.Codec.{
  codecs, codecs-CodecLaws, put_node, decode_root, decode_root-put_node, digest_of, get_node,
  get_file, get_directory, get_symlink, put_bytes, get_bytes, put_optional, get_optional, flag,
  put_child, get_child, put_entries, get_entries, put_directory, get_directory_message, number,
  pair, one_by_one, unpack,
}
use ekapkgs_cli.Castore.Walk.{
  exact, TreeWalk, find_cas_root, walk_cas_trees, chunk_response, hex_encode, walk_wanted,
  walk_cas_node, walk_entries, walk_file, see_directory, add_directory, collect_missing,
  add_mapping, row_chunks, has_chunk, chunk_download,
}
use ekapkgs_cli.Castore.Walk.Held.{Held-Extends, ingest_node-Held}
use ekapkgs_cli.Castore.Walk.Covers.{
  AreHeld, walk_cas_trees-Covers, write_nar_streaming-walk_cas_trees,
}
use ekapkgs_cli.ClientStore.{ChunkStore, all_chunk_digests, chunk_store_reader}
use ekapkgs_cli.ClientStore.Valid.{IsValid}
use ekapkgs_cli.ClientStore.Pull.{ChunkDownload, index_response, store_results, download_chunk}
use ekapkgs_cli.ClientStore.Pull.RoundTrip.{
  AreResults, IsSound, Covers, write_nar_streaming-index_response,
}
use ekapkgs_cli.Castore.Ingest.Valid

-- Two equal files.
abbrev tree : NarNode
tree =
    directory (entry (2 ∷ []) (regular true (1 ∷ [])) (entry (1 ∷ []) (regular true (1 ∷ [])) end))

abbrev empty : CastoreBackend
empty = record {
  cas_paths = [];
  path_files = [];
  file_chunks = [];
  chunks = [];
  files = [];
  directories = [];
}

empty-IsValid : Valid.IsValid codecs empty
unfolding find_chunk find_file chunks_of retain find_directory
empty-IsValid = record {
  chunk_valid = λ d c found. absurd (ground arith);
  no_orphan = λ d content found. absurd (ground arith);
  file_valid = λ f. inl refl;
  directory_valid = λ d e found. absurd (ground arith);
}

abbrev server : CastoreBackend
server = record (ingest_node codecs tree empty).1 {
  cas_paths =
      (record {
        hash = 5 ∷ [];
        root_node = put_node (node_of codecs tree);
        nar_size = 0;
        last_access = 0;
      })
      ∷ [];
}

abbrev client : ChunkStore
client = record { chunks = []; file_chunks = []; directories = []; cas_paths = []; files = [] }

client-IsValid : IsValid codecs client
unfolding find_file chunks_of retain find_directory all_chunk_digests contains
client-IsValid = record {
  chunk_valid = λ d x found. absurd (ground arith);
  recorded = λ d found. absurd (ground arith);
  file_valid = λ f. inl refl;
  directory_valid = λ d e found. absurd (ground arith);
}

unchanged : Extends codecs (ingest_node codecs tree empty).1 server
unchanged = record { chunks = λ x h. h; files = λ b h. h; directories = λ d e h. h }

wanted-AreHeld : AreHeld codecs codecs-CodecLaws server decode_root 2 ((5 ∷ []) ∷ []) (tree ∷ [])
unfolding find_cas_root bytes_eq depth
wanted-AreHeld = (
  (put_node (node_of codecs tree), refl, decode_root-put_node (node_of codecs tree)),
  Held-Extends codecs (ingest_node codecs tree empty).1 server tree unchanged
      (ingest_node-Held codecs codecs-CodecLaws tree empty empty-IsValid),
  omega arith,
  tt,
)

abbrev unwalked : TreeWalk
unwalked = record {
  chunk_seen = [];
  missing_chunks = [];
  dir_seen = [];
  directories = [];
  file_seen = [];
  file_mappings = [];
}

walk_of : Option TreeWalk → TreeWalk
walk_of none = unwalked
walk_of (some w) = w

walk_of-some : (o : Option TreeWalk) (v : TreeWalk) → o ≡ some v → o ≡ some (walk_of o)
unfolding walk_of
walk_of-some none v h = cc
walk_of-some (some w) v h = refl

walk : TreeWalk
walk =
    walk_of (
      walk_cas_trees codecs (exact (all_chunk_digests client)) server decode_root 2 ((5 ∷ []) ∷ []))

walked :
    walk_cas_trees codecs (exact (all_chunk_digests client)) server decode_root 2 ((5 ∷ []) ∷ [])
    ≡ some walk
unfolding walk
walked =
    let (v, same, _, _) =
      walk_cas_trees-Covers codecs codecs-CodecLaws server decode_root 2 (all_chunk_digests client)
        ((5 ∷ []) ∷ []) (tree ∷ []) wanted-AreHeld in
    walk_of-some _ v same

get_url : Bytes → Option Bytes
get_url url =
    if bytes_eq url (codes "cas/chunk/" ++ hex_encode (digest_of (1 ∷ [])))
    then some (1 ∷ [])
    else none

results : List (Option (Bytes × Bytes))
results = map (download_chunk codecs get_url) (chunk_response walk).missing_chunks

in_order :
    (missing : List ChunkDownload)
    → AreResults codecs get_url missing (map (download_chunk codecs get_url) missing)
in_order missing = (answered missing, asked missing)
  where
    earlier :
        (c : ChunkDownload) (r : Option (Bytes × Bytes)) (missing : List ChunkDownload)
        (rs : List (Option (Bytes × Bytes)))
        → All (λ d. Any (λ q. q ≡ download_chunk codecs get_url d) rs) missing
        → All (λ d. Any (λ q. q ≡ download_chunk codecs get_url d) (r ∷ rs)) missing
    earlier c r [] rs h = tt
    earlier c r (d ∷ missing) rs h = (inr h.0, earlier c r missing rs h.1)

    answered :
        (missing : List ChunkDownload)
        → All
            (λ d.
              Any
                (λ q. q ≡ download_chunk codecs get_url d)
                (map (download_chunk codecs get_url) missing))
            missing
    answered [] = tt
    answered (d ∷ missing) = (inl refl, earlier d _ missing _ (answered missing))

    asked :
        (missing : List ChunkDownload)
        → All
            (λ r. (c : ChunkDownload) × (r ≡ download_chunk codecs get_url c))
            (map (download_chunk codecs get_url) missing)
    asked [] = tt
    asked (d ∷ missing) = ((d, refl), asked missing)

missing_one : results ≡ some (digest_of (1 ∷ []), 1 ∷ []) ∷ []
unfolding results walk walk_of get_url codecs decode_root get_node get_file get_directory
    get_symlink put_node put_bytes get_bytes put_optional get_optional flag put_child get_child
    put_entries get_entries put_directory get_directory_message number pair digest_of one_by_one
    unpack walk_cas_trees walk_wanted walk_cas_node walk_entries walk_file see_directory
    add_directory collect_missing add_mapping row_chunks has_chunk find_cas_root chunk_response
    chunk_download hex_encode all_chunk_digests ingest_node ingest_entries insert_directory
    ingest_file store_chunks rows_from insert_rows load_directory find_directory total_length
    count_entries download_chunk node_of entries_of store_chunk insert_chunk_row find_chunk
    find_file write_chunk_file insert_file_chunk_row insert_by_index order_by_index chunks_of retain
    contains any bytes_eq
missing_one = refl

none_failed : (store_results results (index_response codecs (chunk_response walk) client)).1 ≡ false
unfolding store_results
none_failed =
    subst (λ rs. (store_results rs (index_response codecs (chunk_response walk) client)).1 ≡ false)
      (sym missing_one) refl

results-AreResults : AreResults codecs get_url (chunk_response walk).missing_chunks results
unfolding results
results-AreResults = in_order (chunk_response walk).missing_chunks

walk_cas_trees-Covers_example :
    (w : TreeWalk) × (walk_cas_trees codecs
        (exact (all_chunk_digests client))
        server
        decode_root
        2
        ((5 ∷ []) ∷ [])
      ≡ some w)
    × IsSound codecs (chunk_response w)
    × All (Covers codecs (chunk_response w) (all_chunk_digests client)) (tree ∷ [])
walk_cas_trees-Covers_example =
    walk_cas_trees-Covers codecs codecs-CodecLaws server decode_root 2 (all_chunk_digests client)
      ((5 ∷ []) ∷ []) (tree ∷ []) wanted-AreHeld

write_nar_streaming-walk_cas_trees_example :
    All
      (λ node.
        write_nar_streaming
          (chunk_store_reader codecs
            (store_results results (index_response codecs (chunk_response walk) client)).0)
          2
          (node_of codecs node)
        ≡ some (write_nar (sort_node node)))
      (tree ∷ [])
write_nar_streaming-walk_cas_trees_example =
    write_nar_streaming-walk_cas_trees codecs codecs-CodecLaws server decode_root 2 ((5 ∷ []) ∷ [])
      (tree ∷ []) client walk get_url results wanted-AreHeld client-IsValid walked
      results-AreResults none_failed

-- The answer alone, for the tree.
answer-IsSound :
    IsSound codecs (chunk_response walk)
    × All (Covers codecs (chunk_response walk) (all_chunk_digests client)) (tree ∷ [])
unfolding walk walk_of
answer-IsSound =
    let (v, same, sound, covers) =
      walk_cas_trees-Covers codecs codecs-CodecLaws server decode_root 2 (all_chunk_digests client)
        ((5 ∷ []) ∷ []) (tree ∷ []) wanted-AreHeld in
    let eq : v
        ≡ walk_of (
            walk_cas_trees codecs (exact (all_chunk_digests client)) server decode_root 2
              ((5 ∷ []) ∷ [])) =
      sym (ap walk_of same) in
    (
      subst (λ x. IsSound codecs (chunk_response x)) eq sound,
      subst (λ x. All (Covers codecs (chunk_response x) (all_chunk_digests client)) (tree ∷ [])) eq
          covers,
    )

shallow : depth tree ≤ 2
unfolding depth
shallow = omega arith

write_nar_streaming-index_response_example :
    write_nar_streaming
      (chunk_store_reader codecs
        (store_results results (index_response codecs (chunk_response walk) client)).0)
      2
      (node_of codecs tree)
    ≡ some (write_nar (sort_node tree))
write_nar_streaming-index_response_example =
    write_nar_streaming-index_response codecs codecs-CodecLaws get_url (chunk_response walk) results
      tree client 2 client-IsValid answer-IsSound.0 (answer-IsSound.1).0 results-AreResults
      none_failed shallow
