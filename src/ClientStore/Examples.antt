-- ===== src/ClientStore/Examples.antt =====
-- A concrete chunk store of the client: two paths, of which a file of 100 bytes and one of 200 are stored.
use ekapkgs_cli.Prelude.{
  ℕ, ◌+◌, ◌<◌, ◌≡◌, refl, true, false, Option, some, List, [], ◌∷◌, Bytes, bytes_eq, contains, any,
  retain, replicate, map, AllDistinct, arith,
}
use mathlib.Core.List.Perm
use ekapkgs_cli.Nar.Streaming.{CaNode, file_node}
use ekapkgs_cli.Castore.Ingest.Codec.{codecs}
use ekapkgs_cli.ClientStore.{
  StoredChunk, CasRoot, ChunkStore, total_size, total_chunk_bytes, evict_root, evict_to_size,
}
use ekapkgs_cli.ClientStore.Evict.{is_other, evict_root-others, evict_to_size-cas_paths}
use ekapkgs_cli.ClientStore.Accounts.{evict_to_size-total_chunk_bytes}

abbrev digest : ℕ → Bytes
digest n = n ∷ replicate 31 0

-- The root of a path is a file, whose digest its encoding is.
abbrev decode_node : Bytes → Option CaNode
decode_node b = some (file_node (some b) 0 false)

abbrev store : ChunkStore
store = record {
  chunks =
      (record { digest = digest 1; size = 100 }) ∷ (record { digest = digest 2; size = 200 }) ∷ [];
  file_chunks =
      (record {
        file_digest = digest 3;
        chunk_index = 0;
        chunk_digest = digest 1;
        chunk_size = 100;
      })
      ∷ (record {
        file_digest = digest 4;
        chunk_index = 0;
        chunk_digest = digest 2;
        chunk_size = 200;
      })
      ∷ [];
  directories = [];
  cas_paths =
      (record { hash = 1 ∷ []; root_node = digest 3; added_at = 10 })
      ∷ (record { hash = 2 ∷ []; root_node = digest 4; added_at = 20 })
      ∷ [];
  files = [];
}

abbrev as_added : List CasRoot → List CasRoot
as_added ps = ps

others : any (is_other (1 ∷ [])) (retain (is_other (1 ∷ [])) store.cas_paths) ≡ true
unfolding any retain bytes_eq
others = refl

evict_root-others_example :
    evict_root codecs decode_node 1 (1 ∷ []) store 0
    ≡ (record store { cas_paths = retain (is_other (1 ∷ [])) store.cas_paths }, 0)
evict_root-others_example = evict_root-others codecs decode_node 1 (1 ∷ []) store 0 others

full : 299 < total_chunk_bytes store
unfolding total_chunk_bytes total_size
full = omega arith

evict_to_size-cas_paths_example :
    (evict_to_size codecs decode_node 1 as_added 299 store).0.cas_paths ≡ []
evict_to_size-cas_paths_example =
    evict_to_size-cas_paths codecs decode_node 1 as_added Perm.refl 299 store full

distinct : AllDistinct (map StoredChunk.digest store.chunks)
unfolding contains bytes_eq
distinct = (refl, (refl, tt))

evict_to_size-total_chunk_bytes_example :
    total_chunk_bytes (evict_to_size codecs decode_node 1 as_added 299 store).0
      + (evict_to_size codecs decode_node 1 as_added 299 store).1
    ≡ total_chunk_bytes store
evict_to_size-total_chunk_bytes_example =
    evict_to_size-total_chunk_bytes codecs decode_node 1 as_added 299 store distinct
