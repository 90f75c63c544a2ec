-- ===== src/Gc/Loops/Backend.antt =====
-- The content-addressed store of crates/ekapkgs-serve/src/storage/castore.rs as the store that
-- crates/ekapkgs-serve/src/gc.rs collects.
use ekapkgs_cli.Prelude.{ℕ, ◌+◌, ◌≡◌, refl, Bool, some, List, Bytes, map, AllDistinct, arith}
use ekapkgs_cli.Castore.{CasPath, CastoreBackend, total_chunk_bytes, evict_path}
use ekapkgs_cli.Castore.Reclaim.{digests, evict_path-total_chunk_bytes, evict_path-AllDistinct}
use ekapkgs_cli.Gc.Loops.{CasOperations}
use ekapkgs_cli.Gc.Loops.Cas.{CasLaws}

-- `ready` is the flag of `path_files_ready`, `order_by` the query's `ORDER BY last_access ASC`.
module _ (ready : Bool) (order_by : List CasPath → List CasPath) where
  abbrev pub castore_operations : CasOperations CastoreBackend
  castore_operations = record {
    total_chunk_bytes = λ s. some (total_chunk_bytes s);
    path_files_ready = λ s. ready;
    paths_by_access_asc = λ s. some (map CasPath.hash (order_by s.cas_paths));
    evict_path = λ hash s. ((evict_path hash s).0, some (evict_path hash s).1);
  }

  abbrev pub HasKeys : CastoreBackend → Type 0
  HasKeys s = AllDistinct (digests s.chunks)

  freed_bytes :
      (hash : Bytes) (s : CastoreBackend) (bytes : ℕ)
      → HasKeys s
      → some (evict_path hash s).1 ≡ some bytes
      → total_chunk_bytes (evict_path hash s).0 + bytes ≡ total_chunk_bytes s
  freed_bytes hash s bytes keys ok = ground (arith, evict_path-total_chunk_bytes hash s keys)

  pub castore_laws : CasLaws CastoreBackend castore_operations total_chunk_bytes HasKeys
  castore_laws = record {
    total = λ s. refl;
    valid = λ hash s keys. evict_path-AllDistinct hash s keys;
    freed = freed_bytes;
    failed = λ hash s keys err. absurd (ground arith);
  }
