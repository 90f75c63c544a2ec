-- ===== src/Gc/Loops/Examples.antt =====
-- Concrete runs of the background tasks.
use ekapkgs_cli.Prelude.{
  ℕ, ◌+◌, ◌≤◌, ◌<◌, ◌≡◌, refl, ◌⊎◌, true, none, some, List, [], ◌∷◌, Bytes, replicate, contains,
  codes, All, arith,
}
use ekapkgs_cli.Castore.{CasPath, CastoreBackend, total_size, total_chunk_bytes}
use ekapkgs_cli.Gc.Loops.{
  GcEvent, access, tick, gc_loop, cas_gc_loop, CasGcResult, cas_maybe_run_gc,
}
use mathlib.Core.List.Perm
use ekapkgs_cli.Gc.{Cache}
use ekapkgs_cli.Gc.Loops.Accesses.{has_tick}
use ekapkgs_cli.Gc.Loops.Recent.{IsRecent, IsRecentPath, gc_loop-access}
use ekapkgs_cli.Gc.Loops.Cas.{evict_each, cas_maybe_run_gc_target}
use ekapkgs_cli.Gc.Loops.Backend.{castore_operations, castore_laws, HasKeys}

abbrev digest : ℕ → Bytes
digest n = replicate 32 n

abbrev store : CastoreBackend
store = record {
  cas_paths = (record { hash = 1 ∷ []; root_node = []; nar_size = 300; last_access = 0 }) ∷ [];
  path_files = (record { path_hash = 1 ∷ []; file_digest = digest 10 }) ∷ [];
  file_chunks =
      (record {
        file_digest = digest 10;
        chunk_index = 0;
        chunk_digest = digest 20;
        chunk_size = 3;
      })
      ∷ [];
  chunks =
      (record {
        digest = digest 20;
        size = 3;
        zstd_level = none;
        disk_size = 0;
        inline_data = some (1 ∷ 2 ∷ 3 ∷ []);
      })
      ∷ [];
  files = [];
  directories = [];
}

abbrev by_access : List CasPath → List CasPath
by_access ps = ps

store-HasKeys : HasKeys true by_access store
unfolding contains
store-HasKeys = (refl, tt)

full : 2 < total_chunk_bytes store
unfolding total_chunk_bytes total_size
full = omega arith

cas_maybe_run_gc_target_example :
    (r : CasGcResult CastoreBackend) × (cas_maybe_run_gc
        (castore_operations true by_access)
        2
        1
        store
      ≡ some r)
    × (total_chunk_bytes r.store + r.freed ≡ total_chunk_bytes store)
    × ((total_chunk_bytes r.store ≤ 1)
        ⊎ (r.store ≡ evict_each (castore_operations true by_access) ((1 ∷ []) ∷ []) store))
cas_maybe_run_gc_target_example =
    cas_maybe_run_gc_target (castore_operations true by_access) total_chunk_bytes
      (HasKeys true by_access) (castore_laws true by_access) 2 1 ((1 ∷ []) ∷ []) store store-HasKeys
      full refl refl

abbrev cache : Cache
cache = record {
  store_paths =
      (record {
        hash = 1 ∷ [];
        store_path = codes "/nix/store/a-b";
        nar_url = codes "nar/a.nar";
        file_size = 4;
        narinfo_size = 1;
        last_access = 0;
        added_at = 0;
      })
      ∷ [];
  refs = [];
  files = [];
}

-- The path is accessed at 7300, and both stores are within their limit.
abbrev events : List (ℕ × GcEvent)
events = (7400, access (2 ∷ [])) ∷ (7500, tick) ∷ (7600, access (1 ∷ [])) ∷ []

gc_loop-access_example :
    All
      (IsRecent (1 ∷ []) 7300)
      (gc_loop
        (λ ps. ps)
        9
        5
        ((7300, access (1 ∷ [])) ∷ events)
        (record { pending = []; store = cache })).store.store_paths
    × All
        (IsRecentPath (1 ∷ []) 7300)
        (cas_gc_loop
          (castore_operations true by_access)
          9
          5
          ((7300, access (1 ∷ [])) ∷ events)
          (record { pending = []; store = store })).store.cas_paths
unfolding has_tick
gc_loop-access_example =
    gc_loop-access (λ ps. ps) Perm.refl true by_access 9 5 (1 ∷ []) 7300 events
      (record { pending = []; store = cache }) (record { pending = []; store = store })
      (omega arith, (omega arith, (omega arith, tt))) refl
