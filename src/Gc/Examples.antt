-- ===== src/Gc/Examples.antt =====
-- Runs of the collector, and the theorems at concrete inputs.
use ekapkgs_cli.Prelude.{
  ℕ, ◌+◌, ◌≤◌, ◌<◌, ◌≡◌, ◌⊎◌, refl, Bool, not, some, List, [], ◌∷◌, Bytes, bytes_eq, codes,
  contains, retain, All, AllDistinct, arith,
}
use mathlib.Core.List.Perm
use ekapkgs_cli.Gc.{
  StorePath, Cache, GcResult, total_size, entries_of, maybe_run_gc, run_gc, finish, delete_entries,
  delete_entry, remove_file,
}
use ekapkgs_cli.Gc.Evict.{Sweep, start, rounds, sweep, pinned, referenced_by}
use ekapkgs_cli.Gc.Evict.Safety.{IsUnbroken, rounds_frugal}
use ekapkgs_cli.Gc.Evict.Progress.{IsSettled}
use ekapkgs_cli.Gc.Order.{row_hashes}
use ekapkgs_cli.Gc.Outcome.Target.{maybe_run_gc_end, maybe_run_gc_target, maybe_run_gc-IsUnbroken}

abbrev row : Bytes → ℕ → StorePath
row h size = record {
  hash = h;
  store_path = h;
  nar_url = h;
  file_size = size;
  narinfo_size = 1;
  last_access = 0;
  added_at = 0;
}

-- `a` is the oldest and `b` refers to it.
abbrev cache : Cache
cache = record {
  store_paths = row (codes "a") 9 ∷ row (codes "b") 19 ∷ row (codes "c") 29 ∷ [];
  refs = record { referrer = codes "b"; referee = codes "a" } ∷ [];
  files = codes "b.narinfo" ∷ codes "b" ∷ codes "c" ∷ [];
}

abbrev as_stored : List StorePath → List StorePath
as_stored ps = ps

abbrev evicted : Sweep
evicted = record { evict_set = codes "b" ∷ []; freed = 20; evicted_any = Bool.true }

rounds_run : rounds (entries_of as_stored cache) cache.refs 15 4 start ≡ some evicted
unfolding rounds sweep pinned referenced_by contains bytes_eq
rounds_run = refl

abbrev collected : GcResult
collected = record {
  cache = record {
    store_paths = row (codes "a") 9 ∷ row (codes "c") 29 ∷ [];
    refs = [];
    files = codes "c" ∷ [];
  };
  evict_set = codes "b" ∷ [];
  freed = 20;
}

-- The oldest path is pinned, so the next one goes.
gc_run : maybe_run_gc as_stored cache 50 45 ≡ some collected
unfolding maybe_run_gc run_gc finish delete_entries delete_entry remove_file total_size retain
    rounds sweep pinned referenced_by contains bytes_eq
gc_run = refl

distinct : AllDistinct (row_hashes cache.store_paths)
unfolding contains bytes_eq
distinct = (refl, (refl, (refl, tt)))

maybe_run_gc_end_example : (r : GcResult) × (maybe_run_gc as_stored cache 50 45 ≡ some r)
maybe_run_gc_end_example = maybe_run_gc_end as_stored cache 50 45

maybe_run_gc_target_example :
    (total_size collected.cache.store_paths + 20 ≡ total_size cache.store_paths)
    × ((total_size cache.store_paths ≤ 50)
        ⊎ ((total_size collected.cache.store_paths ≤ 45)
            ⊎ All
                (IsSettled (entries_of as_stored cache) cache.refs (codes "b" ∷ []))
                (entries_of as_stored cache)))
maybe_run_gc_target_example =
    maybe_run_gc_target as_stored Perm.refl cache 50 45 collected gc_run distinct

maybe_run_gc-IsUnbroken_example :
    (collected.cache.store_paths
      ≡ retain (λ (p : StorePath). not (contains p.hash (codes "b" ∷ []))) cache.store_paths)
    × All (IsUnbroken (entries_of as_stored cache) (codes "b" ∷ [])) cache.refs
maybe_run_gc-IsUnbroken_example =
    maybe_run_gc-IsUnbroken as_stored Perm.refl cache 50 45 collected gc_run

rounds_frugal_example : 20 < 15 + 30
rounds_frugal_example =
    rounds_frugal (entries_of as_stored cache) cache.refs 15 4 evicted rounds_run 30 (omega arith)
      (omega arith)
