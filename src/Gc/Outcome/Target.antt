-- ===== src/Gc/Outcome/Target.antt =====
-- The guarantees of `maybe_run_gc` of gc.rs, whatever order the database gives the rows.
use ekapkgs_cli.Prelude.{
  ℕ, ◌+◌, ◌-◌, ◌≤◌, ◌<◌, ◌≡◌, ◌⊎◌, sym, not, some, List, contains, retain, retain_all, length, leb,
  ◌==◌, All, AllDistinct, arith, Bool-cases, inl, inr, subst,
}
use mathlib.Core.List.{Perm}
use ekapkgs_cli.Gc.{
  StorePath, Cache, GcResult, total_size, unchanged, entries_of, finish, run_gc, maybe_run_gc,
}
use ekapkgs_cli.Gc.Evict.{Sweep, start, rounds}
use ekapkgs_cli.Gc.Evict.Safety.{IsUnbroken, nothing_evicted, rounds-IsUnbroken}
use ekapkgs_cli.Gc.Evict.Progress.{IsSettled, rounds_end, rounds-IsSettled}
use ekapkgs_cli.Gc.Order.{row_hashes}
use ekapkgs_cli.Gc.Outcome.{finish-store_paths, finish-evict_set, finish-freed, finish-total_size}

-- What a run returned: the cache as it was, or the loops' outcome.
data Ran (order_by : List StorePath → List StorePath) (c : Cache) (max_size target_size : ℕ)
    : GcResult → Type 0 where
  small : total_size c.store_paths ≤ max_size → Ran order_by c max_size target_size (unchanged c)
  reached :
      total_size c.store_paths ≤ target_size → Ran order_by c max_size target_size (unchanged c)
  collected :
      (s : Sweep)
      → target_size < total_size c.store_paths
      → rounds
          (entries_of order_by c)
          c.refs
          (total_size c.store_paths - target_size)
          (length (entries_of order_by c) + 1)
          start
        ≡ some s
      → Ran order_by c max_size target_size (finish order_by c s)

module _ (order_by : List StorePath → List StorePath) (c : Cache) (max_size target_size : ℕ) where
  -- Every run of the collector ends with a result: the rounds that its loop is given are enough.
  pub maybe_run_gc_end : (r : GcResult) × (maybe_run_gc order_by c max_size target_size ≡ some r)
  unfolding maybe_run_gc run_gc
  maybe_run_gc_end = elim (Bool-cases (leb (total_size c.store_paths) max_size)) [
    | inl few ↦ (unchanged c, ground arith)
    | inr many ↦ elim (Bool-cases ((total_size c.store_paths - target_size) == 0)) [
      | inl done ↦ (unchanged c, ground arith)
      | inr more ↦
          let (s, e) =
            rounds_end (entries_of order_by c) c.refs (total_size c.store_paths - target_size) in
          (finish order_by c s, ground arith)
    ]
  ]

  ran :
      (r : GcResult)
      → maybe_run_gc order_by c max_size target_size ≡ some r
      → Ran order_by c max_size target_size r
  unfolding maybe_run_gc run_gc
  ran r h = elim (Bool-cases (leb (total_size c.store_paths) max_size)) [
    | inl few ↦
        let same : unchanged c ≡ r = ground arith in
        subst (Ran order_by c max_size target_size) same (small (ground arith))
    | inr many ↦ elim (Bool-cases ((total_size c.store_paths - target_size) == 0)) [
      | inl done ↦
          let same : unchanged c ≡ r = ground arith in
          subst (Ran order_by c max_size target_size) same (reached (ground arith))
      | inr more ↦
          let (s, e) =
            rounds_end (entries_of order_by c) c.refs (total_size c.store_paths - target_size) in
          let same : finish order_by c s ≡ r = ground arith in
          subst (Ran order_by c max_size target_size) same (collected s (ground arith) e)
    ]
  ]

module _ (order_by : List StorePath → List StorePath)
    (reorders : (ps : List StorePath) → Perm (order_by ps) ps) (c : Cache)
    (max_size target_size : ℕ) (r : GcResult)
    (ended : maybe_run_gc order_by c max_size target_size ≡ some r) where
  -- Where the stored hashes are pairwise different: the bytes freed and the bytes that stay make up the
  -- bytes before, and afterwards the cache had been within its limit, or is within its target, or each
  -- stored path is evicted or referred to by another stored path that is kept.
  pub maybe_run_gc_target :
      AllDistinct (row_hashes c.store_paths)
      → (total_size r.cache.store_paths + r.freed ≡ total_size c.store_paths)
        × ((total_size c.store_paths ≤ max_size)
            ⊎ ((total_size r.cache.store_paths ≤ target_size)
                ⊎ All
                    (IsSettled (entries_of order_by c) c.refs r.evict_set)
                    (entries_of order_by c)))
  maybe_run_gc_target distinct = target_of (ran order_by c max_size target_size r ended)
    where
      target_of :
          {q : GcResult}
          → Ran order_by c max_size target_size q
          → (total_size q.cache.store_paths + q.freed ≡ total_size c.store_paths)
            × ((total_size c.store_paths ≤ max_size)
                ⊎ ((total_size q.cache.store_paths ≤ target_size)
                    ⊎ All
                        (IsSettled (entries_of order_by c) c.refs q.evict_set)
                        (entries_of order_by c)))
      target_of (small h) = (omega arith, inl h)
      target_of (reached h) = (omega arith, inr (inl h))
      target_of (collected s want e) =
          let to_free : ℕ = total_size c.store_paths - target_size in
          let fuel : ℕ = length (entries_of order_by c) + 1 in
          let total = finish-total_size order_by reorders c distinct to_free fuel s e in
          (
            rw (finish-freed order_by reorders c distinct to_free fuel s e) total,
            inr (elim (rounds-IsSettled (entries_of order_by c) c.refs to_free fuel start s e) [
              | inl enough ↦ inl (omega (arith, total, enough, want))
              | inr settled ↦ inr (rw (finish-evict_set order_by reorders c s) settled)
            ]),
          )

  -- The rows that stay are exactly those whose hash is not in the evicted set, and no path that stays
  -- loses one that it refers to: of every reference to an evicted path the referrer is evicted too, or
  -- is not stored, or is that path itself.
  pub maybe_run_gc-IsUnbroken :
      (r.cache.store_paths
        ≡ retain (λ (p : StorePath). not (contains p.hash r.evict_set)) c.store_paths)
      × All (IsUnbroken (entries_of order_by c) r.evict_set) c.refs
  maybe_run_gc-IsUnbroken = unbroken_of (ran order_by c max_size target_size r ended)
    where
      unbroken_of :
          {q : GcResult}
          → Ran order_by c max_size target_size q
          → (q.cache.store_paths
              ≡ retain (λ (p : StorePath). not (contains p.hash q.evict_set)) c.store_paths)
            × All (IsUnbroken (entries_of order_by c) q.evict_set) c.refs
      unbroken_of (small h) = (
        sym (unfold contains in retain_all c.store_paths),
        nothing_evicted (entries_of order_by c) c.refs,
      )
      unbroken_of (reached h) = (
        sym (unfold contains in retain_all c.store_paths),
        nothing_evicted (entries_of order_by c) c.refs,
      )
      unbroken_of (collected s want e) = rw (finish-evict_set order_by reorders c s) (
        finish-store_paths order_by reorders c s,
        rounds-IsUnbroken (entries_of order_by c) c.refs (total_size c.store_paths - target_size)
            (length (entries_of order_by c) + 1) s e,
      )
