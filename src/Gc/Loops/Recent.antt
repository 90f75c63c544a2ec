-- ===== src/Gc/Loops/Recent.antt =====
-- Recorded accesses reach the database: `gc_loop` and `cas_gc_loop`, crates/ekapkgs-serve/src/gc.rs.
use ekapkgs_cli.Prelude.{
  ℕ, ◌-◌, ◌%◌, ◌≤◌, ◌≡◌, ◌≢◌, ◌⊎◌, refl, ap, subst, inl, inr, Bool, true, false, some, List, [],
  ◌∷◌, Bytes, contains, length, leb, ◌==◌, map, retain, All, Bool-cases, Option-cases, arith,
  if◌then◌else◌,
}
use ekapkgs_cli.Gc.{StorePath, Cache, flush_accesses, maybe_run_gc}
use ekapkgs_cli.Gc.Outcome.Target.{maybe_run_gc-IsUnbroken}
use mathlib.Core.List.{Perm}
use ekapkgs_cli.Castore.{
  CasPath, CastoreBackend, total_chunk_bytes, owned_files, delete_path, evict_path, update_access,
}
use ekapkgs_cli.Gc.Loops.{
  GcEvent, access, LoopState, gc_loop, CasGcResult, evict_loop, untouched, cas_maybe_run_gc,
  cas_gc_loop,
}
use ekapkgs_cli.Gc.Loops.Backend.{castore_operations}
use ekapkgs_cli.Gc.Loops.Accesses.{has_tick, turns-access}

-- The start of the hour of a time.
abbrev pub hour_of : ℕ → ℕ
hour_of t = t - t % 3600

hour_le : (t now : ℕ) → t ≤ now → hour_of t ≤ hour_of now
hour_le t now h = omega arith

module _ {A : Type 0} (P : A → Type 0) where
  choose : (b : Bool) (x y : A) → (b ≡ true → P x) → (b ≡ false → P y) → P (if b then x else y)
  choose true x y f g = f refl
  choose false x y f g = g refl

  mapped : (f : A → A) (xs : List A) → ((x : A) → P (f x)) → All P (map f xs)
  mapped f [] h = tt
  mapped f (x ∷ xs) h = (h x, mapped f xs h)

  mapped_kept : (f : A → A) (xs : List A) → ((x : A) → P x → P (f x)) → All P xs → All P (map f xs)
  mapped_kept f [] h ps = tt
  mapped_kept f (x ∷ xs) h ps = (h x ps.0, mapped_kept f xs h ps.1)

  retained : (keep : A → Bool) (xs : List A) → All P xs → All P (retain keep xs)
  unfolding retain
  retained keep [] h = tt
  retained keep (x ∷ xs) h = elim (Bool-cases (keep x)) [
    | inl stays ↦ rw stays (h.0, retained keep xs h.1)
    | inr goes ↦ rw goes (retained keep xs h.1)
  ]

-- A row of the batch is not one that is left out of it.
unlisted :
    (hash x : Bytes) (batch : List Bytes)
    → contains hash batch ≡ true
    → contains x batch ≡ false
    → x ≢ hash
unlisted hash x batch listed other same =
    let clash = ap (λ y. contains y batch) same in absurd (ground arith)

-- If a row is that of the hash, its last access is not before the hour of the time.
abbrev pub IsRecent : Bytes → ℕ → StorePath → Type 0
IsRecent hash t p = p.hash ≡ hash → hour_of t ≤ p.last_access

abbrev pub IsRecentPath : Bytes → ℕ → CasPath → Type 0
IsRecentPath hash t p = p.hash ≡ hash → hour_of t ≤ p.last_access

gc_loop-IsRecent :
    (order_by : List StorePath → List StorePath)
    (reorders : (ps : List StorePath) → Perm (order_by ps) ps) (max_size target_size : ℕ)
    (hash : Bytes) (t : ℕ) (es : List (ℕ × GcEvent)) (l : LoopState Cache)
    → All (λ (e : ℕ × GcEvent). t ≤ e.0) es
    → has_tick es ≡ true
    → All
        (IsRecent hash t)
        (gc_loop order_by max_size target_size ((t, access hash) ∷ es) l).store.store_paths
unfolding gc_loop flush_accesses
gc_loop-IsRecent order_by reorders max_size target_size hash t es l late ticks =
    turns-access _ _ hash t (λ (c : Cache). All (IsRecent hash t) c.store_paths)
      (λ now batch c h listed. mapped (IsRecent hash t) _ c.store_paths (λ p.
        choose (IsRecent hash t) (contains p.hash batch) _ p (λ _ same. hour_le t now h)
          (λ other same. absurd (unlisted hash p.hash batch listed other same))))
      (λ now batch c h. mapped_kept (IsRecent hash t) _ c.store_paths (λ p recent.
        choose (IsRecent hash t) (contains p.hash batch) _ p (λ _ same. hour_le t now h)
          (λ _. recent)))
      (λ c fresh. elim (Option-cases (maybe_run_gc order_by c max_size target_size)) [
        | inl failed ↦ rw failed fresh
        | inr (r, ran) ↦
            rw (ran, (maybe_run_gc-IsUnbroken order_by reorders c max_size target_size r ran).0)
              (retained (IsRecent hash t) _ c.store_paths fresh)
      ])
      es l late ticks

module _ (ready : Bool) (order_by : List CasPath → List CasPath) (hash : Bytes) (t : ℕ) where
  evict_path-IsRecentPath :
      (h : Bytes) (s : CastoreBackend)
      → All (IsRecentPath hash t) s.cas_paths
      → All (IsRecentPath hash t) (evict_path h s).0.cas_paths
  unfolding evict_path delete_path
  evict_path-IsRecentPath h s fresh = elim (Bool-cases (length (owned_files h s.path_files) == 0)) [
    | inl alone ↦ rw alone (retained (IsRecentPath hash t) _ s.cas_paths fresh)
    | inr owner ↦ rw owner (retained (IsRecentPath hash t) _ s.cas_paths fresh)
  ]

  evict_loop-IsRecentPath :
      (to_free : ℕ) (paths : List Bytes) (r : CasGcResult CastoreBackend)
      → All (IsRecentPath hash t) r.store.cas_paths
      → All
          (IsRecentPath hash t)
          (evict_loop (castore_operations ready order_by) to_free paths r).store.cas_paths
  unfolding evict_loop
  evict_loop-IsRecentPath to_free [] r fresh = fresh
  evict_loop-IsRecentPath to_free (h ∷ paths) r fresh = elim (Bool-cases (leb to_free r.freed)) [
    | inl enough ↦ rw enough fresh
    | inr more ↦
        rw more (evict_loop-IsRecentPath to_free paths _ (evict_path-IsRecentPath h r.store fresh))
  ]

  cas_maybe_run_gc-IsRecentPath :
      (max_size target_size : ℕ) (s : CastoreBackend) (r : CasGcResult CastoreBackend)
      → cas_maybe_run_gc (castore_operations ready order_by) max_size target_size s ≡ some r
      → All (IsRecentPath hash t) s.cas_paths
      → All (IsRecentPath hash t) r.store.cas_paths
  unfolding cas_maybe_run_gc
  cas_maybe_run_gc-IsRecentPath max_size target_size s r ran fresh =
      let ops = castore_operations ready order_by in
      let to_free = total_chunk_bytes s - target_size in
      let evicted =
        evict_loop ops to_free (map CasPath.hash (order_by s.cas_paths)) (untouched ops s) in
      elim (same_or_evicted max_size target_size s r ran) [
        | inl same ↦ subst (λ q. All (IsRecentPath hash t) q.store.cas_paths) same fresh
        | inr done ↦
            subst (λ q. All (IsRecentPath hash t) q.store.cas_paths) done
              (evict_loop-IsRecentPath to_free (map CasPath.hash (order_by s.cas_paths))
                (untouched ops s) fresh)
      ]
    where
      same_or_evicted :
          (max_size target_size : ℕ) (s : CastoreBackend) (r : CasGcResult CastoreBackend)
          → cas_maybe_run_gc (castore_operations ready order_by) max_size target_size s ≡ some r
          → (untouched (castore_operations ready order_by) s ≡ r)
            ⊎ (evict_loop
                  (castore_operations ready order_by)
                  (total_chunk_bytes s - target_size)
                  (map CasPath.hash (order_by s.cas_paths))
                  (untouched (castore_operations ready order_by) s)
                ≡ r)
      same_or_evicted max_size target_size s r ran =
          elim (Bool-cases (leb (total_chunk_bytes s) max_size)) [
            | inl few ↦ inl (ground arith)
            | inr many ↦ elim (Bool-cases ready) [
              | inr unready ↦ inl (ground arith)
              | inl isready ↦ elim (Bool-cases ((total_chunk_bytes s - target_size) == 0)) [
                | inl none_to_free ↦ inl (ground arith)
                | inr some_to_free ↦ inr (ground arith)
              ]
            ]
          ]

  cas_gc_loop-IsRecentPath :
      (max_size target_size : ℕ) (es : List (ℕ × GcEvent)) (l : LoopState CastoreBackend)
      → All (λ (e : ℕ × GcEvent). t ≤ e.0) es
      → has_tick es ≡ true
      → All
          (IsRecentPath hash t)
          (cas_gc_loop
            (castore_operations ready order_by)
            max_size
            target_size
            ((t, access hash) ∷ es)
            l).store.cas_paths
  unfolding cas_gc_loop update_access
  cas_gc_loop-IsRecentPath max_size target_size es l late ticks =
      turns-access _ _ hash t (λ (s : CastoreBackend). All (IsRecentPath hash t) s.cas_paths)
        (λ now batch s h listed. mapped (IsRecentPath hash t) _ s.cas_paths (λ p.
          choose (IsRecentPath hash t) (contains p.hash batch) _ p (λ _ same. hour_le t now h)
            (λ other same. absurd (unlisted hash p.hash batch listed other same))))
        (λ now batch s h. mapped_kept (IsRecentPath hash t) _ s.cas_paths (λ p recent.
          choose (IsRecentPath hash t) (contains p.hash batch) _ p (λ _ same. hour_le t now h)
            (λ _. recent)))
        (λ s fresh.
          elim (Option-cases
            (cas_maybe_run_gc (castore_operations ready order_by) max_size target_size s)) [
              | inl failed ↦ rw failed fresh
              | inr (r, ran) ↦
                  rw ran (cas_maybe_run_gc-IsRecentPath max_size target_size s r ran fresh)
            ])
        es l late ticks

-- With the statements of the database taken to succeed, a recorded access is not lost: where no later
-- turn has an earlier time and the interval ticks again, a run of gc_loop, over any order of the
-- database's rows, or of cas_gc_loop that starts with the access leaves every stored path of that hash
-- with a last access not before the hour of the access.
pub gc_loop-access :
    (order_by : List StorePath → List StorePath)
    (reorders : (ps : List StorePath) → Perm (order_by ps) ps) (ready : Bool)
    (order_paths : List CasPath → List CasPath) (max_size target_size : ℕ) (hash : Bytes) (t : ℕ)
    (es : List (ℕ × GcEvent)) (l : LoopState Cache) (m : LoopState CastoreBackend)
    → All (λ (e : ℕ × GcEvent). t ≤ e.0) es
    → has_tick es ≡ true
    → All
        (IsRecent hash t)
        (gc_loop order_by max_size target_size ((t, access hash) ∷ es) l).store.store_paths
      × All
          (IsRecentPath hash t)
          (cas_gc_loop
            (castore_operations ready order_paths)
            max_size
            target_size
            ((t, access hash) ∷ es)
            m).store.cas_paths
gc_loop-access order_by reorders ready order_paths max_size target_size hash t es l m late ticks = (
  gc_loop-IsRecent order_by reorders max_size target_size hash t es l late ticks,
  cas_gc_loop-IsRecentPath ready order_paths hash t max_size target_size es m late ticks,
)
