-- ===== src/Gc/Evict/Progress.antt =====
-- The eviction ends, and it ends only when enough is freed or nothing more may be evicted.
use ekapkgs_cli.Prelude.{
  ℕ, zero, suc, ◌+◌, ◌≤◌, ◌<◌, ◌≡◌, refl, true, false, some, List, [], ◌∷◌, ◌++◌, Bytes, contains,
  contains_head, All, arith, Bool-cases, inl, inr, ◌⊎◌, if◌then◌else◌, contains_tail, length, leb,
}
use ekapkgs_cli.Gc.Evict.{PathEntry, Ref, Sweep, start, evict_one, pinned, sweep, rounds}
use ekapkgs_cli.Gc.Evict.Rule.{sweep_inv}

-- How many entries are kept.
kept : List PathEntry → List Bytes → ℕ
kept [] evict_set = 0
kept (e ∷ es) evict_set = (if contains e.hash evict_set then 0 else 1) + kept es evict_set

kept_fewer :
    (es : List PathEntry) (hash : Bytes) (evict_set : List Bytes)
    → kept es (hash ∷ evict_set) ≤ kept es evict_set
unfolding kept
kept_fewer [] hash evict_set = omega arith
kept_fewer (e ∷ es) hash evict_set =
    ground (arith, kept_fewer es hash evict_set, contains_tail e.hash hash evict_set)

kept_one_less :
    (front back : List PathEntry) (e : PathEntry) (evict_set : List Bytes)
    → contains e.hash evict_set ≡ false
    → kept (front ++ (e ∷ back)) (e.hash ∷ evict_set) < kept (front ++ (e ∷ back)) evict_set
unfolding kept
kept_one_less [] back e evict_set h =
    ground (arith, kept_fewer back e.hash evict_set, contains_head e.hash evict_set)
kept_one_less (f ∷ front) back e evict_set h =
    ground (arith, kept_one_less front back e evict_set, contains_tail f.hash e.hash evict_set)

kept-le-length : (es : List PathEntry) (evict_set : List Bytes) → kept es evict_set ≤ length es
unfolding kept
kept-le-length [] evict_set = omega arith
kept-le-length (e ∷ es) evict_set = ground (arith, kept-le-length es evict_set)

-- The entry is evicted, or a kept path refers to it.
abbrev pub IsSettled : List PathEntry → List Ref → List Bytes → PathEntry → Type 0
IsSettled entries refs evict_set e =
    (contains e.hash evict_set ≡ true) ⊎ (pinned entries refs e.hash evict_set ≡ true)

module _ (entries : List PathEntry) (refs : List Ref) (to_free : ℕ) where
  -- A round that evicts keeps fewer entries.
  sweep_fewer :
      (s : Sweep)
      → s.freed < to_free
      → s.evicted_any ≡ false
      → (sweep entries refs to_free entries s).evicted_any ≡ true
      → kept entries (sweep entries refs to_free entries s).evict_set < kept entries s.evict_set
  sweep_fewer s lt idle did =
      let bound =
        sweep_inv entries refs to_free
          (λ x.
            kept entries x.evict_set + (if x.evicted_any then 1 else 0) ≤ kept entries s.evict_set)
          (λ e x may h.
            let less : kept entries (e.hash ∷ x.evict_set) < kept entries x.evict_set =
              rw may.listed (kept_one_less may.front may.back e x.evict_set may.kept) in
            omega (arith, less, h))
          [] entries s refl lt (rw idle (omega arith)) in
      ground arith

  rounds_total :
      (fuel : ℕ) (s : Sweep)
      → kept entries s.evict_set < fuel
      → (t : Sweep) × (rounds entries refs to_free fuel s ≡ some t)
  unfolding rounds
  rounds_total zero s h = absurd (omega arith)
  rounds_total (suc fuel) s h = elim (Bool-cases (leb to_free s.freed)) [
    | inl enough ↦ (s, ground arith)
    | inr more ↦
        let from : Sweep = record s { evicted_any = false } in
        let next : Sweep = sweep entries refs to_free entries from in
        elim (Bool-cases next.evicted_any) [
          | inl again ↦
              let (t, e) =
                rounds_total fuel next
                  (omega (arith, sweep_fewer from (ground arith) refl again, h)) in
              (t, ground arith)
          | inr idle ↦ (next, ground arith)
        ]
  ]

  -- `length entries + 1` rounds are enough: the outer loop ends.
  pub rounds_end : (t : Sweep) × (rounds entries refs to_free (length entries + 1) start ≡ some t)
  rounds_end = rounds_total (length entries + 1) start (omega (arith, kept-le-length entries []))

  sweep_active :
      (es : List PathEntry) (s : Sweep)
      → s.evicted_any ≡ true
      → (sweep entries refs to_free es s).evicted_any ≡ true
  unfolding sweep
  sweep_active [] s h = h
  sweep_active (e ∷ es) s h = ground (arith, sweep_active es s, sweep_active es (evict_one e s))

  sweep_idle :
      (es : List PathEntry) (s : Sweep)
      → (sweep entries refs to_free es s).evicted_any ≡ false
      → (sweep entries refs to_free es s ≡ s) × All (IsSettled entries refs s.evict_set) es
  unfolding sweep
  sweep_idle [] s h = (refl, tt)
  sweep_idle (e ∷ es) s h = elim (Bool-cases (contains e.hash s.evict_set)) [
    | inl gone ↦ let rest = sweep_idle es s (ground arith) in (ground arith, (inl gone, rest.1))
    | inr kept ↦ elim (Bool-cases (pinned entries refs e.hash s.evict_set)) [
      | inl held ↦ let rest = sweep_idle es s (ground arith) in (ground arith, (inr held, rest.1))
      | inr free ↦ absurd (ground (arith, sweep_active es (evict_one e s)))
    ]
  ]

  -- When the loops end, enough is freed, or every entry is evicted or referred to by another stored
  -- path that is kept.
  pub rounds-IsSettled :
      (fuel : ℕ) (s t : Sweep)
      → rounds entries refs to_free fuel s ≡ some t
      → (to_free ≤ t.freed) ⊎ All (IsSettled entries refs t.evict_set) entries
  unfolding rounds
  rounds-IsSettled zero s t h = cc
  rounds-IsSettled (suc fuel) s t h = elim (Bool-cases (leb to_free s.freed)) [
    | inl enough ↦ inl (ground arith)
    | inr more ↦
        let from : Sweep = record s { evicted_any = false } in
        let next : Sweep = sweep entries refs to_free entries from in
        elim (Bool-cases next.evicted_any) [
          | inl again ↦ rounds-IsSettled fuel next t (ground arith)
          | inr idle ↦
              let (same, settled) = sweep_idle entries from idle in
              let last : next ≡ t = ground arith in
              let sets : s.evict_set ≡ t.evict_set = cc (same, last) in inr (rw sets at settled)
        ]
  ]
