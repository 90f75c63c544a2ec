-- ===== src/Gc/Evict/Safety.antt =====
-- What the eviction leaves behind, and that it stops in time.
use ekapkgs_cli.Prelude.{
  ℕ, ◌+◌, ◌≤◌, ◌<◌, ◌≡◌, true, false, some, List, [], ◌∷◌, ◌++◌, Bytes, bytes_eq, bytes_eq_iff,
  contains, contains-cons, All, arith, Bool-cases, inl, inr, ◌⊎◌, contains_tail, sym, ◌∙◌,
}
use ekapkgs_cli.Gc.Evict.{PathEntry, Ref, Sweep, hashes, start, referenced_by, pinned, rounds}
use ekapkgs_cli.Gc.Evict.Rule.{rounds_inv}

-- If the referenced path is evicted, then so is the referrer, unless it is not stored or is the path
-- itself.
abbrev pub IsUnbroken : List PathEntry → List Bytes → Ref → Type 0
IsUnbroken entries evict_set r =
    contains r.referee evict_set ≡ true
    → contains r.referrer (hashes entries) ≡ true
    → (r.referrer ≡ r.referee) ⊎ (contains r.referrer evict_set ≡ true)

unpinned :
    (entries : List PathEntry) (refs : List Ref) (hash : Bytes) (evict_set : List Bytes)
    → pinned entries refs hash evict_set ≡ false
    → All
        (λ (r : Ref).
          r.referee ≡ hash
          → contains r.referrer (hashes entries) ≡ true
          → (r.referrer ≡ r.referee) ⊎ (contains r.referrer evict_set ≡ true))
        refs
unfolding pinned referenced_by
unpinned entries [] hash evict_set h = tt
unpinned entries (r ∷ refs) hash evict_set h = (
  λ same stored. elim (Bool-cases (bytes_eq r.referrer hash)) [
    | inl self ↦ inl ((bytes_eq_iff r.referrer hash).0 self ∙ sym same)
    | inr other ↦ inr (ground (arith, bytes_eq_iff r.referee hash))
  ],
  unpinned entries refs hash evict_set (ground arith),
)

IsUnbroken-step :
    (entries : List PathEntry) (hash : Bytes) (evict_set : List Bytes) (refs : List Ref)
    → All
        (λ (r : Ref).
          r.referee ≡ hash
          → contains r.referrer (hashes entries) ≡ true
          → (r.referrer ≡ r.referee) ⊎ (contains r.referrer evict_set ≡ true))
        refs
    → All (IsUnbroken entries evict_set) refs
    → All (IsUnbroken entries (hash ∷ evict_set)) refs
IsUnbroken-step entries hash evict_set [] h k = tt
IsUnbroken-step entries hash evict_set (r ∷ refs) h k = (
  λ gone stored. elim (Bool-cases (bytes_eq r.referee hash)) [
    | inl same ↦ grow (h.0 ((bytes_eq_iff r.referee hash).0 same) stored)
    | inr other ↦ grow (k.0 (ground (arith, contains-cons r.referee hash evict_set)) stored)
  ],
  IsUnbroken-step entries hash evict_set refs h.1 k.1,
)
  where
    grow :
        (r.referrer ≡ r.referee) ⊎ (contains r.referrer evict_set ≡ true)
        → (r.referrer ≡ r.referee) ⊎ (contains r.referrer (hash ∷ evict_set) ≡ true)
    grow (inl p) = inl p
    grow (inr p) = inr (contains_tail r.referrer hash evict_set p)

pub nothing_evicted :
    (entries : List PathEntry) (refs : List Ref) → All (IsUnbroken entries []) refs
nothing_evicted entries [] = tt
nothing_evicted entries (r ∷ refs) = ((λ h. unfold contains in cc h), nothing_evicted entries refs)

entry_small :
    (most : ℕ) (e : PathEntry) (front back : List PathEntry)
    → All (λ (x : PathEntry). x.size ≤ most) (front ++ (e ∷ back))
    → e.size ≤ most
entry_small most e [] back h = h.0
entry_small most e (f ∷ front) back h = entry_small most e front back h.1

module _ (entries : List PathEntry) (refs : List Ref) (to_free fuel : ℕ) (t : Sweep)
    (ended : rounds entries refs to_free fuel start ≡ some t) where
  -- No stored path that is kept refers to an evicted path: whatever the loops evict, of every
  -- reference to an evicted path the referrer is evicted too, or is not stored, or is that path.
  pub rounds-IsUnbroken : All (IsUnbroken entries t.evict_set) refs
  rounds-IsUnbroken =
      rounds_inv entries refs to_free (λ s. All (IsUnbroken entries s.evict_set) refs)
        (λ e s may h.
          IsUnbroken-step entries e.hash s.evict_set refs
            (unpinned entries refs e.hash s.evict_set may.free_of_refs) h)
        (λ s h. h) fuel start t (nothing_evicted entries refs) ended

  -- The loops stop as soon as enough is freed: when something has to be freed and no entry
  -- is larger than `most`, less than `to_free + most` is freed.
  pub rounds_frugal :
      (most : ℕ)
      → 0 < to_free
      → All (λ (e : PathEntry). e.size ≤ most) entries
      → t.freed < to_free + most
  rounds_frugal most wanted small =
      rounds_inv entries refs to_free (λ s. s.freed < to_free + most)
        (λ e s may h.
          omega
            (arith, may.wanting, entry_small most e may.front may.back (rw may.listed at small)))
        (λ s h. h) fuel start t (omega arith) ended
