-- ===== src/Gc/Outcome.antt =====
-- What one run of the collector of gc.rs does to the database.
pub mod Target
use ekapkgs_cli.Prelude.{
  ℕ, zero, suc, ◌+◌, ◌-◌, ◌≤◌, ◌<◌, ◌≡◌, ◌≢◌, ◌⊎◌, refl, sym, ap, ◌∙◌, Bool, true, false, not, ◌&&◌,
  some, none, List, [], ◌∷◌, Bytes, bytes_eq, bytes_eq_iff, contains, contains_head, contains_tail,
  contains-cons, retain, retain-retain, retain_same, retain_all, map, length, leb, ◌==◌, All,
  AllDistinct, arith, Bool-cases, inl, inr, if◌then◌else◌,
}
use mathlib.Core.List.{Perm}
use mathlib.Core.List.Perm
use ekapkgs_cli.Gc.{
  StorePath, Cache, GcResult, to_entry, total_size, delete_entry, delete_entries, unchanged,
  entries_of, finish, run_gc, maybe_run_gc,
}
use ekapkgs_cli.Gc.Evict.{PathEntry, Ref, Sweep, hashes, start, rounds, pinned}
use ekapkgs_cli.Gc.Evict.Freed.{size_of, size_of_empty, rounds-size_of}
use ekapkgs_cli.Gc.Evict.Safety.{IsUnbroken, rounds-IsUnbroken, rounds_frugal}
use ekapkgs_cli.Gc.Evict.Progress.{rounds_end, rounds-IsSettled}
use ekapkgs_cli.Gc.Order.{row_hashes, size_of-perm, contains-perm, AllDistinct-perm}

delete_entries-store_paths :
    (es : List PathEntry) (c : Cache)
    → (delete_entries es c).store_paths
      ≡ retain (λ (p : StorePath). not (contains p.hash (hashes es))) c.store_paths
unfolding delete_entries delete_entry contains
delete_entries-store_paths [] c = sym (retain_all c.store_paths)
delete_entries-store_paths (e ∷ es) c =
    delete_entries-store_paths es (delete_entry e c)
    ∙ retain-retain (λ (p : StorePath). not (contains p.hash (hashes es)))
        (λ (p : StorePath). not (bytes_eq p.hash e.hash)) c.store_paths
    ∙ retain_same _ _ c.store_paths (λ p. ground arith)

-- The hashes of the entries that the deletion goes through.
contains-retain :
    (es : List PathEntry) (evict_set : List Bytes) (x : Bytes)
    → contains x (hashes (retain (λ (e : PathEntry). contains e.hash evict_set) es))
      ≡ (contains x evict_set && contains x (hashes es))
unfolding retain contains
contains-retain [] s x = ground arith
contains-retain (e ∷ es) s x = elim (Bool-cases (contains e.hash s)) [
  | inl gone ↦ rw gone (ground (arith, contains-retain es s x, bytes_eq_iff x e.hash))
  | inr stays ↦ rw stays (ground (arith, contains-retain es s x, bytes_eq_iff x e.hash))
]

-- Tests on the hash that agree on the stored hashes keep the same rows.
retain_rows :
    (f g : Bytes → Bool) (ps : List StorePath)
    → ((x : Bytes) → contains x (row_hashes ps) ≡ true → f x ≡ g x)
    → retain (λ (p : StorePath). not (f p.hash)) ps ≡ retain (λ (p : StorePath). not (g p.hash)) ps
unfolding retain
retain_rows f g [] h = refl
retain_rows f g (p ∷ ps) h = ground (
  arith,
  h p.hash (contains_head p.hash (row_hashes ps)),
  retain_rows f g ps (λ x m. h x (contains_tail x p.hash (row_hashes ps) m)),
)

-- The bytes that stay and the bytes of the evicted rows make up the total.
total_size-retain :
    (ps : List StorePath) (evict_set : List Bytes)
    → total_size (retain (λ (p : StorePath). not (contains p.hash evict_set)) ps)
        + size_of (map to_entry ps) evict_set
      ≡ total_size ps
unfolding total_size retain size_of
total_size-retain [] s = refl
total_size-retain (p ∷ ps) s = ground (arith, total_size-retain ps s)

length_zero {ℓ} : {A : Type ℓ} (xs : List A) → (length xs == 0) ≡ true → xs ≡ []
length_zero [] h = refl
length_zero (x ∷ xs) h = absurd (ground arith)

and_true : (b : Bool) → (b && true) ≡ b
and_true true = refl
and_true false = refl

module _ (order_by : List StorePath → List StorePath)
    (reorders : (ps : List StorePath) → Perm (order_by ps) ps) where
  -- The rows that stay are those whose hash the loops did not choose.
  deleted_rows :
      (c : Cache) (evict_set : List Bytes)
      → (delete_entries
          (retain (λ (e : PathEntry). contains e.hash evict_set) (entries_of order_by c))
          c).store_paths
        ≡ retain (λ (p : StorePath). not (contains p.hash evict_set)) c.store_paths
  deleted_rows c s =
      delete_entries-store_paths
        (retain (λ (e : PathEntry). contains e.hash s) (entries_of order_by c)) c
      ∙ retain_rows
          (λ x.
            contains x
              (hashes (retain (λ (e : PathEntry). contains e.hash s) (entries_of order_by c))))
          (λ x. contains x s) c.store_paths
          (λ x stored.
            contains-retain (entries_of order_by c) s x
            ∙ rw (contains-perm (reorders c.store_paths) x, stored) (and_true (contains x s)))

  pub finish-store_paths :
      (c : Cache) (s : Sweep)
      → (finish order_by c s).cache.store_paths
        ≡ retain (λ (p : StorePath). not (contains p.hash s.evict_set)) c.store_paths
  unfolding finish
  finish-store_paths c s = elim (Bool-cases (length s.evict_set == 0)) [
    | inl empty ↦
        rw (empty, length_zero s.evict_set empty)
          (sym (unfold contains in retain_all c.store_paths))
    | inr chosen ↦ rw chosen (deleted_rows c s.evict_set)
  ]

  pub finish-evict_set : (c : Cache) (s : Sweep) → (finish order_by c s).evict_set ≡ s.evict_set
  unfolding finish
  finish-evict_set c s = ground (arith, length_zero s.evict_set)

  module _ (c : Cache) (distinct : AllDistinct (row_hashes c.store_paths)) (to_free fuel : ℕ)
      (s : Sweep) (ended : rounds (entries_of order_by c) c.refs to_free fuel start ≡ some s) where
    freed-size_of : s.freed ≡ size_of (map to_entry c.store_paths) s.evict_set
    freed-size_of =
        rounds-size_of (entries_of order_by c) c.refs to_free fuel s
          (AllDistinct-perm (Perm.symm (reorders c.store_paths)) distinct) ended
        ∙ size_of-perm (reorders c.store_paths) s.evict_set

    pub finish-freed : (finish order_by c s).freed ≡ s.freed
    unfolding finish
    finish-freed =
        ground (
          arith,
          length_zero s.evict_set,
          freed-size_of,
          size_of_empty (map to_entry c.store_paths),
        )

    pub finish-total_size :
        total_size (finish order_by c s).cache.store_paths + s.freed ≡ total_size c.store_paths
    finish-total_size =
        rw (finish-store_paths c s)
          (omega (arith, freed-size_of, total_size-retain c.store_paths s.evict_set))
