-- ===== src/Negotiate/Plan.antt =====
-- The download plan of crates/ekapkgs-serve/src/api/negotiate.rs: an abstract layering, and that
-- `build_download_plan` computes one.
use ekapkgs_cli.Prelude.{
  ℕ, zero, suc, ◌+◌, ◌<◌, ◌≡◌, refl, ◌⊎◌, inl, inr, Bool, true, false, not, List, [], ◌∷◌, ◌++◌,
  map, Bytes, contains, bytes_eq_refl, length, retain, All, Any, Empty, Bool-cases, arith,
}
use ekapkgs_cli.StorePath.{store_path_hash}
use ekapkgs_cli.Negotiate.{
  PathManifestEntry, DownloadBatch, entry_hash, all_resolved, is_ready, batch_of,
}

-- Every reference is resolved: the hash of each one is among `resolved`.
unfoldable pub IsResolved : List Bytes → PathManifestEntry → Type 0
IsResolved resolved e = All (λ r. contains (store_path_hash r) resolved ≡ true) e.references

-- A plan for `remaining` with the next batch numbered `index`: each batch takes some of the entries, all
-- of them with resolved references, resolves their hashes, and no entry is left at the end.
unfoldable pub IsLayered : List PathManifestEntry → List Bytes → ℕ → List DownloadBatch → Type 0
IsLayered remaining resolved index [] = remaining ≡ []
IsLayered remaining resolved index (b ∷ bs) =
    (p : PathManifestEntry → Bool) × (b ≡ batch_of (retain p remaining) index)
    × (0 < length b.paths)
    × All (IsResolved resolved) (retain p remaining)
    × IsLayered (retain (λ e. not (p e)) remaining) (b.paths ++ resolved) (index + 1) bs

-- The references of every entry are resolved or belong to an entry of a smaller rank.
unfoldable pub IsRanked :
    (Bytes → ℕ) → List PathManifestEntry → List Bytes → List PathManifestEntry → Type 0
IsRanked rank all resolved entries =
    All
      (λ e.
        All
          (λ r.
            (contains (store_path_hash r) resolved ≡ true)
            ⊎ Any
                (λ d.
                  (entry_hash d ≡ store_path_hash r) × (rank (entry_hash d) < rank (entry_hash e)))
                all)
          e.references)
      entries

-- The test of readiness decides the references.
is_ready-IsResolved :
    (resolved : List Bytes) (refs : List Bytes)
    → all_resolved resolved refs ≡ true
    → All (λ r. contains (store_path_hash r) resolved ≡ true) refs
unfolding all_resolved
is_ready-IsResolved resolved [] h = tt
is_ready-IsResolved resolved (r ∷ refs) h =
    elim (Bool-cases (contains (store_path_hash r) resolved)) [
      | inl c ↦ (c, is_ready-IsResolved resolved refs (ground arith))
      | inr c ↦ absurd (ground arith)
    ]

pub All-ready :
    (resolved : List Bytes) (es : List PathManifestEntry)
    → All (IsResolved resolved) (retain (is_ready resolved) es)
unfolding retain is_ready IsResolved
All-ready resolved [] = tt
All-ready resolved (e ∷ es) = elim (Bool-cases (all_resolved resolved e.references)) [
  | inl c ↦ rw c (is_ready-IsResolved resolved e.references c, All-ready resolved es)
  | inr c ↦ rw c (All-ready resolved es)
]

Any-snd :
    (A B : PathManifestEntry → Type 0) (xs : List PathManifestEntry)
    → Any (λ d. A d × B d) xs
    → Any B xs
Any-snd A B [] a = elim a [ ]
Any-snd A B (x ∷ xs) (inl a) = inl a.1
Any-snd A B (x ∷ xs) (inr a) = inr (Any-snd A B xs a)

-- An entry that is not ready has, when the entries are ranked, an entry of a smaller rank to wait for.
waits :
    (rank : Bytes → ℕ) (all : List PathManifestEntry) (resolved : List Bytes) (n : ℕ)
    (refs : List Bytes)
    → all_resolved resolved refs ≡ false
    → All
        (λ r.
          (contains (store_path_hash r) resolved ≡ true)
          ⊎ Any (λ d. (entry_hash d ≡ store_path_hash r) × (rank (entry_hash d) < n)) all)
        refs
    → Any (λ d. rank (entry_hash d) < n) all
unfolding all_resolved
waits rank all resolved n [] h ranked = absurd (ground arith)
waits rank all resolved n (r ∷ refs) h ranked = elim ranked.0 [
  | inl c ↦ waits rank all resolved n refs (ground arith) ranked.1
  | inr a ↦ Any-snd _ _ all a
]

All-Any :
    {A B : PathManifestEntry → Type 0} {C : Type 0} (xs : List PathManifestEntry)
    → ((x : PathManifestEntry) → A x → B x → C)
    → All A xs
    → Any B xs
    → C
All-Any [] f h k = elim k [ ]
All-Any (x ∷ xs) f h (inl b) = f x h.0 b
All-Any (x ∷ xs) f h (inr b) = All-Any xs f h.1 b

pub retain_none :
    (p : PathManifestEntry → Bool) (es : List PathManifestEntry)
    → retain p es ≡ []
    → All (λ e. p e ≡ false) es
unfolding retain
retain_none p [] h = tt
retain_none p (e ∷ es) h = elim (Bool-cases (p e)) [
  | inl c ↦ absurd (ground arith)
  | inr c ↦ (c, retain_none p es (ground arith))
]

-- With no entry ready, ranked entries have no rank at all.
module _ (rank : Bytes → ℕ) (all : List PathManifestEntry) (resolved : List Bytes)
    (none_ready : All (λ e. is_ready resolved e ≡ false) all)
    (ranked : IsRanked rank all resolved all) where
  NoneBelow : ℕ → List PathManifestEntry → Type 0
  NoneBelow n es = All (λ e. rank (entry_hash e) < n → Empty {0}) es

  NoneBelow-suc :
      (n : ℕ) (es : List PathManifestEntry)
      → NoneBelow n all
      → All (λ e. is_ready resolved e ≡ false) es
      → IsRanked rank all resolved es
      → NoneBelow (suc n) es
  unfolding NoneBelow is_ready IsRanked
  NoneBelow-suc n [] below h k = tt
  NoneBelow-suc n (e ∷ es) below h k = (
    λ lt.
        All-Any all (λ d g less. g (omega (arith, less, lt))) below
          (waits rank all resolved (rank (entry_hash e)) e.references h.0 k.0),
    NoneBelow-suc n es below h.1 k.1,
  )

  NoneBelow-zero : (es : List PathManifestEntry) → NoneBelow zero es
  unfolding NoneBelow
  NoneBelow-zero [] = tt
  NoneBelow-zero (e ∷ es) = (λ lt. absurd (omega arith), NoneBelow-zero es)

  NoneBelow-all : (n : ℕ) → NoneBelow n all
  NoneBelow-all zero = NoneBelow-zero all
  NoneBelow-all (suc n) = NoneBelow-suc n all (NoneBelow-all n) none_ready ranked

  is_empty : (es : List PathManifestEntry) → ((n : ℕ) → NoneBelow n es) → es ≡ []
  unfolding NoneBelow
  is_empty [] f = refl
  is_empty (e ∷ es) f = elim ((f (suc (rank (entry_hash e)))).0 (omega arith)) [ ]

  pub none_left : all ≡ []
  none_left = is_empty all NoneBelow-all

-- A reference stays resolved or ranked when the entries that are ready become resolved.
module _ (resolved : List Bytes) where
  unfoldable pub left_of : List PathManifestEntry → List PathManifestEntry
  left_of es = retain (λ e. not (is_ready resolved e)) es

  unfoldable pub now_resolved : List PathManifestEntry → List Bytes
  now_resolved es = map entry_hash (retain (is_ready resolved) es)

  pub assigned_or_left :
      (n : ℕ) (rank : Bytes → ℕ) (h : Bytes) (es : List PathManifestEntry)
      → Any (λ d. (entry_hash d ≡ h) × (rank (entry_hash d) < n)) es
      → (contains h (now_resolved es) ≡ true)
        ⊎ Any (λ d. (entry_hash d ≡ h) × (rank (entry_hash d) < n)) (left_of es)
  unfolding left_of now_resolved retain contains
  assigned_or_left n rank h [] a = elim a [ ]
  assigned_or_left n rank h (e ∷ es) (inl a) = elim (Bool-cases (is_ready resolved e)) [
    | inl c ↦ inl (rw (c, a.0, bytes_eq_refl h) refl)
    | inr c ↦ inr (rw c (inl a))
  ]
  assigned_or_left n rank h (e ∷ es) (inr a) = elim (assigned_or_left n rank h es a) [
    | inl c ↦
        inl
          (elim (Bool-cases (is_ready resolved e)) [ inl r ↦ ground arith | inr r ↦ ground arith ])
    | inr b ↦
        inr (elim (Bool-cases (is_ready resolved e)) [ inl r ↦ rw r b | inr r ↦ rw r (inr b) ])
  ]
