-- ===== src/Negotiate/Layers.antt =====
-- The rounds of `build_download_plan`, crates/ekapkgs-serve/src/api/negotiate.rs: each one keeps the
-- entries ranked, and the rounds together are a layering.
use ekapkgs_cli.Prelude.{
  ℕ, zero, suc, ◌+◌, ◌<◌, ◌≡◌, ◌≢◌, refl, ap, ◌⊎◌, inl, inr, Bool, true, not, List, [], ◌∷◌, ◌++◌,
  Bytes, contains, contains-append, length, retain, All, Any, Bool-cases, arith,
}
use ekapkgs_cli.StorePath.{store_path_hash}
use ekapkgs_cli.Negotiate.{
  PathManifestEntry, DownloadBatch, entry_hash, is_ready, batch_of, dump, plan_loop,
  build_download_plan,
}
use ekapkgs_cli.Negotiate.Plan.{
  IsLayered, IsRanked, left_of, now_resolved, none_left, assigned_or_left, All-ready, retain_none,
}

module _ (rank : Bytes → ℕ) (resolved : List Bytes) (all : List PathManifestEntry) where
  round-refs :
      (n : ℕ) (refs : List Bytes)
      → All
          (λ r.
            (contains (store_path_hash r) resolved ≡ true)
            ⊎ Any (λ d. (entry_hash d ≡ store_path_hash r) × (rank (entry_hash d) < n)) all)
          refs
      → All
          (λ r.
            (contains (store_path_hash r) (now_resolved resolved all ++ resolved) ≡ true)
            ⊎ Any
                (λ d. (entry_hash d ≡ store_path_hash r) × (rank (entry_hash d) < n))
                (left_of resolved all))
          refs
  round-refs n [] h = tt
  round-refs n (r ∷ refs) h = (
    elim h.0 [
      | inl c ↦
          inl (
            ground
              (arith, contains-append (store_path_hash r) (now_resolved resolved all) resolved))
      | inr a ↦ elim (assigned_or_left resolved n rank (store_path_hash r) all a) [
        | inl c ↦ inl (
            ground
              (arith, contains-append (store_path_hash r) (now_resolved resolved all) resolved))
        | inr b ↦ inr b
      ]
    ],
    round-refs n refs h.1,
  )

  round-IsRanked :
      (es : List PathManifestEntry)
      → IsRanked rank all resolved es
      → IsRanked rank
          (left_of resolved all)
          (now_resolved resolved all ++ resolved)
          (left_of resolved es)
  unfolding IsRanked left_of retain
  round-IsRanked [] h = tt
  round-IsRanked (e ∷ es) h = elim (Bool-cases (is_ready resolved e)) [
    | inl c ↦ rw c (round-IsRanked es h.1)
    | inr c ↦ rw c (round-refs (rank (entry_hash e)) e.references h.0, round-IsRanked es h.1)
  ]

pub length-split :
    (p : PathManifestEntry → Bool) (es : List PathManifestEntry)
    → length (retain p es) + length (retain (λ e. not (p e)) es) ≡ length es
unfolding retain
length-split p [] = refl
length-split p (e ∷ es) =
    let ih = length-split p es in
    elim (Bool-cases (p e)) [ inl c ↦ ground arith | inr c ↦ ground arith ]

stop-IsLayered :
    (left : List PathManifestEntry) (resolved : List Bytes) (index : ℕ) (rest : List DownloadBatch)
    → IsLayered left resolved index rest
    → IsLayered left resolved index (elim left [ [] ↦ [] | l ∷ ls ↦ rest ])
unfolding IsLayered
stop-IsLayered [] resolved index rest h = refl
stop-IsLayered (l ∷ ls) resolved index rest h = h

pub List-cases :
    (es : List PathManifestEntry)
    → (es ≡ []) ⊎ ((x : PathManifestEntry) × (xs : List PathManifestEntry) × (es ≡ x ∷ xs))
List-cases [] = inl refl
List-cases (x ∷ xs) = inr (x, xs, refl)

pub plan_loop-ready :
    (fuel : ℕ) (remaining : List PathManifestEntry) (resolved : List Bytes) (index : ℕ)
    (r : PathManifestEntry) (rs : List PathManifestEntry)
    → retain (is_ready resolved) remaining ≡ r ∷ rs
    → plan_loop (suc fuel) remaining resolved index
      ≡ batch_of (retain (is_ready resolved) remaining) index ∷ (elim (left_of resolved remaining) [
        | [] ↦ []
        | l ∷ ls ↦
            plan_loop fuel
              (left_of resolved remaining)
              (now_resolved resolved remaining ++ resolved)
              (index + 1)
      ])
unfolding plan_loop left_of now_resolved
plan_loop-ready fuel remaining resolved index r rs h = rw (plan_loop, left_of, now_resolved, h) refl

nonempty : (e : PathManifestEntry) (es : List PathManifestEntry) → e ∷ es ≢ []
nonempty e es h = let lengths = ap length h in absurd (omega arith)

length-batch :
    (es : List PathManifestEntry) (index : ℕ) (r : PathManifestEntry) (rs : List PathManifestEntry)
    → es ≡ r ∷ rs
    → 0 < length (DownloadBatch.paths (batch_of es index))
unfolding batch_of
length-batch es index r rs h = rw h (omega arith)

pub left-shorter :
    (resolved : List Bytes) (es : List PathManifestEntry) (r : PathManifestEntry)
    (rs : List PathManifestEntry)
    → retain (is_ready resolved) es ≡ r ∷ rs
    → length (left_of resolved es) < length es
unfolding left_of
left-shorter resolved es r rs h =
    let split = length-split (is_ready resolved) es in
    let some_ready = ap length h in omega (arith, split, some_ready)

plan_loop-IsLayered :
    (rank : Bytes → ℕ) (fuel : ℕ) (remaining : List PathManifestEntry) (resolved : List Bytes)
    (index : ℕ)
    → length remaining < fuel
    → IsRanked rank remaining resolved remaining
    → IsLayered remaining resolved index (plan_loop fuel remaining resolved index)
unfolding IsLayered plan_loop dump retain is_ready left_of batch_of now_resolved
plan_loop-IsLayered rank zero remaining resolved index enough ranked = absurd (omega arith)
plan_loop-IsLayered rank (suc fuel) [] resolved index enough ranked = refl
plan_loop-IsLayered rank (suc fuel) (e ∷ es) resolved index enough ranked =
    elim (List-cases (retain (is_ready resolved) (e ∷ es))) [
      | inl h ↦ absurd (
          nonempty e es
            (none_left rank (e ∷ es) resolved (retain_none (is_ready resolved) (e ∷ es) h) ranked))
      | inr (r, rs, h) ↦ rw (plan_loop-ready fuel (e ∷ es) resolved index r rs h) (
        is_ready resolved,
        refl,
        length-batch (retain (is_ready resolved) (e ∷ es)) index r rs h,
        All-ready resolved (e ∷ es),
        stop-IsLayered (left_of resolved (e ∷ es)) (now_resolved resolved (e ∷ es) ++ resolved)
            (index + 1) _
            (plan_loop-IsLayered rank fuel (left_of resolved (e ∷ es)) _ (index + 1)
              (omega (arith, left-shorter resolved (e ∷ es) r rs h, enough))
              (round-IsRanked rank resolved (e ∷ es) (e ∷ es) ranked)),
      )
    ]

-- When some rank of the hashes makes each reference of an entry one of the hashes at hand or the hash
-- of an entry of a smaller rank, the plan is made of non-empty batches, numbered in order, each of
-- entries whose references the client has or earlier batches bring, and no entry is left.
pub build_download_plan-IsLayered :
    (rank : Bytes → ℕ) (entries : List PathManifestEntry) (have : List Bytes)
    → IsRanked rank entries have entries
    → IsLayered entries have 0 (build_download_plan entries have)
unfolding build_download_plan
build_download_plan-IsLayered rank entries have ranked =
    plan_loop-IsLayered rank (suc (length entries)) entries have 0 (omega arith) ranked
