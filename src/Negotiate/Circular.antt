-- ===== src/Negotiate/Circular.antt =====
-- A path that refers to itself, in `build_download_plan` of crates/ekapkgs-serve/src/api/negotiate.rs.
use ekapkgs_cli.Prelude.{
  ℕ, zero, suc, ◌+◌, ◌≡◌, refl, inl, inr, true, false, not, ◌&&◌, List, [], ◌∷◌, ◌++◌, map, Bytes,
  bytes_eq, bytes_eq→eq, contains, contains-append, subst, length, retain, All, Bool-cases, arith,
}
use ekapkgs_cli.StorePath.{store_path_hash}
use ekapkgs_cli.Negotiate.{
  PathManifestEntry, DownloadBatch, entry_hash, all_resolved, is_ready, batch_of, dump, plan_loop,
  build_download_plan,
}
use ekapkgs_cli.Negotiate.Plan.{left_of, now_resolved}
use ekapkgs_cli.Negotiate.Layers.{List-cases, plan_loop-ready}
use ekapkgs_cli.Negotiate.Complete.{plan_loop-none}

-- Every entry of the hash `x` refers to `h`.
unfoldable pub Needs : Bytes → Bytes → List PathManifestEntry → Type 0
Needs h x es =
    All
      (λ e.
        (bytes_eq x (entry_hash e) && not (contains h (map store_path_hash e.references))) ≡ false)
      es

-- No batch but the last holds `x`.
unfoldable pub OnlyLast : Bytes → List DownloadBatch → Type 0
OnlyLast x [] = Unit
OnlyLast x (b ∷ []) = Unit
OnlyLast x (b ∷ c ∷ bs) = (contains x b.paths ≡ false) × OnlyLast x (c ∷ bs)

blocked :
    (h : Bytes) (resolved refs : List Bytes)
    → contains h resolved ≡ false
    → contains h (map store_path_hash refs) ≡ true
    → all_resolved resolved refs ≡ false
unfolding contains all_resolved
blocked h resolved [] out among = absurd (ground arith)
blocked h resolved (r ∷ refs) out among = elim (Bool-cases (bytes_eq h (store_path_hash r))) [
  | inl same ↦
      let eq = bytes_eq→eq h (store_path_hash r) same in
      let missing = subst (λ y. contains y resolved ≡ false) eq out in ground arith
  | inr other ↦ let rest = blocked h resolved refs out (ground arith) in ground arith
]

not_ready :
    (h x : Bytes) (resolved : List Bytes) (es : List PathManifestEntry)
    → contains h resolved ≡ false
    → Needs h x es
    → contains x (now_resolved resolved es) ≡ false
unfolding Needs contains now_resolved retain is_ready
not_ready h x resolved [] out needs = refl
not_ready h x resolved (e ∷ es) out needs =
    let rest = not_ready h x resolved es out needs.1 in
    elim (Bool-cases (all_resolved resolved e.references)) [
      | inl ready ↦ elim (Bool-cases (contains h (map store_path_hash e.references))) [
        | inl among ↦ let stuck = blocked h resolved e.references out among in absurd (ground arith)
        | inr free ↦ let head = needs.0 in ground arith
      ]
      | inr waits ↦ ground arith
    ]

left_of-Needs :
    (h x : Bytes) (resolved : List Bytes) (es : List PathManifestEntry)
    → Needs h x es
    → Needs h x (left_of resolved es)
unfolding Needs left_of retain
left_of-Needs h x resolved [] needs = tt
left_of-Needs h x resolved (e ∷ es) needs = elim (Bool-cases (is_ready resolved e)) [
  | inl ready ↦ rw ready (left_of-Needs h x resolved es needs.1)
  | inr waits ↦ rw waits (needs.0, left_of-Needs h x resolved es needs.1)
]

OnlyLast-cons :
    (x : Bytes) (b : DownloadBatch) (bs : List DownloadBatch)
    → contains x b.paths ≡ false
    → OnlyLast x bs
    → OnlyLast x (b ∷ bs)
unfolding OnlyLast
OnlyLast-cons x b [] out h = tt
OnlyLast-cons x b (c ∷ bs) out h = (out, h)

OnlyLast-dump : (x : Bytes) (es : List PathManifestEntry) (index : ℕ) → OnlyLast x (dump es index)
unfolding OnlyLast dump
OnlyLast-dump x [] index = tt
OnlyLast-dump x (e ∷ es) index = tt

OnlyLast-stop :
    (x : Bytes) (left : List PathManifestEntry) (rest : List DownloadBatch)
    → OnlyLast x rest
    → OnlyLast x (elim left [ [] ↦ [] | l ∷ ls ↦ rest ])
unfolding OnlyLast
OnlyLast-stop x [] rest h = tt
OnlyLast-stop x (l ∷ ls) rest h = h

plan_loop-OnlyLast :
    (h x : Bytes) (fuel : ℕ) (remaining : List PathManifestEntry) (resolved : List Bytes)
    (index : ℕ)
    → contains h resolved ≡ false
    → Needs h h remaining
    → Needs h x remaining
    → OnlyLast x (plan_loop fuel remaining resolved index)
unfolding batch_of plan_loop now_resolved dump
plan_loop-OnlyLast h x zero remaining resolved index out self needs = OnlyLast-dump x [] index
plan_loop-OnlyLast h x (suc fuel) remaining resolved index out self needs =
    elim (List-cases (retain (is_ready resolved) remaining)) [
      | inl none ↦
          rw (plan_loop-none fuel remaining resolved index none) (OnlyLast-dump x remaining index)
      | inr (r, rs, ready) ↦
          let still : contains h (now_resolved resolved remaining ++ resolved) ≡ false = ground (
            arith,
            contains-append h (now_resolved resolved remaining) resolved,
            not_ready h h resolved remaining out self,
          ) in
          let rest =
            plan_loop-OnlyLast h x fuel (left_of resolved remaining)
              (now_resolved resolved remaining ++ resolved) (index + 1) still
              (left_of-Needs h h resolved remaining self)
              (left_of-Needs h x resolved remaining needs) in
          rw (plan_loop-ready fuel remaining resolved index r rs ready) (
            OnlyLast-cons x _ _ (not_ready h x resolved remaining out needs)
              (OnlyLast-stop x (left_of resolved remaining) _ rest))
    ]

-- When every entry of a hash refers to that hash itself, which is not at hand, and every entry of a
-- second hash refers to the first, then no batch but the last holds the second hash.
pub build_download_plan-OnlyLast :
    (h x : Bytes) (entries : List PathManifestEntry) (have : List Bytes)
    → contains h have ≡ false
    → Needs h h entries
    → Needs h x entries
    → OnlyLast x (build_download_plan entries have)
unfolding build_download_plan
build_download_plan-OnlyLast h x entries have out self needs =
    plan_loop-OnlyLast h x (suc (length entries)) entries have 0 out self needs
