-- ===== src/Negotiate/Complete.antt =====
-- `build_download_plan` of crates/ekapkgs-serve/src/api/negotiate.rs lists every entry, also on
-- references that are missing or circular.
use ekapkgs_cli.Prelude.{
  ℕ, zero, suc, ◌+◌, ◌<◌, ◌≡◌, refl, inl, inr, Bool, not, List, [], ◌∷◌, ◌++◌, map, Bytes, bytes_eq,
  length, retain, if◌then◌else◌, Bool-cases, arith,
}
use ekapkgs_cli.Negotiate.{
  PathManifestEntry, DownloadBatch, entry_hash, is_ready, batch_of, dump, plan_loop,
  build_download_plan,
}
use ekapkgs_cli.Negotiate.Plan.{left_of, now_resolved}
use ekapkgs_cli.Negotiate.Layers.{List-cases, plan_loop-ready, left-shorter}

-- How often a hash stands in a list.
unfoldable pub occurrences : Bytes → List Bytes → ℕ
occurrences h [] = 0
occurrences h (x ∷ xs) = let rest = occurrences h xs in if bytes_eq h x then suc rest else rest

-- The paths of all batches.
unfoldable pub planned : List DownloadBatch → List Bytes
planned [] = []
planned (b ∷ bs) = b.paths ++ planned bs

occurrences-append :
    (h : Bytes) (xs ys : List Bytes)
    → occurrences h (xs ++ ys) ≡ occurrences h xs + occurrences h ys
unfolding occurrences
occurrences-append h [] ys = omega arith
occurrences-append h (x ∷ xs) ys = ground (arith, occurrences-append h xs ys)

occurrences-split :
    (h : Bytes) (p : PathManifestEntry → Bool) (es : List PathManifestEntry)
    → occurrences h (map entry_hash (retain p es))
        + occurrences h (map entry_hash (retain (λ e. not (p e)) es))
      ≡ occurrences h (map entry_hash es)
unfolding occurrences retain
occurrences-split h p [] = refl
occurrences-split h p (e ∷ es) =
    let ih = occurrences-split h p es in
    elim (Bool-cases (p e)) [ inl c ↦ ground arith | inr c ↦ ground arith ]

planned-stop :
    (h : Bytes) (left : List PathManifestEntry) (rest : List DownloadBatch)
    → occurrences h (planned rest) ≡ occurrences h (map entry_hash left)
    → occurrences h (planned (elim left [ [] ↦ [] | l ∷ ls ↦ rest ]))
      ≡ occurrences h (map entry_hash left)
unfolding planned
planned-stop h [] rest e = refl
planned-stop h (l ∷ ls) rest e = e

planned-dump :
    (h : Bytes) (es : List PathManifestEntry) (index : ℕ)
    → occurrences h (planned (dump es index)) ≡ occurrences h (map entry_hash es)
unfolding planned dump batch_of occurrences
planned-dump h [] index = refl
planned-dump h (e ∷ es) index =
    ground (arith, occurrences-append h (entry_hash e ∷ map entry_hash es) [])

pub plan_loop-none :
    (fuel : ℕ) (remaining : List PathManifestEntry) (resolved : List Bytes) (index : ℕ)
    → retain (is_ready resolved) remaining ≡ []
    → plan_loop (suc fuel) remaining resolved index ≡ dump remaining index
unfolding plan_loop
plan_loop-none fuel remaining resolved index h = rw (plan_loop, h) refl

plan_loop-occurrences :
    (h : Bytes) (fuel : ℕ) (remaining : List PathManifestEntry) (resolved : List Bytes) (index : ℕ)
    → length remaining < fuel
    → occurrences h (planned (plan_loop fuel remaining resolved index))
      ≡ occurrences h (map entry_hash remaining)
unfolding planned batch_of left_of now_resolved
plan_loop-occurrences h zero remaining resolved index enough = absurd (omega arith)
plan_loop-occurrences h (suc fuel) remaining resolved index enough =
    elim (List-cases (retain (is_ready resolved) remaining)) [
      | inl none ↦
          rw (plan_loop-none fuel remaining resolved index none) (planned-dump h remaining index)
      | inr (r, rs, ready) ↦
          let left = left_of resolved remaining in
          let rest =
            plan_loop fuel left (now_resolved resolved remaining ++ resolved) (index + 1) in
          let ih =
            plan_loop-occurrences h fuel left (now_resolved resolved remaining ++ resolved)
              (index + 1) (omega (arith, left-shorter resolved remaining r rs ready, enough)) in
          let stopped = planned-stop h left rest ih in
          let split = occurrences-split h (is_ready resolved) remaining in
          let both =
            occurrences-append h (now_resolved resolved remaining)
              (planned (elim left [ [] ↦ [] | l ∷ ls ↦ rest ])) in
          rw (plan_loop-ready fuel remaining resolved index r rs ready)
            (omega (arith, stopped, split, both))
    ]

-- On every input, circular references included, each hash stands in the plan as often as among the
-- entries.
pub build_download_plan-occurrences :
    (h : Bytes) (entries : List PathManifestEntry) (have : List Bytes)
    → occurrences h (planned (build_download_plan entries have))
      ≡ occurrences h (map entry_hash entries)
unfolding build_download_plan
build_download_plan-occurrences h entries have =
    plan_loop-occurrences h (suc (length entries)) entries have 0 (omega arith)
