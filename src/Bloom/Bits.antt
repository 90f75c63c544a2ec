-- ===== src/Bloom/Bits.antt =====
-- The bits of a byte in crates/ekapkgs-nix/src/bloom.rs, checked for every byte.
use Prim.Native.Nat.{bit_and, bit_or}
use ekapkgs_cli.Prelude.{
  ℕ, zero, suc, ◌^◌, ◌<◌, ◌≡◌, refl, inl, inr, Bool, true, false, ◌&&◌, ◌||◌, not, ltb, ◌==◌,
  if◌then◌else◌, Bool-cases, arith,
}

-- `p` holds below `n`.
below : ℕ → (ℕ → Bool) → Bool
below zero p = true
below (suc n) p = if p n then below n p else false

below_lem : (n : ℕ) (p : ℕ → Bool) (i : ℕ) → below n p ≡ true → i < n → p i ≡ true
unfolding below
below_lem zero p i h lt = absurd (omega arith)
below_lem (suc n) p i h lt = elim (Bool-cases (i == n)) [
  | inl same ↦ let eq : i ≡ n = ground arith in rw eq (ground arith)
  | inr other ↦ below_lem n p i (ground arith) (ground arith)
]

clear : ℕ → ℕ → Bool
clear b k = bit_and b (2 ^ k) == 0

kept : ℕ → ℕ → ℕ → Bool
kept b j k = clear b k || not (clear (bit_or b (2 ^ j)) k)

put : ℕ → ℕ → Bool
put b j = not (clear (bit_or b (2 ^ j)) j) && ltb (bit_or b (2 ^ j)) 256

all_put : below 256 (λ b. below 8 (λ j. put b j)) ≡ true
unfolding below put clear
all_put = refl

all_kept : below 256 (λ b. below 8 (λ j. below 8 (λ k. kept b j k))) ≡ true
unfolding below kept clear
all_kept = refl

pub put_sets : (b j : ℕ) → b < 256 → j < 8 → (bit_and (bit_or b (2 ^ j)) (2 ^ j) == 0) ≡ false
unfolding put clear
put_sets b j hb hj = let all = below_lem 8 _ j (below_lem 256 _ b all_put hb) hj in ground arith

pub put_fits : (b j : ℕ) → b < 256 → j < 8 → bit_or b (2 ^ j) < 256
unfolding put clear
put_fits b j hb hj = let all = below_lem 8 _ j (below_lem 256 _ b all_put hb) hj in ground arith

pub put_keeps :
    (b j k : ℕ)
    → b < 256
    → j < 8
    → k < 8
    → (bit_and b (2 ^ k) == 0) ≡ false
    → (bit_and (bit_or b (2 ^ j)) (2 ^ k) == 0) ≡ false
unfolding kept clear
put_keeps b j k hb hj hk h =
    let all = below_lem 8 _ k (below_lem 8 _ j (below_lem 256 _ b all_kept hb) hj) hk in
    ground arith
