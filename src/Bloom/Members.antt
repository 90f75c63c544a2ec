-- ===== src/Bloom/Members.antt =====
-- No false negatives in the Bloom filter of crates/ekapkgs-nix/src/bloom.rs.
use Prim.Native.Nat.{bit_and, bit_or}
use native.Mathlib.Nat.{mod-lt}
use ekapkgs_cli.Prelude.{
  ℕ, zero, suc, ◌+◌, ◌*◌, ◌/◌, ◌%◌, ◌^◌, ◌<◌, ◌≡◌, refl, sym, ap, ◌∙◌, inl, inr, true, false, [],
  ◌∷◌, Bytes, length, set, All, ◌==◌, Bool-cases, arith,
}
use ekapkgs_cli.Bloom.{bit_index, byte_at, set_bit, is_clear, insert_loop, contains_loop}
use ekapkgs_cli.Bloom.Bits.{put_sets, put_fits, put_keeps}

-- Every element is a byte.
unfoldable pub IsBytes : Bytes → Type 0
IsBytes bits = All (λ b. b < 256) bits

byte_at-fits : (bits : Bytes) (i : ℕ) → IsBytes bits → byte_at bits i < 256
unfolding byte_at IsBytes
byte_at-fits [] i h = omega arith
byte_at-fits (b ∷ bits) zero h = h.0
byte_at-fits (b ∷ bits) (suc i) h = byte_at-fits bits i h.1

set-IsBytes : (bits : Bytes) (i v : ℕ) → v < 256 → IsBytes bits → IsBytes (set bits i v)
unfolding IsBytes
set-IsBytes [] i v hv h = tt
set-IsBytes (b ∷ bits) zero v hv h = (hv, h.1)
set-IsBytes (b ∷ bits) (suc i) v hv h = (h.0, set-IsBytes bits i v hv h.1)

length-set : (bits : Bytes) (i v : ℕ) → length (set bits i v) ≡ length bits
length-set [] i v = refl
length-set (b ∷ bits) zero v = refl
length-set (b ∷ bits) (suc i) v = ap suc (length-set bits i v)

byte_at-set : (bits : Bytes) (i v : ℕ) → i < length bits → byte_at (set bits i v) i ≡ v
unfolding byte_at
byte_at-set [] i v h = absurd (omega arith)
byte_at-set (b ∷ bits) zero v h = refl
byte_at-set (b ∷ bits) (suc i) v h = byte_at-set bits i v (omega arith)

byte_at-set_other :
    (bits : Bytes) (i j v : ℕ) → (i == j) ≡ false → byte_at (set bits i v) j ≡ byte_at bits j
unfolding byte_at
byte_at-set_other [] i j v h = refl
byte_at-set_other (b ∷ bits) zero zero v h = absurd (ground arith)
byte_at-set_other (b ∷ bits) zero (suc j) v h = refl
byte_at-set_other (b ∷ bits) (suc i) zero v h = refl
byte_at-set_other (b ∷ bits) (suc i) (suc j) v h = byte_at-set_other bits i j v (ground arith)

set_bit-IsBytes : (bit : ℕ) (bits : Bytes) → IsBytes bits → IsBytes (set_bit bit bits)
unfolding set_bit
set_bit-IsBytes bit bits h =
    set-IsBytes bits (bit / 8) _
      (put_fits _ (bit % 8) (byte_at-fits bits (bit / 8) h) (omega arith)) h

length-set_bit : (bit : ℕ) (bits : Bytes) → length (set_bit bit bits) ≡ length bits
unfolding set_bit
length-set_bit bit bits = length-set bits (bit / 8) _

set_bit-sets :
    (bit : ℕ) (bits : Bytes)
    → IsBytes bits
    → bit / 8 < length bits
    → is_clear bit (set_bit bit bits) ≡ false
unfolding set_bit is_clear
set_bit-sets bit bits h inside =
    ap (λ b. bit_and b (2 ^ (bit % 8)) == 0) (byte_at-set bits (bit / 8) _ inside)
    ∙ put_sets _ (bit % 8) (byte_at-fits bits (bit / 8) h) (omega arith)

set_bit-keeps :
    (bit k : ℕ) (bits : Bytes)
    → IsBytes bits
    → bit / 8 < length bits
    → is_clear k bits ≡ false
    → is_clear k (set_bit bit bits) ≡ false
unfolding set_bit is_clear
set_bit-keeps bit k bits h inside set_before = elim (Bool-cases (bit / 8 == k / 8)) [
  | inl same ↦
      let eq : k / 8 ≡ bit / 8 = ground arith in
      ap
        (λ i.
          bit_and (byte_at (set bits (bit / 8) (bit_or (byte_at bits (bit / 8)) (2 ^ (bit % 8)))) i)
            (2 ^ (k % 8))
          == 0)
        eq
      ∙ (ap (λ b. bit_and b (2 ^ (k % 8)) == 0) (byte_at-set bits (bit / 8) _ inside)
          ∙ put_keeps _ (bit % 8) (k % 8) (byte_at-fits bits (bit / 8) h) (omega arith)
              (omega arith)
              (ap (λ i. bit_and (byte_at bits i) (2 ^ (k % 8)) == 0) (sym eq) ∙ set_before))
  | inr other ↦
      ap (λ b. bit_and b (2 ^ (k % 8)) == 0) (byte_at-set_other bits (bit / 8) (k / 8) _ other)
      ∙ set_before
]

-- A filter with bits, of which `num_bits` are counted.
unfoldable pub IsFilter : ℕ → Bytes → Type 0
IsFilter num_bits bits = (num_bits ≡ length bits * 8) × (0 < length bits) × IsBytes bits

bit_index-inside :
    (h : ℕ × ℕ) (num_bits i : ℕ) (bits : Bytes)
    → IsFilter num_bits bits
    → bit_index h num_bits i / 8 < length bits
unfolding bit_index IsFilter
bit_index-inside h num_bits i bits valid =
    let lt =
      mod-lt ((h.0 + i * h.1 % 2 ^ 64) % 2 ^ 64) {m = num_bits} (omega (arith, valid.0, valid.1)) in
    omega (arith, lt, valid.0)

set_bit-IsFilter :
    (num_bits bit : ℕ) (bits : Bytes)
    → IsFilter num_bits bits
    → IsFilter num_bits (set_bit bit bits)
unfolding IsFilter
set_bit-IsFilter num_bits bit bits valid =
    let same = length-set_bit bit bits in
    (omega (arith, same, valid.0), omega (arith, same, valid.1), set_bit-IsBytes bit bits valid.2)

pub insert_loop-IsFilter :
    (n i : ℕ) (h : ℕ × ℕ) (num_bits : ℕ) (bits : Bytes)
    → IsFilter num_bits bits
    → IsFilter num_bits (insert_loop n i h num_bits bits)
unfolding insert_loop
insert_loop-IsFilter zero i h num_bits bits valid = valid
insert_loop-IsFilter (suc n) i h num_bits bits valid =
    insert_loop-IsFilter n (i + 1) h num_bits _
      (set_bit-IsFilter num_bits (bit_index h num_bits i) bits valid)

insert_loop-keeps :
    (n i : ℕ) (h : ℕ × ℕ) (num_bits k : ℕ) (bits : Bytes)
    → IsFilter num_bits bits
    → is_clear k bits ≡ false
    → is_clear k (insert_loop n i h num_bits bits) ≡ false
unfolding insert_loop IsFilter
insert_loop-keeps zero i h num_bits k bits valid was = was
insert_loop-keeps (suc n) i h num_bits k bits valid was =
    insert_loop-keeps n (i + 1) h num_bits k _
      (set_bit-IsFilter num_bits (bit_index h num_bits i) bits valid)
      (set_bit-keeps (bit_index h num_bits i) k bits valid.2
        (bit_index-inside h num_bits i bits valid) was)

-- The members stay members, and what is inserted is a member.
pub contains_loop-insert_loop :
    (m j : ℕ) (g : ℕ × ℕ) (n i : ℕ) (h : ℕ × ℕ) (num_bits : ℕ) (bits : Bytes)
    → IsFilter num_bits bits
    → contains_loop m j g num_bits bits ≡ true
    → contains_loop m j g num_bits (insert_loop n i h num_bits bits) ≡ true
unfolding contains_loop
contains_loop-insert_loop zero j g n i h num_bits bits valid was = refl
contains_loop-insert_loop (suc m) j g n i h num_bits bits valid was =
    elim (Bool-cases (is_clear (bit_index g num_bits j) bits)) [
      | inl clear ↦ absurd (ground arith)
      | inr isset ↦
          let stays = insert_loop-keeps n i h num_bits (bit_index g num_bits j) bits valid isset in
          let rest =
            contains_loop-insert_loop m (j + 1) g n i h num_bits bits valid (ground arith) in
          rw stays rest
    ]

pub inserted :
    (n i : ℕ) (h : ℕ × ℕ) (num_bits : ℕ) (bits : Bytes)
    → IsFilter num_bits bits
    → contains_loop n i h num_bits (insert_loop n i h num_bits bits) ≡ true
unfolding contains_loop insert_loop IsFilter
inserted zero i h num_bits bits valid = refl
inserted (suc n) i h num_bits bits valid =
    let bit = bit_index h num_bits i in
    let next = set_bit-IsFilter num_bits bit bits valid in
    let stays =
      insert_loop-keeps n (i + 1) h num_bits bit (set_bit bit bits) next
        (set_bit-sets bit bits valid.2 (bit_index-inside h num_bits i bits valid)) in
    rw stays (inserted n (i + 1) h num_bits (set_bit bit bits) next)
