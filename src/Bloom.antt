-- ===== src/Bloom.antt =====
-- crates/ekapkgs-nix/src/bloom.rs: the Bloom filter of the digest negotiation. A byte is a number below
-- 256. The floating-point computation of the sizes is a parameter: `raw_bits` before `max(64)` and `k`
-- before `clamp(1, 30)`.
pub mod Bits
pub mod Members
pub mod Sound
mod Examples
use Prim.Native.Nat.{bit_and, bit_or}
use ekapkgs_cli.Prelude.{
  ℕ, zero, suc, ◌+◌, ◌*◌, ◌/◌, ◌%◌, ◌^◌, min, max, Bool, true, false, Option, none, some, List, [],
  ◌∷◌, Bytes, length, get_elem?, set, replicate, take, drop, from_le_bytes, ◌==◌, if◌then◌else◌,
}

pub record BloomFilter : Type 0 where
  pub bits : Bytes
  pub num_bits : ℕ
  pub num_hashes : ℕ

-- `BloomFilter::new` and `with_fpr`, which differ in `raw_bits`; `raw_k` is what `optimal_k` rounds to.
unfoldable pub sized : (ℕ → ℕ) → (ℕ → ℕ → ℕ) → ℕ → BloomFilter
sized raw_bits raw_k num_items =
    let num_bytes = (max (raw_bits num_items) 64 + 7) / 8 in
    record {
      bits = replicate num_bytes 0;
      num_bits = num_bytes * 8;
      num_hashes = if num_items == 0 then 1 else min (max (raw_k (num_bytes * 8) num_items) 1) 30;
    }

-- `BloomFilter::from_bytes`
unfoldable pub from_bytes : Bytes → ℕ → BloomFilter
from_bytes bytes num_hashes = record {
  bits = bytes;
  num_bits = length bytes * 8;
  num_hashes = max num_hashes 1;
}

-- `double_hash`; `h2 | 1` is the next odd number of an even one.
unfoldable pub double_hash : Bytes → ℕ × ℕ
double_hash digest =
    (from_le_bytes (take 8 digest), bit_or (from_le_bytes (take 8 (drop 8 digest))) 1)

-- The bit of the hash function `i`, with the `u64` wrap-around; 0 bits is a division by zero, which panics.
unfoldable pub bit_index : ℕ × ℕ → ℕ → ℕ → ℕ
bit_index h num_bits i = (h.0 + i * h.1 % 2 ^ 64) % 2 ^ 64 % num_bits

-- `self.bits[bit / 8]`, 0 out of range, where the source panics.
unfoldable pub byte_at : Bytes → ℕ → ℕ
byte_at bits i = elim (get_elem? bits i) [ none ↦ 0 | some b ↦ b ]

unfoldable pub set_bit : ℕ → Bytes → Bytes
set_bit bit bits = set bits (bit / 8) (bit_or (byte_at bits (bit / 8)) (2 ^ (bit % 8)))

unfoldable pub is_clear : ℕ → Bytes → Bool
is_clear bit bits = bit_and (byte_at bits (bit / 8)) (2 ^ (bit % 8)) == 0

-- The loop `for i in 0..num_hashes`, the remaining turns and the next `i`.
unfoldable pub insert_loop : ℕ → ℕ → ℕ × ℕ → ℕ → Bytes → Bytes
insert_loop zero i h num_bits bits = bits
insert_loop (suc n) i h num_bits bits =
    insert_loop n (i + 1) h num_bits (set_bit (bit_index h num_bits i) bits)

unfoldable pub insert : Bytes → BloomFilter → BloomFilter
insert digest f = record f {
  bits = insert_loop f.num_hashes 0 (double_hash digest) f.num_bits f.bits;
}

unfoldable pub contains_loop : ℕ → ℕ → ℕ × ℕ → ℕ → Bytes → Bool
contains_loop zero i h num_bits bits = true
contains_loop (suc n) i h num_bits bits =
    let rest = contains_loop n (i + 1) h num_bits bits in
    if is_clear (bit_index h num_bits i) bits then false else rest

unfoldable pub maybe_contains : Bytes → BloomFilter → Bool
maybe_contains digest f = contains_loop f.num_hashes 0 (double_hash digest) f.num_bits f.bits
