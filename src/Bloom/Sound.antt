-- ===== src/Bloom/Sound.antt =====
-- The Bloom filter that a client of crates/ekapkgs-nix/src/bloom.rs fills and a server reads.
use ekapkgs_cli.Prelude.{
  ℕ, zero, suc, ◌+◌, ◌*◌, ◌/◌, ◌≤◌, ◌≡◌, refl, inl, inr, true, List, [], ◌∷◌, Bytes, length,
  replicate, length-replicate, max, contains, bytes_eq, bytes_eq→eq, subst, sym, Bool-cases, arith,
}
use ekapkgs_cli.Bloom.{BloomFilter, sized, from_bytes, double_hash, insert, maybe_contains}
use ekapkgs_cli.Bloom.Members.{
  IsBytes, IsFilter, insert_loop-IsFilter, contains_loop-insert_loop, inserted,
}

-- The digests of a list, inserted one after the other.
unfoldable pub insert_list : List Bytes → BloomFilter → BloomFilter
insert_list [] f = f
insert_list (d ∷ ds) f = insert_list ds (insert d f)

IsValid : BloomFilter → Type 0
IsValid f = IsFilter f.num_bits f.bits

insert-IsValid : (d : Bytes) (f : BloomFilter) → IsValid f → IsValid (insert d f)
unfolding IsValid insert
insert-IsValid d f valid =
    insert_loop-IsFilter f.num_hashes 0 (double_hash d) f.num_bits f.bits valid

insert_list-IsValid : (ds : List Bytes) (f : BloomFilter) → IsValid f → IsValid (insert_list ds f)
unfolding insert_list
insert_list-IsValid [] f valid = valid
insert_list-IsValid (d ∷ ds) f valid =
    insert_list-IsValid ds (insert d f) (insert-IsValid d f valid)

num_hashes_kept : (ds : List Bytes) (f : BloomFilter) → (insert_list ds f).num_hashes ≡ f.num_hashes
unfolding insert_list insert
num_hashes_kept [] f = refl
num_hashes_kept (d ∷ ds) f = num_hashes_kept ds (insert d f)

insert_list-keeps :
    (x : Bytes) (ds : List Bytes) (f : BloomFilter)
    → IsValid f
    → maybe_contains x f ≡ true
    → maybe_contains x (insert_list ds f) ≡ true
unfolding insert_list insert maybe_contains IsValid
insert_list-keeps x [] f valid was = was
insert_list-keeps x (d ∷ ds) f valid was =
    insert_list-keeps x ds (insert d f) (insert-IsValid d f valid) (
      contains_loop-insert_loop f.num_hashes 0 (double_hash x) f.num_hashes 0 (double_hash d)
        f.num_bits f.bits valid was)

maybe_contains-insert_list :
    (x : Bytes) (ds : List Bytes) (f : BloomFilter)
    → IsValid f
    → contains x ds ≡ true
    → maybe_contains x (insert_list ds f) ≡ true
unfolding insert_list insert maybe_contains IsValid contains
maybe_contains-insert_list x [] f valid member = absurd (ground arith)
maybe_contains-insert_list x (d ∷ ds) f valid member = elim (Bool-cases (bytes_eq x d)) [
  | inl same ↦ insert_list-keeps x ds (insert d f) (insert-IsValid d f valid) (
      subst (λ y. maybe_contains y (insert d f) ≡ true) (sym (bytes_eq→eq x d same))
        (inserted f.num_hashes 0 (double_hash d) f.num_bits f.bits valid))
  | inr other ↦
      maybe_contains-insert_list x ds (insert d f) (insert-IsValid d f valid) (ground arith)
]

replicate-IsBytes : (n : ℕ) → IsBytes (replicate n 0)
unfolding IsBytes
replicate-IsBytes zero = tt
replicate-IsBytes (suc n) = (omega arith, replicate-IsBytes n)

module _ (raw_bits : ℕ → ℕ) (raw_k : ℕ → ℕ → ℕ) where
  sized-IsValid : (n : ℕ) → IsValid (sized raw_bits raw_k n)
  unfolding IsValid sized IsFilter
  sized-IsValid n =
      let bytes = (max (raw_bits n) 64 + 7) / 8 in
      let zeros : Bytes = replicate bytes 0 in
      let len : length zeros ≡ bytes = length-replicate {A = ℕ} bytes 0 in
      (omega (arith, len), omega (arith, len), replicate-IsBytes bytes)

  sized-num_hashes : (n : ℕ) → 1 ≤ (sized raw_bits raw_k n).num_hashes
  unfolding sized
  sized-num_hashes n = ground arith

  from_bytes_same :
      (f : BloomFilter) → IsValid f → 1 ≤ f.num_hashes → from_bytes f.bits f.num_hashes ≡ f
  unfolding from_bytes IsValid IsFilter
  from_bytes_same f valid some_hash =
      let bits : length f.bits * 8 ≡ f.num_bits = sym valid.0 in
      let hashes : max f.num_hashes 1 ≡ f.num_hashes = omega arith in rw (bits, hashes) refl

  -- A filter sized in any way and filled with digests, then rebuilt from its bytes and its number of
  -- hashes, reports every one of the digests as contained.
  pub maybe_contains-from_bytes :
      (n : ℕ) (ds : List Bytes) (x : Bytes)
      → contains x ds ≡ true
      → maybe_contains x (
          from_bytes
            (insert_list ds (sized raw_bits raw_k n)).bits
            (insert_list ds (sized raw_bits raw_k n)).num_hashes)
        ≡ true
  maybe_contains-from_bytes n ds x member =
      let f = sized raw_bits raw_k n in
      let full = insert_list ds f in
      let valid = insert_list-IsValid ds f (sized-IsValid n) in
      let hashes : 1 ≤ full.num_hashes = omega (arith, num_hashes_kept ds f, sized-num_hashes n) in
      subst (λ g. maybe_contains x g ≡ true) (sym (from_bytes_same full valid hashes))
        (maybe_contains-insert_list x ds f (sized-IsValid n) member)
