-- ===== src/Bloom/Examples.antt =====
-- A concrete Bloom filter.
use ekapkgs_cli.Prelude.{
  ℕ, ◌+◌, ◌*◌, ◌/◌, ◌≡◌, refl, true, [], ◌∷◌, Bytes, replicate, contains, bytes_eq,
}
use ekapkgs_cli.Bloom.{sized, from_bytes, maybe_contains}
use ekapkgs_cli.Bloom.Sound.{insert_list, maybe_contains-from_bytes}

abbrev digest : ℕ → Bytes
digest n = replicate 32 n

abbrev raw_bits : ℕ → ℕ
raw_bits n = (n * 9585 + 999) / 1000

abbrev raw_k : ℕ → ℕ → ℕ
raw_k bits n = 7

member : contains (digest 5) (digest 3 ∷ digest 5 ∷ []) ≡ true
unfolding contains bytes_eq
member = refl

maybe_contains-from_bytes_example :
    maybe_contains (digest 5) (
      from_bytes
        (insert_list (digest 3 ∷ digest 5 ∷ []) (sized raw_bits raw_k 2)).bits
        (insert_list (digest 3 ∷ digest 5 ∷ []) (sized raw_bits raw_k 2)).num_hashes)
    ≡ true
maybe_contains-from_bytes_example =
    maybe_contains-from_bytes raw_bits raw_k 2 (digest 3 ∷ digest 5 ∷ []) (digest 5) member
