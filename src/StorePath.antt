-- ===== src/StorePath.antt =====
-- crates/ekapkgs-nix/src/store.rs, and `extract_pname` of crates/ekapkgs-serve/src/api/negotiate.rs:
-- the parts of a store path `/nix/store/<hash>-<name>-<version>`.
pub mod Names
mod Examples
use ekapkgs_cli.Prelude.{
  ℕ, zero, suc, Bool, true, false, ◌&&◌, not, Option, none, some, List, [], ◌∷◌, ◌++◌, Bytes, leb,
  ◌==◌, if◌then◌else◌,
}

-- `split(c).next()`: the text before the first `c`, or all of it.
unfoldable pub before_first : ℕ → Bytes → Bytes
before_first c [] = []
before_first c (b ∷ bs) = let rest = before_first c bs in if b == c then [] else b ∷ rest

-- `split_once(c)`.
unfoldable pub split_once : ℕ → Bytes → Option (Bytes × Bytes)
split_once c [] = none
split_once c (b ∷ bs) =
    let rest = split_once c bs in
    if b == c then some ([], bs) else elim rest [ none ↦ none | some (f, s) ↦ some (b ∷ f, s) ]

-- `rsplit(c).next()`: the text after the last `c`, or all of it.
unfoldable pub after_last : ℕ → Bytes → Bytes
after_last c [] = []
after_last c (b ∷ bs) =
    let rest = after_last c bs in elim (split_once c (b ∷ bs)) [ none ↦ b ∷ bs | some p ↦ rest ]

-- `store_path_hash`, whose `Option` is always `Some`; negotiate.rs and storage/mod.rs write the same.
unfoldable pub store_path_hash : Bytes → Bytes
store_path_hash path = before_first b'-' (after_last b'/' path)

abbrev pub is_ascii_digit : ℕ → Bool
is_ascii_digit b = leb b'0' b && leb b b'9'

abbrev pub starts_with_digit : Bytes → Bool
starts_with_digit [] = false
starts_with_digit (b ∷ bs) = is_ascii_digit b

-- The search for the first `-` before a digit: what stands before it, and what stands behind it.
unfoldable pub version_boundary : Bytes → Option (Bytes × Bytes)
version_boundary [] = none
version_boundary (b ∷ bs) =
    let rest = version_boundary bs in
    if b == b'-' && starts_with_digit bs
    then some ([], bs)
    else elim rest [ none ↦ none | some (name, version) ↦ some (b ∷ name, version) ]

unfoldable pub parse_store_path_name : Bytes → Bytes × Bytes
parse_store_path_name path =
    let basename = after_last b'/' path in
    elim (split_once b'-' basename) [
      | none ↦ (basename, [])
      | some (hash, name_version) ↦ elim (version_boundary name_version) [
        | none ↦ (name_version, [])
        | some (name, version) ↦ (name, version)
      ]
    ]
