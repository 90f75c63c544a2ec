-- ===== src/Compat/Examples.antt =====
-- Concrete names and headers.
use ekapkgs_cli.Prelude.{
  ◌+◌, ◌-◌, ◌≤◌, ◌<◌, ◌≡◌, refl, true, some, [], ◌∷◌, ◌++◌, Bytes, bytes_eq, codes, any, length,
  take, drop,
}
use ekapkgs_cli.StorePath.{split_once}
use ekapkgs_cli.Compat.{
  all, is_valid_nix_hash, has_dots, strip_suffix, nar_hash_of, is_valid_nar_filename, strip_prefix,
  parse_digits, parse_usize, end_of, checked_range, parse_range_header, range_slice,
}
use ekapkgs_cli.Compat.Laws.{IsNarName, is_valid_nar_filename-IsNarName, parse_range_header_lem}

accepted : is_valid_nar_filename (codes "a1.nar.xz") ≡ true
unfolding is_valid_nar_filename nar_hash_of strip_suffix is_valid_nix_hash all any has_dots bytes_eq
accepted = refl

is_valid_nar_filename-IsNarName_example : IsNarName (codes "a1.nar.xz")
is_valid_nar_filename-IsNarName_example =
    is_valid_nar_filename-IsNarName (codes "a1.nar.xz") accepted

abbrev archive : Bytes
archive = 10 ∷ 11 ∷ 12 ∷ 13 ∷ []

parsed : parse_range_header (codes "bytes=1-2") (length archive) ≡ some (1, 2)
unfolding parse_range_header strip_prefix split_once parse_usize parse_digits end_of checked_range
parsed = refl

parse_range_header_lem_example :
    (1 ≤ 2)
    × (2 < length archive)
    × (length (range_slice (some (codes "bytes=1-2")) archive) ≡ 2 + 1 - 1)
    × (take 1 archive ++ (range_slice (some (codes "bytes=1-2")) archive ++ drop (2 + 1) archive)
        ≡ archive)
parse_range_header_lem_example = parse_range_header_lem (codes "bytes=1-2") archive 1 2 parsed
