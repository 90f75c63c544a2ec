-- ===== src/Nar/Examples.antt =====
-- Runs of the NAR writer and parser, and the theorems at concrete inputs.
use ekapkgs_cli.Prelude.{
  ◌≡◌, refl, false, true, [], ◌∷◌, ◌++◌, bytes_eq, codes, le_bytes, from_le_bytes, is_utf8, arith,
}
use ekapkgs_cli.Nar.{NarNode, regular, directory, symlink, end, entry}
use ekapkgs_cli.Nar.Writer.{write_bytes_to, write_str_to, write_nar_obj_to, write_nar}
use ekapkgs_cli.Nar.Reader.{
  ok, read_u64, read_sized, read_str, expect_str, read_string, parse_regular, parse_nar_obj,
  parse_nar,
}
use ekapkgs_cli.Nar.Storable.{IsStorable}
use ekapkgs_cli.Nar.RoundTrip.{parse_nar-write_nar}

abbrev tree : NarNode
tree =
    directory
      (entry (codes "a") (regular true (codes "hi")) (entry (codes "l") (symlink (codes "a")) end))

tree-IsStorable : IsStorable tree
unfolding is_utf8
tree-IsStorable = ((omega arith, refl), omega arith, ((omega arith, refl), (omega arith, refl), tt))

parse_nar-write_nar_example : parse_nar (write_nar tree ++ (7 ∷ [])) ≡ ok tree
unfolding write_nar write_nar_obj_to write_bytes_to le_bytes
parse_nar-write_nar_example = parse_nar-write_nar tree (7 ∷ []) tree-IsStorable (omega arith)

-- A regular file with no `contents` field is empty.
no_contents :
    parse_nar (
      write_str_to "nix-archive-1"
      ++ (write_str_to "("
          ++ (write_str_to "type" ++ (write_str_to "regular" ++ write_str_to ")"))))
    ≡ ok (regular false [])
unfolding parse_nar parse_nar_obj parse_regular read_string expect_str read_str read_sized read_u64
    write_bytes_to le_bytes from_le_bytes bytes_eq is_utf8
no_contents = refl
