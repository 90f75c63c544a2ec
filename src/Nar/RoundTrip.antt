-- ===== src/Nar/RoundTrip.antt =====
-- `parse_nar` of nar.rs reads back what `write_nar` writes.
use ekapkgs_cli.Prelude.{
  ℕ, zero, suc, ◌+◌, ◌^◌, ◌≤◌, ◌<◌, ◌≡◌, refl, ap, ◌++◌, Bytes, length, length-append, arith,
}
use ekapkgs_cli.Nar.{NarNode, Entries, regular, directory, symlink, end, entry}
use ekapkgs_cli.Nar.Writer.{
  write_bytes_to, write_str_to, write_nar_obj_to, write_entries_to, write_nar,
}
use ekapkgs_cli.Nar.Reader.{first, ok, expect_str, parse_nar_obj, parse_directory, parse_nar}
use ekapkgs_cli.Nar.Reads.{Anything, Reads, Reads-bind, Reads-expect_str}
use ekapkgs_cli.Nar.Storable.{
  IsStorable, AreStorable, Closed, fuel_of, fuel_of_entries, length-open,
}
use ekapkgs_cli.Nar.Nodes.{regular_obj, symlink_obj, directory_obj}
use ekapkgs_cli.Nar.Directories.{end_read, entry_step}

module _ (bytes : Bytes) (fits : length bytes < 2 ^ 64) where
  -- The fuel that a tree takes is enough for its own bytes.
  mutual
    unfolding fuel_of fuel_of_entries write_nar_obj_to write_entries_to

    obj_read :
        (node : NarNode) (fuel : ℕ)
        → IsStorable node
        → fuel_of node ≤ fuel
        → Reads bytes fits Anything (parse_nar_obj bytes fuel) (write_nar_obj_to node) node
    obj_read (regular x d) zero s h = absurd (omega arith)
    obj_read (regular x d) (suc zero) s h = absurd (omega arith)
    obj_read (regular x d) (suc (suc zero)) s h = absurd (omega arith)
    obj_read (regular x d) (suc (suc (suc fuel))) s h = regular_obj bytes fits fuel x d s
    obj_read (directory es) zero s h = absurd (omega arith)
    obj_read (directory es) (suc fuel) s h =
        directory_obj bytes fits fuel es (dir_read es fuel s (omega arith))
    obj_read (symlink t) zero s h = absurd (omega arith)
    obj_read (symlink t) (suc fuel) s h = symlink_obj bytes fits fuel t s

    dir_read :
        (es : Entries) (fuel : ℕ)
        → AreStorable es
        → fuel_of_entries es ≤ fuel
        → Reads bytes fits Closed (parse_directory bytes fuel) (write_entries_to es) es
    dir_read end zero s h = absurd (omega arith)
    dir_read end (suc fuel) s h = end_read bytes fits fuel
    dir_read (entry name node es) zero s h = absurd (omega arith)
    dir_read (entry name node es) (suc fuel) s h =
        entry_step bytes fits fuel name node es s.0 (obj_read node fuel s.1 (omega arith))
          (dir_read es fuel s.2 (omega arith))

-- A node takes less fuel than it has bytes.
mutual
  unfolding fuel_of fuel_of_entries write_nar_obj_to write_entries_to

  fuel-lt-length : (node : NarNode) → fuel_of node < length (write_nar_obj_to node)
  fuel-lt-length (regular x d) = omega (arith, length-open, length-append (write_str_to "(") _)
  fuel-lt-length (directory es) = omega (
    arith,
    length-open,
    length-append (write_str_to "(") _,
    length-append (write_str_to "type") _,
    length-append (write_str_to "directory") _,
    length-append (write_entries_to es) (write_str_to ")"),
    fuel-le-length es,
  )
  fuel-lt-length (symlink t) = omega (arith, length-open, length-append (write_str_to "(") _)

  fuel-le-length : (es : Entries) → fuel_of_entries es ≤ length (write_entries_to es) + 1
  fuel-le-length end = omega arith
  fuel-le-length (entry name node es) = omega (
    arith,
    length-append (write_str_to "entry") _,
    length-append (write_str_to "(") _,
    length-append (write_str_to "name") _,
    length-append (write_bytes_to name) _,
    length-append (write_str_to "node") _,
    length-append (write_nar_obj_to node) _,
    length-append (write_str_to ")") (write_entries_to es),
    fuel-lt-length node,
    fuel-le-length es,
  )

enough :
    (node : NarNode) (trailing : Bytes) → fuel_of node ≤ length (write_nar node ++ trailing) + 1
unfolding write_nar
enough node trailing = omega (
  arith,
  length-append (write_str_to "nix-archive-1" ++ write_nar_obj_to node) trailing,
  length-append (write_str_to "nix-archive-1") (write_nar_obj_to node),
  fuel-lt-length node,
)

-- For every tree whose names and targets are UTF-8 and whose archive is shorter than 2^64 bytes, parsing
-- what `write_nar` writes gives the tree back, whatever bytes follow the archive.
pub parse_nar-write_nar :
    (node : NarNode) (trailing : Bytes)
    → IsStorable node
    → length (write_nar node ++ trailing) < 2 ^ 64
    → parse_nar (write_nar node ++ trailing) ≡ ok node
unfolding parse_nar write_nar
parse_nar-write_nar node trailing storable fits =
    let bytes : Bytes = write_nar node ++ trailing in
    let fuel : ℕ = length bytes + 1 in
    let whole =
      Reads-bind bytes fits Anything Anything (expect_str bytes "nix-archive-1")
        (λ _. parse_nar_obj bytes fuel) (write_str_to "nix-archive-1") _ tt node
        (Reads-expect_str bytes fits "nix-archive-1" (omega arith)) (λ _ _. tt)
        (obj_read bytes fits node fuel storable (enough node trailing)) in
    ap first (whole.at 0 trailing tt (omega arith) refl)
