-- ===== src/Nar/Storable.antt =====
-- What Rust guarantees of a NAR tree, how much fuel the tree takes, and lengths of what is written.
use ekapkgs_cli.Prelude.{
  ℕ, ◌+◌, ◌^◌, ◌≤◌, ◌<◌, ◌≡◌, refl, true, ◌++◌, Bytes, le_bytes, is_utf8, length, length-append,
  arith,
}
use ekapkgs_cli.Nar.{NarNode, Entries, regular, directory, symlink, end, entry}
use ekapkgs_cli.Nar.Writer.{write_bytes_to, write_str_to, write_entries_to}

-- A Rust `String` that fits in memory.
abbrev pub IsText : Bytes → Type 0
IsText s = (length s < 2 ^ 64) × (is_utf8 s ≡ true)

-- What Rust's types guarantee of a tree: names and targets are UTF-8, and every length fits `u64`.
abbrev mutual
  pub IsStorable : NarNode → Type 0
  IsStorable (regular x d) = length d < 2 ^ 64
  IsStorable (directory es) = AreStorable es
  IsStorable (symlink t) = IsText t

  pub AreStorable : Entries → Type 0
  AreStorable end = Unit
  AreStorable (entry name node es) = IsText name × IsStorable node × AreStorable es

-- The fuel that a tree takes.
unfoldable mutual
  pub fuel_of : NarNode → ℕ
  fuel_of (regular x d) = 3
  fuel_of (directory es) = 1 + fuel_of_entries es
  fuel_of (symlink t) = 1

  pub fuel_of_entries : Entries → ℕ
  fuel_of_entries end = 1
  fuel_of_entries (entry name node es) = 1 + (fuel_of node + fuel_of_entries es)

-- The bytes begin with a closing parenthesis.
unfoldable pub Closed : Bytes → Type 0
Closed rest = (r : Bytes) × (rest ≡ write_str_to ")" ++ r)

pub length-close : length (write_str_to ")") ≡ 16
unfolding write_bytes_to le_bytes
length-close = refl

pub length-open : length (write_str_to "(") ≡ 16
unfolding write_bytes_to le_bytes
length-open = refl

pub length-entry : length (write_str_to "entry") ≡ 16
unfolding write_bytes_to le_bytes
length-entry = refl

pub long_entry :
    (name : Bytes) (node : NarNode) (es : Entries)
    → 16 ≤ length (write_entries_to (entry name node es))
unfolding write_entries_to
long_entry name node es = omega (arith, length-entry, length-append (write_str_to "entry") _)
