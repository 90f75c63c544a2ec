-- ===== src/Nar/Reader.antt =====
-- The parser of nar.rs: a cursor over the bytes, and the recursive descent, on fuel.
use ekapkgs_cli.Prelude.{
  ℕ, zero, suc, ◌+◌, ◌-◌, ◌^◌, Bool, true, false, String, [], Bytes, bytes_eq, codes, from_le_bytes,
  is_utf8, length, take, drop, ltb, leb, if◌then◌else◌,
}
use ekapkgs_cli.Nar.{NarNode, Entries, regular, directory, symlink, end, entry}
use ekapkgs_cli.Nar.Writer.{pad}

-- `panic` stands for Rust's: an overflow of `pos + len`, which a release build turns into a slice whose
-- end lies before its start. `out_of_fuel` is no outcome of the program.
pub data NarError : Type 0 where
  unexpected_eof : NarError
  unexpected_str : NarError
  not_utf8 : NarError
  unknown_type : NarError
  unexpected_field : NarError
  unexpected_token : NarError
  panic : NarError
  out_of_fuel : NarError

pub data Result {ℓ} (A : Type ℓ) : Type ℓ where
  ok : A → Result A
  err : NarError → Result A

-- An action reads at a position and returns the position after it.
abbrev pub Reader : Type 0 → Type 0
Reader A = ℕ → Result (A × ℕ)

abbrev pub return : {A : Type 0} → A → Reader A
return a pos = ok (a, pos)

abbrev pub bail : {A : Type 0} → NarError → Reader A
bail e pos = err e

infixl 5 ◌>>=◌ ◌>>◌
abbrev pub ◌>>=◌ : {A B : Type 0} → Reader A → (A → Reader B) → Reader B
◌>>=◌ m f pos = elim (m pos) [ ok (a, pos') ↦ f a pos' | err e ↦ err e ]

abbrev pub ◌>>◌ : {A B : Type 0} → Reader A → Reader B → Reader B
m >> k = m >>= λ _. k

-- The value without the position.
abbrev pub first : {A : Type 0} → Result (A × ℕ) → Result A
first (ok (a, pos)) = ok a
first (err e) = err e

module _ (bytes : Bytes) where
  unfoldable pub read_u64 : Reader ℕ
  read_u64 pos =
      if leb (pos + 8) (length bytes)
      then ok (from_le_bytes (take 8 (drop pos bytes)), pos + 8)
      else err unexpected_eof

  -- The part of `read_str` after the length.
  unfoldable pub read_sized : ℕ → Reader Bytes
  read_sized len pos =
      if leb (2 ^ 64) (pos + len)
      then err panic
      else if leb (pos + len) (length bytes)
      then ok (take len (drop pos bytes), pos + len + pad len)
      else err unexpected_eof

  unfoldable pub read_str : Reader Bytes
  read_str = read_u64 >>= read_sized

  unfoldable pub expect_str : String → Reader (Unit {0})
  expect_str expected = do
    s ← read_str
    if bytes_eq s (codes expected) then return tt else bail unexpected_str

  unfoldable pub read_string : Reader Bytes
  read_string = do s ← read_str; if is_utf8 s then return s else bail not_utf8

  -- `reader.pos -= 16`, past the `)` that was read last.
  abbrev rewind : Reader (Unit {0})
  rewind pos = ok (tt, pos - 16)

  -- `loop` of `parse_regular`.
  unfoldable pub parse_regular : ℕ → Bool → Reader NarNode
  parse_regular zero executable = bail out_of_fuel
  parse_regular (suc fuel) executable =
      let again = parse_regular fuel true in
      do
        field ← read_string
        if bytes_eq field (codes "executable")
            then (do read_str; again)
            else if bytes_eq field (codes "contents")
            then (do contents ← read_str; return (regular executable contents))
            else if bytes_eq field (codes ")")
            then (do rewind; return (regular executable []))
            else bail unexpected_field

  unfoldable pub parse_symlink : Reader NarNode
  parse_symlink = do expect_str "target"; target ← read_string; return (symlink target)

  unfoldable mutual
    pub parse_nar_obj : ℕ → Reader NarNode
    parse_nar_obj zero = bail out_of_fuel
    parse_nar_obj (suc fuel) = do
      expect_str "("
      expect_str "type"
      type_str ← read_string
      node ←
          (if bytes_eq type_str (codes "regular")
            then parse_regular fuel false
            else if bytes_eq type_str (codes "directory")
            then (do entries ← parse_directory fuel; return (directory entries))
            else if bytes_eq type_str (codes "symlink")
            then parse_symlink
            else bail unknown_type)
      expect_str ")"
      return node

    -- The entries that are pushed are returned as they are met.
    pub parse_directory : ℕ → Reader Entries
    parse_directory zero pos = err out_of_fuel
    parse_directory (suc fuel) pos =
        let next : Reader Entries = (do
          token ← read_string
          if bytes_eq token (codes "entry")
              then (do
                expect_str "("
                expect_str "name"
                name ← read_string
                expect_str "node"
                node ← parse_nar_obj fuel
                expect_str ")"
                rest ← parse_directory fuel
                return (entry name node rest))
              else if bytes_eq token (codes ")")
              then (do rewind; return end)
              else bail unexpected_token) in
        if ltb (length bytes - pos) 8 then ok (end, pos) else next pos

  -- Every level of the tree and every field takes 8 bytes at least.
  unfoldable pub parse_nar : Result NarNode
  parse_nar = first ((do expect_str "nix-archive-1"; parse_nar_obj (length bytes + 1)) 0)
