-- ===== src/Compat.antt =====
-- crates/ekapkgs-serve/src/api/compat.rs: the checks of requested names, the range of a download and the
-- escaping of text for a page.
pub mod Laws
mod Examples
use ekapkgs_cli.Prelude.{
  ℕ, zero, suc, ◌+◌, ◌-◌, ◌*◌, ◌^◌, ◌≡◌, Bool, true, false, not, ◌&&◌, ◌||◌, Option, none, some,
  List, [], ◌∷◌, ◌++◌, Bytes, bytes_eq, codes, contains, any, length, take, drop, leb, ltb, ◌==◌,
  if◌then◌else◌,
}
use ekapkgs_cli.StorePath.{split_once}

-- `bytes().all`
unfoldable pub all : (ℕ → Bool) → Bytes → Bool
all p [] = true
all p (b ∷ bs) = p b && all p bs

-- `is_ascii_digit`, `is_ascii_lowercase`
abbrev pub is_digit : ℕ → Bool
is_digit b = leb 48 b && leb b 57

abbrev pub is_lowercase : ℕ → Bool
is_lowercase b = leb 97 b && leb b 122

abbrev pub is_hash_byte : ℕ → Bool
is_hash_byte b = is_lowercase b || is_digit b

unfoldable pub is_valid_nix_hash : Bytes → Bool
is_valid_nix_hash [] = false
is_valid_nix_hash (b ∷ bs) = all is_hash_byte (b ∷ bs)

abbrev pub nix_base32 : Bytes
nix_base32 = codes "0123456789abcdfghijklmnpqrsvwxyz"

unfoldable pub is_valid_store_hash : Bytes → Bool
is_valid_store_hash s = (length s == 32) && all (λ b. any (λ c. c == b) nix_base32) s

-- `contains("..")`
unfoldable pub has_dots : Bytes → Bool
has_dots [] = false
has_dots (b ∷ []) = false
has_dots (b ∷ c ∷ bs) = ((b == 46) && (c == 46)) || has_dots (c ∷ bs)

unfoldable pub strip_suffix : Bytes → Bytes → Option Bytes
strip_suffix suffix s =
    if leb (length suffix) (length s) && bytes_eq (drop (length s - length suffix) s) suffix
    then some (take (length s - length suffix) s)
    else none

unfoldable pub nar_hash_of : Bytes → Option Bytes
nar_hash_of s = elim (strip_suffix (codes ".nar.xz") s) [
  | some h ↦ some h
  | none ↦ elim (strip_suffix (codes ".nar.zst") s) [
    | some h ↦ some h
    | none ↦ strip_suffix (codes ".nar") s
  ]
]

unfoldable pub is_valid_nar_filename : Bytes → Bool
is_valid_nar_filename s =
    if any (λ b. b == 47) s || any (λ b. b == 92) s || has_dots s
    then false
    else elim (nar_hash_of s) [ none ↦ false | some hash ↦ is_valid_nix_hash hash ]

unfoldable pub strip_prefix : Bytes → Bytes → Option Bytes
strip_prefix [] s = some s
strip_prefix (p ∷ ps) [] = none
strip_prefix (p ∷ ps) (b ∷ bs) = let rest = strip_prefix ps bs in if p == b then rest else none

-- `parse::<usize>()`: digits, after one `+` at most, below 2 ^ 64.
unfoldable pub parse_digits : Bytes → ℕ → Option ℕ
parse_digits [] n = some n
parse_digits (b ∷ bs) n =
    let rest = parse_digits bs (n * 10 + (b - 48)) in
    if is_digit b && ltb (n * 10 + (b - 48)) (2 ^ 64) then rest else none

unfoldable pub parse_usize : Bytes → Option ℕ
parse_usize [] = none
parse_usize (b ∷ []) = parse_digits (b ∷ []) 0
parse_usize (b ∷ c ∷ bs) = if b == 43 then parse_digits (c ∷ bs) 0 else parse_digits (b ∷ c ∷ bs) 0

unfoldable pub end_of : Bytes → ℕ → Option ℕ
end_of [] total = some (total - 1)
end_of (b ∷ bs) total = parse_usize (b ∷ bs)

unfoldable pub checked_range : ℕ → ℕ → ℕ → Option (ℕ × ℕ)
checked_range start end total =
    if leb total start || leb total end || ltb end start then none else some (start, end)

unfoldable pub parse_range_header : Bytes → ℕ → Option (ℕ × ℕ)
parse_range_header header total = elim (strip_prefix (codes "bytes=") header) [
  | none ↦ none
  | some range ↦ elim (split_once 45 range) [
    | none ↦ none
    | some (start_str, end_str) ↦ elim (parse_usize start_str) [
      | none ↦ none
      | some start ↦ elim (end_of end_str total) [
        | none ↦ none
        | some end ↦ checked_range start end total
      ]
    ]
  ]
]

-- The bytes of a buffered download: `data[start..=end]`, or all where there is no valid range.
unfoldable pub range_slice : Option Bytes → Bytes → Bytes
range_slice none bytes = bytes
range_slice (some header) bytes = elim (parse_range_header header (length bytes)) [
  | none ↦ bytes
  | some (start, end) ↦ take (end + 1 - start) (drop start bytes)
]

unfoldable pub escape_byte : ℕ → Bytes
escape_byte b =
    if b == 38
    then codes "&amp;"
    else if b == 60
    then codes "&lt;"
    else if b == 62
    then codes "&gt;"
    else if b == 34
    then codes "&quot;"
    else if b == 39
    then codes "&#x27;"
    else b ∷ []

-- The characters of the match are ASCII, so that it can go byte by byte.
unfoldable pub html_escape : Bytes → Bytes
html_escape [] = []
html_escape (b ∷ bs) = escape_byte b ++ html_escape bs
