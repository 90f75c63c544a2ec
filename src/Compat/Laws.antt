-- ===== src/Compat/Laws.antt =====
-- What crates/ekapkgs-serve/src/api/compat.rs lets through.
use ekapkgs_cli.Prelude.{
  ℕ, zero, suc, ◌+◌, ◌-◌, ◌≤◌, ◌<◌, ◌≡◌, ◌≢◌, ◌⊎◌, refl, sym, ap, ap₂, ◌∙◌, inl, inr, Bool, true,
  false, ◌&&◌, ◌||◌, some, [], ◌∷◌, ◌++◌, Bytes, bytes_eq, bytes_eq→eq, codes, any, All, length,
  length-drop, drop-add, take, drop, leb, ltb, ◌==◌, Bool-cases, Option-cases, arith,
}
use ekapkgs_cli.StorePath.{split_once}
use ekapkgs_cli.Compat.{
  all, is_hash_byte, is_valid_nix_hash, strip_suffix, nar_hash_of, is_valid_nar_filename,
  strip_prefix, parse_usize, end_of, checked_range, parse_range_header, range_slice, escape_byte,
  html_escape,
}

take-drop : (n : ℕ) (s : Bytes) → take n s ++ drop n s ≡ s
take-drop zero s = refl
take-drop (suc n) [] = refl
take-drop (suc n) (b ∷ s) = ap (λ x. b ∷ x) (take-drop n s)

strip_suffix-some : (suffix s h : Bytes) → strip_suffix suffix s ≡ some h → s ≡ h ++ suffix
unfolding strip_suffix
strip_suffix-some suffix s h found =
    elim (Bool-cases
      (leb (length suffix) (length s) && bytes_eq (drop (length s - length suffix) s) suffix)) [
        | inl ends ↦
            let tail = bytes_eq→eq (drop (length s - length suffix) s) suffix (ground arith) in
            let head : take (length s - length suffix) s ≡ h = ground arith in
            sym (take-drop (length s - length suffix) s)
            ∙ (ap (λ x. x ++ drop (length s - length suffix) s) head ∙ ap (λ x. h ++ x) tail)
        | inr no_suffix ↦ absurd (ground arith)
      ]

-- A lower case letter or a digit.
abbrev pub IsHashByte : ℕ → Type 0
IsHashByte b = ((97 ≤ b) × (b ≤ 122)) ⊎ ((48 ≤ b) × (b ≤ 57))

-- A name of an archive: a hash of lower case letters and digits, and one of the three suffixes.
abbrev pub IsNarName : Bytes → Type 0
IsNarName s =
    (hash : Bytes) × (hash ≢ [])
    × All IsHashByte hash
    × ((s ≡ hash ++ codes ".nar.xz")
        ⊎ ((s ≡ hash ++ codes ".nar.zst") ⊎ (s ≡ hash ++ codes ".nar")))

nar_hash_of-some :
    (s hash : Bytes)
    → nar_hash_of s ≡ some hash
    → (s ≡ hash ++ codes ".nar.xz") ⊎ ((s ≡ hash ++ codes ".nar.zst") ⊎ (s ≡ hash ++ codes ".nar"))
unfolding nar_hash_of
nar_hash_of-some s hash found = elim (Option-cases (strip_suffix (codes ".nar.xz") s)) [
  | inr (h, xz) ↦
      let same : h ≡ hash = ground arith in inl (strip_suffix-some _ s hash (xz ∙ ap some same))
  | inl not_xz ↦ elim (Option-cases (strip_suffix (codes ".nar.zst") s)) [
    | inr (h, zst) ↦
        let same : h ≡ hash = ground arith in
        inr (inl (strip_suffix-some _ s hash (zst ∙ ap some same)))
    | inl not_zst ↦ inr (inr (strip_suffix-some _ s hash (ground arith)))
  ]
]

hash_bytes : (hash : Bytes) → all is_hash_byte hash ≡ true → All IsHashByte hash
unfolding all
hash_bytes [] h = tt
hash_bytes (b ∷ bs) h = elim (Bool-cases (leb 97 b && leb b 122)) [
  | inl letter ↦ (inl (ground arith, ground arith), hash_bytes bs (ground arith))
  | inr other ↦ (inr (ground arith, ground arith), hash_bytes bs (ground arith))
]

is_valid_nix_hash-All :
    (hash : Bytes) → is_valid_nix_hash hash ≡ true → (hash ≢ []) × All IsHashByte hash
unfolding is_valid_nix_hash
is_valid_nix_hash-All [] h = absurd (ground arith)
is_valid_nix_hash-All (b ∷ bs) h = (λ empty. absurd (ground arith), hash_bytes (b ∷ bs) h)

-- A name that is accepted for an archive is a hash of lower case letters and digits, not empty,
-- followed by one of the three suffixes.
pub is_valid_nar_filename-IsNarName : (s : Bytes) → is_valid_nar_filename s ≡ true → IsNarName s
unfolding is_valid_nar_filename
is_valid_nar_filename-IsNarName s accepted = elim (Option-cases (nar_hash_of s)) [
  | inl missing ↦ absurd (ground arith)
  | inr (hash, found) ↦
      let (nonempty, bytes) = is_valid_nix_hash-All hash (ground arith) in
      (hash, nonempty, bytes, nar_hash_of-some s hash found)
]

checked_range-some :
    (start end total a b : ℕ)
    → checked_range start end total ≡ some (a, b)
    → (start ≡ a) × (end ≡ b) × (a ≤ b) × (b < total)
unfolding checked_range
checked_range-some start end total a b h =
    elim (Bool-cases (leb total start || leb total end || ltb end start)) [
      | inl refused ↦ absurd (ground arith)
      | inr allowed ↦
          let starts : start ≡ a = ground arith in
          let ends : end ≡ b = ground arith in (starts, ends, ground arith, ground arith)
    ]

parse_range_header-some :
    (header : Bytes) (total a b : ℕ)
    → parse_range_header header total ≡ some (a, b)
    → (a ≤ b) × (b < total)
unfolding parse_range_header
parse_range_header-some header total a b h =
    elim (Option-cases (strip_prefix (codes "bytes=") header)) [
      | inl other ↦ absurd (ground arith)
      | inr (range, ranged) ↦ elim (Option-cases (split_once 45 range)) [
        | inl unsplit ↦ absurd (ground arith)
        | inr ((first, last), split) ↦ elim (Option-cases (parse_usize first)) [
          | inl bad ↦ absurd (ground arith)
          | inr (start, parsed) ↦ elim (Option-cases (end_of last total)) [
            | inl bad ↦ absurd (ground arith)
            | inr (end, ended) ↦
                let (_, _, order, inside) = checked_range-some start end total a b (ground arith) in
                (order, inside)
          ]
        ]
      ]
    ]

length-take : (n : ℕ) (s : Bytes) → n ≤ length s → length (take n s) ≡ n
length-take zero s h = refl
length-take (suc n) [] h = absurd (omega arith)
length-take (suc n) (b ∷ s) h = ap suc (length-take n s (omega arith))

range_slice-some :
    (header bytes : Bytes) (a b : ℕ)
    → parse_range_header header (length bytes) ≡ some (a, b)
    → range_slice (some header) bytes ≡ take (b + 1 - a) (drop a bytes)
unfolding range_slice
range_slice-some header bytes a b h = ground (arith, h)

-- Where a range is accepted for a download, its start is at most its end and its end within the data;
-- what is sent has as many bytes as the range and stands at its place in the data.
pub parse_range_header_lem :
    (header bytes : Bytes) (start end : ℕ)
    → parse_range_header header (length bytes) ≡ some (start, end)
    → (start ≤ end)
      × (end < length bytes)
      × (length (range_slice (some header) bytes) ≡ end + 1 - start)
      × (take start bytes ++ (range_slice (some header) bytes ++ drop (end + 1) bytes) ≡ bytes)
parse_range_header_lem header bytes start end h =
    let (order, inside) = parse_range_header-some header (length bytes) start end h in
    let slice = range_slice-some header bytes start end h in
    let rest : drop (end + 1) bytes ≡ drop (end + 1 - start) (drop start bytes) =
      ap (λ n. drop n bytes) (omega arith) ∙ drop-add start (end + 1 - start) bytes in
    (
      order,
      inside,
      ap length slice
          ∙ length-take (end + 1 - start) (drop start bytes)
              (omega (arith, length-drop start bytes)),
      ap₂ (λ x y. take start bytes ++ (x ++ y)) slice rest
          ∙ (ap (λ x. take start bytes ++ x) (take-drop (end + 1 - start) (drop start bytes))
              ∙ take-drop start bytes),
    )

-- `<`, `>` and the two quotes.
abbrev is_markup : ℕ → Bool
is_markup b = (b == 60) || ((b == 62) || ((b == 34) || (b == 39)))

escape_byte_text : (b : ℕ) → any is_markup (escape_byte b) ≡ false
unfolding escape_byte any
escape_byte_text b = ground arith

any-append :
    (p : ℕ → Bool) (xs ys : Bytes) → any p xs ≡ false → any p ys ≡ false → any p (xs ++ ys) ≡ false
unfolding any
any-append p [] ys h g = g
any-append p (x ∷ xs) ys h g = ground (arith, any-append p xs ys (ground arith) g)

-- No markup is left in an escaped text.
html_escape_text : (s : Bytes) → any is_markup (html_escape s) ≡ false
unfolding html_escape any
html_escape_text [] = refl
html_escape_text (b ∷ s) =
    any-append is_markup (escape_byte b) (html_escape s) (escape_byte_text b) (html_escape_text s)
