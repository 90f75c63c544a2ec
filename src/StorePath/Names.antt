-- ===== src/StorePath/Names.antt =====
-- Store paths are taken apart into the parts that they were put together from.
use ekapkgs_cli.Prelude.{
  ℕ, ◌≡◌, refl, true, false, none, some, [], ◌∷◌, ◌++◌, Bytes, All, arith, ◌==◌, ◌&&◌, Bool-cases,
  inl, inr,
}
use ekapkgs_cli.StorePath.{
  before_first, split_once, after_last, store_path_hash, starts_with_digit, version_boundary,
  parse_store_path_name,
}

-- No byte of the text is `c`.
abbrev pub Free : ℕ → Bytes → Type 0
Free c = All (λ b. (b == c) ≡ false)

before_first-append : (c : ℕ) (xs ys : Bytes) → Free c xs → before_first c (xs ++ (c ∷ ys)) ≡ xs
unfolding before_first
before_first-append c [] ys h = ground arith
before_first-append c (x ∷ xs) ys h = ground (arith, before_first-append c xs ys)

split_once-append :
    (c : ℕ) (xs ys : Bytes) → Free c xs → split_once c (xs ++ (c ∷ ys)) ≡ some (xs, ys)
unfolding split_once
split_once-append c [] ys h = ground arith
split_once-append c (x ∷ xs) ys h = ground (arith, split_once-append c xs ys)

split_once-none : (c : ℕ) (xs : Bytes) → Free c xs → split_once c xs ≡ none
unfolding split_once
split_once-none c [] h = refl
split_once-none c (x ∷ xs) h = ground (arith, split_once-none c xs)

after_last-Free : (c : ℕ) (xs : Bytes) → Free c xs → after_last c xs ≡ xs
unfolding after_last
after_last-Free c [] h = refl
after_last-Free c (x ∷ xs) h = rw (split_once-none c (x ∷ xs) h, after_last)

split_once-is_some :
    (c : ℕ) (xs ys : Bytes) → (p : Bytes × Bytes) × (split_once c (xs ++ (c ∷ ys)) ≡ some p)
unfolding split_once
split_once-is_some c [] ys = (([], ys), ground arith)
split_once-is_some c (x ∷ xs) ys =
    let ((f, s), e) = split_once-is_some c xs ys in
    elim (Bool-cases (x == c)) [
      | inl same ↦ (([], xs ++ (c ∷ ys)), ground arith)
      | inr other ↦ ((x ∷ f, s), ground arith)
    ]

after_last-append : (c : ℕ) (xs ys : Bytes) → Free c ys → after_last c (xs ++ (c ∷ ys)) ≡ ys
unfolding after_last
after_last-append c [] ys h =
    let (p, e) = split_once-is_some c [] ys in rw (e, after_last) (after_last-Free c ys h)
after_last-append c (x ∷ xs) ys h =
    let (p, e) = split_once-is_some c (x ∷ xs) ys in
    rw (e, after_last) (after_last-append c xs ys h)

-- No `-` of the name stands before a digit, so that none could be taken for the version's.
abbrev pub IsName : Bytes → Type 0
IsName [] = Unit
IsName (b ∷ bs) = (((b == b'-') && starts_with_digit bs) ≡ false) × IsName bs

boundary_found :
    (name version : Bytes)
    → IsName name
    → starts_with_digit version ≡ true
    → version_boundary (name ++ (b'-' ∷ version)) ≡ some (name, version)
unfolding version_boundary
boundary_found [] version n v = ground arith
boundary_found (b ∷ []) version n v = ground (arith, boundary_found [] version tt v)
boundary_found (b ∷ c ∷ name) version n v = ground (arith, boundary_found (c ∷ name) version n.1 v)

boundary_none : (name : Bytes) → IsName name → version_boundary name ≡ none
unfolding version_boundary
boundary_none [] n = refl
boundary_none (b ∷ bs) n = ground (arith, boundary_none bs n.1)

module _ (dir hash name : Bytes) (slash_free : Free b'/' (hash ++ (b'-' ∷ name)))
    (dash_free : Free b'-' hash) where
  -- The hash of a path of a directory, a hash without dash or slash and a name without slash is that
  -- hash.
  pub store_path_hash-append : store_path_hash (dir ++ (b'/' ∷ (hash ++ (b'-' ∷ name)))) ≡ hash
  unfolding store_path_hash
  store_path_hash-append =
      rw (after_last-append b'/' dir (hash ++ (b'-' ∷ name)) slash_free)
        (before_first-append b'-' hash name dash_free)

  unversioned :
      IsName name → parse_store_path_name (dir ++ (b'/' ∷ (hash ++ (b'-' ∷ name)))) ≡ (name, [])
  unfolding parse_store_path_name
  unversioned n = rw (
    parse_store_path_name,
    after_last-append b'/' dir (hash ++ (b'-' ∷ name)) slash_free,
    split_once-append b'-' hash name dash_free,
    boundary_none name n,
  )

-- When neither base name holds a slash, the hash holds no dash, no dash of the name stands before a
-- digit and the version starts with a digit, a path of a directory, a hash, a name and a version is
-- parsed into that name and version, and one without a version into the name and an empty version.
pub parse_store_path_name-append :
    (dir hash name version : Bytes)
    → Free b'/' (hash ++ (b'-' ∷ (name ++ (b'-' ∷ version))))
    → Free b'/' (hash ++ (b'-' ∷ name))
    → Free b'-' hash
    → IsName name
    → starts_with_digit version ≡ true
    → (parse_store_path_name (dir ++ (b'/' ∷ (hash ++ (b'-' ∷ (name ++ (b'-' ∷ version))))))
        ≡ (name, version))
      × (parse_store_path_name (dir ++ (b'/' ∷ (hash ++ (b'-' ∷ name)))) ≡ (name, []))
unfolding parse_store_path_name
parse_store_path_name-append dir hash name version s s' d n v = (
  rw (
    parse_store_path_name,
    after_last-append b'/' dir (hash ++ (b'-' ∷ (name ++ (b'-' ∷ version)))) s,
    split_once-append b'-' hash (name ++ (b'-' ∷ version)) d,
    boundary_found name version n v,
  ),
  unversioned dir hash name s' d n,
)
