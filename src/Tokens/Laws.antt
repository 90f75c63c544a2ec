-- ===== src/Tokens/Laws.antt =====
-- The operations of crates/ekapkgs-serve/src/tokens.rs together.
use ekapkgs_cli.Prelude.{
  ℕ, ◌+◌, ◌≡◌, refl, subst, inl, inr, true, false, not, some, List, [], ◌∷◌, ◌++◌, map, Bytes,
  bytes_eq, bytes_eq→eq, bytes_eq_refl, contains, AllDistinct, any, retain, length, Bool-cases,
  arith,
}
use ekapkgs_cli.Tokens.{Permissions, Token, create, revoke, validate}

-- The tokens' names; no two tokens of a valid store share one.
abbrev pub names : List Token → List Bytes
names tokens = map Token.name tokens

any-names :
    (x : Bytes) (tokens : List Token)
    → any (λ (t : Token). bytes_eq t.name x) tokens ≡ false
    → contains x (names tokens) ≡ false
unfolding any contains
any-names x [] h = refl
any-names x (t ∷ tokens) h = elim (Bool-cases (bytes_eq x t.name)) [
  | inl e ↦ let same = bytes_eq→eq x t.name e in absurd (ground (arith, same, bytes_eq_refl x))
  | inr n ↦ let rest = any-names x tokens in ground (arith, rest)
]

contains-snoc :
    (x y : Bytes) (xs : List Token) (t : Token)
    → bytes_eq x t.name ≡ false
    → contains x (names xs) ≡ false
    → contains x (names (xs ++ (t ∷ []))) ≡ false
unfolding contains
contains-snoc x y [] t h k = ground arith
contains-snoc x y (u ∷ xs) t h k = ground (arith, contains-snoc x y xs t h)

AllDistinct-snoc :
    (xs : List Token) (t : Token)
    → AllDistinct (names xs)
    → any (λ (u : Token). bytes_eq u.name t.name) xs ≡ false
    → AllDistinct (names (xs ++ (t ∷ [])))
unfolding any contains
AllDistinct-snoc [] t d h = (refl, tt)
AllDistinct-snoc (u ∷ xs) t d h =
    (contains-snoc u.name u.name xs t (ground arith) d.0, AllDistinct-snoc xs t d.1 (ground arith))

-- Creating a token keeps the names of the store different.
pub create-AllDistinct :
    (name : Bytes) (permissions : Permissions) (token_value : Bytes) (now : ℕ)
    (tokens after : List Token) (value : Bytes)
    → AllDistinct (names tokens)
    → create name permissions token_value now tokens ≡ some (after, value)
    → AllDistinct (names after)
unfolding create
create-AllDistinct name permissions token_value now tokens after value distinct ok =
    elim (Bool-cases (any (λ (t : Token). bytes_eq t.name name) tokens)) [
      | inl taken ↦ absurd (ground arith)
      | inr free ↦
          let t : Token = record {
            name = name;
            token = token_value;
            permissions = permissions;
            created_at = now;
          } in
          let same : tokens ++ (t ∷ []) ≡ after = ground arith in
          subst (λ ts. AllDistinct (names ts)) same (AllDistinct-snoc tokens t distinct free)
    ]

revoke-snoc :
    (tokens : List Token) (t : Token)
    → any (λ (u : Token). bytes_eq u.name t.name) tokens ≡ false
    → retain (λ (u : Token). not (bytes_eq u.name t.name)) (tokens ++ (t ∷ [])) ≡ tokens
unfolding any retain
revoke-snoc [] t h = rw (bytes_eq_refl t.name) refl
revoke-snoc (u ∷ tokens) t h = ground (arith, revoke-snoc tokens t)

length-snoc : (tokens : List Token) (t : Token) → length tokens + 1 ≡ length (tokens ++ (t ∷ []))
length-snoc [] t = refl
length-snoc (u ∷ tokens) t = omega (arith, length-snoc tokens t)

-- Revoking the token that was created gives back the store, and reports a removal.
revoke-create :
    (name : Bytes) (permissions : Permissions) (token_value : Bytes) (now : ℕ)
    (tokens after : List Token) (value : Bytes)
    → create name permissions token_value now tokens ≡ some (after, value)
    → revoke name after ≡ (tokens, true)
unfolding create revoke
revoke-create name permissions token_value now tokens after value ok =
    elim (Bool-cases (any (λ (t : Token). bytes_eq t.name name) tokens)) [
      | inl taken ↦ absurd (ground arith)
      | inr free ↦
          let t : Token = record {
            name = name;
            token = token_value;
            permissions = permissions;
            created_at = now;
          } in
          let same : tokens ++ (t ∷ []) ≡ after = ground arith in
          subst (λ ts. revoke name ts ≡ (tokens, true)) same
            (rw (revoke-snoc tokens t free) (ground (arith, length-snoc tokens t)))
    ]

-- After a revocation, a value is validated only by a token of another name that has that value.
pub revoke-validate :
    (name token_value : Bytes) (tokens : List Token) (t : Token)
    → validate token_value (revoke name tokens).0 ≡ some t
    → (bytes_eq t.name name ≡ false) × (bytes_eq t.token token_value ≡ true)
unfolding validate revoke retain
revoke-validate name token_value [] t h = absurd (ground arith)
revoke-validate name token_value (u ∷ tokens) t h = elim (Bool-cases (bytes_eq u.name name)) [
  | inl gone ↦ revoke-validate name token_value tokens t (ground arith)
  | inr kept ↦ elim (Bool-cases (bytes_eq u.token token_value)) [
    | inl hit ↦
        let same : u ≡ t = ground arith in
        (
          subst (λ (x : Token). bytes_eq x.name name ≡ false) same kept,
          subst (λ (x : Token). bytes_eq x.token token_value ≡ true) same hit,
        )
    | inr miss ↦ revoke-validate name token_value tokens t (ground arith)
  ]
]
