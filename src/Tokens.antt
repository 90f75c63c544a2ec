-- ===== src/Tokens.antt =====
-- crates/ekapkgs-serve/src/tokens.rs: the API tokens. The random token value and the time are arguments; the
-- file of the store is left out.
pub mod Laws
mod Examples
use ekapkgs_cli.Prelude.{
  ℕ, ◌<◌, Bool, true, false, not, Option, none, some, List, [], ◌∷◌, ◌++◌, map, Bytes, bytes_eq,
  any, retain, length, ltb, if◌then◌else◌,
}

pub record Permissions : Type 0 where
  pub read : Bool
  pub write : Bool

pub record Token : Type 0 where
  pub name : Bytes
  pub token : Bytes
  pub permissions : Permissions
  pub created_at : ℕ

-- `TokenStore::create`: an error, `none`, for a name that is taken, else the store and the token's value.
unfoldable pub create : Bytes → Permissions → Bytes → ℕ → List Token → Option (List Token × Bytes)
create name permissions token_value now tokens =
    if any (λ (t : Token). bytes_eq t.name name) tokens
    then none
    else some (
      tokens
          ++ ((record {
            name = name;
            token = token_value;
            permissions = permissions;
            created_at = now;
          })
              ∷ []),
      token_value,
    )

-- `TokenStore::revoke`: the store, and whether a token was removed.
unfoldable pub revoke : Bytes → List Token → List Token × Bool
revoke name tokens =
    let kept = retain (λ (t : Token). not (bytes_eq t.name name)) tokens in
    (kept, ltb (length kept) (length tokens))

-- `TokenStore::validate`: the first token with that value.
unfoldable pub validate : Bytes → List Token → Option Token
validate token_value [] = none
validate token_value (t ∷ tokens) =
    let rest = validate token_value tokens in if bytes_eq t.token token_value then some t else rest

-- `TokenStore::write_tokens`
unfoldable pub write_tokens : List Token → List Bytes
write_tokens tokens = map Token.token (retain (λ (t : Token). t.permissions.write) tokens)
