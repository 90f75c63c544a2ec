-- ===== src/Tokens/Examples.antt =====
-- Concrete token stores.
use ekapkgs_cli.Prelude.{
  ◌≡◌, refl, true, false, none, some, [], ◌∷◌, bytes_eq, codes, contains, AllDistinct, any, retain,
}
use ekapkgs_cli.Tokens.{Permissions, Token, create, revoke, validate}
use ekapkgs_cli.Tokens.Laws.{names, create-AllDistinct, revoke-validate}

abbrev writer : Permissions
writer = record { read = true; write = true }

abbrev ci : Token
ci = record { name = codes "ci"; token = codes "ekap_1"; permissions = writer; created_at = 10 }

abbrev laptop : Token
laptop = record {
  name = codes "laptop";
  token = codes "ekap_2";
  permissions = writer;
  created_at = 20;
}

created :
    create (codes "laptop") writer (codes "ekap_2") 20 (ci ∷ [])
    ≡ some (ci ∷ laptop ∷ [], codes "ekap_2")
unfolding create any bytes_eq
created = refl

taken : create (codes "ci") writer (codes "ekap_2") 20 (ci ∷ []) ≡ none
unfolding create any bytes_eq
taken = refl

one_name : AllDistinct (names (ci ∷ []))
unfolding contains
one_name = (refl, tt)

create-AllDistinct_example : AllDistinct (names (ci ∷ laptop ∷ []))
create-AllDistinct_example =
    create-AllDistinct (codes "laptop") writer (codes "ekap_2") 20 (ci ∷ []) (ci ∷ laptop ∷ [])
      (codes "ekap_2") one_name created

still_valid : validate (codes "ekap_1") (revoke (codes "laptop") (ci ∷ laptop ∷ [])).0 ≡ some ci
unfolding validate revoke retain bytes_eq
still_valid = refl

revoke-validate_example :
    (bytes_eq (codes "ci") (codes "laptop") ≡ false)
    × (bytes_eq (codes "ekap_1") (codes "ekap_1") ≡ true)
revoke-validate_example =
    revoke-validate (codes "laptop") (codes "ekap_1") (ci ∷ laptop ∷ []) ci still_valid
