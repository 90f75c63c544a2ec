-- ===== src/Storage/Examples.antt =====
-- A concrete batch query.
use ekapkgs_cli.Prelude.{
  ◌+◌, ◌≡◌, ◌⊎◌, Option, none, some, List, [], ◌∷◌, Bytes, bytes_eq, codes, length, All, map,
  retain, not, if◌then◌else◌,
}
use ekapkgs_cli.Storage.{NarInfo, batch_get_narinfo}
use ekapkgs_cli.Storage.Queries.{is_found, batch_get_narinfo-All}

abbrev info : NarInfo
info = record {
  store_path = codes "/nix/store/bb-lib";
  url = codes "nar/bb.nar";
  compression = codes "none";
  file_hash = [];
  file_size = 0;
  nar_hash = codes "sha256:x";
  nar_size = 96;
  references = [];
  deriver = none;
  signatures = [];
  ca = none;
}

abbrev backend : Bytes → Option (Option NarInfo)
backend h =
    if bytes_eq h (codes "bb")
    then some (some info)
    else if bytes_eq h (codes "cc")
    then none
    else some none

abbrev asked : List Bytes
asked = codes "aa" ∷ codes "bb" ∷ codes "cc" ∷ []

batch_get_narinfo-All_example :
    (map (λ (p : Bytes × NarInfo). p.0) (batch_get_narinfo backend asked).0
      ≡ retain (is_found backend) asked)
    × ((batch_get_narinfo backend asked).1 ≡ retain (λ h. not (is_found backend h)) asked)
    × (length (batch_get_narinfo backend asked).0 + length (batch_get_narinfo backend asked).1
        ≡ length asked)
    × All
        (λ (p : Bytes × NarInfo). backend p.0 ≡ some (some p.1))
        (batch_get_narinfo backend asked).0
    × All (λ h. (backend h ≡ none) ⊎ (backend h ≡ some none)) (batch_get_narinfo backend asked).1
batch_get_narinfo-All_example = batch_get_narinfo-All backend asked
