-- ===== src/Storage.antt =====
-- crates/ekapkgs-serve/src/storage/mod.rs: narinfo records and what a storage backend answers. A backend's
-- own queries are parameters; an error of one is `none`.
pub mod Queries
mod Examples
use ekapkgs_cli.Prelude.{ℕ, Bool, Option, none, some, List, [], ◌∷◌, Bytes, if◌then◌else◌}
use ekapkgs_cli.StorePath.{before_first, after_last}

pub record NarInfo : Type 0 where
  pub store_path : Bytes
  pub url : Bytes
  pub compression : Bytes
  pub file_hash : Bytes
  pub file_size : ℕ
  pub nar_hash : Bytes
  pub nar_size : ℕ
  pub references : List Bytes
  pub deriver : Option Bytes
  pub signatures : List Bytes
  pub ca : Option Bytes

-- `query_available`: an error ends the query.
unfoldable pub query_available : (Bytes → Option Bool) → List Bytes → Option (List Bytes)
query_available has_narinfo [] = some []
query_available has_narinfo (hash ∷ hashes) =
    let rest = query_available has_narinfo hashes in
    elim (has_narinfo hash) [
      | none ↦ none
      | some found ↦ elim rest [
        | none ↦ none
        | some available ↦ some (if found then hash ∷ available else available)
      ]
    ]

-- `batch_get_narinfo`: a hash that is missing or fails is unavailable.
unfoldable pub batch_get_narinfo :
    (Bytes → Option (Option NarInfo)) → List Bytes → List (Bytes × NarInfo) × List Bytes
batch_get_narinfo get_narinfo [] = ([], [])
batch_get_narinfo get_narinfo (hash ∷ hashes) =
    let rest = batch_get_narinfo get_narinfo hashes in
    elim (get_narinfo hash) [
      | none ↦ (rest.0, hash ∷ rest.1)
      | some none ↦ (rest.0, hash ∷ rest.1)
      | some (some ni) ↦ ((hash, ni) ∷ rest.0, rest.1)
    ]

-- `has_nar`
unfoldable pub has_nar : (Bytes → Option Bool) → Bytes → Option Bool
has_nar has_narinfo file_path = has_narinfo (before_first b'.' (after_last b'/' file_path))
