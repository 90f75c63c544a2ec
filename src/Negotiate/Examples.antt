-- ===== src/Negotiate/Examples.antt =====
-- Concrete plans, closures and names.
use ekapkgs_cli.Prelude.{
  ℕ, ◌<◌, ◌≡◌, refl, inl, inr, true, false, Option, none, some, List, [], ◌∷◌, map, codes, Bytes,
  contains, bytes_eq, length, if◌then◌else◌, retain, All, AllDistinct, arith, ◌≤◌, ◌⊎◌,
}
use ekapkgs_cli.StorePath.{store_path_hash, before_first, after_last, split_once}
use ekapkgs_cli.Storage.{NarInfo}
use ekapkgs_cli.Negotiate.{
  PathManifestEntry, entry_hash, all_resolved, is_ready, batch_of, dump, plan_loop,
  build_download_plan, known_references, enqueue, enqueue_all, closure_loop, max_closure_size,
  expand_closure_hashes, split_dashes, join_dashes, strip_version, extract_pname,
}
use ekapkgs_cli.Negotiate.Plan.{IsLayered, IsRanked}
use ekapkgs_cli.Negotiate.Layers.{build_download_plan-IsLayered}
use ekapkgs_cli.Negotiate.Complete.{occurrences, planned, build_download_plan-occurrences}
use ekapkgs_cli.Negotiate.Circular.{Needs, OnlyLast, build_download_plan-OnlyLast}
use ekapkgs_cli.Negotiate.Expand.{expand_closure_hashes-AllDistinct, expand_closure_hashes_closed}

abbrev app : PathManifestEntry
app = record {
  store_path = codes "/nix/store/aa-app-1";
  references = codes "bb-lib-2" ∷ codes "cc-libc" ∷ [];
}

abbrev lib : PathManifestEntry
lib = record { store_path = codes "/nix/store/bb-lib-2"; references = codes "cc-libc" ∷ [] }

-- A library that refers to itself.
abbrev selfish : PathManifestEntry
selfish = record { store_path = codes "/nix/store/bb-lib-2"; references = codes "bb-lib-2" ∷ [] }

abbrev have_libc : List Bytes
have_libc = codes "cc" ∷ []

abbrev rank : Bytes → ℕ
rank h = if bytes_eq h (codes "aa") then 1 else 0

plan :
    build_download_plan (app ∷ lib ∷ []) have_libc
    ≡ (record { paths = codes "bb" ∷ []; priority = 0 })
      ∷ (record { paths = codes "aa" ∷ []; priority = 1 })
      ∷ []
unfolding build_download_plan plan_loop retain is_ready all_resolved batch_of dump entry_hash
    store_path_hash before_first after_last split_once contains bytes_eq
plan = refl

-- The library that refers to itself is never ready, so it shares a batch with what needs it.
plan_of_selfish :
    build_download_plan (app ∷ selfish ∷ []) have_libc
    ≡ (record { paths = codes "aa" ∷ codes "bb" ∷ []; priority = 0 }) ∷ []
unfolding build_download_plan plan_loop retain is_ready all_resolved batch_of dump entry_hash
    store_path_hash before_first after_last split_once contains bytes_eq
plan_of_selfish = refl

entries-IsRanked : IsRanked rank (app ∷ lib ∷ []) have_libc (app ∷ lib ∷ [])
unfolding IsRanked entry_hash store_path_hash before_first after_last split_once contains bytes_eq
entries-IsRanked = ((inr (inr (inl (refl, omega arith))), (inl refl, tt)), ((inl refl, tt), tt))

build_download_plan-IsLayered_example :
    IsLayered (app ∷ lib ∷ []) have_libc 0 (build_download_plan (app ∷ lib ∷ []) have_libc)
build_download_plan-IsLayered_example =
    build_download_plan-IsLayered rank (app ∷ lib ∷ []) have_libc entries-IsRanked

build_download_plan-occurrences_example :
    occurrences (codes "bb") (planned (build_download_plan (app ∷ selfish ∷ []) have_libc))
    ≡ occurrences (codes "bb") (map entry_hash (app ∷ selfish ∷ []))
build_download_plan-occurrences_example =
    build_download_plan-occurrences (codes "bb") (app ∷ selfish ∷ []) have_libc

abbrev lib_info : NarInfo
lib_info = record {
  store_path = codes "/nix/store/bb-lib-2";
  url = codes "nar/bb.nar";
  compression = codes "none";
  file_hash = [];
  file_size = 0;
  nar_hash = codes "sha256:x";
  nar_size = 96;
  references = codes "bb-lib-2" ∷ codes "cc-libc" ∷ codes "dd-zlib" ∷ [];
  deriver = none;
  signatures = [];
  ca = none;
}

abbrev get_narinfo : Bytes → Option (Option NarInfo)
get_narinfo h = if bytes_eq h (codes "bb") then some (some lib_info) else some none

closure :
    expand_closure_hashes get_narinfo (codes "bb" ∷ []) have_libc ≡ codes "bb" ∷ codes "dd" ∷ []
unfolding expand_closure_hashes closure_loop enqueue_all enqueue known_references store_path_hash
    before_first after_last split_once contains bytes_eq
closure = refl

expand_closure_hashes-AllDistinct_example :
    AllDistinct (expand_closure_hashes get_narinfo (codes "bb" ∷ []) have_libc)
    × (length (expand_closure_hashes get_narinfo (codes "bb" ∷ []) have_libc) ≤ max_closure_size)
    × All
        (λ x. contains x have_libc ≡ false)
        (expand_closure_hashes get_narinfo (codes "bb" ∷ []) have_libc)
expand_closure_hashes-AllDistinct_example =
    expand_closure_hashes-AllDistinct get_narinfo (codes "bb" ∷ []) have_libc

closure_is_small :
    length (expand_closure_hashes get_narinfo (codes "bb" ∷ []) have_libc) < max_closure_size
closure_is_small = rw closure (omega arith)

dd_is_seen :
    (contains (codes "bb") (expand_closure_hashes get_narinfo (codes "bb" ∷ []) have_libc) ≡ true)
    × (contains (codes "dd") (known_references get_narinfo (codes "bb")) ≡ true)
unfolding known_references store_path_hash before_first after_last split_once contains bytes_eq
dd_is_seen = (rw closure refl, refl)

expand_closure_hashes_closed_example :
    (contains (codes "dd") have_libc ≡ true)
    ⊎ (contains (codes "dd") (expand_closure_hashes get_narinfo (codes "bb" ∷ []) have_libc) ≡ true)
expand_closure_hashes_closed_example =
    expand_closure_hashes_closed get_narinfo (codes "bb" ∷ []) have_libc (codes "dd")
      closure_is_small (inr (codes "bb", dd_is_seen.0, dd_is_seen.1))

pname : extract_pname (codes "/nix/store/abc123-firefox-esr-131.0") ≡ some (codes "firefox-esr")
unfolding extract_pname split_dashes join_dashes strip_version after_last split_once
pname = refl

not_at_hand : contains (codes "bb") have_libc ≡ false
unfolding contains bytes_eq
not_at_hand = refl

selfish-Needs : Needs (codes "bb") (codes "bb") (app ∷ selfish ∷ [])
unfolding Needs entry_hash store_path_hash before_first after_last split_once contains bytes_eq
selfish-Needs = (refl, (refl, tt))

app-Needs : Needs (codes "bb") (codes "aa") (app ∷ selfish ∷ [])
unfolding Needs entry_hash store_path_hash before_first after_last split_once contains bytes_eq
app-Needs = (refl, (refl, tt))

build_download_plan-OnlyLast_example :
    OnlyLast (codes "aa") (build_download_plan (app ∷ selfish ∷ []) have_libc)
build_download_plan-OnlyLast_example =
    build_download_plan-OnlyLast (codes "bb") (codes "aa") (app ∷ selfish ∷ []) have_libc
      not_at_hand selfish-Needs app-Needs
