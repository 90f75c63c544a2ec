-- ===== src/StorePath/Examples.antt =====
-- Store paths taken apart, and the theorems at concrete inputs.
use ekapkgs_cli.Prelude.{◌≡◌, refl, [], codes}
use ekapkgs_cli.StorePath.{split_once, after_last, version_boundary, parse_store_path_name}
use ekapkgs_cli.StorePath.Names.{parse_store_path_name-append}

parsed :
    parse_store_path_name (codes "/nix/store/abc123-hello-2.10") ≡ (codes "hello", codes "2.10")
unfolding parse_store_path_name after_last split_once version_boundary
parsed = refl

parsed_source : parse_store_path_name (codes "/nix/store/abc123-source") ≡ (codes "source", [])
unfolding parse_store_path_name after_last split_once version_boundary
parsed_source = refl

parse_store_path_name-append_example :
    (parse_store_path_name (codes "/s/ab-hi-2") ≡ (codes "hi", codes "2"))
    × (parse_store_path_name (codes "/s/ab-hi") ≡ (codes "hi", []))
parse_store_path_name-append_example =
    parse_store_path_name-append (codes "/s") (codes "ab") (codes "hi") (codes "2")
      (refl, (refl, (refl, (refl, (refl, (refl, (refl, tt)))))))
      (refl, (refl, (refl, (refl, (refl, tt))))) (refl, (refl, tt)) (refl, (refl, tt)) refl
