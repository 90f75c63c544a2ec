-- ===== src/Storage/Queries.antt =====
-- The default batch query of crates/ekapkgs-serve/src/storage/mod.rs.
use ekapkgs_cli.Prelude.{
  ◌+◌, ◌≡◌, refl, ap, ◌∙◌, ◌⊎◌, inl, inr, Bool, true, false, not, map, retain, Option, none, some,
  List, [], ◌∷◌, Bytes, length, All, Option-cases, arith,
}
use ekapkgs_cli.Storage.{NarInfo, batch_get_narinfo}

module _ (get_narinfo : Bytes → Option (Option NarInfo)) where
  abbrev batch : List Bytes → List (Bytes × NarInfo) × List Bytes
  batch hashes = batch_get_narinfo get_narinfo hashes

  batch_missing :
      (h : Bytes) (hs : List Bytes)
      → (get_narinfo h ≡ none) ⊎ (get_narinfo h ≡ some none)
      → batch (h ∷ hs) ≡ ((batch hs).0, h ∷ (batch hs).1)
  unfolding batch_get_narinfo
  batch_missing h hs (inl e) = rw (e, batch_get_narinfo) refl
  batch_missing h hs (inr e) = rw (e, batch_get_narinfo) refl

  batch_found :
      (h : Bytes) (hs : List Bytes) (ni : NarInfo)
      → get_narinfo h ≡ some (some ni)
      → batch (h ∷ hs) ≡ ((h, ni) ∷ (batch hs).0, (batch hs).1)
  unfolding batch_get_narinfo
  batch_found h hs ni e = rw (e, batch_get_narinfo) refl

  -- Whether the backend has a record.
  unfoldable pub is_found : Bytes → Bool
  is_found h = elim (get_narinfo h) [ none ↦ false | some none ↦ false | some (some ni) ↦ true ]

  found_named :
      (hashes : List Bytes)
      → map (λ (p : Bytes × NarInfo). p.0) (batch hashes).0 ≡ retain is_found hashes
  unfolding batch_get_narinfo retain is_found
  found_named [] = refl
  found_named (hash ∷ hashes) = ground (arith, found_named hashes)

  missing_named : (hashes : List Bytes) → (batch hashes).1 ≡ retain (λ h. not (is_found h)) hashes
  unfolding batch_get_narinfo retain is_found
  missing_named [] = refl
  missing_named (hash ∷ hashes) = ground (arith, missing_named hashes)

  answers :
      (hashes : List Bytes)
      → (length (batch_get_narinfo get_narinfo hashes).0
            + length (batch_get_narinfo get_narinfo hashes).1
          ≡ length hashes)
        × All
            (λ (p : Bytes × NarInfo). get_narinfo p.0 ≡ some (some p.1))
            (batch_get_narinfo get_narinfo hashes).0
        × All
            (λ h. (get_narinfo h ≡ none) ⊎ (get_narinfo h ≡ some none))
            (batch_get_narinfo get_narinfo hashes).1
  unfolding batch_get_narinfo
  answers [] = (refl, tt, tt)
  answers (hash ∷ hashes) =
      let rest = answers hashes in
      elim (Option-cases (get_narinfo hash)) [
        | inl err ↦
            rw (batch_missing hash hashes (inl err))
              (omega (arith, rest.0), rest.1, (inl err, rest.2))
        | inr (found, ok) ↦ elim (Option-cases found) [
          | inl missing ↦
              let answer = ok ∙ ap some missing in
              rw (batch_missing hash hashes (inr answer))
                (omega (arith, rest.0), rest.1, (inr answer, rest.2))
          | inr (ni, present) ↦
              let answer = ok ∙ ap some present in
              rw (batch_found hash hashes ni answer)
                (omega (arith, rest.0), (answer, rest.1), rest.2)
        ]
      ]

  -- The batch query answers every hash once: the hashes for which the backend has a record with that
  -- record, in order, and those for which it has none or fails as unavailable, in order.
  pub batch_get_narinfo-All :
      (hashes : List Bytes)
      → (map (λ (p : Bytes × NarInfo). p.0) (batch_get_narinfo get_narinfo hashes).0
          ≡ retain is_found hashes)
        × ((batch_get_narinfo get_narinfo hashes).1 ≡ retain (λ h. not (is_found h)) hashes)
        × (length (batch_get_narinfo get_narinfo hashes).0
              + length (batch_get_narinfo get_narinfo hashes).1
            ≡ length hashes)
        × All
            (λ (p : Bytes × NarInfo). get_narinfo p.0 ≡ some (some p.1))
            (batch_get_narinfo get_narinfo hashes).0
        × All
            (λ h. (get_narinfo h ≡ none) ⊎ (get_narinfo h ≡ some none))
            (batch_get_narinfo get_narinfo hashes).1
  batch_get_narinfo-All hashes =
      let (total, records, unavailable) = answers hashes in
      (found_named hashes, missing_named hashes, total, records, unavailable)
