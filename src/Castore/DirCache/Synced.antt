-- ===== src/Castore/DirCache/Synced.antt =====
-- Two lists without repetition that contain the same: the order and the keys of `DirCache` in
-- crates/ekapkgs-serve/src/storage/castore.rs.
use ekapkgs_cli.Prelude.{
  suc, ◌≡◌, refl, sym, ap, subst, ◌∙◌, inl, inr, true, false, List, [], ◌∷◌, ◌++◌, Bytes, bytes_eq,
  bytes_eq→eq, bytes_eq_refl, contains, contains-append, retain, length, length-append, AllDistinct,
  if◌then◌else◌, Bool-cases, arith,
}
use ekapkgs_cli.Castore.DirCache.{without}

contains-without :
    (x d : Bytes) (xs : List Bytes)
    → contains x (without d xs) ≡ (if bytes_eq x d then false else contains x xs)
unfolding without retain contains
contains-without x d [] = ground arith
contains-without x d (y ∷ xs) = elim (Bool-cases (bytes_eq y d)) [
  | inl same ↦
      let eq = bytes_eq→eq y d same in ground (arith, contains-without x d xs, bytes_eq_refl d)
  | inr other ↦ elim (Bool-cases (bytes_eq x y)) [
    | inl here ↦ let eq = bytes_eq→eq x y here in ground (arith, contains-without x d xs)
    | inr there ↦ ground (arith, contains-without x d xs)
  ]
]

pub without_absent : (d : Bytes) (xs : List Bytes) → contains d xs ≡ false → without d xs ≡ xs
unfolding without retain contains
without_absent d [] h = refl
without_absent d (y ∷ xs) h = elim (Bool-cases (bytes_eq y d)) [
  | inl same ↦ let eq = bytes_eq→eq y d same in absurd (ground (arith, bytes_eq_refl d))
  | inr other ↦ ground (arith, without_absent d xs (ground arith))
]

pub length-without :
    (d : Bytes) (xs : List Bytes)
    → AllDistinct xs
    → contains d xs ≡ true
    → suc (length (without d xs)) ≡ length xs
unfolding without retain contains
length-without d [] h found = absurd (ground arith)
length-without d (y ∷ xs) h found = elim (Bool-cases (bytes_eq y d)) [
  | inl same ↦
      let eq = bytes_eq→eq y d same in
      let fresh : contains d xs ≡ false = subst (λ z. contains z xs ≡ false) eq h.0 in
      ground (arith, without_absent d xs fresh)
  | inr other ↦ elim (Bool-cases (bytes_eq d y)) [
    | inl same ↦ let eq = bytes_eq→eq d y same in absurd (ground (arith, bytes_eq_refl d))
    | inr differ ↦ ground (arith, length-without d xs h.1 (ground arith))
  ]
]

without-AllDistinct : (d : Bytes) (xs : List Bytes) → AllDistinct xs → AllDistinct (without d xs)
unfolding without retain
without-AllDistinct d [] h = tt
without-AllDistinct d (y ∷ xs) h =
    let rest = without-AllDistinct d xs h.1 in
    elim (Bool-cases (bytes_eq y d)) [
      | inl same ↦ rw same rest
      | inr other ↦ rw other (ground (arith, contains-without y d xs), rest)
    ]

append-AllDistinct :
    (d : Bytes) (xs : List Bytes)
    → AllDistinct xs
    → contains d xs ≡ false
    → AllDistinct (xs ++ (d ∷ []))
unfolding contains
append-AllDistinct d [] h fresh = (refl, tt)
append-AllDistinct d (y ∷ xs) h fresh = elim (Bool-cases (bytes_eq y d)) [
  | inl same ↦ let eq = bytes_eq→eq y d same in absurd (ground (arith, bytes_eq_refl d))
  | inr other ↦ (
    ground (arith, contains-append y xs (d ∷ []), h.0),
    append-AllDistinct d xs h.1 (elim (Bool-cases (bytes_eq d y)) [
      | inl same ↦ let eq = bytes_eq→eq d y same in absurd (ground (arith, bytes_eq_refl d))
      | inr differ ↦ ground arith
    ]),
  )
]

-- The same elements, each once, and equally many.
pub record Synced (order keys : List Bytes) : Type 0 where
  pub order_distinct : AllDistinct order
  pub keys_distinct : AllDistinct keys
  pub lengths : length order ≡ length keys
  pub members : (x : Bytes) → contains x order ≡ contains x keys

pub without-Synced :
    (d : Bytes) (order keys : List Bytes)
    → Synced order keys
    → Synced (without d order) (without d keys)
without-Synced d order keys h = record {
  order_distinct = without-AllDistinct d order h.order_distinct;
  keys_distinct = without-AllDistinct d keys h.keys_distinct;
  lengths = elim (Bool-cases (contains d order)) [
    | inl there ↦
        let lengths = h.lengths in
        omega (
          arith,
          length-without d order h.order_distinct there,
          length-without d keys h.keys_distinct (sym (h.members d) ∙ there),
        )
    | inr gone ↦
        ap length (without_absent d order gone)
        ∙ (h.lengths ∙ sym (ap length (without_absent d keys (sym (h.members d) ∙ gone))))
  ];
  members = λ x.
      contains-without x d order
      ∙ (ap (λ b. if bytes_eq x d then false else b) (h.members x)
          ∙ sym (contains-without x d keys));
}

pub contains_gone : (d : Bytes) (xs : List Bytes) → contains d (without d xs) ≡ false
contains_gone d xs = ground (arith, contains-without d d xs, bytes_eq_refl d)

pub append-Synced :
    (d : Bytes) (order keys : List Bytes)
    → Synced order keys
    → contains d order ≡ false
    → Synced (order ++ (d ∷ [])) (d ∷ keys)
unfolding contains
append-Synced d order keys h fresh = record {
  order_distinct = append-AllDistinct d order h.order_distinct fresh;
  keys_distinct = (sym (h.members d) ∙ fresh, h.keys_distinct);
  lengths = let lengths = h.lengths in omega (arith, length-append order (d ∷ []));
  members = λ x. appended x;
}
  where
    appended : (x : Bytes) → contains x (order ++ (d ∷ [])) ≡ contains x (d ∷ keys)
    appended x = ground (arith, contains-append x order (d ∷ []), h.members x)

-- An element moved to the back.
pub moved-Synced :
    (d : Bytes) (order keys : List Bytes)
    → Synced order keys
    → contains d order ≡ true
    → Synced (without d order ++ (d ∷ [])) keys
unfolding contains
moved-Synced d order keys h there = record {
  order_distinct =
      append-AllDistinct d (without d order) (without-AllDistinct d order h.order_distinct)
        (contains_gone d order);
  keys_distinct = h.keys_distinct;
  lengths =
      let lengths = h.lengths in
      omega (
        arith,
        length-append (without d order) (d ∷ []),
        length-without d order h.order_distinct there,
      );
  members = λ x. moved x;
}
  where
    moved : (x : Bytes) → contains x (without d order ++ (d ∷ [])) ≡ contains x keys
    moved x = elim (Bool-cases (bytes_eq x d)) [
      | inl same ↦
          let eq = bytes_eq→eq x d same in
          let known : contains x keys ≡ true =
            sym (h.members x) ∙ subst (λ z. contains z order ≡ true) (sym eq) there in
          ground (arith, contains-append x (without d order) (d ∷ []), contains-without x d order)
      | inr other ↦ ground (
        arith,
        contains-append x (without d order) (d ∷ []),
        contains-without x d order,
        h.members x,
      )
    ]
