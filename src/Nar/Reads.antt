-- ===== src/Nar/Reads.antt =====
-- How the reader of nar.rs consumes a known prefix: one rule for each primitive and one for sequencing.
use ekapkgs_cli.Prelude.{
  ℕ, ◌+◌, ◌^◌, ◌≤◌, ◌<◌, ◌≡◌, refl, subst, ap, ◌∙◌, true, false, String, [], ◌++◌, append_assoc,
  Bytes, bytes_eq_refl, codes, le_bytes, from_le_bytes-le_bytes, length-le_bytes, is_utf8, length,
  length-append, length-drop, length-replicate, take, take-append, drop, drop-append, drop-add,
  replicate, leb, arith,
}
use ekapkgs_cli.Nar.Writer.{pad, write_bytes_to, write_str_to}
use ekapkgs_cli.Nar.Reader.{
  Reader, ok, return, ◌>>=◌, read_u64, read_sized, read_str, expect_str, read_string,
}

-- Nothing is asked of the bytes that follow.
abbrev pub Anything : Bytes → Type 0
Anything rest = Unit

module _ (bytes : Bytes) (fits : length bytes < 2 ^ 64) where
  -- Where `xs` stands at the position, followed by something that satisfies `Q`, the action returns
  -- `a` and the position behind `xs`.
  pub record Reads {A : Type 0} (Q : Bytes → Type 0) (m : Reader A) (xs : Bytes) (a : A)
      : Type 0 where
    pub at :
        (pos : ℕ) (rest : Bytes)
        → Q rest
        → pos ≤ length bytes
        → drop pos bytes ≡ xs ++ rest
        → m pos ≡ ok (a, pos + length xs)

  advance :
      (pos : ℕ) (xs rest : Bytes)
      → drop pos bytes ≡ xs ++ rest
      → drop (pos + length xs) bytes ≡ rest
  advance pos xs rest h =
      drop-add pos (length xs) bytes ∙ ap (drop (length xs)) h ∙ drop-append xs rest

  within :
      (pos : ℕ) (xs rest : Bytes)
      → pos ≤ length bytes
      → drop pos bytes ≡ xs ++ rest
      → pos + length xs + length rest ≡ length bytes
  within pos xs rest h p = omega (arith, length-drop pos bytes, ap length p, length-append xs rest)

  pub Reads-return : {A : Type 0} (Q : Bytes → Type 0) (a : A) → Reads Q (return a) [] a
  Reads-return Q a = record { at = λ pos rest q h p. ap (λ (n : ℕ). ok (a, n)) (omega arith) }

  pub Reads-bind :
      {A B : Type 0} (P Q : Bytes → Type 0) (m : Reader A) (f : A → Reader B) (xs ys : Bytes)
      (a : A) (b : B)
      → Reads P m xs a
      → ((rest : Bytes) → Q rest → P (ys ++ rest))
      → Reads Q (f a) ys b
      → Reads Q (m >>= f) (xs ++ ys) b
  Reads-bind P Q m f xs ys a b first link second = record {
    at = λ pos rest q h p.
        let p' : drop pos bytes ≡ xs ++ (ys ++ rest) = p ∙ append_assoc xs ys rest in
        let one : m pos ≡ ok (a, pos + length xs) = first.at pos (ys ++ rest) (link rest q) h p' in
        let two : f a (pos + length xs) ≡ ok (b, pos + length xs + length ys) =
          second.at (pos + length xs) rest q (omega (arith, within pos xs (ys ++ rest) h p'))
            (advance pos xs (ys ++ rest) p') in
        rw (one, ◌>>=◌) (two ∙ ap (λ (n : ℕ). ok (b, n)) (omega (arith, length-append xs ys)));
  }

  pub Reads-map :
      {A B : Type 0} (Q : Bytes → Type 0) (m : Reader A) (g : A → B) (xs : Bytes) (a : A)
      → Reads Q m xs a
      → Reads Q (m >>= (λ x. return (g x))) xs (g a)
  Reads-map Q m g xs a r = record { at = λ pos rest q h p. rw (r.at pos rest q h p, ◌>>=◌) }

  pub Reads-cast :
      {A : Type 0} (Q : Bytes → Type 0) (m : Reader A) (xs ys : Bytes) (a : A)
      → xs ≡ ys
      → Reads Q m xs a
      → Reads Q m ys a
  Reads-cast Q m xs ys a e r = subst (λ (zs : Bytes). Reads Q m zs a) e r

  take_u64 : (n : ℕ) (ys : Bytes) → take 8 (le_bytes 8 n ++ ys) ≡ le_bytes 8 n
  unfolding le_bytes
  take_u64 n ys = refl

  Reads-read_u64 : (n : ℕ) → n < 2 ^ 64 → Reads Anything (read_u64 bytes) (le_bytes 8 n) n
  unfolding read_u64
  Reads-read_u64 n small = record {
    at = λ pos rest q h p.
        let inside : leb (pos + 8) (length bytes) ≡ true =
          ground (arith, within pos (le_bytes 8 n) rest h p, length-le_bytes 8 n) in
        rw (inside, p, take_u64 n rest, length-le_bytes 8 n, from_le_bytes-le_bytes 8 n small);
  }

  take_append : (xs ys : Bytes) (n : ℕ) → length xs ≡ n → take n (xs ++ ys) ≡ xs
  take_append xs ys n e = rw (← e) (take-append xs ys)

  Reads-read_sized :
      (s : Bytes)
      → Reads Anything (read_sized bytes (length s)) (s ++ replicate (pad (length s)) 0) s
  unfolding read_sized
  Reads-read_sized s = record {
    at = λ pos rest q h p.
        let padding : Bytes = replicate (pad (length s)) 0 in
        let room = within pos (s ++ padding) rest h p in
        let both : length (s ++ padding) ≡ length s + pad (length s) =
          length-append s padding
          ∙ ap (λ (n : ℕ). length s + n) (length-replicate (pad (length s)) 0) in
        let no_overflow : leb (2 ^ 64) (pos + length s) ≡ false =
          ground (arith, room, both, fits) in
        let inside : leb (pos + length s) (length bytes) ≡ true = ground (arith, room, both) in
        rw (no_overflow, inside, p, append_assoc s padding rest, take-append s (padding ++ rest))
          (ap (λ (n : ℕ). ok (s, n)) (omega (arith, both)));
  }

  -- A length-prefixed, padded string is read back.
  pub Reads-read_str :
      (s : Bytes) → length s < 2 ^ 64 → Reads Anything (read_str bytes) (write_bytes_to s) s
  unfolding read_str write_bytes_to
  Reads-read_str s small =
      Reads-bind Anything Anything (read_u64 bytes) (read_sized bytes) (le_bytes 8 (length s))
        (s ++ replicate (pad (length s)) 0) (length s) s (Reads-read_u64 (length s) small)
        (λ _ _. tt) (Reads-read_sized s)

  pub Reads-read_string :
      (s : Bytes)
      → length s < 2 ^ 64
      → is_utf8 s ≡ true
      → Reads Anything (read_string bytes) (write_bytes_to s) s
  unfolding read_string
  Reads-read_string s small valid = record {
    at = λ pos rest q h p. rw ((Reads-read_str s small).at pos rest q h p, ◌>>=◌, valid);
  }

  pub Reads-expect_str :
      (s : String)
      → length (codes s) < 2 ^ 64
      → Reads Anything (expect_str bytes s) (write_str_to s) tt
  unfolding expect_str
  Reads-expect_str s small = record {
    at = λ pos rest q h p.
        rw ((Reads-read_str (codes s) small).at pos rest q h p, ◌>>=◌, bytes_eq_refl (codes s));
  }
