-- ===== src/Nar/Directories.antt =====
-- How the parser of nar.rs reads the entries of a directory, one turn of its loop at a time.
use ekapkgs_cli.Prelude.{
  ℕ, suc, ◌+◌, ◌-◌, ◌^◌, ◌<◌, ◌≡◌, refl, ap, ◌∙◌, false, [], ◌++◌, Bytes, bytes_eq, codes, is_utf8,
  length, length-append, length-drop, drop, ltb, arith,
}
use ekapkgs_cli.Nar.{NarNode, Entries, end, entry}
use ekapkgs_cli.Nar.Writer.{write_bytes_to, write_str_to, write_nar_obj_to, write_entries_to}
use ekapkgs_cli.Nar.Reader.{ok, ◌>>=◌, expect_str, read_string, parse_nar_obj, parse_directory}
use ekapkgs_cli.Nar.Reads.{
  Anything, Reads, Reads-bind, Reads-map, Reads-read_string, Reads-expect_str,
}
use ekapkgs_cli.Nar.Storable.{IsText, Closed, length-close, long_entry}

-- The test of `parse_directory` for the end of the input.
not_short :
    (bytes : Bytes) (pos : ℕ) (name : Bytes) (node : NarNode) (es : Entries) (rest : Bytes)
    → drop pos bytes ≡ write_entries_to (entry name node es) ++ rest
    → ltb (length bytes - pos) 8 ≡ false
not_short bytes pos name node es rest p = ground (
  arith,
  length-drop pos bytes,
  ap length p,
  length-append (write_entries_to (entry name node es)) rest,
  long_entry name node es,
)

module _ (bytes : Bytes) (fits : length bytes < 2 ^ 64) where
  pub end_read : (fuel : ℕ) → Reads bytes fits Closed (parse_directory bytes (suc fuel)) [] end
  unfolding parse_directory bytes_eq is_utf8 Closed
  end_read fuel = record {
    at = λ pos rest q h p.
        let (r, e) = q in
        let p' : drop pos bytes ≡ write_str_to ")" ++ r = p ∙ e in
        let token : read_string bytes pos ≡ ok (codes ")", pos + length (write_str_to ")")) =
          (Reads-read_string bytes fits (codes ")") (omega arith) refl).at pos r tt h p' in
        let long : ltb (length bytes - pos) 8 ≡ false = ground (
          arith,
          length-drop pos bytes,
          ap length p',
          length-append (write_str_to ")") r,
          length-close,
        ) in
        rw (long, token, ◌>>=◌) (ap (λ (n : ℕ). ok (end, n)) (omega (arith, length-close)));
  }

  -- One turn of the loop of `parse_directory`.
  pub entry_step :
      (fuel : ℕ) (name : Bytes) (node : NarNode) (es : Entries)
      → IsText name
      → Reads bytes fits Anything (parse_nar_obj bytes fuel) (write_nar_obj_to node) node
      → Reads bytes fits Closed (parse_directory bytes fuel) (write_entries_to es) es
      → Reads bytes fits Closed
          (parse_directory bytes (suc fuel))
          (write_entries_to (entry name node es))
          (entry name node es)
  unfolding parse_directory bytes_eq is_utf8 write_entries_to
  entry_step fuel name node es (small, valid) this others =
      let body =
        Reads-bind bytes fits Anything Closed (read_string bytes) _ (write_str_to "entry") _
          (codes "entry") (entry name node es)
          (Reads-read_string bytes fits (codes "entry") (omega arith) refl) (λ _ _. tt)
          (Reads-bind bytes fits Anything Closed (expect_str bytes "(") _ (write_str_to "(") _ tt
            (entry name node es) (Reads-expect_str bytes fits "(" (omega arith)) (λ _ _. tt)
            (Reads-bind bytes fits Anything Closed (expect_str bytes "name") _ (write_str_to "name")
              _ tt (entry name node es) (Reads-expect_str bytes fits "name" (omega arith))
              (λ _ _. tt)
              (Reads-bind bytes fits Anything Closed (read_string bytes) _ (write_bytes_to name) _
                name (entry name node es) (Reads-read_string bytes fits name small valid)
                (λ _ _. tt)
                (Reads-bind bytes fits Anything Closed (expect_str bytes "node") _
                  (write_str_to "node") _ tt (entry name node es)
                  (Reads-expect_str bytes fits "node" (omega arith)) (λ _ _. tt)
                  (Reads-bind bytes fits Anything Closed (parse_nar_obj bytes fuel) _
                    (write_nar_obj_to node) _ node (entry name node es) this (λ _ _. tt)
                    (Reads-bind bytes fits Anything Closed (expect_str bytes ")") _
                      (write_str_to ")") _ tt (entry name node es)
                      (Reads-expect_str bytes fits ")" (omega arith)) (λ _ _. tt)
                      (Reads-map bytes fits Closed (parse_directory bytes fuel)
                        (λ r. entry name node r) (write_entries_to es) es others))))))) in
      record {
        at =
            λ pos rest q h p. rw (not_short bytes pos name node es rest p) (body.at pos rest q h p);
      }
