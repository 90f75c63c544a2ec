-- ===== src/Nar/Nodes.antt =====
-- How the parser of nar.rs reads one node, given how it reads what the node holds.
use ekapkgs_cli.Prelude.{
  ℕ, suc, ◌^◌, ◌<◌, ◌≡◌, refl, sym, ap, ◌∙◌, Bool, true, false, String, [], ◌++◌, append_assoc,
  Bytes, bytes_eq, codes, is_utf8, length, arith, if◌then◌else◌,
}
use ekapkgs_cli.Nar.{NarNode, Entries, regular, directory, symlink}
use ekapkgs_cli.Nar.Writer.{
  write_bytes_to, write_str_to, write_nar_obj_to, write_entries_to, executable_field,
}
use ekapkgs_cli.Nar.Reader.{
  NarError, err, return, ◌>>=◌, read_str, expect_str, read_string, parse_regular, parse_symlink,
  parse_nar_obj, parse_directory,
}
use ekapkgs_cli.Nar.Reads.{
  Anything, Reads, Reads-bind, Reads-map, Reads-cast, Reads-read_str, Reads-read_string,
  Reads-expect_str,
}
use ekapkgs_cli.Nar.Storable.{IsText, Closed}

module _ (bytes : Bytes) (fits : length bytes < 2 ^ 64) where
  pub contents_read :
      (fuel : ℕ) (x : Bool) (d : Bytes)
      → length d < 2 ^ 64
      → Reads bytes fits Anything
          (parse_regular bytes (suc fuel) x)
          (write_str_to "contents" ++ write_bytes_to d)
          (regular x d)
  unfolding parse_regular bytes_eq is_utf8
  contents_read fuel x d small =
      Reads-bind bytes fits Anything Anything (read_string bytes) _ (write_str_to "contents")
        (write_bytes_to d) (codes "contents") (regular x d)
        (Reads-read_string bytes fits (codes "contents") (omega arith) refl) (λ _ _. tt)
        (Reads-map bytes fits Anything (read_str bytes) (λ c. regular x c) (write_bytes_to d) d
          (Reads-read_str bytes fits d small))

  pub executable_read :
      (fuel : ℕ) (d : Bytes)
      → length d < 2 ^ 64
      → Reads bytes fits Anything
          (parse_regular bytes (suc (suc fuel)) false)
          ((write_str_to "executable" ++ write_str_to "")
            ++ (write_str_to "contents" ++ write_bytes_to d))
          (regular true d)
  unfolding parse_regular bytes_eq is_utf8
  executable_read fuel d small =
      Reads-cast bytes fits Anything (parse_regular bytes (suc (suc fuel)) false) _ _
        (regular true d)
        (sym (
          append_assoc (write_str_to "executable") (write_str_to "")
            (write_str_to "contents" ++ write_bytes_to d)))
        (Reads-bind bytes fits Anything Anything (read_string bytes) _ (write_str_to "executable") _
          (codes "executable") (regular true d)
          (Reads-read_string bytes fits (codes "executable") (omega arith) refl) (λ _ _. tt)
          (Reads-bind bytes fits Anything Anything (read_str bytes) _ (write_str_to "") _ []
            (regular true d) (Reads-read_str bytes fits [] (omega arith)) (λ _ _. tt)
            (contents_read fuel true d small)))

  pub regular_read :
      (fuel : ℕ) (x : Bool) (d : Bytes)
      → length d < 2 ^ 64
      → Reads bytes fits Anything
          (parse_regular bytes (suc (suc fuel)) false)
          (executable_field x ++ (write_str_to "contents" ++ write_bytes_to d))
          (regular x d)
  regular_read fuel false d small = contents_read (suc fuel) false d small
  regular_read fuel true d small = executable_read fuel d small

  pub symlink_read :
      (t : Bytes)
      → IsText t
      → Reads bytes fits Anything
          (parse_symlink bytes)
          (write_str_to "target" ++ write_bytes_to t)
          (symlink t)
  unfolding parse_symlink
  symlink_read t (small, valid) =
      Reads-bind bytes fits Anything Anything (expect_str bytes "target") _ (write_str_to "target")
        (write_bytes_to t) tt (symlink t) (Reads-expect_str bytes fits "target" (omega arith))
        (λ _ _. tt)
        (Reads-map bytes fits Anything (read_string bytes) symlink (write_bytes_to t) t
          (Reads-read_string bytes fits t small valid))

  -- `str("(") str("type") str(kind) body str(")")`, where the body is read by what follows the kind.
  pub frame :
      (fuel : ℕ) (Q : Bytes → Type 0) (kind : String) (body : Bytes) (node : NarNode)
      → length (codes kind) < 2 ^ 64
      → is_utf8 (codes kind) ≡ true
      → ((rest : Bytes) → Q (write_str_to ")" ++ rest))
      → Reads bytes fits Q
          (if bytes_eq (codes kind) (codes "regular")
            then parse_regular bytes fuel false
            else if bytes_eq (codes kind) (codes "directory")
            then parse_directory bytes fuel >>= (λ entries. return (directory entries))
            else if bytes_eq (codes kind) (codes "symlink")
            then parse_symlink bytes
            else (λ pos. err NarError.unknown_type))
          body
          node
      → Reads bytes fits Anything
          (parse_nar_obj bytes (suc fuel))
          (write_str_to "("
            ++ (write_str_to "type" ++ (write_str_to kind ++ (body ++ write_str_to ")"))))
          node
  unfolding parse_nar_obj
  frame fuel Q kind body node small valid link inner =
      Reads-bind bytes fits Anything Anything (expect_str bytes "(") _ (write_str_to "(") _ tt node
        (Reads-expect_str bytes fits "(" (omega arith)) (λ _ _. tt)
        (Reads-bind bytes fits Anything Anything (expect_str bytes "type") _ (write_str_to "type") _
          tt node (Reads-expect_str bytes fits "type" (omega arith)) (λ _ _. tt)
          (Reads-bind bytes fits Anything Anything (read_string bytes) _ (write_str_to kind) _
            (codes kind) node (Reads-read_string bytes fits (codes kind) small valid) (λ _ _. tt)
            (Reads-bind bytes fits Q Anything _ _ body (write_str_to ")") node node inner
              (λ rest _. link rest)
              (Reads-map bytes fits Anything (expect_str bytes ")") (λ _. node) (write_str_to ")")
                tt (Reads-expect_str bytes fits ")" (omega arith))))))

  pub regular_obj :
      (fuel : ℕ) (x : Bool) (d : Bytes)
      → length d < 2 ^ 64
      → Reads bytes fits Anything
          (parse_nar_obj bytes (suc (suc (suc fuel))))
          (write_nar_obj_to (regular x d))
          (regular x d)
  unfolding write_nar_obj_to bytes_eq is_utf8
  regular_obj fuel x d small =
      Reads-cast bytes fits Anything (parse_nar_obj bytes (suc (suc (suc fuel)))) _ _ (regular x d)
        (ap
          (λ (t : Bytes).
            write_str_to "(" ++ (write_str_to "type" ++ (write_str_to "regular" ++ t)))
          (append_assoc (executable_field x) (write_str_to "contents" ++ write_bytes_to d)
              (write_str_to ")")
            ∙ ap (λ (t : Bytes). executable_field x ++ t)
                (append_assoc (write_str_to "contents") (write_bytes_to d) (write_str_to ")"))))
        (frame (suc (suc fuel)) Anything "regular" _ (regular x d) (omega arith) refl (λ _. tt)
          (regular_read fuel x d small))

  pub symlink_obj :
      (fuel : ℕ) (t : Bytes)
      → IsText t
      → Reads bytes fits Anything
          (parse_nar_obj bytes (suc fuel))
          (write_nar_obj_to (symlink t))
          (symlink t)
  unfolding write_nar_obj_to bytes_eq is_utf8
  symlink_obj fuel t text =
      Reads-cast bytes fits Anything (parse_nar_obj bytes (suc fuel)) _ _ (symlink t)
        (ap
          (λ (u : Bytes).
            write_str_to "(" ++ (write_str_to "type" ++ (write_str_to "symlink" ++ u)))
          (append_assoc (write_str_to "target") (write_bytes_to t) (write_str_to ")")))
        (frame fuel Anything "symlink" _ (symlink t) (omega arith) refl (λ _. tt)
          (symlink_read t text))

  pub directory_obj :
      (fuel : ℕ) (es : Entries)
      → Reads bytes fits Closed (parse_directory bytes fuel) (write_entries_to es) es
      → Reads bytes fits Anything
          (parse_nar_obj bytes (suc fuel))
          (write_nar_obj_to (directory es))
          (directory es)
  unfolding write_nar_obj_to bytes_eq is_utf8 Closed
  directory_obj fuel es inner =
      frame fuel Closed "directory" (write_entries_to es) (directory es) (omega arith) refl
        (λ rest. (rest, refl))
        (Reads-map bytes fits Closed (parse_directory bytes fuel) directory (write_entries_to es) es
          inner)
