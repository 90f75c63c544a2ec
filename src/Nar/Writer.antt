-- ===== src/Nar/Writer.antt =====
-- The writer of nar.rs. The bytes that go to `w` are the result.
use ekapkgs_cli.Prelude.{
  ℕ, ◌-◌, ◌%◌, Bool, true, false, String, [], ◌++◌, Bytes, codes, le_bytes, length, replicate,
}
use ekapkgs_cli.Nar.{NarNode, Entries, regular, directory, symlink, end, entry}

-- `(8 - len % 8) % 8`
abbrev pub pad : ℕ → ℕ
pad len = (8 - len % 8) % 8

-- `[0u8; 8][..pad]` is empty where `pad` is 0.
unfoldable pub write_bytes_to : Bytes → Bytes
write_bytes_to s = le_bytes 8 (length s) ++ (s ++ replicate (pad (length s)) 0)

abbrev pub write_str_to : String → Bytes
write_str_to s = write_bytes_to (codes s)

abbrev pub executable_field : Bool → Bytes
executable_field true = write_str_to "executable" ++ write_str_to ""
executable_field false = []

unfoldable mutual
  pub write_nar_obj_to : NarNode → Bytes
  write_nar_obj_to (regular executable contents) =
      write_str_to "("
      ++ (write_str_to "type"
          ++ (write_str_to "regular"
              ++ (executable_field executable
                  ++ (write_str_to "contents" ++ (write_bytes_to contents ++ write_str_to ")")))))
  write_nar_obj_to (directory entries) =
      write_str_to "("
      ++ (write_str_to "type"
          ++ (write_str_to "directory" ++ (write_entries_to entries ++ write_str_to ")")))
  write_nar_obj_to (symlink target) =
      write_str_to "("
      ++ (write_str_to "type"
          ++ (write_str_to "symlink"
              ++ (write_str_to "target" ++ (write_bytes_to target ++ write_str_to ")"))))

  -- The loop over the entries of a directory.
  pub write_entries_to : Entries → Bytes
  write_entries_to end = []
  write_entries_to (entry name node rest) =
      write_str_to "entry"
      ++ (write_str_to "("
          ++ (write_str_to "name"
              ++ (write_bytes_to name
                  ++ (write_str_to "node"
                      ++ (write_nar_obj_to node ++ (write_str_to ")" ++ write_entries_to rest))))))

unfoldable pub write_nar : NarNode → Bytes
write_nar node = write_str_to "nix-archive-1" ++ write_nar_obj_to node
