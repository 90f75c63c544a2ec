-- ===== src/Nar/Streaming.antt =====
-- The streaming writer of crates/ekapkgs-nix/src/nar.rs over a tree of the content-addressed store, and
-- `reconstruct_node` of crates/ekapkgs-serve/src/storage/castore.rs over the same tree. An error is
-- `none`, what was written before it is lost. A node is found by its digest, so the recursion is on fuel: the
-- depth of the tree.
pub mod Equal
pub mod Written
mod Examples
use ekapkgs_cli.Prelude.{
  ℕ, zero, suc, Bool, true, false, ◌||◌, ◌&&◌, Option, none, some, List, [], ◌∷◌, ◌++◌, Bytes,
  le_bytes, length, replicate, ltb, ◌==◌, if◌then◌else◌,
}
use ekapkgs_cli.Nar.{NarNode, Entries, regular, directory, symlink, end, entry}
use ekapkgs_cli.Nar.Writer.{pad, write_str_to, write_bytes_to, executable_field}

-- `CaNode` with its optional variant and digest.
pub data CaNode : Type 0 where
  no_variant : CaNode
  file_node : Option Bytes → ℕ → Bool → CaNode
  directory_node : Option Bytes → ℕ → CaNode
  symlink_node : Bytes → CaNode

pub record CaDirectoryEntry : Type 0 where
  pub name : Bytes
  pub node : Option CaNode

pub record ChunkReader : Type 0 where
  pub read_file_data : Bytes → Option Bytes
  pub load_directory : Bytes → Option (List CaDirectoryEntry)

-- A digest that is missing, or not of 32 bytes, is an error.
unfoldable pub fetch {ℓ} : {A : Type ℓ} → Option Bytes → (Bytes → Option A) → Option A
fetch none f = none
fetch (some d) f = let found = f d in if length d == 32 then found else none

-- The order of strings by their bytes.
unfoldable pub name_le : Bytes → Bytes → Bool
name_le [] b = true
name_le (x ∷ a) [] = false
name_le (x ∷ a) (y ∷ b) = let rest = name_le a b in if ltb x y then true else (x == y) && rest

-- `entries.sort_by(|a, b| a.name.cmp(&b.name))`, which is stable.
unfoldable pub insert_by_name : CaDirectoryEntry → List CaDirectoryEntry → List CaDirectoryEntry
insert_by_name e [] = e ∷ []
insert_by_name e (q ∷ es) =
    let rest = insert_by_name e es in if name_le e.name q.name then e ∷ q ∷ es else q ∷ rest

unfoldable pub sort_by_name : List CaDirectoryEntry → List CaDirectoryEntry
sort_by_name [] = []
sort_by_name (e ∷ es) = insert_by_name e (sort_by_name es)

unfoldable pub insert_entry : Bytes → NarNode → Entries → Entries
insert_entry name node end = entry name node end
insert_entry name node (entry n m es) =
    let rest = insert_entry name node es in
    if name_le name n then entry name node (entry n m es) else entry n m rest

unfoldable pub sort_entries : Entries → Entries
sort_entries end = end
sort_entries (entry name node es) = insert_entry name node (sort_entries es)

-- The loop over the sorted entries; an entry without a node writes none.
unfoldable pub write_cas_entries : (CaNode → Option Bytes) → List CaDirectoryEntry → Option Bytes
write_cas_entries write [] = some []
write_cas_entries write (e ∷ es) =
    let rest = write_cas_entries write es in
    let child : Option Bytes = elim e.node [ none ↦ some [] | some n ↦ write n ] in
    elim child [
      | none ↦ none
      | some c ↦ elim rest [
        | none ↦ none
        | some r ↦ some (
            write_str_to "entry"
            ++ (write_str_to "("
                ++ (write_str_to "name"
                    ++ (write_bytes_to e.name
                        ++ (write_str_to "node" ++ (c ++ (write_str_to ")" ++ r)))))))
      ]
    ]

-- The length prefix is the size that the node records, the padding follows it.
unfoldable pub write_cas_node_streaming : ChunkReader → ℕ → CaNode → Option Bytes
write_cas_node_streaming reader zero n = none
write_cas_node_streaming reader (suc fuel) no_variant = none
write_cas_node_streaming reader (suc fuel) (file_node digest size executable) =
    elim (fetch digest reader.read_file_data) [
      | none ↦ none
      | some bytes ↦ some (
          write_str_to "("
          ++ (write_str_to "type"
              ++ (write_str_to "regular"
                  ++ (executable_field executable
                      ++ (write_str_to "contents"
                          ++ ((le_bytes 8 size ++ (bytes ++ replicate (pad size) 0))
                              ++ write_str_to ")"))))))
    ]
write_cas_node_streaming reader (suc fuel) (directory_node digest size) =
    elim (fetch digest reader.load_directory) [
      | none ↦ none
      | some entries ↦
          elim (write_cas_entries (write_cas_node_streaming reader fuel) (sort_by_name entries)) [
            | none ↦ none
            | some bytes ↦ some (
                write_str_to "("
                ++ (write_str_to "type"
                    ++ (write_str_to "directory" ++ (bytes ++ write_str_to ")"))))
          ]
    ]
write_cas_node_streaming reader (suc fuel) (symlink_node target) = some (
    write_str_to "("
    ++ (write_str_to "type"
        ++ (write_str_to "symlink"
            ++ (write_str_to "target" ++ (write_bytes_to target ++ write_str_to ")")))))

unfoldable pub write_nar_streaming : ChunkReader → ℕ → CaNode → Option Bytes
write_nar_streaming reader fuel root = elim (write_cas_node_streaming reader fuel root) [
  | none ↦ none
  | some bytes ↦ some (write_str_to "nix-archive-1" ++ bytes)
]

-- `reconstruct_node`: its loop, where an entry without a node is an error, and the sort behind it.
unfoldable pub reconstruct_entries :
    (CaNode → Option NarNode) → List CaDirectoryEntry → Option Entries
reconstruct_entries reconstruct [] = some end
reconstruct_entries reconstruct (e ∷ es) =
    let rest = reconstruct_entries reconstruct es in
    let child : Option NarNode = elim e.node [ none ↦ none | some n ↦ reconstruct n ] in
    elim child [
      | none ↦ none
      | some c ↦ elim rest [ none ↦ none | some r ↦ some (entry e.name c r) ]
    ]

unfoldable pub reconstruct_node : ChunkReader → ℕ → CaNode → Option NarNode
reconstruct_node reader zero n = none
reconstruct_node reader (suc fuel) no_variant = none
reconstruct_node reader (suc fuel) (file_node digest size executable) =
    elim (fetch digest reader.read_file_data) [
      | none ↦ none
      | some bytes ↦ some (regular executable bytes)
    ]
reconstruct_node reader (suc fuel) (directory_node digest size) =
    elim (fetch digest reader.load_directory) [
      | none ↦ none
      | some entries ↦ elim (reconstruct_entries (reconstruct_node reader fuel) entries) [
        | none ↦ none
        | some es ↦ some (directory (sort_entries es))
      ]
    ]
reconstruct_node reader (suc fuel) (symlink_node target) = some (symlink target)
