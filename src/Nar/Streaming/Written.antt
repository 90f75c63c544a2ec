-- ===== src/Nar/Streaming/Written.antt =====
-- What the streaming writer of crates/ekapkgs-nix/src/nar.rs writes.
use ekapkgs_cli.Prelude.{
  ℕ, zero, suc, ◌≡◌, refl, ap, sym, inl, inr, Bool, Option, none, some, List, [], ◌∷◌, ◌++◌, Bytes,
  le_bytes, length, replicate, All, Option-cases, arith,
}
use ekapkgs_cli.Nar.{NarNode, Entries, regular, directory}
use ekapkgs_cli.Nar.Writer.{
  pad, write_str_to, write_bytes_to, executable_field, write_nar_obj_to, write_entries_to,
  write_nar,
}
use ekapkgs_cli.Nar.Streaming.{
  CaNode, no_variant, file_node, directory_node, symlink_node, CaDirectoryEntry, ChunkReader, fetch,
  sort_by_name, sort_entries, write_cas_entries, write_cas_node_streaming, write_nar_streaming,
  reconstruct_entries, reconstruct_node,
}
use ekapkgs_cli.Nar.Streaming.Equal.{
  child, reconstruct-inverse, sort-reconstruct, nothing_left, sort-All, SizedEntry, HasSizes,
}

-- A writer `g` agrees with `f` on the nodes that satisfy `P`.
module _ (f : CaNode → Option NarNode) (g : CaNode → Option Bytes) (P : CaNode → Type 0)
    (agrees : (n : CaNode) (m : NarNode)
      → P n
      → f n ≡ some m
      → g n ≡ some (write_nar_obj_to m)) where
  node_written :
      (node : Option CaNode) (c : NarNode)
      → (elim node as (λ _. Type 0) [ none ↦ Unit | some n ↦ P n ])
      → (elim node as (λ _. Option NarNode) [ none ↦ none | some n ↦ f n ]) ≡ some c
      → (elim node as (λ _. Option Bytes) [ none ↦ some [] | some n ↦ g n ])
        ≡ some (write_nar_obj_to c)
  node_written none c p h = absurd (ground arith)
  node_written (some n) c p h = agrees n c p h

  entries_written :
      (es : List CaDirectoryEntry) (ns : Entries)
      → All (SizedEntry P) es
      → reconstruct_entries f es ≡ some ns
      → write_cas_entries g es ≡ some (write_entries_to ns)
  unfolding write_cas_entries write_entries_to SizedEntry child
  entries_written [] ns p h = ap (λ x. some (write_entries_to x)) (nothing_left f ns h)
  entries_written (e ∷ es) ns p h =
      let (c, r, made, rest, same) = reconstruct-inverse f e es ns h in
      let here = node_written e.node c p.0 made in
      let there = entries_written es r p.1 rest in ground (arith, here, there, same)

file_written :
    (o : Option Bytes) (size : ℕ) (executable : Bool) (m : NarNode)
    → (elim o as (λ _. Type 0) [ none ↦ Unit | some bytes ↦ size ≡ length bytes ])
    → (elim o as (λ _. Option NarNode) [
      | none ↦ none
      | some bytes ↦ some (regular executable bytes)
    ])
      ≡ some m
    → (elim o as (λ _. Option Bytes) [
      | none ↦ none
      | some bytes ↦ some (
          write_str_to "("
          ++ (write_str_to "type"
              ++ (write_str_to "regular"
                  ++ (executable_field executable
                      ++ (write_str_to "contents"
                          ++ ((le_bytes 8 size ++ (bytes ++ replicate (pad size) 0))
                              ++ write_str_to ")"))))))
    ])
      ≡ some (write_nar_obj_to m)
unfolding write_nar_obj_to write_bytes_to
file_written none size executable m sizes h = absurd (ground arith)
file_written (some bytes) size executable m sizes h =
    let same : regular executable bytes ≡ m = ground arith in rw (sym same, sizes) refl

module _ (f : CaNode → Option NarNode) (g : CaNode → Option Bytes) (P : CaNode → Type 0)
    (agrees : (n : CaNode) (m : NarNode)
      → P n
      → f n ≡ some m
      → g n ≡ some (write_nar_obj_to m)) where
  directory_written :
      (o : Option (List CaDirectoryEntry)) (m : NarNode)
      → (elim o as (λ _. Type 0) [ none ↦ Unit | some es ↦ All (SizedEntry P) es ])
      → (elim o as (λ _. Option NarNode) [
        | none ↦ none
        | some es ↦ elim (reconstruct_entries f es) [
          | none ↦ none
          | some ns ↦ some (directory (sort_entries ns))
        ]
      ])
        ≡ some m
      → (elim o as (λ _. Option Bytes) [
        | none ↦ none
        | some es ↦ elim (write_cas_entries g (sort_by_name es)) [
          | none ↦ none
          | some bytes ↦ some (
              write_str_to "("
              ++ (write_str_to "type" ++ (write_str_to "directory" ++ (bytes ++ write_str_to ")"))))
        ]
      ])
        ≡ some (write_nar_obj_to m)
  unfolding write_nar_obj_to
  directory_written none m sizes h = absurd (ground arith)
  directory_written (some es) m sizes h = elim (Option-cases (reconstruct_entries f es)) [
    | inl failed ↦ absurd (ground arith)
    | inr (ns, ok) ↦
        let same : directory (sort_entries ns) ≡ m = ground arith in
        let written =
          entries_written f g P agrees (sort_by_name es) (sort_entries ns)
            (sort-All (SizedEntry P) es sizes) (sort-reconstruct f es ns ok) in
        rw (sym same, written) refl
  ]

-- The recursion, by the fuel.
streaming_lem :
    (reader : ChunkReader) (fuel : ℕ) (n : CaNode) (m : NarNode)
    → HasSizes reader fuel n
    → reconstruct_node reader fuel n ≡ some m
    → write_cas_node_streaming reader fuel n ≡ some (write_nar_obj_to m)
unfolding HasSizes reconstruct_node write_cas_node_streaming write_nar_obj_to write_bytes_to
streaming_lem reader zero n m sizes h = absurd (ground arith)
streaming_lem reader (suc fuel) no_variant m sizes h = absurd (ground arith)
streaming_lem reader (suc fuel) (file_node digest size executable) m sizes h =
    file_written (fetch digest reader.read_file_data) size executable m sizes h
streaming_lem reader (suc fuel) (directory_node digest size) m sizes h =
    directory_written (reconstruct_node reader fuel) (write_cas_node_streaming reader fuel)
      (HasSizes reader fuel) (λ n' m' s' h'. streaming_lem reader fuel n' m' s' h')
      (fetch digest reader.load_directory) m sizes h
streaming_lem reader (suc fuel) (symlink_node target) m sizes h = ground arith

-- Where a tree of the store can be reconstructed and records the sizes of its files, the streaming
-- writer succeeds and writes the archive of the reconstructed tree.
pub write_nar_streaming-reconstruct_node :
    (reader : ChunkReader) (fuel : ℕ) (n : CaNode) (m : NarNode)
    → HasSizes reader fuel n
    → reconstruct_node reader fuel n ≡ some m
    → write_nar_streaming reader fuel n ≡ some (write_nar m)
unfolding write_nar_streaming write_nar
write_nar_streaming-reconstruct_node reader fuel n m sizes h =
    ground (arith, streaming_lem reader fuel n m sizes h)
