-- ===== src/Nar/Streaming/Examples.antt =====
-- A concrete tree of the content-addressed store.
use ekapkgs_cli.Prelude.{ℕ, ◌≡◌, refl, true, some, [], ◌∷◌, Bytes, codes, replicate}
use ekapkgs_cli.Nar.{NarNode, regular, directory, symlink, end, entry}
use ekapkgs_cli.Nar.Writer.{write_nar}
use ekapkgs_cli.Nar.Streaming.{
  CaNode, file_node, directory_node, symlink_node, ChunkReader, fetch, name_le, insert_entry,
  sort_entries, write_nar_streaming, reconstruct_entries, reconstruct_node,
}
use ekapkgs_cli.Nar.Streaming.Equal.{SizedEntry, HasSizes}
use ekapkgs_cli.Nar.Streaming.Written.{write_nar_streaming-reconstruct_node}

abbrev digest : ℕ → Bytes
digest n = replicate 32 n

-- A directory whose entries are out of order.
abbrev reader : ChunkReader
reader = record {
  read_file_data = λ d. some (7 ∷ 8 ∷ 9 ∷ []);
  load_directory = λ d. some (
      (record { name = codes "b"; node = some (file_node (some (digest 1)) 3 true) })
      ∷ (record { name = codes "a"; node = some (symlink_node (codes "b")) })
      ∷ []);
}

abbrev root : CaNode
root = directory_node (some (digest 2)) 2

abbrev tree : NarNode
tree = directory (
    entry (codes "a") (symlink (codes "b")) (entry (codes "b") (regular true (7 ∷ 8 ∷ 9 ∷ [])) end))

root-HasSizes : HasSizes reader 2 root
unfolding HasSizes SizedEntry fetch
root-HasSizes = (refl, (tt, tt))

reconstructed : reconstruct_node reader 2 root ≡ some tree
unfolding reconstruct_node reconstruct_entries fetch sort_entries insert_entry name_le
reconstructed = refl

write_nar_streaming-reconstruct_node_example :
    write_nar_streaming reader 2 root ≡ some (write_nar tree)
write_nar_streaming-reconstruct_node_example =
    write_nar_streaming-reconstruct_node reader 2 root tree root-HasSizes reconstructed
