-- ===== src/Castore/Ingest/Provided.antt =====
-- A reader that has the files and the directories of a tree rebuilds it: crates/ekapkgs-nix/src/nar.rs over
-- a store of crates/ekapkgs-serve/src/storage/castore.rs or crates/ekapkgs/src/chunk_store.rs.
use ekapkgs_cli.Prelude.{
  ℕ, zero, suc, ◌≤◌, ◌≡◌, refl, sym, ap, ap₂, subst, ◌∙◌, Bool, Option, none, some, List, [], ◌∷◌,
  Bytes, length, All, arith,
}
use ekapkgs_cli.Nar.{NarNode, Entries, regular, directory, symlink, end, entry}
use ekapkgs_cli.Nar.Writer.{write_nar}
use ekapkgs_cli.Nar.Streaming.{
  CaNode, file_node, directory_node, symlink_node, CaDirectoryEntry, ChunkReader, fetch,
  reconstruct_entries, reconstruct_node, write_nar_streaming,
}
use ekapkgs_cli.Nar.Streaming.Equal.{child, reconstruct-cons, SizedEntry, HasSizes}
use ekapkgs_cli.Nar.Streaming.Written.{write_nar_streaming-reconstruct_node}
use ekapkgs_cli.Castore.{CastoreBackend}
use ekapkgs_cli.Castore.Ingest.{
  Codecs, CodecLaws, total_length, count_entries, insert_directory, ingest_node, ingest_entries,
  depth, depth_entries, sort_node, sort_children,
}
use ekapkgs_cli.Castore.Ingest.Trees.{total_length-concat}

module _ (k : Codecs) where
  unfoldable mutual
    -- The node of a tree, and the message of a directory.
    pub node_of : NarNode → CaNode
    node_of (regular executable bytes) =
        file_node (some (k.blake3 bytes)) (total_length (k.cdc bytes)) executable
    node_of (directory entries) =
        directory_node (some (k.blake3 (k.encode (entries_of entries)))) (count_entries entries)
    node_of (symlink target) = symlink_node target

    pub entries_of : Entries → List CaDirectoryEntry
    entries_of end = []
    entries_of (entry name node es) =
        (record { name = name; node = some (node_of node) }) ∷ entries_of es

  mutual
    unfolding ingest_node insert_directory node_of

    pub ingest_node_of :
        (node : NarNode) (s : CastoreBackend) → (ingest_node k node s).0 ≡ node_of node
    ingest_node_of (regular executable bytes) s = refl
    ingest_node_of (directory entries) s =
        ap (λ es. directory_node (some (k.blake3 (k.encode es))) (count_entries entries))
          (ingest_entries_of entries s)
    ingest_node_of (symlink target) s = refl

    pub ingest_entries_of :
        (entries : Entries) (s : CastoreBackend)
        → (ingest_entries k entries s).0 ≡ entries_of entries
    ingest_entries_of end s = refl
    ingest_entries_of (entry name node es) s =
        ap₂ (λ n rest. (record { name = name; node = some n }) ∷ rest) (ingest_node_of node s)
          (ingest_entries_of es (ingest_node k node s).1)

  module _ (reader : ChunkReader) where
    unfoldable mutual
      pub Provided : NarNode → Type 0
      Provided (regular executable bytes) = reader.read_file_data (k.blake3 bytes) ≡ some bytes
      Provided (directory entries) =
          (reader.load_directory (k.blake3 (k.encode (entries_of entries)))
            ≡ some (entries_of entries))
          × ProvidedEntries entries
      Provided (symlink target) = Unit

      pub ProvidedEntries : Entries → Type 0
      ProvidedEntries end = Unit
      ProvidedEntries (entry name node es) = Provided node × ProvidedEntries es

module _ (k : Codecs) (laws : CodecLaws k) (reader : ChunkReader) where
  fetched :
      {A : Type 0} (x : Bytes) (f : Bytes → Option A) (a : A)
      → f (k.blake3 x) ≡ some a
      → fetch (some (k.blake3 x)) f ≡ some a
  unfolding fetch
  fetched x f a h = let size = laws.digest_length x in ground arith

  abbrev Rebuilt : ℕ → CaNode → NarNode → Type 0
  Rebuilt fuel n node =
      (reconstruct_node reader fuel n ≡ some (sort_node node)) × HasSizes reader fuel n

  Rebuilt-file :
      (fuel : ℕ) (bytes : Bytes) (executable : Bool)
      → reader.read_file_data (k.blake3 bytes) ≡ some bytes
      → Rebuilt
          (suc fuel)
          (file_node (some (k.blake3 bytes)) (total_length (k.cdc bytes)) executable)
          (regular executable bytes)
  unfolding reconstruct_node HasSizes sort_node
  Rebuilt-file fuel bytes executable here =
      let reads = fetched bytes reader.read_file_data bytes here in
      let size : total_length (k.cdc bytes) ≡ length bytes =
        total_length-concat (k.cdc bytes) ∙ ap length (laws.chunked bytes) in
      (
        ground (arith, reads),
        subst
            (λ o. elim o as (λ _. Type 0) [
              | none ↦ Unit
              | some b ↦ total_length (k.cdc bytes) ≡ length b
            ])
            (sym reads) size,
      )

  mutual
    unfolding Provided reconstruct_node HasSizes sort_node depth node_of reconstruct_entries
        SizedEntry child

    rebuilt :
        (node : NarNode) (fuel : ℕ)
        → Provided k reader node
        → depth node ≤ fuel
        → Rebuilt fuel (node_of k node) node
    rebuilt (regular executable bytes) zero h enough = absurd (omega arith)
    rebuilt (directory entries) zero h enough = absurd (omega arith)
    rebuilt (symlink target) zero h enough = absurd (omega arith)
    rebuilt (regular executable bytes) (suc fuel) h enough = Rebuilt-file fuel bytes executable h
    rebuilt (directory entries) (suc fuel) h enough =
        let loads =
          fetched (k.encode (entries_of k entries)) reader.load_directory (entries_of k entries)
            h.0 in
        let parts = rebuilt_entries entries fuel h.1 (omega arith) in
        (
          ground (arith, loads, parts.0),
          subst
              (λ o. elim o as (λ _. Type 0) [
                | none ↦ Unit
                | some rows ↦ All (SizedEntry (HasSizes reader fuel)) rows
              ])
              (sym loads) parts.1,
        )
    rebuilt (symlink target) (suc fuel) h enough = (refl, tt)

    rebuilt_entries :
        (entries : Entries) (fuel : ℕ)
        → ProvidedEntries k reader entries
        → depth_entries entries ≤ fuel
        → (reconstruct_entries (reconstruct_node reader fuel) (entries_of k entries)
            ≡ some (sort_children entries))
          × All (SizedEntry (HasSizes reader fuel)) (entries_of k entries)
    rebuilt_entries end fuel h enough = (refl, tt)
    rebuilt_entries (entry name node es) fuel h enough =
        let here = rebuilt node fuel h.0 (omega arith) in
        let there = rebuilt_entries es fuel h.1 (omega arith) in
        (
          reconstruct-cons (reconstruct_node reader fuel)
              (record { name = name; node = some (node_of k node) }) (entries_of k es)
              (sort_node node) (sort_children es) here.0 there.0,
          (here.1, there.1),
        )

  -- The streaming writer writes the archive of the tree, its directories in order.
  pub write_nar_streaming-Provided :
      (node : NarNode) (fuel : ℕ)
      → Provided k reader node
      → depth node ≤ fuel
      → write_nar_streaming reader fuel (node_of k node) ≡ some (write_nar (sort_node node))
  write_nar_streaming-Provided node fuel h enough =
      let (made, sizes) = rebuilt node fuel h enough in
      write_nar_streaming-reconstruct_node reader fuel (node_of k node) (sort_node node) sizes made
