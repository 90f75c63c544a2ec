-- ===== src/Castore/Ingest/RoundTrip.antt =====
-- Archives through the content-addressed store: `ingest_node` and what is read afterwards,
-- crates/ekapkgs-serve/src/storage/castore.rs and crates/ekapkgs-nix/src/nar.rs.
use ekapkgs_cli.Prelude.{ℕ, zero, suc, ◌≤◌, ◌≡◌, refl, ap, ◌∙◌, some, List, [], ◌∷◌, Bytes, arith}
use ekapkgs_cli.Nar.{NarNode, Entries, regular, directory, symlink, end, entry}
use ekapkgs_cli.Nar.Writer.{write_nar}
use ekapkgs_cli.Nar.Streaming.{
  CaNode, symlink_node, CaDirectoryEntry, reconstruct_entries, reconstruct_node,
  write_nar_streaming,
}
use ekapkgs_cli.Nar.Streaming.Equal.{child, reconstruct-cons, SizedEntry, HasSizes}
use ekapkgs_cli.Castore.{CastoreBackend}
use ekapkgs_cli.Castore.Ingest.{
  Codecs, CodecLaws, ingest_node, ingest_entries, insert_directory, count_entries, castore_reader,
  castore_streamer, depth, depth_entries, sort_node, sort_children,
}
use ekapkgs_cli.Castore.Ingest.Provided.{ingest_node_of, write_nar_streaming-Provided}
use ekapkgs_cli.Castore.Ingest.Streamed.{castore_streamer-Provided}
use ekapkgs_cli.Castore.Walk.Held.{Held-Extends, ingest_node-Held}
use ekapkgs_cli.Castore.Ingest.Valid.{IsValid, Extends}
use ekapkgs_cli.Castore.Ingest.Extends.{Extends-refl, Extends-trans}
use ekapkgs_cli.Castore.Ingest.Files.{ingest_file-IsValid}
use ekapkgs_cli.Castore.Ingest.Trees.{
  Rebuilds, RebuildsEntries, rebuild-file, rebuild-directory, insert_directory-IsValid,
}

module _ (k : Codecs) (laws : CodecLaws k) where
  -- The store stays valid and grows, and the tree can be rebuilt from it.
  Ingested : CastoreBackend → CaNode × CastoreBackend → NarNode → Type 0
  Ingested s r node = IsValid k r.1 × Extends k s r.1 × Rebuilds k laws r.1 r.0 node

  IngestedEntries : CastoreBackend → List CaDirectoryEntry × CastoreBackend → Entries → Type 0
  IngestedEntries s r entries =
      IsValid k r.1 × Extends k s r.1 × RebuildsEntries k laws r.1 r.0 entries

  rebuild-symlink :
      (target : Bytes) (s : CastoreBackend)
      → Rebuilds k laws s (symlink_node target) (symlink target)
  unfolding Rebuilds reconstruct_node HasSizes sort_node depth
  rebuild-symlink target s t zero valid grown enough = absurd (omega arith)
  rebuild-symlink target s t (suc fuel) valid grown enough = (refl, tt)

  rebuild-end : (s : CastoreBackend) → RebuildsEntries k laws s [] end
  unfolding RebuildsEntries reconstruct_entries sort_children
  rebuild-end s t fuel valid grown enough = (refl, tt)

  rebuild-entry :
      (name : Bytes) (n : CaNode) (node : NarNode) (rest : List CaDirectoryEntry)
      (entries : Entries) (s u : CastoreBackend)
      → Extends k s u
      → Rebuilds k laws s n node
      → RebuildsEntries k laws u rest entries
      → RebuildsEntries k laws u
          ((record { name = name; node = some n }) ∷ rest)
          (entry name node entries)
  unfolding Rebuilds RebuildsEntries reconstruct_entries SizedEntry sort_children depth_entries
      child
  rebuild-entry name n node rest entries s u between made others t fuel valid grown enough =
      let here = made t fuel valid (Extends-trans k _ _ _ between grown) (omega arith) in
      let there = others t fuel valid grown (omega arith) in
      (
        reconstruct-cons (reconstruct_node (castore_reader k t) fuel)
            (record { name = name; node = some n }) rest (sort_node node) (sort_children entries)
            here.0 there.0,
        (here.1, there.1),
      )

  mutual
    unfolding Ingested IngestedEntries ingest_node insert_directory

    ingest_node-Ingested :
        (node : NarNode) (s : CastoreBackend) → IsValid k s → Ingested s (ingest_node k node s) node
    ingest_node-Ingested (regular executable bytes) s valid =
        let (valid', grown, stored) = ingest_file-IsValid k laws bytes s valid in
        (valid', grown, rebuild-file k laws bytes executable _ stored)
    ingest_node-Ingested (directory entries) s valid =
        let (valid', grown, below) = ingest_entries-Ingested entries s valid in
        let (valid'', grown') =
          insert_directory-IsValid k laws (ingest_entries k entries s).0
            (ingest_entries k entries s).1 valid' in
        (
          valid'',
          Extends-trans k _ _ _ grown grown',
          rebuild-directory k laws (ingest_entries k entries s).0 entries (count_entries entries)
              (ingest_entries k entries s).1 valid' below,
        )
    ingest_node-Ingested (symlink target) s valid =
        (valid, Extends-refl k s, rebuild-symlink target s)

    ingest_entries-Ingested :
        (entries : Entries) (s : CastoreBackend)
        → IsValid k s
        → IngestedEntries s (ingest_entries k entries s) entries
    ingest_entries-Ingested end s valid = (valid, Extends-refl k s, rebuild-end s)
    ingest_entries-Ingested (entry name node entries) s valid =
        let (valid', grown, made) = ingest_node-Ingested node s valid in
        let (valid'', grown', others) =
          ingest_entries-Ingested entries (ingest_node k node s).1 valid' in
        (
          valid'',
          Extends-trans k _ _ _ grown grown',
          rebuild-entry name _ node _ entries _ _ grown' made others,
        )

  -- When the libraries keep their promises, ingesting a tree keeps a valid store valid and keeps all
  -- its chunks, files and directories.
  pub ingest_node-IsValid :
      (node : NarNode) (s : CastoreBackend)
      → IsValid k s
      → IsValid k (ingest_node k node s).1 × Extends k s (ingest_node k node s).1
  unfolding Ingested
  ingest_node-IsValid node s valid =
      let (valid', grown, rebuilds) = ingest_node-Ingested node s valid in (valid', grown)

  -- When the libraries keep their promises and the store is valid, the node of an ingested tree is
  -- rebuilt, from any later valid store and with at least the tree's levels as fuel, as the tree with
  -- the entries of every directory in order, and the streaming writer writes its archive.
  pub write_nar_streaming-ingest_node :
      (node : NarNode) (s t : CastoreBackend) (fuel : ℕ)
      → IsValid k s
      → IsValid k t
      → Extends k (ingest_node k node s).1 t
      → depth node ≤ fuel
      → (reconstruct_node (castore_reader k t) fuel (ingest_node k node s).0
          ≡ some (sort_node node))
        × (write_nar_streaming (castore_streamer k t) fuel (ingest_node k node s).0
            ≡ some (write_nar (sort_node node)))
  unfolding Ingested Rebuilds
  write_nar_streaming-ingest_node node s t fuel valid later grown enough =
      let (_, _, rebuilds) = ingest_node-Ingested node s valid in
      let held = Held-Extends k _ t node grown (ingest_node-Held k laws node s valid) in
      (
        (rebuilds t fuel later grown enough).0,
        ap (write_nar_streaming (castore_streamer k t) fuel) (ingest_node_of k node s)
            ∙ write_nar_streaming-Provided k laws (castore_streamer k t) node fuel
                (castore_streamer-Provided k laws t later node held) enough,
      )
