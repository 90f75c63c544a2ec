-- ===== src/Castore/Walk/Held.antt =====
-- A tree that `ingest_node` of crates/ekapkgs-serve/src/storage/castore.rs has stored, and that its root
-- determines it.
use ekapkgs_cli.Prelude.{
  ℕ, ◌≡◌, refl, sym, ap, ap₂, subst, ◌∙◌, Bool, Option, none, some, List, Bytes, arith,
}
use ekapkgs_cli.Nar.{NarNode, Entries, regular, directory, symlink, end, entry}
use ekapkgs_cli.Nar.Streaming.{
  CaNode, no_variant, file_node, directory_node, symlink_node, CaDirectoryEntry,
}
use ekapkgs_cli.Castore.{CastoreBackend}
use ekapkgs_cli.Castore.Ingest.{
  Codecs, CodecLaws, find_directory, insert_directory, ingest_node, ingest_entries,
}
use ekapkgs_cli.Castore.Ingest.Valid.{HasFile, IsValid, Extends}
use ekapkgs_cli.Castore.Ingest.Extends.{Extends-refl, Extends-trans}
use ekapkgs_cli.Castore.Ingest.Files.{ingest_file-IsValid}
use ekapkgs_cli.Castore.Ingest.Trees.{added, find-added, insert_directory-IsValid}
use ekapkgs_cli.Castore.Ingest.Provided.{node_of, entries_of, ingest_entries_of}

module _ (k : Codecs) (s : CastoreBackend) where
  -- The rows of the files and the directories of a tree are there.
  unfoldable mutual
    pub Held : NarNode → Type 0
    Held (regular executable bytes) = HasFile k s bytes
    Held (directory entries) =
        (find_directory (k.blake3 (k.encode (entries_of k entries))) s.directories
          ≡ some (k.encode (entries_of k entries)))
        × HeldEntries entries
    Held (symlink target) = Unit

    pub HeldEntries : Entries → Type 0
    HeldEntries end = Unit
    HeldEntries (entry name node es) = Held node × HeldEntries es

module _ (k : Codecs) where
  mutual
    unfolding Held

    pub Held-Extends :
        (s t : CastoreBackend) (node : NarNode) → Extends k s t → Held k s node → Held k t node
    Held-Extends s t (regular executable bytes) grown h = grown.files bytes h
    Held-Extends s t (directory entries) grown (found, below) =
        (grown.directories _ _ found, HeldEntries-Extends s t entries grown below)
    Held-Extends s t (symlink target) grown h = tt

    HeldEntries-Extends :
        (s t : CastoreBackend) (entries : Entries)
        → Extends k s t
        → HeldEntries k s entries
        → HeldEntries k t entries
    HeldEntries-Extends s t end grown h = tt
    HeldEntries-Extends s t (entry name node es) grown (here, rest) =
        (Held-Extends s t node grown here, HeldEntries-Extends s t es grown rest)

module _ (k : Codecs) (laws : CodecLaws k) where
  mutual
    unfolding Held ingest_node insert_directory

    ingest-Held :
        (node : NarNode) (s : CastoreBackend)
        → IsValid k s
        → IsValid k (ingest_node k node s).1
          × Extends k s (ingest_node k node s).1
          × Held k (ingest_node k node s).1 node
    ingest-Held (regular executable bytes) s valid =
        let (valid', grown, stored) = ingest_file-IsValid k laws bytes s valid in
        (valid', grown, stored.0)
    ingest-Held (directory entries) s valid =
        let (valid', grown, below) = ingest_entries_held entries s valid in
        let u = (ingest_entries k entries s).1 in
        let es = (ingest_entries k entries s).0 in
        let (valid'', grown') = insert_directory-IsValid k laws es u valid' in
        (
          valid'',
          Extends-trans k _ _ _ grown grown',
          (
            subst
                (λ x.
                  find_directory (k.blake3 (k.encode x)) (added k laws es u).directories
                  ≡ some (k.encode x))
                (ingest_entries_of k entries s) (find-added k laws es u valid'),
            HeldEntries-Extends k _ _ entries grown' below,
          ),
        )
    ingest-Held (symlink target) s valid = (valid, Extends-refl k s, tt)

    ingest_entries_held :
        (entries : Entries) (s : CastoreBackend)
        → IsValid k s
        → IsValid k (ingest_entries k entries s).1
          × Extends k s (ingest_entries k entries s).1
          × HeldEntries k (ingest_entries k entries s).1 entries
    ingest_entries_held end s valid = (valid, Extends-refl k s, tt)
    ingest_entries_held (entry name node es) s valid =
        let (valid', grown, here) = ingest-Held node s valid in
        let (valid'', grown', below) = ingest_entries_held es (ingest_node k node s).1 valid' in
        (valid'', Extends-trans k _ _ _ grown grown', (Held-Extends k _ _ node grown' here, below))

  pub ingest_node-Held :
      (node : NarNode) (s : CastoreBackend) → IsValid k s → Held k (ingest_node k node s).1 node
  ingest_node-Held node s valid = let (_, _, held) = ingest-Held node s valid in held

  -- What a node says, as data, for the injectivity of its constructors.
  abbrev digest_of : CaNode → Option Bytes
  digest_of no_variant = none
  digest_of (file_node d size executable) = d
  digest_of (directory_node d size) = d
  digest_of (symlink_node target) = some target

  abbrev is_executable : CaNode → Option Bool
  is_executable (file_node d size executable) = some executable
  is_executable _ = none

  abbrev kind : CaNode → ℕ
  kind no_variant = 0
  kind (file_node d size executable) = 1
  kind (directory_node d size) = 2
  kind (symlink_node target) = 3

  some_injective {ℓ} : {A : Type ℓ} (a b : A) → some a ≡ some b → a ≡ b
  some_injective a b h = cc

  same_message :
      (es es' : List CaDirectoryEntry) → k.blake3 (k.encode es) ≡ k.blake3 (k.encode es') → es ≡ es'
  same_message es es' h =
      let codes = laws.collision_free _ _ h in
      some_injective _ _ (sym (laws.decoded es) ∙ (ap k.decode codes ∙ laws.decoded es'))

  mutual
    unfolding node_of

    node_of-injective : (a b : NarNode) → node_of k a ≡ node_of k b → a ≡ b
    node_of-injective (regular x bytes) (regular y bytes') h =
        let eq = laws.collision_free bytes bytes' (some_injective _ _ (ap digest_of h)) in
        let same = some_injective x y (ap is_executable h) in ap₂ regular same eq
    node_of-injective (directory es) (directory es') h =
        ap directory
          (entries_of-injective es es' (same_message _ _ (some_injective _ _ (ap digest_of h))))
    node_of-injective (symlink a) (symlink b) h = ap symlink (some_injective _ _ (ap digest_of h))
    node_of-injective (regular x bytes) (directory es) h = absurd (omega (arith, ap kind h))
    node_of-injective (regular x bytes) (symlink b) h = absurd (omega (arith, ap kind h))
    node_of-injective (directory es) (regular x bytes) h = absurd (omega (arith, ap kind h))
    node_of-injective (directory es) (symlink b) h = absurd (omega (arith, ap kind h))
    node_of-injective (symlink a) (regular x bytes) h = absurd (omega (arith, ap kind h))
    node_of-injective (symlink a) (directory es) h = absurd (omega (arith, ap kind h))

    entries_of-injective : (es es' : Entries) → entries_of k es ≡ entries_of k es' → es ≡ es'
    entries_of-injective end end h = refl
    entries_of-injective end (entry name node es) h = cc
    entries_of-injective (entry name node es) end h = cc
    entries_of-injective (entry name node es) (entry name' node' es') h =
        let names : name ≡ name' = cc in
        let nodes : node_of k node ≡ node_of k node' = cc in
        let rest : entries_of k es ≡ entries_of k es' = cc in
        let eq = node_of-injective node node' nodes in
        let tail = entries_of-injective es es' rest in cc

  -- The digest of a directory determines its entries.
  pub directory_injective :
      (es es' : Entries)
      → k.blake3 (k.encode (entries_of k es)) ≡ k.blake3 (k.encode (entries_of k es'))
      → es ≡ es'
  directory_injective es es' h = entries_of-injective es es' (same_message _ _ h)
