-- ===== src/Castore/Walk/Trees.antt =====
-- `walk_cas_node` of crates/ekapkgs-serve/src/storage/castore.rs over a whole tree: a directory is walked once,
-- before any that contains it.
use ekapkgs_cli.Prelude.{
  ℕ, zero, suc, ◌≤◌, ◌≡◌, ◌⊎◌, refl, sym, ap, subst, inl, inr, Bool, true, false, some, List, Bytes,
  bytes_eq, bytes_eq→eq, contains, contains-cons, All-append, Any, Bool-cases, arith,
}
use ekapkgs_cli.Nar.{NarNode, Entries, regular, directory, symlink, end, entry}
use ekapkgs_cli.Nar.Streaming.{file_node, directory_node, symlink_node, CaDirectoryEntry}
use ekapkgs_cli.Castore.{CastoreBackend}
use ekapkgs_cli.Castore.Ingest.{Codecs, CodecLaws, load_directory, depth, depth_entries}
use ekapkgs_cli.Castore.Ingest.Trees.{load-added}
use ekapkgs_cli.Castore.Ingest.Provided.{node_of, entries_of}
use ekapkgs_cli.Castore.Walk.{
  ChunkHaveCheck, TreeWalk, walk_file, walk_entries, add_directory, see_directory, walk_cas_node,
}
use ekapkgs_cli.Castore.Walk.Held.{Held, HeldEntries, directory_injective}
use ekapkgs_cli.Castore.Walk.Files.{
  Any-left, Any-last, FileDone, Well, Keeps, Keeps-refl, Keeps-trans, FileDone-Keeps,
  walk_file-FileWalked,
}

module _ (k : Codecs) (laws : CodecLaws k) (have : ChunkHaveCheck) where
  abbrev pub digest_of : Entries → Bytes
  digest_of entries = k.blake3 (k.encode (entries_of k entries))

  module _ (w : TreeWalk) where
    -- All of a tree is in the results, or at hand.
    unfoldable mutual
      pub Done : NarNode → Type 0
      Done (regular executable bytes) = FileDone k laws have w bytes
      Done (directory entries) =
          Any (λ p. p ≡ (digest_of entries, entries_of k entries)) w.directories
          × DoneEntries entries
      Done (symlink target) = Unit

      pub DoneEntries : Entries → Type 0
      DoneEntries end = Unit
      DoneEntries (entry name node es) = Done node × DoneEntries es

  mutual
    unfolding Done

    pub Done-Keeps :
        (w v : TreeWalk) (node : NarNode) → Keeps k laws have w v → Done w node → Done v node
    Done-Keeps w v (regular executable bytes) kept h = FileDone-Keeps k laws have w v bytes kept h
    Done-Keeps w v (directory entries) kept (member, below) =
        (kept.directories _ member, DoneEntries-Keeps w v entries kept below)
    Done-Keeps w v (symlink target) kept h = tt

    DoneEntries-Keeps :
        (w v : TreeWalk) (entries : Entries)
        → Keeps k laws have w v
        → DoneEntries w entries
        → DoneEntries v entries
    DoneEntries-Keeps w v end kept h = tt
    DoneEntries-Keeps w v (entry name node es) kept (here, rest) =
        (Done-Keeps w v node kept here, DoneEntries-Keeps w v es kept rest)

  abbrev Seen : TreeWalk → Entries → Type 0
  Seen w entries = contains (digest_of entries) w.dir_seen ≡ true

  -- The directories of fewer levels that have been seen are done.
  abbrev Below : ℕ → TreeWalk → Type 0
  Below b w =
      (entries : Entries)
      → suc (depth_entries entries) ≤ b
      → Seen w entries
      → Done w (directory entries)

  -- A walk goes on to another: the directories seen on the way are done.
  abbrev Step : TreeWalk → TreeWalk → Type 0
  Step w v =
      Well k laws have v
      × Keeps k laws have w v
      × ((entries : Entries) → Seen v entries → Seen w entries ⊎ Done v (directory entries))

  Step-trans : (w v u : TreeWalk) → Step w v → Step v u → Step w u
  Step-trans w v u (_, kept, old) (well, kept', old') = (
    well,
    Keeps-trans k laws have w v u kept kept',
    λ entries seen. elim (old' entries seen) [
      | inr done ↦ inr done
      | inl before ↦ elim (old entries before) [
        | inl first ↦ inl first
        | inr done ↦ inr (Done-Keeps v u (directory entries) kept' done)
      ]
    ],
  )

  Below-Step : (b : ℕ) (w v : TreeWalk) → Step w v → Below b w → Below b v
  Below-Step b w v (_, kept, old) below entries small seen = elim (old entries seen) [
    | inl before ↦ Done-Keeps w v (directory entries) kept (below entries small before)
    | inr done ↦ done
  ]

  Seen-cases :
      (w : TreeWalk) (es entries : Entries)
      → Seen (see_directory (digest_of es) w) entries
      → (entries ≡ es) ⊎ Seen w entries
  unfolding see_directory
  Seen-cases w es entries seen = elim (Bool-cases (bytes_eq (digest_of entries) (digest_of es))) [
    | inl same ↦ inl (directory_injective k laws entries es (bytes_eq→eq _ _ same))
    | inr other ↦ inr (ground (arith, contains-cons (digest_of entries) (digest_of es) w.dir_seen))
  ]

  Well-see : (d : Bytes) (w : TreeWalk) → Well k laws have w → Well k laws have (see_directory d w)
  unfolding see_directory
  Well-see d w well = record {
    files = well.files;
    chunks = well.chunks;
    mappings = well.mappings;
    directories = well.directories;
  }

  Keeps-see : (d : Bytes) (w : TreeWalk) → Keeps k laws have w (see_directory d w)
  unfolding see_directory
  Keeps-see d w = record { missing = λ d h. h; mappings = λ q h. h; directories = λ q h. h }

  -- A directory that is new hides none of fewer levels.
  Below-see :
      (es : Entries) (w : TreeWalk)
      → Below (suc (depth_entries es)) w
      → Below (depth_entries es) (see_directory (digest_of es) w)
  Below-see es w below entries small seen = elim (Seen-cases w es entries seen) [
    | inl same ↦ let levels = ap depth_entries same in absurd (omega arith)
    | inr before ↦
        Done-Keeps w _ (directory entries) (Keeps-see (digest_of es) w)
          (below entries (omega arith) before)
  ]

  Keeps-add :
      (es : Entries) (v : TreeWalk)
      → Keeps k laws have v (add_directory (digest_of es) (entries_of k es) v)
  unfolding add_directory
  Keeps-add es v = record {
    missing = λ d h. h;
    mappings = λ q h. h;
    directories = λ q h. Any-left (λ p. p ≡ q) v.directories _ h;
  }

  Well-add :
      (es : Entries) (v : TreeWalk)
      → Well k laws have v
      → Well k laws have (add_directory (digest_of es) (entries_of k es) v)
  unfolding add_directory
  Well-add es v well = record {
    files = well.files;
    chunks = well.chunks;
    mappings = well.mappings;
    directories =
        All-append (λ p. (fs : List CaDirectoryEntry) × (p ≡ (k.blake3 (k.encode fs), fs)))
          v.directories _ well.directories ((entries_of k es, refl), tt);
  }

  -- The end of a directory's walk.
  directory-Done :
      (es : Entries) (w v : TreeWalk)
      → Step (see_directory (digest_of es) w) v
      → DoneEntries v es
      → Step w (add_directory (digest_of es) (entries_of k es) v)
        × Done (add_directory (digest_of es) (entries_of k es) v) (directory es)
  unfolding add_directory Done
  directory-Done es w v (well, kept, old) children =
      let u = add_directory (digest_of es) (entries_of k es) v in
      let last = Keeps-add es v in
      let finished : Done u (directory es) = (
        Any-last (λ p. p ≡ (digest_of es, entries_of k es)) v.directories _ refl,
        DoneEntries-Keeps v u es last children,
      ) in
      (
        (
          Well-add es v well,
          Keeps-trans k laws have w v u
              (Keeps-trans k laws have w _ v (Keeps-see (digest_of es) w) kept) last,
          λ entries seen. elim (old entries seen) [
            | inr done ↦ inr (Done-Keeps v u (directory entries) last done)
            | inl before ↦ elim (Seen-cases w es entries before) [
              | inl same ↦ inr (subst (λ x. Done u (directory x)) (sym same) finished)
              | inr first ↦ inl first
            ]
          ],
        ),
        finished,
      )

  module _ (s : CastoreBackend) where
    walk_file_of :
        (fuel : ℕ) (bytes : Bytes) (size : ℕ) (executable : Bool) (w : TreeWalk)
        → walk_cas_node k have s (suc fuel) (file_node (some (k.blake3 bytes)) size executable) w
          ≡ walk_file have s (k.blake3 bytes) w
    unfolding walk_cas_node
    walk_file_of fuel bytes size executable w = ground (arith, laws.digest_length bytes)

    walk_directory-Seen :
        (fuel : ℕ) (es : Entries) (size : ℕ) (w : TreeWalk)
        → Seen w es
        → walk_cas_node k have s (suc fuel) (directory_node (some (digest_of es)) size) w ≡ w
    unfolding walk_cas_node
    walk_directory-Seen fuel es size w seen =
        ground (arith, laws.digest_length (k.encode (entries_of k es)))

    walk_directory_new :
        (fuel : ℕ) (es : Entries) (size : ℕ) (w : TreeWalk)
        → contains (digest_of es) w.dir_seen ≡ false
        → load_directory k s (digest_of es) ≡ some (entries_of k es)
        → walk_cas_node k have s (suc fuel) (directory_node (some (digest_of es)) size) w
          ≡ add_directory (digest_of es) (entries_of k es) (
              walk_entries
                (walk_cas_node k have s fuel)
                (entries_of k es)
                (see_directory (digest_of es) w))
    unfolding walk_cas_node
    walk_directory_new fuel es size w new loads =
        ground (arith, laws.digest_length (k.encode (entries_of k es)))

    abbrev Walked : TreeWalk → NarNode → TreeWalk → Type 0
    Walked w node v = Step w v × Done v node

    Walked-symlink :
        (fuel : ℕ) (target : Bytes) (w : TreeWalk)
        → Well k laws have w
        → Walked w (symlink target) (walk_cas_node k have s (suc fuel) (symlink_node target) w)
    unfolding walk_cas_node Done
    Walked-symlink fuel target w well =
        ((well, Keeps-refl k laws have w, λ entries before. inl before), tt)

    mutual
      unfolding Held Done depth node_of walk_entries

      pub walked :
          (node : NarNode) (fuel : ℕ) (w : TreeWalk)
          → Held k s node
          → depth node ≤ fuel
          → Well k laws have w
          → Below (depth node) w
          → Walked w node (walk_cas_node k have s fuel (node_of k node) w)
      walked (regular executable bytes) zero w held enough well below = absurd (omega arith)
      walked (directory entries) zero w held enough well below = absurd (omega arith)
      walked (symlink target) zero w held enough well below = absurd (omega arith)
      walked (regular executable bytes) (suc fuel) w held enough well below =
          let (well', kept, finished, dir_seen) =
            walk_file-FileWalked k laws have s bytes w held well in
          subst (Walked w (regular executable bytes)) (sym (walk_file_of fuel bytes _ executable w))
            (
              (
                well',
                kept,
                λ entries seen.
                    inl (subst (λ ds. contains (digest_of entries) ds ≡ true) dir_seen seen),
              ),
              finished,
            )
      walked (directory es) (suc fuel) w (found, held) enough well below =
          elim (Bool-cases (contains (digest_of es) w.dir_seen)) [
            | inl seen ↦
                subst (Walked w (directory es)) (sym (walk_directory-Seen fuel es _ w seen)) (
                  (well, Keeps-refl k laws have w, λ entries before. inl before),
                  below es (omega arith) seen,
                )
            | inr new ↦
                let (step, children) =
                  walked_entries es fuel (see_directory (digest_of es) w) held (omega arith)
                    (Well-see (digest_of es) w well) (Below-see es w below) in
                subst (Walked w (directory es))
                  (sym (
                    walk_directory_new fuel es _ w new
                      (load-added k laws (entries_of k es) s found)))
                  (directory-Done es w _ step children)
          ]
      walked (symlink target) (suc fuel) w held enough well below =
          Walked-symlink fuel target w well

      walked_entries :
          (es : Entries) (fuel : ℕ) (w : TreeWalk)
          → HeldEntries k s es
          → depth_entries es ≤ fuel
          → Well k laws have w
          → Below (depth_entries es) w
          → Step w (walk_entries (walk_cas_node k have s fuel) (entries_of k es) w)
            × DoneEntries (walk_entries (walk_cas_node k have s fuel) (entries_of k es) w) es
      walked_entries end fuel w held enough well below =
          ((well, Keeps-refl k laws have w, λ entries before. inl before), tt)
      walked_entries (entry name node es) fuel w (here, rest) enough well below =
          let v = walk_cas_node k have s fuel (node_of k node) w in
          let (step, finished) =
            walked node fuel w here (omega arith) well
              (λ entries small seen. below entries (omega arith) seen) in
          let (step', others) = walked_entries es fuel v rest (omega arith) step.0 (
            Below-Step (depth_entries es) w v step
              (λ entries small seen. below entries (omega arith) seen)) in
          (Step-trans w v _ step step', (Done-Keeps v _ node step'.1 finished, others))
