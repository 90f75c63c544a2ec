-- ===== src/Castore/Walk/Files.antt =====
-- `walk_cas_node` of crates/ekapkgs-serve/src/storage/castore.rs on a file.
use ekapkgs_cli.Prelude.{
  ℕ, ◌+◌, ◌≡◌, ◌⊎◌, refl, sym, ap, subst, ◌∙◌, inl, inr, true, false, some, List, [], ◌∷◌, ◌++◌,
  Bytes, bytes_eq, bytes_eq→eq, contains, contains-cons, length, All, All-append, Any, Bool-cases,
  arith,
}
use ekapkgs_cli.Castore.{CastoreBackend, chunks_of, order_by_index}
use ekapkgs_cli.Nar.Streaming.{CaDirectoryEntry}
use ekapkgs_cli.Castore.Ingest.{Codecs, CodecLaws, rows_from}
use ekapkgs_cli.Castore.Ingest.Rows.{order_by_index-rows_from}
use ekapkgs_cli.Castore.Ingest.Valid.{HasFile}
use ekapkgs_cli.Castore.Ingest.Decompose.{chunk_metas}
use ekapkgs_cli.ClientStore.Pull.{ChunkMeta}
use ekapkgs_cli.Castore.Walk.{
  ChunkHaveCheck, has_chunk, TreeWalk, row_chunks, collect_missing, add_mapping, walk_file,
}

pub Any-left {ℓ} : {A : Type ℓ} (P : A → Type 0) (xs ys : List A) → Any P xs → Any P (xs ++ ys)
Any-left P [] ys member = elim member [ ]
Any-left P (x ∷ xs) ys (inl here) = inl here
Any-left P (x ∷ xs) ys (inr later) = inr (Any-left P xs ys later)

pub Any-last {ℓ} :
    {A : Type ℓ} (P : A → Type 0) (xs : List A) (x : A) → P x → Any P (xs ++ (x ∷ []))
Any-last P [] x h = inl h
Any-last P (y ∷ xs) x h = inr (Any-last P xs x h)

-- A chunk with the digest is among the missing.
abbrev pub IsMissing : TreeWalk → Bytes → Type 0
IsMissing w d = Any (λ (m : ChunkMeta). m.digest ≡ some d) w.missing_chunks

abbrev pub SeenMissing : TreeWalk → Type 0
SeenMissing w = (d : Bytes) → contains d w.chunk_seen ≡ true → IsMissing w d

-- The parts of a walk that the loop over the chunks leaves as they are.
abbrev SameTrees : TreeWalk → TreeWalk → Type 0
SameTrees w v =
    (v.file_mappings ≡ w.file_mappings)
    × (v.directories ≡ w.directories)
    × (v.dir_seen ≡ w.dir_seen)
    × (v.file_seen ≡ w.file_seen)

module _ (k : Codecs) (laws : CodecLaws k) (have : ChunkHaveCheck) where
  abbrev pub IsCollected : TreeWalk → Bytes → Type 0
  IsCollected w c = (has_chunk have (k.blake3 c) ≡ true) ⊎ IsMissing w (k.blake3 c)

  push_missing : Bytes → TreeWalk → TreeWalk
  push_missing c w = record w {
    chunk_seen = k.blake3 c ∷ w.chunk_seen;
    missing_chunks =
        w.missing_chunks ++ ((record { digest = some (k.blake3 c); size = length c }) ∷ []);
  }

  push_missing-SeenMissing :
      (c : Bytes) (w : TreeWalk) → SeenMissing w → SeenMissing (push_missing c w)
  unfolding push_missing
  push_missing-SeenMissing c w seen d found = elim (Bool-cases (bytes_eq d (k.blake3 c))) [
    | inl same ↦
        subst
          (λ e.
            Any (λ (m : ChunkMeta). m.digest ≡ some e)
              (w.missing_chunks ++ ((record { digest = some (k.blake3 c); size = length c }) ∷ [])))
          (sym (bytes_eq→eq d (k.blake3 c) same))
          (Any-last (λ (m : ChunkMeta). m.digest ≡ some (k.blake3 c)) w.missing_chunks _ refl)
    | inr other ↦
        Any-left (λ (m : ChunkMeta). m.digest ≡ some d) w.missing_chunks _
          (seen d (ground (arith, contains-cons d (k.blake3 c) w.chunk_seen)))
  ]

  Collects : List Bytes → TreeWalk → TreeWalk → Type 0
  Collects cs w v =
      SeenMissing v
      × ((d : Bytes) → IsMissing w d → IsMissing v d)
      × SameTrees w v
      × All (IsCollected v) cs

  collect_missing_known :
      (c : Bytes) (cs : List Bytes) (w : TreeWalk)
      → (has_chunk have (k.blake3 c) ≡ true) ⊎ (contains (k.blake3 c) w.chunk_seen ≡ true)
      → collect_missing have (chunk_metas k (c ∷ cs)) w ≡ collect_missing have (chunk_metas k cs) w
  unfolding collect_missing chunk_metas
  collect_missing_known c cs w (inl there) = ground arith
  collect_missing_known c cs w (inr seen) = ground arith

  collect_missing_new :
      (c : Bytes) (cs : List Bytes) (w : TreeWalk)
      → has_chunk have (k.blake3 c) ≡ false
      → contains (k.blake3 c) w.chunk_seen ≡ false
      → collect_missing have (chunk_metas k (c ∷ cs)) w
        ≡ collect_missing have (chunk_metas k cs) (push_missing c w)
  unfolding collect_missing chunk_metas push_missing
  collect_missing_new c cs w absent unseen = ground arith

  collect_missing_none : (w : TreeWalk) → collect_missing have (chunk_metas k []) w ≡ w
  unfolding collect_missing chunk_metas
  collect_missing_none w = refl

  Collects-known :
      (c : Bytes) (cs : List Bytes) (w v : TreeWalk)
      → IsCollected w c
      → Collects cs w v
      → Collects (c ∷ cs) w v
  unfolding Collects
  Collects-known c cs w v known (seen, kept, same, all) = (
    seen,
    kept,
    same,
    (elim known [ inl there ↦ inl there | inr missing ↦ inr (kept (k.blake3 c) missing) ], all),
  )

  Collects-new :
      (c : Bytes) (cs : List Bytes) (w v : TreeWalk)
      → Collects cs (push_missing c w) v
      → Collects (c ∷ cs) w v
  unfolding Collects push_missing
  Collects-new c cs w v (seen, kept, same, all) =
      let sent =
        Any-last (λ (m : ChunkMeta). m.digest ≡ some (k.blake3 c)) w.missing_chunks _ refl in
      (
        seen,
        (λ d member.
            kept d (Any-left (λ (m : ChunkMeta). m.digest ≡ some d) w.missing_chunks _ member)),
        same,
        (inr (kept (k.blake3 c) sent), all),
      )

  collect_missing-Collects :
      (cs : List Bytes) (w : TreeWalk)
      → SeenMissing w
      → Collects cs w (collect_missing have (chunk_metas k cs) w)
  unfolding Collects
  collect_missing-Collects [] w seen =
      subst (Collects [] w) (sym (collect_missing_none w))
        (seen, (λ d h. h), (refl, refl, refl, refl), tt)
  collect_missing-Collects (c ∷ cs) w seen = elim (Bool-cases (has_chunk have (k.blake3 c))) [
    | inl there ↦
        subst (Collects (c ∷ cs) w) (sym (collect_missing_known c cs w (inl there)))
          (Collects-known c cs w _ (inl there) (collect_missing-Collects cs w seen))
    | inr absent ↦ elim (Bool-cases (contains (k.blake3 c) w.chunk_seen)) [
      | inl known ↦ subst (Collects (c ∷ cs) w) (sym (collect_missing_known c cs w (inr known))) (
          Collects-known c cs w _ (inr (seen (k.blake3 c) known))
            (collect_missing-Collects cs w seen))
      | inr unseen ↦ subst (Collects (c ∷ cs) w) (sym (collect_missing_new c cs w absent unseen)) (
          Collects-new c cs w _
            (collect_missing-Collects cs (push_missing c w) (push_missing-SeenMissing c w seen)))
    ]
  ]

  row_chunks-rows_from :
      (f : Bytes) (i : ℕ) (cs : List Bytes) → row_chunks (rows_from k f i cs) ≡ chunk_metas k cs
  unfolding row_chunks rows_from chunk_metas
  row_chunks-rows_from f i [] = refl
  row_chunks-rows_from f i (c ∷ cs) =
      ground (arith, laws.digest_length c, row_chunks-rows_from f (i + 1) cs)

  abbrev pub pair_of : Bytes → Bytes × List (Bytes × ℕ)
  pair_of bytes = (k.blake3 bytes, chunk_metas k (k.cdc bytes))

  -- A file is mapped, and its chunks are at hand or missing.
  abbrev pub FileDone : TreeWalk → Bytes → Type 0
  FileDone w bytes =
      ((k.cdc bytes ≡ []) ⊎ Any (λ p. p ≡ pair_of bytes) w.file_mappings)
      × All (IsCollected w) (k.cdc bytes)

  module _ (s : CastoreBackend) (bytes : Bytes) (held : HasFile k s bytes) (w : TreeWalk) where
    row_chunks-HasFile :
        row_chunks (order_by_index (chunks_of (k.blake3 bytes) s.file_chunks))
        ≡ chunk_metas k (k.cdc bytes)
    row_chunks-HasFile =
        ap (λ rs. row_chunks (order_by_index rs)) held
        ∙ (ap row_chunks (order_by_index-rows_from k (k.blake3 bytes) 0 (k.cdc bytes))
            ∙ row_chunks-rows_from (k.blake3 bytes) 0 (k.cdc bytes))

    pub walk_file_seen :
        contains (k.blake3 bytes) w.file_seen ≡ true → walk_file have s (k.blake3 bytes) w ≡ w
    unfolding walk_file
    walk_file_seen seen = ground arith

    pub walk_file_new :
        contains (k.blake3 bytes) w.file_seen ≡ false
        → walk_file have s (k.blake3 bytes) w
          ≡ add_mapping (k.blake3 bytes) (chunk_metas k (k.cdc bytes)) (
              collect_missing have
                (chunk_metas k (k.cdc bytes))
                (record w { file_seen = k.blake3 bytes ∷ w.file_seen }))
    unfolding walk_file
    walk_file_new new =
        rw (new, walk_file)
          (ap
            (λ cs.
              add_mapping (k.blake3 bytes) cs
                (collect_missing have cs (record w { file_seen = k.blake3 bytes ∷ w.file_seen })))
            row_chunks-HasFile)

  -- What a walk keeps true of its results.
  pub record Well (w : TreeWalk) : Type 0 where
    pub files : (bytes : Bytes) → contains (k.blake3 bytes) w.file_seen ≡ true → FileDone w bytes
    pub chunks : SeenMissing w
    pub mappings : All (λ p. (bytes : Bytes) × (p ≡ pair_of bytes)) w.file_mappings
    pub directories :
        All (λ p. (es : List CaDirectoryEntry) × (p ≡ (k.blake3 (k.encode es), es))) w.directories

  -- What is in the results stays there.
  pub record Keeps (w v : TreeWalk) : Type 0 where
    pub missing : (d : Bytes) → IsMissing w d → IsMissing v d
    pub mappings :
        (q : Bytes × List (Bytes × ℕ))
        → Any (λ p. p ≡ q) w.file_mappings
        → Any (λ p. p ≡ q) v.file_mappings
    pub directories :
        (q : Bytes × List CaDirectoryEntry)
        → Any (λ p. p ≡ q) w.directories
        → Any (λ p. p ≡ q) v.directories

  pub Keeps-refl : (w : TreeWalk) → Keeps w w
  Keeps-refl w = record { missing = λ d h. h; mappings = λ q h. h; directories = λ q h. h }

  pub Keeps-trans : (w v u : TreeWalk) → Keeps w v → Keeps v u → Keeps w u
  Keeps-trans w v u f g = record {
    missing = λ d h. g.missing d (f.missing d h);
    mappings = λ q h. g.mappings q (f.mappings q h);
    directories = λ q h. g.directories q (f.directories q h);
  }

  All-IsCollected :
      (w v : TreeWalk) (cs : List Bytes)
      → Keeps w v
      → All (IsCollected w) cs
      → All (IsCollected v) cs
  All-IsCollected w v [] kept h = tt
  All-IsCollected w v (c ∷ cs) kept h = (
    elim h.0 [ inl there ↦ inl there | inr missing ↦ inr (kept.missing (k.blake3 c) missing) ],
    All-IsCollected w v cs kept h.1,
  )

  pub FileDone-Keeps :
      (w v : TreeWalk) (bytes : Bytes) → Keeps w v → FileDone w bytes → FileDone v bytes
  FileDone-Keeps w v bytes kept (mapped, collected) = (
    elim mapped [ inl empty ↦ inl empty | inr member ↦ inr (kept.mappings (pair_of bytes) member) ],
    All-IsCollected w v (k.cdc bytes) kept collected,
  )

  -- After a new file: its walk leaves the results well, with the file done.
  module _ (bytes : Bytes) (w v : TreeWalk) (well : Well w) (kept : Keeps w v)
      (seen : SeenMissing v) (file_seen : v.file_seen ≡ k.blake3 bytes ∷ w.file_seen)
      (mappings : All (λ p. (b : Bytes) × (p ≡ pair_of b)) v.file_mappings)
      (directories : v.directories ≡ w.directories) (finished : FileDone v bytes) where
    Well-new : Well v
    Well-new = record {
      files = λ b found. elim (Bool-cases (bytes_eq (k.blake3 b) (k.blake3 bytes))) [
        | inl same ↦
            subst (FileDone v) (sym (laws.collision_free b bytes (bytes_eq→eq _ _ same))) finished
        | inr other ↦
            let old : contains (k.blake3 b) w.file_seen ≡ true =
              ground (
                arith,
                contains-cons (k.blake3 b) (k.blake3 bytes) w.file_seen,
                file_seen,
                found,
              ) in
            FileDone-Keeps w v b kept (well.files b old)
      ];
      chunks = seen;
      mappings = mappings;
      directories =
          subst (All (λ p. (es : List CaDirectoryEntry) × (p ≡ (k.blake3 (k.encode es), es))))
            (sym directories) well.directories;
    }

  add_mapping_none : (f : Bytes) (u : TreeWalk) → add_mapping f (chunk_metas k []) u ≡ u
  unfolding add_mapping chunk_metas
  add_mapping_none f u = refl

  add_mapping_some :
      (f c : Bytes) (cs : List Bytes) (u : TreeWalk)
      → add_mapping f (chunk_metas k (c ∷ cs)) u
        ≡ record u { file_mappings = u.file_mappings ++ ((f, chunk_metas k (c ∷ cs)) ∷ []) }
  unfolding add_mapping chunk_metas
  add_mapping_some f c cs u = refl

  -- The walk after a file.
  abbrev pub FileWalked : Bytes → TreeWalk → TreeWalk → Type 0
  FileWalked bytes w v = Well v × Keeps w v × FileDone v bytes × (v.dir_seen ≡ w.dir_seen)

  FileWalked-mapped :
      (bytes : Bytes) (w u : TreeWalk)
      → Well w
      → Collects (k.cdc bytes) (record w { file_seen = k.blake3 bytes ∷ w.file_seen }) u
      → FileWalked bytes w (add_mapping (k.blake3 bytes) (chunk_metas k (k.cdc bytes)) u)
  unfolding Collects
  FileWalked-mapped bytes w u well (seen, kept, (mappings, directories, dir_seen, file_seen), all) =
      by_chunks (k.cdc bytes) refl
    where
      still : All (λ p. (b : Bytes) × (p ≡ pair_of b)) u.file_mappings
      still = subst (All (λ p. (b : Bytes) × (p ≡ pair_of b))) (sym mappings) well.mappings

      kept_u : Keeps w u
      kept_u = record {
        missing = kept;
        mappings = λ q h. subst (Any (λ p. p ≡ q)) (sym mappings) h;
        directories = λ q h. subst (Any (λ p. p ≡ q)) (sym directories) h;
      }

      v : TreeWalk
      v = record u { file_mappings = u.file_mappings ++ (pair_of bytes ∷ []) }

      kept_v : Keeps w v
      kept_v = Keeps-trans w u v kept_u (record {
        missing = λ d h. h;
        mappings = λ q h. Any-left (λ p. p ≡ q) u.file_mappings (pair_of bytes ∷ []) h;
        directories = λ q h. h;
      })

      with_mapping : FileWalked bytes w v
      with_mapping =
          let finished : FileDone v bytes =
            (inr (Any-last (λ p. p ≡ pair_of bytes) u.file_mappings (pair_of bytes) refl), all) in
          (
            Well-new bytes w v well kept_v seen file_seen
                (All-append (λ p. (b : Bytes) × (p ≡ pair_of b)) u.file_mappings
                  (pair_of bytes ∷ []) still ((bytes, refl), tt))
                directories finished,
            kept_v,
            finished,
            dir_seen,
          )

      without_mapping : k.cdc bytes ≡ [] → FileWalked bytes w u
      without_mapping empty =
          let finished : FileDone u bytes = (inl empty, all) in
          (
            Well-new bytes w u well kept_u seen file_seen still directories finished,
            kept_u,
            finished,
            dir_seen,
          )

      by_chunks :
          (cs : List Bytes)
          → k.cdc bytes ≡ cs
          → FileWalked bytes w (add_mapping (k.blake3 bytes) (chunk_metas k (k.cdc bytes)) u)
      by_chunks [] eq =
          subst (FileWalked bytes w)
            (sym (
              ap (λ cs. add_mapping (k.blake3 bytes) (chunk_metas k cs) u) eq
              ∙ add_mapping_none (k.blake3 bytes) u))
            (without_mapping eq)
      by_chunks (c ∷ cs) eq =
          subst (FileWalked bytes w)
            (sym (
              ap (λ ds. add_mapping (k.blake3 bytes) (chunk_metas k ds) u) eq
              ∙ (add_mapping_some (k.blake3 bytes) c cs u
                  ∙ ap
                      (λ ds. record u {
                        file_mappings =
                            u.file_mappings ++ ((k.blake3 bytes, chunk_metas k ds) ∷ []);
                      })
                      (sym eq))))
            with_mapping

  pub walk_file-FileWalked :
      (s : CastoreBackend) (bytes : Bytes) (w : TreeWalk)
      → HasFile k s bytes
      → Well w
      → FileWalked bytes w (walk_file have s (k.blake3 bytes) w)
  walk_file-FileWalked s bytes w held well =
      elim (Bool-cases (contains (k.blake3 bytes) w.file_seen)) [
        | inl seen ↦
            subst (FileWalked bytes w) (sym (walk_file_seen s bytes held w seen))
              (well, Keeps-refl w, well.files bytes seen, refl)
        | inr new ↦ subst (FileWalked bytes w) (sym (walk_file_new s bytes held w new)) (
            FileWalked-mapped bytes w _ well (
              collect_missing-Collects (k.cdc bytes)
                (record w { file_seen = k.blake3 bytes ∷ w.file_seen }) well.chunks))
      ]
