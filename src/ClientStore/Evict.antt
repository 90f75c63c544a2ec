-- ===== src/ClientStore/Evict.antt =====
-- `evict_to_size` of crates/ekapkgs/src/chunk_store.rs: which paths go, and what is freed.
use ekapkgs_cli.Prelude.{
  ℕ, ◌-◌, ◌<◌, ◌≡◌, ◌⊎◌, refl, sym, ap, subst, ◌∙◌, inl, inr, Bool, true, false, not, Option, none,
  some, List, [], ◌∷◌, ◌++◌, map, Bytes, bytes_eq, bytes_eq_refl, contains, contains_head,
  contains_tail, any, retain, leb, All, All-append, Bool-cases, Option-cases, arith,
}
use mathlib.Core.List.{Perm, Permᴰ}
use mathlib.Core.Logic.{∥∥₁_elim}
use mathlib.Core.Bool.{Bool-set}
use ekapkgs_cli.Nar.Streaming.{CaNode}
use ekapkgs_cli.Castore.{FileChunk, is_digest, chunks_of}
use ekapkgs_cli.Castore.Ingest.{Codecs}
use ekapkgs_cli.ClientStore.{
  CasRoot, ChunkStore, find_root, total_chunk_bytes, release_files, Reclaimed, delete_orphans,
  file_digests_of, evict_root, evict_roots, evict_to_size,
}

abbrev pub is_other : Bytes → CasRoot → Bool
is_other h p = not (bytes_eq p.hash h)

abbrev uses : List FileChunk → Bytes → Bool
uses rows d = any (λ (q : FileChunk). bytes_eq q.chunk_digest d) rows

abbrev Used : List FileChunk → List Bytes → Type 0
Used rows = All (λ d. uses rows d ≡ true)

uses-cons :
    (q : FileChunk) (rows : List FileChunk) (d : Bytes)
    → uses rows d ≡ true
    → uses (q ∷ rows) d ≡ true
unfolding any
uses-cons q rows d h = ground arith

uses_head : (q : FileChunk) (rows : List FileChunk) → uses (q ∷ rows) q.chunk_digest ≡ true
unfolding any
uses_head q rows = ground (arith, bytes_eq_refl q.chunk_digest)

Used-cons :
    (q : FileChunk) (rows : List FileChunk) (ds : List Bytes) → Used rows ds → Used (q ∷ rows) ds
Used-cons q rows [] h = tt
Used-cons q rows (d ∷ ds) h = (uses-cons q rows d h.0, Used-cons q rows ds h.1)

abbrev digests : Bytes → List FileChunk → List Bytes
digests f rows = retain is_digest (map FileChunk.chunk_digest (chunks_of f rows))

digests_none : (f : Bytes) → digests f [] ≡ []
unfolding retain chunks_of
digests_none f = refl

-- A further row adds its digest or none.
digests-cons :
    (f : Bytes) (q : FileChunk) (rows : List FileChunk)
    → (digests f (q ∷ rows) ≡ q.chunk_digest ∷ digests f rows)
      ⊎ (digests f (q ∷ rows) ≡ digests f rows)
unfolding retain chunks_of
digests-cons f q rows = elim (Bool-cases (bytes_eq q.file_digest f)) [
  | inl own ↦ elim (Bool-cases (is_digest q.chunk_digest)) [
    | inl right ↦ inl (ground arith)
    | inr wrong ↦ inr (ground arith)
  ]
  | inr other ↦ inr (ground arith)
]

digests-Used : (f : Bytes) (rows : List FileChunk) → Used rows (digests f rows)
digests-Used f [] = subst (Used []) (sym (digests_none f)) tt
digests-Used f (q ∷ rows) =
    let rest = Used-cons q rows (digests f rows) (digests-Used f rows) in
    elim (digests-cons f q rows) [
      | inl more ↦ subst (Used (q ∷ rows)) (sym more) (uses_head q rows, rest)
      | inr same ↦ subst (Used (q ∷ rows)) (sym same) rest
    ]

-- While other paths exist, the rows stay, and they use every collected chunk.
release_files-others :
    (fs : List Bytes) (rows : List FileChunk) (ds : List Bytes)
    → Used rows ds
    → ((release_files true fs rows ds).0 ≡ rows) × Used rows (release_files true fs rows ds).1
unfolding release_files
release_files-others [] rows ds h = (refl, h)
release_files-others (f ∷ fs) rows ds h =
    release_files-others fs rows (ds ++ digests f rows)
      (All-append (λ d. uses rows d ≡ true) ds (digests f rows) h (digests-Used f rows))

delete_orphans-Used :
    (ds : List Bytes) (rows : List FileChunk) (r : Reclaimed)
    → Used rows ds
    → delete_orphans ds rows r ≡ r
unfolding delete_orphans
delete_orphans-Used [] rows r h = refl
delete_orphans-Used (d ∷ ds) rows r h = rw h.0 (delete_orphans-Used ds rows r h.1)

-- A path that is not recorded.
find_root-none :
    (h : Bytes) (ps : List CasRoot) → find_root h ps ≡ none → retain (is_other h) ps ≡ ps
unfolding find_root retain
find_root-none h [] missing = refl
find_root-none h (p ∷ ps) missing = elim (Bool-cases (bytes_eq p.hash h)) [
  | inl here ↦ absurd (ground arith)
  | inr there ↦ ground (arith, find_root-none h ps (ground arith))
]

any-retain :
    (h : Bytes) (ps : List CasRoot)
    → any (is_other h) (retain (is_other h) ps) ≡ false
    → retain (is_other h) ps ≡ []
unfolding any retain
any-retain h [] alone = refl
any-retain h (p ∷ ps) alone = elim (Bool-cases (bytes_eq p.hash h)) [
  | inl here ↦ ground (arith, any-retain h ps (ground arith))
  | inr there ↦ absurd (ground arith)
]

nothing_listed : (ps : List CasRoot) → All (λ (p : CasRoot). contains p.hash [] ≡ true) ps → ps ≡ []
unfolding contains
nothing_listed [] h = refl
nothing_listed (p ∷ ps) h = let first = h.0 in absurd (ground arith)

-- The paths other than the first of a list are in the rest.
narrow :
    (h : Bytes) (hashes : List Bytes) (ps : List CasRoot)
    → All (λ (p : CasRoot). contains p.hash (h ∷ hashes) ≡ true) ps
    → All (λ (p : CasRoot). contains p.hash hashes ≡ true) (retain (is_other h) ps)
unfolding retain contains
narrow h hashes [] all = tt
narrow h hashes (p ∷ ps) all =
    let rest = narrow h hashes ps all.1 in
    let here = all.0 in
    elim (Bool-cases (bytes_eq p.hash h)) [
      | inl same ↦ rw same rest
      | inr other ↦ rw other (ground arith, rest)
    ]

contains_swap : (x a b : Bytes) (l : List Bytes) → contains x (a ∷ b ∷ l) ≡ contains x (b ∷ a ∷ l)
unfolding contains
contains_swap x a b l = ground arith

contains-permd :
    {ps qs : List CasRoot} (x : Bytes)
    → Permᴰ ps qs
    → contains x (map CasRoot.hash ps) ≡ contains x (map CasRoot.hash qs)
unfolding contains
contains-permd x Permᴰ.nil = refl
contains-permd x (Permᴰ.cons {l₁ = xs} {l₂ = ys} e p) =
    let ih : contains x (map CasRoot.hash xs) ≡ contains x (map CasRoot.hash ys) =
      contains-permd x p in
    cc
contains-permd x (Permᴰ.swap {a = a} {b = b} {l = l} e f) =
    rw (← e, ← f) (contains_swap x a.hash b.hash (map CasRoot.hash l))
contains-permd x (Permᴰ.trans p q) = contains-permd x p ∙ contains-permd x q

contains-perm :
    {ps qs : List CasRoot}
    → Perm ps qs
    → (x : Bytes) → contains x (map CasRoot.hash ps) ≡ contains x (map CasRoot.hash qs)
contains-perm p x = ∥∥₁_elim p (Bool-set _ _) (contains-permd x)

-- Every path is listed in any order of the paths.
All-listed :
    (ps : List CasRoot) → All (λ (p : CasRoot). contains p.hash (map CasRoot.hash ps) ≡ true) ps
All-listed [] = tt
All-listed (p ∷ ps) =
    (contains_head p.hash (map CasRoot.hash ps), wider p ps (map CasRoot.hash ps) (All-listed ps))
  where
    wider :
        (q : CasRoot) (rs : List CasRoot) (l : List Bytes)
        → All (λ (p : CasRoot). contains p.hash l ≡ true) rs
        → All (λ (p : CasRoot). contains p.hash (q.hash ∷ l) ≡ true) rs
    wider q [] l h = tt
    wider q (r ∷ rs) l h = (contains_tail r.hash q.hash l h.0, wider q rs l h.1)

listed :
    (ps qs : List CasRoot)
    → Perm qs ps
    → All (λ (p : CasRoot). contains p.hash (map CasRoot.hash qs) ≡ true) ps
listed ps qs p = moved ps (All-listed ps)
  where
    moved :
        (rs : List CasRoot)
        → All (λ (r : CasRoot). contains r.hash (map CasRoot.hash ps) ≡ true) rs
        → All (λ (r : CasRoot). contains r.hash (map CasRoot.hash qs) ≡ true) rs
    moved [] h = tt
    moved (r ∷ rs) h = (contains-perm p r.hash ∙ h.0, moved rs h.1)

-- The store and `total_freed` at the end of a round that collected the given rows and digests.
abbrev pub reclaim : Bytes → ChunkStore → ℕ → List FileChunk × List Bytes → ChunkStore × ℕ
reclaim h s freed released =
    let r =
      delete_orphans released.1 released.0
        (record { chunks = s.chunks; files = s.files; total_freed = freed }) in
    (
      record s {
        cas_paths = retain (is_other h) s.cas_paths;
        file_chunks = released.0;
        chunks = r.chunks;
        files = r.files;
      },
      r.total_freed,
    )

reclaim-Used :
    (h : Bytes) (s : ChunkStore) (freed : ℕ) (released : List FileChunk × List Bytes)
    → released.0 ≡ s.file_chunks
    → Used s.file_chunks released.1
    → reclaim h s freed released ≡ (record s { cas_paths = retain (is_other h) s.cas_paths }, freed)
reclaim-Used h s freed (rows, ds) same used =
    ap (λ rs. reclaim h s freed (rs, ds)) same
    ∙ ap
        (λ (r : Reclaimed). (
          record s {
            cas_paths = retain (is_other h) s.cas_paths;
            chunks = r.chunks;
            files = r.files;
          },
          r.total_freed,
        ))
        (delete_orphans-Used ds s.file_chunks
          (record { chunks = s.chunks; files = s.files; total_freed = freed }) used)

module _ (k : Codecs) (decode_node : Bytes → Option CaNode) (fuel : ℕ) where
  pub evict_root_missing :
      (h : Bytes) (s : ChunkStore) (freed : ℕ)
      → find_root h s.cas_paths ≡ none
      → evict_root k decode_node fuel h s freed ≡ (s, freed)
  unfolding evict_root
  evict_root_missing h s freed missing = ground (arith, missing)

  pub evict_root_found :
      (h root : Bytes) (s : ChunkStore) (freed : ℕ)
      → find_root h s.cas_paths ≡ some root
      → evict_root k decode_node fuel h s freed
        ≡ reclaim h s freed (
            release_files
              (any (is_other h) (retain (is_other h) s.cas_paths))
              (file_digests_of k decode_node fuel root s)
              s.file_chunks
              [])
  unfolding evict_root
  evict_root_found h root s freed found = rw (found, evict_root) refl

  evict_root_paths :
      (h : Bytes) (s : ChunkStore) (freed : ℕ)
      → (evict_root k decode_node fuel h s freed).0.cas_paths ≡ retain (is_other h) s.cas_paths
  evict_root_paths h s freed = elim (Option-cases (find_root h s.cas_paths)) [
    | inl missing ↦
        ap (λ (r : ChunkStore × ℕ). ChunkStore.cas_paths r.0) (evict_root_missing h s freed missing)
        ∙ sym (find_root-none h s.cas_paths missing)
    | inr (root, found) ↦
        ap (λ (r : ChunkStore × ℕ). ChunkStore.cas_paths r.0)
          (evict_root_found h root s freed found)
  ]

  -- While another path is recorded, a round of the eviction deletes the record of its path and nothing
  -- else, and frees nothing.
  pub evict_root-others :
      (h : Bytes) (s : ChunkStore) (freed : ℕ)
      → any (is_other h) (retain (is_other h) s.cas_paths) ≡ true
      → evict_root k decode_node fuel h s freed
        ≡ (record s { cas_paths = retain (is_other h) s.cas_paths }, freed)
  evict_root-others h s freed others = elim (Option-cases (find_root h s.cas_paths)) [
    | inl missing ↦
        evict_root_missing h s freed missing
        ∙ ap (λ ps. (record s { cas_paths = ps }, freed))
            (sym (find_root-none h s.cas_paths missing))
    | inr (root, found) ↦
        let (same, used) =
          release_files-others (file_digests_of k decode_node fuel root s) s.file_chunks [] tt in
        evict_root_found h root s freed found
        ∙ ap
            (λ b.
              reclaim h s freed
                (release_files b (file_digests_of k decode_node fuel root s) s.file_chunks []))
            others
        ∙ reclaim-Used h s freed
            (release_files true (file_digests_of k decode_node fuel root s) s.file_chunks []) same
            used
  ]

  evict_roots-none :
      (to_free : ℕ) (hashes : List Bytes) (s : ChunkStore) (freed : ℕ)
      → s.cas_paths ≡ []
      → (evict_roots k decode_node fuel to_free hashes s freed).0.cas_paths ≡ []
  unfolding evict_roots retain
  evict_roots-none to_free [] s freed none_left = none_left
  evict_roots-none to_free (h ∷ hashes) s freed none_left =
      let rest =
        evict_roots-none to_free hashes (evict_root k decode_node fuel h s freed).0
          (evict_root k decode_node fuel h s freed).1
          (evict_root_paths h s freed ∙ ap (retain (is_other h)) none_left) in
      elim (Bool-cases (leb to_free freed)) [
        | inl enough ↦ rw enough none_left
        | inr more ↦ rw more rest
      ]

  -- All paths of the list go, as nothing is freed before the last.
  evict_roots-All :
      (to_free : ℕ) (hashes : List Bytes) (s : ChunkStore) (freed : ℕ)
      → freed < to_free
      → All (λ (p : CasRoot). contains p.hash hashes ≡ true) s.cas_paths
      → (evict_roots k decode_node fuel to_free hashes s freed).0.cas_paths ≡ []
  unfolding evict_roots
  evict_roots-All to_free [] s freed want all = nothing_listed s.cas_paths all
  evict_roots-All to_free (h ∷ hashes) s freed want all =
      let short : leb to_free freed ≡ false = ground arith in
      rw short (elim (Bool-cases (any (is_other h) (retain (is_other h) s.cas_paths))) [
        | inl others ↦
            ap
              (λ (r : ChunkStore × ℕ).
                ChunkStore.cas_paths (evict_roots k decode_node fuel to_free hashes r.0 r.1).0)
              (evict_root-others h s freed others)
            ∙ evict_roots-All to_free hashes
                (record s { cas_paths = retain (is_other h) s.cas_paths }) freed want
                (narrow h hashes s.cas_paths all)
        | inr alone ↦
            evict_roots-none to_free hashes (evict_root k decode_node fuel h s freed).0
              (evict_root k decode_node fuel h s freed).1
              (evict_root_paths h s freed ∙ any-retain h s.cas_paths alone)
      ])

  module _ (by_age : List CasRoot → List CasRoot)
      (reorders : (ps : List CasRoot) → Perm (by_age ps) ps) where
    -- When the client's chunks exceed the target and the database's order lists all paths, an eviction
    -- forgets every recorded path, however little had to be freed.
    pub evict_to_size-cas_paths :
        (target_bytes : ℕ) (s : ChunkStore)
        → target_bytes < total_chunk_bytes s
        → (evict_to_size k decode_node fuel by_age target_bytes s).0.cas_paths ≡ []
    unfolding evict_to_size
    evict_to_size-cas_paths target_bytes s over =
        let full : leb (total_chunk_bytes s) target_bytes ≡ false = ground arith in
        rw full (
          evict_roots-All (total_chunk_bytes s - target_bytes)
            (map CasRoot.hash (by_age s.cas_paths)) s 0 (omega arith)
            (listed s.cas_paths (by_age s.cas_paths) (reorders s.cas_paths)))
