-- ===== src/Nar/Streaming/Equal.antt =====
-- The streaming writer of crates/ekapkgs-nix/src/nar.rs against the writer of the tree in memory.
use ekapkgs_cli.Prelude.{
  ℕ, zero, suc, ◌≡◌, refl, subst, inl, inr, Option, none, some, List, [], ◌∷◌, length, All,
  Bool-cases, Option-cases, arith,
}
use ekapkgs_cli.Nar.{NarNode, Entries, end, entry}
use ekapkgs_cli.Nar.Streaming.{
  CaNode, no_variant, file_node, directory_node, symlink_node, CaDirectoryEntry, ChunkReader, fetch,
  name_le, insert_by_name, sort_by_name, insert_entry, sort_entries, reconstruct_entries,
}

-- The node that an entry becomes.
unfoldable pub child : (CaNode → Option NarNode) → CaDirectoryEntry → Option NarNode
child f e = elim e.node [ none ↦ none | some n ↦ f n ]

nothing : (f : CaNode → Option NarNode) → reconstruct_entries f [] ≡ some end
unfolding reconstruct_entries
nothing f = refl

pub nothing_left :
    (f : CaNode → Option NarNode) (ns : Entries) → reconstruct_entries f [] ≡ some ns → end ≡ ns
unfolding reconstruct_entries
nothing_left f ns h = ground arith

pub reconstruct-cons :
    (f : CaNode → Option NarNode) (e : CaDirectoryEntry) (es : List CaDirectoryEntry) (c : NarNode)
    (r : Entries)
    → child f e ≡ some c
    → reconstruct_entries f es ≡ some r
    → reconstruct_entries f (e ∷ es) ≡ some (entry e.name c r)
unfolding child reconstruct_entries
reconstruct-cons f e es c r made rest = ground (arith, made, rest)

pub reconstruct-inverse :
    (f : CaNode → Option NarNode) (e : CaDirectoryEntry) (es : List CaDirectoryEntry) (ns : Entries)
    → reconstruct_entries f (e ∷ es) ≡ some ns
    → (c : NarNode) × (r : Entries) × (child f e ≡ some c)
      × (reconstruct_entries f es ≡ some r)
      × (entry e.name c r ≡ ns)
unfolding child reconstruct_entries
reconstruct-inverse f e es ns ok = elim (Option-cases (child f e)) [
  | inl c ↦ absurd (ground arith)
  | inr (c, made) ↦ elim (Option-cases (reconstruct_entries f es)) [
    | inl r ↦ absurd (ground arith)
    | inr (r, rest) ↦ (c, r, made, rest, ground arith)
  ]
]

insert-reconstruct :
    (f : CaNode → Option NarNode) (e : CaDirectoryEntry) (m : NarNode) (es : List CaDirectoryEntry)
    (ns : Entries)
    → child f e ≡ some m
    → reconstruct_entries f es ≡ some ns
    → reconstruct_entries f (insert_by_name e es) ≡ some (insert_entry e.name m ns)
unfolding insert_by_name insert_entry
insert-reconstruct f e m [] ns made rest =
    let empty : end ≡ ns = nothing_left f ns rest in
    subst (λ x. reconstruct_entries f (e ∷ []) ≡ some (insert_entry e.name m x)) empty
      (reconstruct-cons f e [] m end made (nothing f))
insert-reconstruct f e m (q ∷ es) ns made rest =
    let (c, r, here, there, same) = reconstruct-inverse f q es ns rest in
    subst (λ x. reconstruct_entries f (insert_by_name e (q ∷ es)) ≡ some (insert_entry e.name m x))
      same
      (elim (Bool-cases (name_le e.name q.name)) [
        | inl first ↦ rw first (
            reconstruct-cons f e (q ∷ es) m (entry q.name c r) made
              (reconstruct-cons f q es c r here there))
        | inr later ↦ rw later (
            reconstruct-cons f q (insert_by_name e es) c _ here
              (insert-reconstruct f e m es r made there))
      ])

pub sort-reconstruct :
    (f : CaNode → Option NarNode) (es : List CaDirectoryEntry) (ns : Entries)
    → reconstruct_entries f es ≡ some ns
    → reconstruct_entries f (sort_by_name es) ≡ some (sort_entries ns)
unfolding sort_by_name sort_entries
sort-reconstruct f [] ns ok =
    subst (λ x. reconstruct_entries f [] ≡ some (sort_entries x)) (nothing_left f ns ok) (nothing f)
sort-reconstruct f (e ∷ es) ns ok =
    let (c, r, made, rest, same) = reconstruct-inverse f e es ns ok in
    subst (λ x. reconstruct_entries f (sort_by_name (e ∷ es)) ≡ some (sort_entries x)) same
      (insert-reconstruct f e c (sort_by_name es) (sort_entries r) made
        (sort-reconstruct f es r rest))

-- The recorded sizes below an entry and below a node are those of the files.
unfoldable pub SizedEntry : (CaNode → Type 0) → CaDirectoryEntry → Type 0
SizedEntry P e = elim e.node [ none ↦ Unit | some n ↦ P n ]

unfoldable pub HasSizes : ChunkReader → ℕ → CaNode → Type 0
HasSizes reader zero n = Unit
HasSizes reader (suc fuel) no_variant = Unit
HasSizes reader (suc fuel) (file_node digest size executable) =
    elim (fetch digest reader.read_file_data) [ none ↦ Unit | some bytes ↦ size ≡ length bytes ]
HasSizes reader (suc fuel) (directory_node digest size) =
    elim (fetch digest reader.load_directory) [
      | none ↦ Unit
      | some es ↦ All (SizedEntry (HasSizes reader fuel)) es
    ]
HasSizes reader (suc fuel) (symlink_node target) = Unit

insert-All :
    (P : CaDirectoryEntry → Type 0) (e : CaDirectoryEntry) (es : List CaDirectoryEntry)
    → P e
    → All P es
    → All P (insert_by_name e es)
unfolding insert_by_name
insert-All P e [] p h = (p, tt)
insert-All P e (q ∷ es) p h = elim (Bool-cases (name_le e.name q.name)) [
  | inl first ↦ rw first (p, h)
  | inr later ↦ rw later (h.0, insert-All P e es p h.1)
]

pub sort-All :
    (P : CaDirectoryEntry → Type 0) (es : List CaDirectoryEntry)
    → All P es
    → All P (sort_by_name es)
unfolding sort_by_name
sort-All P [] h = tt
sort-All P (e ∷ es) h = insert-All P e (sort_by_name es) h.0 (sort-All P es h.1)
