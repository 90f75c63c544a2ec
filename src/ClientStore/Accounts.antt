-- ===== src/ClientStore/Accounts.antt =====
-- `evict_to_size` of crates/ekapkgs/src/chunk_store.rs: the bytes that it reports.
use ekapkgs_cli.Prelude.{
  ℕ, ◌+◌, ◌-◌, ◌≡◌, refl, sym, subst, ◌∙◌, inl, inr, false, not, Option, none, some, List, [], ◌∷◌,
  map, Bytes, bytes_eq, bytes_eq→eq, bytes_eq_refl, contains, any, retain, leb, AllDistinct,
  Bool-cases, Option-cases, arith,
}
use ekapkgs_cli.Nar.Streaming.{CaNode}
use ekapkgs_cli.Castore.{FileChunk}
use ekapkgs_cli.Castore.Ingest.{Codecs}
use ekapkgs_cli.ClientStore.{
  StoredChunk, CasRoot, ChunkStore, Reclaimed, find_size, find_root, total_size, total_chunk_bytes,
  release_files, delete_chunk, delete_orphans, file_digests_of, evict_root, evict_roots,
  evict_to_size,
}
use ekapkgs_cli.ClientStore.Evict.{is_other, evict_root_missing, evict_root_found}

abbrev digests : List StoredChunk → List Bytes
digests cs = map StoredChunk.digest cs

size_of : Bytes → List StoredChunk → ℕ
size_of d cs = elim (find_size d cs) [ none ↦ 0 | some size ↦ size ]

without : Bytes → List StoredChunk → List StoredChunk
without d = retain (λ (c : StoredChunk). not (bytes_eq c.digest d))

absent :
    (d : Bytes) (cs : List StoredChunk)
    → contains d (digests cs) ≡ false
    → (total_size (without d cs) ≡ total_size cs) × (size_of d cs ≡ 0)
unfolding total_size without retain contains size_of find_size
absent d [] h = (refl, refl)
absent d (c ∷ cs) h = elim (Bool-cases (bytes_eq c.digest d)) [
  | inl e ↦ let same = bytes_eq→eq c.digest d e in absurd (ground (arith, same, bytes_eq_refl d))
  | inr n ↦
      let rest = absent d cs (ground arith) in (ground (arith, rest.0), ground (arith, rest.1))
]

total_size-without :
    (d : Bytes) (cs : List StoredChunk)
    → AllDistinct (digests cs)
    → total_size (without d cs) + size_of d cs ≡ total_size cs
unfolding total_size without retain contains size_of find_size
total_size-without d [] h = refl
total_size-without d (c ∷ cs) h = elim (Bool-cases (bytes_eq c.digest d)) [
  | inl e ↦
      let same = bytes_eq→eq c.digest d e in
      let gone = absent d cs (rw (sym same) h.0) in ground (arith, gone.0)
  | inr n ↦ ground (arith, total_size-without d cs h.1)
]

contains-without :
    (x d : Bytes) (cs : List StoredChunk)
    → contains x (digests cs) ≡ false
    → contains x (digests (without d cs)) ≡ false
unfolding without retain contains
contains-without x d [] h = refl
contains-without x d (c ∷ cs) h = ground (arith, contains-without x d cs)

without-AllDistinct :
    (d : Bytes) (cs : List StoredChunk)
    → AllDistinct (digests cs)
    → AllDistinct (digests (without d cs))
unfolding without retain
without-AllDistinct d [] h = tt
without-AllDistinct d (c ∷ cs) h = elim (Bool-cases (bytes_eq c.digest d)) [
  | inl e ↦ rw e (without-AllDistinct d cs h.1)
  | inr n ↦ rw n (contains-without c.digest d cs h.0, without-AllDistinct d cs h.1)
]

-- The chunks keep their key, and what is there and what is freed make up what was there and was freed.
abbrev Balanced : List StoredChunk → ℕ → List StoredChunk → ℕ → Type 0
Balanced cs freed cs' freed' =
    AllDistinct (digests cs') × (total_size cs' + freed' ≡ total_size cs + freed)

delete_chunk-Balanced :
    (d : Bytes) (r : Reclaimed)
    → AllDistinct (digests r.chunks)
    → Balanced r.chunks r.total_freed (delete_chunk d r).chunks (delete_chunk d r).total_freed
unfolding delete_chunk without size_of
delete_chunk-Balanced d r h =
    (without-AllDistinct d r.chunks h, ground (arith, total_size-without d r.chunks h))

delete_orphans-Balanced :
    (ds : List Bytes) (rows : List FileChunk) (r : Reclaimed)
    → AllDistinct (digests r.chunks)
    → Balanced r.chunks r.total_freed
        (delete_orphans ds rows r).chunks
        (delete_orphans ds rows r).total_freed
unfolding delete_orphans
delete_orphans-Balanced [] rows r h = (h, refl)
delete_orphans-Balanced (d ∷ ds) rows r h =
    let (distinct, total) = delete_chunk-Balanced d r h in
    let (distinct', total') = delete_orphans-Balanced ds rows (delete_chunk d r) distinct in
    elim (Bool-cases (any (λ (q : FileChunk). bytes_eq q.chunk_digest d) rows)) [
      | inl used ↦ rw used (delete_orphans-Balanced ds rows r h)
      | inr orphan ↦ rw orphan (distinct', total' ∙ total)
    ]

module _ (k : Codecs) (decode_node : Bytes → Option CaNode) (fuel : ℕ) where
  abbrev Keeps : ChunkStore → ℕ → ChunkStore × ℕ → Type 0
  Keeps s freed r = Balanced s.chunks freed (ChunkStore.chunks r.0) r.1

  evict_root-Balanced :
      (h : Bytes) (s : ChunkStore) (freed : ℕ)
      → AllDistinct (digests s.chunks)
      → Keeps s freed (evict_root k decode_node fuel h s freed)
  evict_root-Balanced h s freed distinct = elim (Option-cases (find_root h s.cas_paths)) [
    | inl missing ↦
        subst (Keeps s freed) (sym (evict_root_missing k decode_node fuel h s freed missing))
          (distinct, refl)
    | inr (root, found) ↦
        subst (Keeps s freed) (sym (evict_root_found k decode_node fuel h root s freed found)) (
          let released =
            release_files (any (is_other h) (retain (is_other h) s.cas_paths))
              (file_digests_of k decode_node fuel root s) s.file_chunks [] in
          delete_orphans-Balanced released.1 released.0
            (record { chunks = s.chunks; files = s.files; total_freed = freed }) distinct)
  ]

  evict_roots-Balanced :
      (to_free : ℕ) (hashes : List Bytes) (s : ChunkStore) (freed : ℕ)
      → AllDistinct (digests s.chunks)
      → Keeps s freed (evict_roots k decode_node fuel to_free hashes s freed)
  unfolding evict_roots
  evict_roots-Balanced to_free [] s freed h = (h, refl)
  evict_roots-Balanced to_free (x ∷ hashes) s freed h =
      let (distinct, total) = evict_root-Balanced x s freed h in
      let (distinct', total') =
        evict_roots-Balanced to_free hashes (evict_root k decode_node fuel x s freed).0
          (evict_root k decode_node fuel x s freed).1 distinct in
      elim (Bool-cases (leb to_free freed)) [
        | inl enough ↦ rw enough (h, refl)
        | inr more ↦ rw more (distinct', total' ∙ total)
      ]

  -- With digest a key of the client's chunks, the bytes that an eviction reports are those that the
  -- store loses.
  pub evict_to_size-total_chunk_bytes :
      (by_age : List CasRoot → List CasRoot) (target_bytes : ℕ) (s : ChunkStore)
      → AllDistinct (map StoredChunk.digest s.chunks)
      → total_chunk_bytes (evict_to_size k decode_node fuel by_age target_bytes s).0
          + (evict_to_size k decode_node fuel by_age target_bytes s).1
        ≡ total_chunk_bytes s
  unfolding evict_to_size total_chunk_bytes
  evict_to_size-total_chunk_bytes by_age target_bytes s h =
      let rest =
        evict_roots-Balanced (total_size s.chunks - target_bytes)
          (map CasRoot.hash (by_age s.cas_paths)) s 0 h in
      elim (Bool-cases (leb (total_size s.chunks) target_bytes)) [
        | inl small ↦ rw small (omega arith)
        | inr over ↦ rw over (omega (arith, rest.1))
      ]
