-- ===== src/Castore/Ingest/Trees.antt =====
-- `ingest_node` and `reconstruct_node` of crates/ekapkgs-serve/src/storage/castore.rs over a whole tree.
use ekapkgs_cli.Prelude.{
  ℕ, zero, suc, ◌≤◌, ◌≡◌, refl, sym, ap, subst, ◌∙◌, inl, inr, Bool, false, Option, none, some,
  List, [], ◌∷◌, Bytes, bytes_eq, bytes_eq→eq, bytes_eq_refl, length, length-append, All,
  Bool-cases, Option-cases, arith,
}
use ekapkgs_cli.Nar.{NarNode, Entries, regular, directory}
use ekapkgs_cli.Nar.Streaming.{
  CaNode, file_node, directory_node, CaDirectoryEntry, fetch, reconstruct_entries, reconstruct_node,
}
use ekapkgs_cli.Nar.Streaming.Equal.{SizedEntry, HasSizes}
use ekapkgs_cli.Castore.{CastoreBackend, get_chunk_by_digest, read_file_data}
use ekapkgs_cli.Castore.Ingest.{
  Codecs, CodecLaws, concat, find_directory, total_length, insert_directory, load_directory,
  castore_reader, depth, depth_entries, sort_node, sort_children,
}
use ekapkgs_cli.Castore.Ingest.Valid.{IsValid, Extends}
use ekapkgs_cli.Castore.Ingest.Extends.{Extends-trans}
use ekapkgs_cli.Castore.Ingest.Files.{FileStored, FileStored-Extends, read_file_data-FileStored}

pub total_length-concat : (cs : List Bytes) → total_length cs ≡ length (concat cs)
unfolding total_length
total_length-concat [] = refl
total_length-concat (c ∷ cs) = omega (arith, length-append c (concat cs), total_length-concat cs)

some_injective : (a b : Bytes) → some a ≡ some b → a ≡ b
some_injective a b h = ground arith

module _ (k : Codecs) (laws : CodecLaws k) where
  abbrev pub added : List CaDirectoryEntry → CastoreBackend → CastoreBackend
  added es s = (insert_directory k es s).0

  pub find-added :
      (es : List CaDirectoryEntry) (s : CastoreBackend)
      → IsValid k s
      → find_directory (k.blake3 (k.encode es)) (added es s).directories ≡ some (k.encode es)
  unfolding insert_directory find_directory
  find-added es s valid =
      elim (Option-cases (find_directory (k.blake3 (k.encode es)) s.directories)) [
        | inl new ↦ ground (arith, bytes_eq_refl (k.blake3 (k.encode es)))
        | inr (old, found) ↦
            let same = laws.collision_free old (k.encode es) (valid.directory_valid _ old found) in
            ground arith
      ]

  find-added_other :
      (es : List CaDirectoryEntry) (s : CastoreBackend) (d : Bytes)
      → bytes_eq (k.blake3 (k.encode es)) d ≡ false
      → find_directory d (added es s).directories ≡ find_directory d s.directories
  unfolding insert_directory find_directory
  find-added_other es s d other = ground arith

  find-added_kept :
      (es : List CaDirectoryEntry) (s : CastoreBackend) (d e : Bytes)
      → find_directory d s.directories ≡ some e
      → find_directory d (added es s).directories ≡ some e
  unfolding insert_directory find_directory
  find-added_kept es s d e found = elim (Bool-cases (bytes_eq (k.blake3 (k.encode es)) d)) [
    | inl same ↦
        let eq = bytes_eq→eq (k.blake3 (k.encode es)) d same in
        let here = subst (λ x. find_directory x s.directories ≡ some e) (sym eq) found in
        ground arith
    | inr other ↦ ground arith
  ]

  pub insert_directory-IsValid :
      (es : List CaDirectoryEntry) (s : CastoreBackend)
      → IsValid k s
      → IsValid k (added es s) × Extends k s (added es s)
  unfolding insert_directory get_chunk_by_digest
  insert_directory-IsValid es s valid = (
    record {
      chunk_valid = valid.chunk_valid;
      no_orphan = valid.no_orphan;
      file_valid = valid.file_valid;
      directory_valid = λ d e found. elim (Bool-cases (bytes_eq (k.blake3 (k.encode es)) d)) [
        | inl same ↦
            let eq = bytes_eq→eq (k.blake3 (k.encode es)) d same in
            let here =
              subst (λ x. find_directory x (added es s).directories ≡ some (k.encode es)) eq
                (find-added es s valid) in
            ap k.blake3 (some_injective e (k.encode es) (sym found ∙ here)) ∙ eq
        | inr other ↦ valid.directory_valid d e (sym (find-added_other es s d other) ∙ found)
      ];
    },
    record { chunks = λ x h. h; files = λ b h. h; directories = find-added_kept es s },
  )

  -- What a reader of any later store gets for the tree.
  unfoldable pub Rebuilds : CastoreBackend → CaNode → NarNode → Type 0
  Rebuilds s n node =
      (t : CastoreBackend) (fuel : ℕ)
      → IsValid k t
      → Extends k s t
      → depth node ≤ fuel
      → (reconstruct_node (castore_reader k t) fuel n ≡ some (sort_node node))
        × HasSizes (castore_reader k t) fuel n

  unfoldable pub RebuildsEntries : CastoreBackend → List CaDirectoryEntry → Entries → Type 0
  RebuildsEntries s es entries =
      (t : CastoreBackend) (fuel : ℕ)
      → IsValid k t
      → Extends k s t
      → depth_entries entries ≤ fuel
      → (reconstruct_entries (reconstruct_node (castore_reader k t) fuel) es
          ≡ some (sort_children entries))
        × All (SizedEntry (HasSizes (castore_reader k t) fuel)) es

  fetched :
      {A : Type 0} (x : Bytes) (f : Bytes → Option A) (a : A)
      → f (k.blake3 x) ≡ some a
      → fetch (some (k.blake3 x)) f ≡ some a
  unfolding fetch
  fetched x f a h = let size = laws.digest_length x in ground arith

  pub rebuild-file :
      (bytes : Bytes) (executable : Bool) (s : CastoreBackend)
      → FileStored k laws s bytes
      → Rebuilds s
          (file_node (some (k.blake3 bytes)) (total_length (k.cdc bytes)) executable)
          (regular executable bytes)
  unfolding Rebuilds reconstruct_node HasSizes castore_reader sort_node depth
  rebuild-file bytes executable s stored t zero valid grown enough = absurd (omega arith)
  rebuild-file bytes executable s stored t (suc fuel) valid grown enough =
      let reads = fetched bytes (read_file_data k.blake3 k.level k.compress k.decompress t) bytes (
        read_file_data-FileStored k laws t bytes valid
          (FileStored-Extends k laws s t bytes grown stored)) in
      let size : total_length (k.cdc bytes) ≡ length bytes =
        total_length-concat (k.cdc bytes) ∙ ap length (laws.chunked bytes) in
      (
        ground (arith, reads),
        subst
            (λ o. elim o as (λ _. Type 0) [
              | none ↦ Unit
              | some b ↦ total_length (k.cdc bytes) ≡ length b
            ])
            (sym reads) size,
      )

  pub load-added :
      (es : List CaDirectoryEntry) (t : CastoreBackend)
      → find_directory (k.blake3 (k.encode es)) t.directories ≡ some (k.encode es)
      → load_directory k t (k.blake3 (k.encode es)) ≡ some es
  unfolding load_directory
  load-added es t found = ground (arith, bytes_eq_refl (k.blake3 (k.encode es)), laws.decoded es)

  pub rebuild-directory :
      (es : List CaDirectoryEntry) (entries : Entries) (size : ℕ) (s : CastoreBackend)
      → IsValid k s
      → RebuildsEntries s es entries
      → Rebuilds
          (added es s)
          (directory_node (some (k.blake3 (k.encode es))) size)
          (directory entries)
  unfolding Rebuilds RebuildsEntries reconstruct_node HasSizes castore_reader sort_node depth
  rebuild-directory es entries size s valid below t zero valid' grown enough = absurd (omega arith)
  rebuild-directory es entries size s valid below t (suc fuel) valid' grown enough =
      let loads =
        fetched (k.encode es) (load_directory k t) es
          (load-added es t (grown.directories _ _ (find-added es s valid))) in
      let parts =
        below t fuel valid' (Extends-trans k _ _ _ (insert_directory-IsValid es s valid).1 grown)
          (omega arith) in
      (
        ground (arith, loads, parts.0),
        subst
            (λ o. elim o as (λ _. Type 0) [
              | none ↦ Unit
              | some rows ↦ All (SizedEntry (HasSizes (castore_reader k t) fuel)) rows
            ])
            (sym loads) parts.1,
      )
