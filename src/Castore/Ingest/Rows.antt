-- ===== src/Castore/Ingest/Rows.antt =====
-- The rows of `file_chunks` in crates/ekapkgs-serve/src/storage/castore.rs: inserting those of a file, for
-- the first time and again, and their order.
use ekapkgs_cli.Prelude.{
  ℕ, ◌+◌, ◌<◌, ◌≡◌, refl, sym, ap, subst, ◌∙◌, inl, inr, Bool, true, false, ◌&&◌, List, [], ◌∷◌,
  ◌++◌, append-nil, append_assoc, Bytes, bytes_eq, bytes_eq_refl, any, retain, length, ◌==◌, All,
  All-append, Bool-cases, arith,
}
use ekapkgs_cli.Castore.{
  FileChunk, chunks_of, insert_file_chunk_row, insert_by_index, order_by_index,
}
use ekapkgs_cli.Castore.Ingest.{Codecs, rows_from, insert_rows}

abbrev same_key : FileChunk → FileChunk → Bool
same_key r q = bytes_eq q.file_digest r.file_digest && (q.chunk_index == r.chunk_index)

chunks_of-append :
    (f : Bytes) (xs ys : List FileChunk) → chunks_of f (xs ++ ys) ≡ chunks_of f xs ++ chunks_of f ys
unfolding chunks_of retain
chunks_of-append f [] ys = refl
chunks_of-append f (x ∷ xs) ys = ground (arith, chunks_of-append f xs ys)

nothing : (f : Bytes) → chunks_of f [] ≡ []
unfolding chunks_of retain
nothing f = refl

chunks_of-own :
    (f : Bytes) (q : FileChunk) (table : List FileChunk)
    → bytes_eq q.file_digest f ≡ true
    → chunks_of f (q ∷ table) ≡ q ∷ chunks_of f table
unfolding chunks_of retain
chunks_of-own f q table own = ground arith

chunks_of-other :
    (f : Bytes) (q : FileChunk) (table : List FileChunk)
    → bytes_eq q.file_digest f ≡ false
    → chunks_of f (q ∷ table) ≡ chunks_of f table
unfolding chunks_of retain
chunks_of-other f q table other = ground arith

-- No row of the file has the index yet.
no_key :
    (r : FileChunk) (table : List FileChunk)
    → All (λ q. q.chunk_index < r.chunk_index) (chunks_of r.file_digest table)
    → any (same_key r) table ≡ false
unfolding any
no_key r [] h = refl
no_key r (q ∷ table) h = elim (Bool-cases (bytes_eq q.file_digest r.file_digest)) [
  | inl own ↦
      let below =
        subst (All (λ q'. q'.chunk_index < r.chunk_index)) (chunks_of-own r.file_digest q table own)
          h in
      let rest = no_key r table below.1 in let lt = below.0 in ground arith
  | inr other ↦
      let rest = no_key r table (
        subst (All (λ q'. q'.chunk_index < r.chunk_index))
          (chunks_of-other r.file_digest q table other) h) in
      ground arith
]

raise :
    (i : ℕ) (rows : List FileChunk)
    → All (λ q. q.chunk_index < i) rows
    → All (λ q. q.chunk_index < i + 1) rows
raise i [] h = tt
raise i (q ∷ rows) h = (let lt = h.0 in omega arith, raise i rows h.1)

-- The key is taken by a row of the table.
has_key_cons :
    (r q : FileChunk) (table : List FileChunk)
    → any (same_key r) table ≡ true
    → any (same_key r) (q ∷ table) ≡ true
unfolding any
has_key_cons r q table h = ground arith

has_key_head : (r : FileChunk) (table : List FileChunk) → any (same_key r) (r ∷ table) ≡ true
unfolding any
has_key_head r table = ground (arith, bytes_eq_refl r.file_digest)

All-cons :
    (q : FileChunk) (table rows : List FileChunk)
    → All (λ r. any (same_key r) table ≡ true) rows
    → All (λ r. any (same_key r) (q ∷ table) ≡ true) rows
All-cons q table [] h = tt
All-cons q table (r ∷ rows) h = (has_key_cons r q table h.0, All-cons q table rows h.1)

chunks_of-keys :
    (f : Bytes) (table : List FileChunk)
    → All (λ r. any (same_key r) table ≡ true) (chunks_of f table)
chunks_of-keys f [] = subst (All (λ r. any (same_key r) [] ≡ true)) (sym (nothing f)) tt
chunks_of-keys f (q ∷ table) =
    let rest = All-cons q table (chunks_of f table) (chunks_of-keys f table) in
    elim (Bool-cases (bytes_eq q.file_digest f)) [
      | inl own ↦
          subst (All (λ r. any (same_key r) (q ∷ table) ≡ true)) (sym (chunks_of-own f q table own))
            (has_key_head q table, rest)
      | inr other ↦
          subst (All (λ r. any (same_key r) (q ∷ table) ≡ true))
            (sym (chunks_of-other f q table other)) rest
    ]

insert-new :
    (r : FileChunk) (table : List FileChunk)
    → any (same_key r) table ≡ false
    → insert_file_chunk_row r table ≡ table ++ (r ∷ [])
unfolding insert_file_chunk_row
insert-new r table h = ground arith

insert-known :
    (r : FileChunk) (table : List FileChunk)
    → any (same_key r) table ≡ true
    → insert_file_chunk_row r table ≡ table
unfolding insert_file_chunk_row
insert-known r table h = ground arith

module _ (k : Codecs) where
  pub insert_rows-known :
      (rows table : List FileChunk)
      → All (λ r. any (same_key r) table ≡ true) rows
      → insert_rows k rows table ≡ table
  unfolding insert_rows
  insert_rows-known [] table h = refl
  insert_rows-known (r ∷ rows) table h =
      ap (insert_rows k rows) (insert-known r table h.0) ∙ insert_rows-known rows table h.1

  -- The rows of a file that is there already are inserted without effect.
  pub insert_rows-again :
      (f : Bytes) (rows table : List FileChunk)
      → chunks_of f table ≡ rows
      → insert_rows k rows table ≡ table
  insert_rows-again f rows table same =
      insert_rows-known rows table
        (subst (All (λ r. any (same_key r) table ≡ true)) same (chunks_of-keys f table))

  insert_rows-new :
      (f : Bytes) (i : ℕ) (cs : List Bytes) (table : List FileChunk)
      → All (λ q. q.chunk_index < i) (chunks_of f table)
      → chunks_of f (insert_rows k (rows_from k f i cs) table)
        ≡ chunks_of f table ++ rows_from k f i cs
  unfolding insert_rows rows_from chunks_of retain
  insert_rows-new f i [] table below = sym (append-nil (chunks_of f table))
  insert_rows-new f i (c ∷ cs) table below =
      let r : FileChunk = record {
        file_digest = f;
        chunk_index = i;
        chunk_digest = k.blake3 c;
        chunk_size = length c;
      } in
      let grown =
        chunks_of-append f table (r ∷ [])
        ∙ ap (λ rs. chunks_of f table ++ rs) (chunks_of-own f r [] (bytes_eq_refl f)) in
      ap (λ t. chunks_of f (insert_rows k (rows_from k f (i + 1) cs) t))
        (insert-new r table (no_key r table below))
      ∙ (insert_rows-new f (i + 1) cs (table ++ (r ∷ [])) (
            subst (All (λ q. q.chunk_index < i + 1)) (sym grown) (
              All-append (λ q. q.chunk_index < i + 1) (chunks_of f table) (r ∷ [])
                (raise i (chunks_of f table) below) (omega arith, tt)))
          ∙ (ap (λ rs. rs ++ rows_from k f (i + 1) cs) grown
              ∙ append_assoc (chunks_of f table) (r ∷ []) (rows_from k f (i + 1) cs)))

  -- The rows of a file that is new are all there afterwards.
  pub insert_rows-first :
      (f : Bytes) (cs : List Bytes) (table : List FileChunk)
      → chunks_of f table ≡ []
      → chunks_of f (insert_rows k (rows_from k f 0 cs) table) ≡ rows_from k f 0 cs
  insert_rows-first f cs table empty =
      insert_rows-new f 0 cs table (subst (All (λ q. q.chunk_index < 0)) (sym empty) tt)
      ∙ ap (λ rs. rs ++ rows_from k f 0 cs) empty

  -- The rows of the other files stay.
  insert-other :
      (f g : Bytes) (r : FileChunk) (table : List FileChunk)
      → bytes_eq r.file_digest g ≡ false
      → chunks_of g (insert_file_chunk_row r table) ≡ chunks_of g table
  insert-other f g r table other = elim (Bool-cases (any (same_key r) table)) [
    | inl known ↦ ap (chunks_of g) (insert-known r table known)
    | inr new ↦
        ap (chunks_of g) (insert-new r table new)
        ∙ (chunks_of-append g table (r ∷ [])
            ∙ (ap (λ rs. chunks_of g table ++ rs) (chunks_of-other g r [] other ∙ nothing g)
                ∙ append-nil (chunks_of g table)))
  ]

  pub insert_rows-other :
      (f g : Bytes) (i : ℕ) (cs : List Bytes) (table : List FileChunk)
      → bytes_eq f g ≡ false
      → chunks_of g (insert_rows k (rows_from k f i cs) table) ≡ chunks_of g table
  unfolding insert_rows rows_from
  insert_rows-other f g i [] table other = refl
  insert_rows-other f g i (c ∷ cs) table other =
      insert_rows-other f g (i + 1) cs _ other ∙ insert-other f g _ table other

  -- The rows come out in their order.
  insert_by_index-first :
      (r : FileChunk) (f : Bytes) (i : ℕ) (cs : List Bytes)
      → r.chunk_index < i
      → insert_by_index r (rows_from k f i cs) ≡ r ∷ rows_from k f i cs
  unfolding insert_by_index rows_from
  insert_by_index-first r f i [] lt = refl
  insert_by_index-first r f i (c ∷ cs) lt = ground arith

  pub order_by_index-rows_from :
      (f : Bytes) (i : ℕ) (cs : List Bytes)
      → order_by_index (rows_from k f i cs) ≡ rows_from k f i cs
  unfolding order_by_index rows_from
  order_by_index-rows_from f i [] = refl
  order_by_index-rows_from f i (c ∷ cs) =
      ap (insert_by_index _) (order_by_index-rows_from f (i + 1) cs)
      ∙ insert_by_index-first _ f (i + 1) cs (omega arith)
