-- ===== src/Castore/DirCache/Laws.antt =====
-- What is loaded through `DirCache` of crates/ekapkgs-serve/src/storage/castore.rs is what the database has.
use ekapkgs_cli.Prelude.{
  ◌≡◌, refl, sym, subst, ◌∙◌, inl, inr, Option, none, some, List, [], ◌∷◌, Bytes, leb→le, bytes_eq,
  bytes_eq→eq, retain, length, leb, Bool-cases, Option-cases, arith,
}
use ekapkgs_cli.Nar.Streaming.{CaDirectoryEntry}
use ekapkgs_cli.Castore.{CastoreBackend}
use ekapkgs_cli.Castore.Ingest.{Codecs, load_directory}
use ekapkgs_cli.Castore.DirCache.{
  Cached, DirCache, find_cached, remove_cached, has_key, get, evict_oldest, make_room, insert,
  load_directory_through,
}
use ekapkgs_cli.Castore.DirCache.Bounded.{
  IsBounded, get_hit, get_miss, room_hit, room_full, room_free, evict_none, evict_some,
  insert-placed, insert-IsBounded, get-IsBounded, Agrees,
}

find_cached_gone : (d : Bytes) (cs : List Cached) → find_cached d (remove_cached d cs) ≡ none
unfolding find_cached remove_cached retain
find_cached_gone d [] = refl
find_cached_gone d (c ∷ cs) = ground (arith, find_cached_gone d cs)

-- What is found after a removal was there before.
find_cached-remove_cached :
    (x d : Bytes) (cs : List Cached) (es : List CaDirectoryEntry)
    → find_cached x (remove_cached d cs) ≡ some es
    → find_cached x cs ≡ some es
unfolding find_cached remove_cached retain
find_cached-remove_cached x d [] es h = h
find_cached-remove_cached x d (c ∷ cs) es h = elim (Bool-cases (bytes_eq c.digest d)) [
  | inl removed ↦
      let rest : find_cached x (remove_cached d cs) ≡ some es = ground arith in
      elim (Bool-cases (bytes_eq c.digest x)) [
        | inl here ↦
            let same = sym (bytes_eq→eq c.digest x here) ∙ bytes_eq→eq c.digest d removed in
            let gone =
              subst (λ z. find_cached z (remove_cached d cs) ≡ none) (sym same)
                (find_cached_gone d cs) in
            absurd (ground arith)
        | inr there ↦ ground (arith, find_cached-remove_cached x d cs es rest)
      ]
  | inr stays ↦ elim (Bool-cases (bytes_eq c.digest x)) [
    | inl here ↦ ground arith
    | inr there ↦ ground (arith, find_cached-remove_cached x d cs es (ground arith))
  ]
]

module _ (k : Codecs) (s : CastoreBackend) where
  abbrev AgreesAll : List Cached → Type 0
  AgreesAll cs =
      (d : Bytes) (es : List CaDirectoryEntry)
      → find_cached d cs ≡ some es
      → load_directory k s d ≡ some es

  remove-AgreesAll : (d : Bytes) (cs : List Cached) → AgreesAll cs → AgreesAll (remove_cached d cs)
  remove-AgreesAll d cs h x es found = h x es (find_cached-remove_cached x d cs es found)

  cons-AgreesAll :
      (d : Bytes) (es : List CaDirectoryEntry) (cs : List Cached)
      → load_directory k s d ≡ some es
      → AgreesAll cs
      → AgreesAll ((record { digest = d; directory = es }) ∷ cs)
  unfolding find_cached
  cons-AgreesAll d es cs loads h x fs found = elim (Bool-cases (bytes_eq d x)) [
    | inl same ↦
        let here : some es ≡ some fs = ground arith in
        subst (λ z. load_directory k s z ≡ some es) (bytes_eq→eq d x same) loads ∙ here
    | inr other ↦ h x fs (ground arith)
  ]

  evict-AgreesAll :
      (order : List Bytes) (c : DirCache)
      → c.order ≡ order
      → AgreesAll c.cached
      → AgreesAll (evict_oldest c).cached
  evict-AgreesAll [] c none_there h =
      subst (λ (c' : DirCache). AgreesAll c'.cached) (sym (evict_none c none_there)) h
  evict-AgreesAll (e ∷ rest) c oldest h =
      subst (λ (c' : DirCache). AgreesAll c'.cached) (sym (evict_some e rest c oldest))
        (remove-AgreesAll e c.cached h)

  room-AgreesAll :
      (d : Bytes) (c : DirCache) → AgreesAll c.cached → AgreesAll (make_room d c).cached
  room-AgreesAll d c h = elim (Bool-cases (has_key d c)) [
    | inl there ↦ subst (λ (c' : DirCache). AgreesAll c'.cached) (sym (room_hit d c there)) h
    | inr gone ↦ elim (Bool-cases (leb c.capacity (length c.cached))) [
      | inl full ↦
          subst (λ (c' : DirCache). AgreesAll c'.cached)
            (sym (room_full d c gone (ground (arith, leb→le c.capacity (length c.cached)))))
            (evict-AgreesAll c.order c refl h)
      | inr free ↦
          subst (λ (c' : DirCache). AgreesAll c'.cached) (sym (room_free d c gone (ground arith))) h
    ]
  ]

  insert-AgreesAll :
      (d : Bytes) (es : List CaDirectoryEntry) (c : DirCache)
      → load_directory k s d ≡ some es
      → AgreesAll c.cached
      → AgreesAll (insert d es c).cached
  insert-AgreesAll d es c loads h =
      subst (λ (c' : DirCache). AgreesAll c'.cached) (sym (insert-placed d es c))
        (cons-AgreesAll d es _ loads (remove-AgreesAll d _ (room-AgreesAll d c h)))

  -- What `get` returns is what the database has, and the map stays as it is.
  get-AgreesAll :
      (d : Bytes) (c : DirCache)
      → AgreesAll c.cached
      → ((es : List CaDirectoryEntry) → (get d c).0 ≡ some es → load_directory k s d ≡ some es)
        × AgreesAll (DirCache.cached (get d c).1)
  get-AgreesAll d c h = elim (Bool-cases (has_key d c)) [
    | inl there ↦
        subst
          (λ (r : Option (List CaDirectoryEntry) × DirCache).
            ((es : List CaDirectoryEntry) → r.0 ≡ some es → load_directory k s d ≡ some es)
            × AgreesAll (DirCache.cached r.1))
          (sym (get_hit d c there)) ((λ es found. h d es found), h)
    | inr gone ↦
        subst
          (λ (r : Option (List CaDirectoryEntry) × DirCache).
            ((es : List CaDirectoryEntry) → r.0 ≡ some es → load_directory k s d ≡ some es)
            × AgreesAll (DirCache.cached r.1))
          (sym (get_miss d c gone)) ((λ es found. absurd (ground arith)), h)
  ]

  through_hit :
      (d : Bytes) (es : List CaDirectoryEntry) (c : DirCache)
      → (get d c).0 ≡ some es
      → load_directory_through k s d c ≡ (some es, (get d c).1)
  unfolding load_directory_through
  through_hit d es c found = rw (found, load_directory_through) refl

  through_missing :
      (d : Bytes) (c : DirCache)
      → (get d c).0 ≡ none
      → load_directory k s d ≡ none
      → load_directory_through k s d c ≡ (none, (get d c).1)
  unfolding load_directory_through
  through_missing d c miss gone = rw (miss, gone, load_directory_through) refl

  through_loaded :
      (d : Bytes) (es : List CaDirectoryEntry) (c : DirCache)
      → (get d c).0 ≡ none
      → load_directory k s d ≡ some es
      → load_directory_through k s d c ≡ (some es, insert d es (get d c).1)
  unfolding load_directory_through
  through_loaded d es c miss loads = rw (miss, loads, load_directory_through) refl

  abbrev Transparent : Bytes → Option (List CaDirectoryEntry) × DirCache → Type 0
  Transparent d r = (r.0 ≡ load_directory k s d) × Agrees k s r.1 × IsBounded r.1

  -- Where all that is cached is in the database and the order of the cache lists its keys once each,
  -- at most as many as its capacity or one, a directory is loaded through the cache as the database
  -- alone gives it, and the cache stays so.
  pub load_directory_through_lem :
      (d : Bytes) (c : DirCache)
      → Agrees k s c
      → IsBounded c
      → ((load_directory_through k s d c).0 ≡ load_directory k s d)
        × Agrees k s (load_directory_through k s d c).1
        × IsBounded (load_directory_through k s d c).1
  load_directory_through_lem d c agrees bounded =
      let (reads, agrees') = get-AgreesAll d c agrees in
      let bounded' = get-IsBounded d c bounded in
      elim (Option-cases (get d c).0) [
        | inr (es, found) ↦
            subst (Transparent d) (sym (through_hit d es c found))
              (sym (reads es found), agrees', bounded')
        | inl miss ↦ elim (Option-cases (load_directory k s d)) [
          | inl gone ↦
              subst (Transparent d) (sym (through_missing d c miss gone))
                (sym gone, agrees', bounded')
          | inr (es, loads) ↦ subst (Transparent d) (sym (through_loaded d es c miss loads)) (
            sym loads,
            insert-AgreesAll d es (get d c).1 loads agrees',
            insert-IsBounded d es (get d c).1 bounded',
          )
        ]
      ]
