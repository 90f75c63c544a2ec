-- ===== src/Castore/DirCache/Bounded.antt =====
-- `DirCache` of crates/ekapkgs-serve/src/storage/castore.rs stays within its capacity.
use ekapkgs_cli.Prelude.{
  suc, ◌≤◌, ◌<◌, ◌≡◌, refl, sym, ap, subst, ◌∙◌, inl, inr, true, false, Option, none, some, List,
  [], ◌∷◌, ◌++◌, map, max, Bytes, leb→le, contains-cons, bytes_eq_refl, contains, retain, length,
  length-append, leb, AllDistinct, Bool-cases, arith,
}
use ekapkgs_cli.Nar.Streaming.{CaDirectoryEntry}
use ekapkgs_cli.Castore.{CastoreBackend}
use ekapkgs_cli.Castore.Ingest.{Codecs, load_directory}
use ekapkgs_cli.Castore.DirCache.{
  Cached, DirCache, find_cached, remove_cached, without, has_key, get, evict_oldest, make_room,
  insert,
}
use ekapkgs_cli.Castore.DirCache.Synced.{
  Synced, without_absent, length-without, without-Synced, append-Synced, moved-Synced,
  contains_gone,
}

abbrev pub keys : DirCache → List Bytes
keys c = map Cached.digest c.cached

-- The order lists the cached digests, each once, and there are no more than the capacity, or one.
abbrev pub IsBounded : DirCache → Type 0
IsBounded c = Synced c.order (keys c) × (length c.order ≤ max 1 c.capacity)

-- What is cached is in the database.
abbrev pub Agrees : Codecs → CastoreBackend → DirCache → Type 0
Agrees k s c =
    (d : Bytes) (es : List CaDirectoryEntry)
    → find_cached d c.cached ≡ some es
    → load_directory k s d ≡ some es

keys-remove_cached :
    (d : Bytes) (cs : List Cached)
    → map Cached.digest (remove_cached d cs) ≡ without d (map Cached.digest cs)
unfolding remove_cached without retain
keys-remove_cached d [] = refl
keys-remove_cached d (c ∷ cs) = ground (arith, keys-remove_cached d cs)

-- Removing a digest from the order and the map.
abbrev drop_key : Bytes → DirCache → DirCache
drop_key d c = record c { order = without d c.order; cached = remove_cached d c.cached }

drop_key-Synced :
    (d : Bytes) (c : DirCache)
    → Synced c.order (keys c)
    → Synced (without d c.order) (keys (drop_key d c))
drop_key-Synced d c h =
    subst (Synced (without d c.order)) (sym (keys-remove_cached d c.cached))
      (without-Synced d c.order (keys c) h)

module _ (d : Bytes) (c : DirCache) where
  pub get_hit :
      has_key d c ≡ true
      → get d c ≡ (find_cached d c.cached, record c { order = without d c.order ++ (d ∷ []) })
  unfolding get
  get_hit h = ground arith

  pub get_miss : has_key d c ≡ false → get d c ≡ (none, c)
  unfolding get
  get_miss h = ground arith

  pub room_hit : has_key d c ≡ true → make_room d c ≡ record c { order = without d c.order }
  unfolding make_room
  room_hit h = ground arith

  pub room_full :
      has_key d c ≡ false → c.capacity ≤ length c.cached → make_room d c ≡ evict_oldest c
  unfolding make_room
  room_full h full = ground arith

  pub room_free : has_key d c ≡ false → length c.cached < c.capacity → make_room d c ≡ c
  unfolding make_room
  room_free h free = ground arith

length-map : (cs : List Cached) → length (map Cached.digest cs) ≡ length cs
length-map [] = refl
length-map (c ∷ cs) = ap suc (length-map cs)

-- The cache after an insertion into the room made.
abbrev placed : Bytes → List CaDirectoryEntry → DirCache → DirCache
placed d es c = record c {
  order = c.order ++ (d ∷ []);
  cached = (record { digest = d; directory = es }) ∷ remove_cached d c.cached;
}

placed-IsBounded :
    (d : Bytes) (es : List CaDirectoryEntry) (c : DirCache)
    → Synced c.order (keys (drop_key d c))
    → contains d c.order ≡ false
    → length c.order < max 1 c.capacity
    → IsBounded (placed d es c)
placed-IsBounded d es c synced fresh room = (
  append-Synced d c.order (keys (drop_key d c)) synced fresh,
  omega (arith, length-append c.order (d ∷ [])),
)

-- A cache without the digest.
fresh-IsBounded :
    (d : Bytes) (es : List CaDirectoryEntry) (c : DirCache)
    → Synced c.order (keys c)
    → contains d c.order ≡ false
    → length c.order < max 1 c.capacity
    → IsBounded (placed d es c)
fresh-IsBounded d es c synced fresh room =
    placed-IsBounded d es c
      (subst (λ o. Synced o (keys (drop_key d c))) (without_absent d c.order fresh)
        (drop_key-Synced d c synced))
      fresh room

pub evict_none : (c : DirCache) → c.order ≡ [] → evict_oldest c ≡ c
unfolding evict_oldest
evict_none c none_there = ground (arith, none_there)

pub evict_some :
    (e : Bytes) (rest : List Bytes) (c : DirCache)
    → c.order ≡ e ∷ rest
    → evict_oldest c ≡ record c { order = rest; cached = remove_cached e c.cached }
unfolding evict_oldest
evict_some e rest c oldest = ground (arith, oldest)

without_head :
    (e : Bytes) (rest : List Bytes) → AllDistinct (e ∷ rest) → without e (e ∷ rest) ≡ rest
unfolding without retain
without_head e rest h = skipped ∙ without_absent e rest h.0
  where
    skipped : without e (e ∷ rest) ≡ without e rest
    skipped = ground (arith, bytes_eq_refl e)

-- The oldest entry gone, if there is one.
evicted-IsBounded :
    (d : Bytes) (es : List CaDirectoryEntry) (order : List Bytes) (c : DirCache)
    → c.order ≡ order
    → IsBounded c
    → contains d c.order ≡ false
    → IsBounded (placed d es (evict_oldest c))
evicted-IsBounded d es [] c none_there (synced, bound) fresh =
    subst (λ c'. IsBounded (placed d es c')) (sym (evict_none c none_there))
      (fresh-IsBounded d es c synced fresh
        (let no_order = ap length none_there in omega (arith, no_order)))
evicted-IsBounded d es (e ∷ rest) c oldest (synced, bound) fresh =
    let c' : DirCache = record c { order = rest; cached = remove_cached e c.cached } in
    let distinct : AllDistinct (e ∷ rest) = subst AllDistinct oldest synced.order_distinct in
    let less : Synced rest (keys c') =
      subst (λ o. Synced o (keys c')) (ap (without e) oldest ∙ without_head e rest distinct)
        (drop_key-Synced e c synced) in
    let unknown : contains d (e ∷ rest) ≡ false = subst (λ o. contains d o ≡ false) oldest fresh in
    let lengths = ap length oldest in
    subst (λ x. IsBounded (placed d es x)) (sym (evict_some e rest c oldest))
      (fresh-IsBounded d es c' less (ground (arith, contains-cons d e rest, unknown))
        (omega (arith, lengths, bound)))

pub insert-placed :
    (d : Bytes) (es : List CaDirectoryEntry) (c : DirCache)
    → insert d es c ≡ placed d es (make_room d c)
unfolding insert
insert-placed d es c = refl

pub insert-IsBounded :
    (d : Bytes) (es : List CaDirectoryEntry) (c : DirCache)
    → IsBounded c
    → IsBounded (insert d es c)
unfolding has_key
insert-IsBounded d es c (synced, bound) =
    subst IsBounded (sym (insert-placed d es c)) (elim (Bool-cases (has_key d c)) [
      | inl there ↦
          let shorter = length-without d c.order synced.order_distinct (synced.members d ∙ there) in
          subst (λ c'. IsBounded (placed d es c')) (sym (room_hit d c there))
            (placed-IsBounded d es (record c { order = without d c.order })
              (drop_key-Synced d c synced) (contains_gone d c.order)
              (omega (arith, shorter, bound)))
      | inr gone ↦ elim (Bool-cases (leb c.capacity (length c.cached))) [
        | inl full ↦
            subst (λ c'. IsBounded (placed d es c'))
              (sym (room_full d c gone (ground (arith, leb→le c.capacity (length c.cached)))))
              (evicted-IsBounded d es c.order c refl (synced, bound) (synced.members d ∙ gone))
        | inr free ↦
            let room : length c.cached < c.capacity = ground arith in
            let lengths = synced.lengths in
            subst (λ c'. IsBounded (placed d es c')) (sym (room_free d c gone room))
              (fresh-IsBounded d es c synced (synced.members d ∙ gone)
                (omega (arith, room, lengths, length-map c.cached)))
      ]
    ])

pub get-IsBounded : (d : Bytes) (c : DirCache) → IsBounded c → IsBounded (get d c).1
unfolding has_key
get-IsBounded d c (synced, bound) = elim (Bool-cases (has_key d c)) [
  | inr gone ↦
      subst (λ (r : Option (List CaDirectoryEntry) × DirCache). IsBounded r.1)
        (sym (get_miss d c gone)) (synced, bound)
  | inl there ↦
      subst (λ (r : Option (List CaDirectoryEntry) × DirCache). IsBounded r.1)
        (sym (get_hit d c there))
        (let same = moved-Synced d c.order (keys c) synced (synced.members d ∙ there) in
          (
            same,
            (let now = same.lengths in
                let before = synced.lengths in omega (arith, now, before, bound)),
          ))
]
