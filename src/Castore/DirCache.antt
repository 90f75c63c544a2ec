-- ===== src/Castore/DirCache.antt =====
-- `DirCache` of crates/ekapkgs-serve/src/storage/castore.rs, the cache of directories with the least recently
-- used at the front, and `load_directory` through it.
pub mod Synced
pub mod Bounded
pub mod Laws
mod Examples
use ekapkgs_cli.Prelude.{
  ℕ, ◌+◌, ◌≡◌, Bool, true, false, not, Option, none, some, List, [], ◌∷◌, ◌++◌, map, Bytes,
  bytes_eq, contains, retain, length, leb, if◌then◌else◌,
}
use ekapkgs_cli.Nar.Streaming.{CaDirectoryEntry}
use ekapkgs_cli.Castore.{CastoreBackend}
use ekapkgs_cli.Castore.Ingest.{Codecs, load_directory}

-- A cached directory.
pub record Cached : Type 0 where
  pub digest : Bytes
  pub directory : List CaDirectoryEntry

pub record DirCache : Type 0 where
  pub cached : List Cached
  pub order : List Bytes
  pub capacity : ℕ

-- `DIR_CACHE_CAPACITY`
abbrev pub dir_cache_capacity : ℕ
dir_cache_capacity = 4096

unfoldable pub new : ℕ → DirCache
new capacity = record { cached = []; order = []; capacity = capacity }

-- `HashMap::get`, `HashMap::remove` and `order.retain`.
unfoldable pub find_cached : Bytes → List Cached → Option (List CaDirectoryEntry)
find_cached d [] = none
find_cached d (c ∷ cs) =
    let rest = find_cached d cs in if bytes_eq c.digest d then some c.directory else rest

unfoldable pub remove_cached : Bytes → List Cached → List Cached
remove_cached d = retain (λ (c : Cached). not (bytes_eq c.digest d))

unfoldable pub without : Bytes → List Bytes → List Bytes
without d = retain (λ e. not (bytes_eq e d))

unfoldable pub has_key : Bytes → DirCache → Bool
has_key d c = contains d (map Cached.digest c.cached)

unfoldable pub get : Bytes → DirCache → Option (List CaDirectoryEntry) × DirCache
get d c =
    if has_key d c
    then (find_cached d c.cached, record c { order = without d c.order ++ (d ∷ []) })
    else (none, c)

-- The least recently used entry goes.
unfoldable pub evict_oldest : DirCache → DirCache
evict_oldest c = elim c.order [
  | [] ↦ c
  | evicted ∷ order ↦ record c { order = order; cached = remove_cached evicted c.cached }
]

unfoldable pub make_room : Bytes → DirCache → DirCache
make_room d c =
    let room = evict_oldest c in
    if has_key d c
    then record c { order = without d c.order }
    else if leb c.capacity (length c.cached)
    then room
    else c

unfoldable pub insert : Bytes → List CaDirectoryEntry → DirCache → DirCache
insert d directory c =
    let c' = make_room d c in
    record c' {
      order = c'.order ++ (d ∷ []);
      cached = (record { digest = d; directory = directory }) ∷ remove_cached d c'.cached;
    }

-- `load_directory` of a backend whose cache is the given one.
unfoldable pub load_directory_through :
    Codecs → CastoreBackend → Bytes → DirCache → Option (List CaDirectoryEntry) × DirCache
load_directory_through k s d c =
    let found = get d c in
    elim found.0 [
      | some directory ↦ (some directory, found.1)
      | none ↦ elim (load_directory k s d) [
        | none ↦ (none, found.1)
        | some directory ↦ (some directory, insert d directory found.1)
      ]
    ]
