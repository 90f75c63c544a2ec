-- ===== src/Negotiate.antt =====
-- crates/ekapkgs-serve/src/api/negotiate.rs: the closure expansion, the download plan and the package
-- name of a store path. `PathManifestEntry` and the plan's messages are those of
-- proto/ekapkgs/v1/cache.proto, with the fields that this code reads.
pub mod Plan
pub mod Layers
pub mod Complete
pub mod Circular
pub mod Closure
pub mod Reach
pub mod Expand
mod Examples
use ekapkgs_cli.Prelude.{
  ℕ, zero, suc, ◌+◌, ◌%◌, ◌^◌, Bool, true, false, ◌&&◌, ◌||◌, ◌==◌, not, Option, none, some, List,
  [], ◌∷◌, ◌++◌, map, Bytes, contains, length, retain, if◌then◌else◌,
}
use ekapkgs_cli.Storage.{NarInfo}
use ekapkgs_cli.StorePath.{store_path_hash, split_once, before_first, after_last, starts_with_digit}

pub record PathManifestEntry : Type 0 where
  pub store_path : Bytes
  pub references : List Bytes

pub record DownloadBatch : Type 0 where
  pub paths : List Bytes
  pub priority : ℕ

unfoldable pub entry_hash : PathManifestEntry → Bytes
entry_hash entry = store_path_hash entry.store_path

-- `references.iter().all(|r| resolved.contains(hash of r))`
unfoldable pub all_resolved : List Bytes → List Bytes → Bool
all_resolved resolved [] = true
all_resolved resolved (r ∷ references) =
    contains (store_path_hash r) resolved && all_resolved resolved references

unfoldable pub is_ready : List Bytes → PathManifestEntry → Bool
is_ready resolved entry = all_resolved resolved entry.references

unfoldable pub batch_of : List PathManifestEntry → ℕ → DownloadBatch
batch_of entries index = record { paths = map entry_hash entries; priority = index % 2 ^ 32 }

-- The batch of what is left when no entry is ready, if anything is left.
unfoldable pub dump : List PathManifestEntry → ℕ → List DownloadBatch
dump [] index = []
dump (e ∷ entries) index = batch_of (e ∷ entries) index ∷ []

-- The loop: `remaining` are the entries not in `assigned`, `index` is `batches.len()`.
unfoldable pub plan_loop : ℕ → List PathManifestEntry → List Bytes → ℕ → List DownloadBatch
plan_loop zero remaining resolved index = []
plan_loop (suc fuel) remaining resolved index =
    let ready = retain (is_ready resolved) remaining in
    let left = retain (λ e. not (is_ready resolved e)) remaining in
    let rest = plan_loop fuel left (map entry_hash ready ++ resolved) (index + 1) in
    elim ready [
      | [] ↦ dump remaining index
      | r ∷ rs ↦ batch_of (r ∷ rs) index ∷ (elim left [ [] ↦ [] | l ∷ ls ↦ rest ])
    ]

-- Each round but the last assigns an entry, so one round more than entries is enough.
unfoldable pub build_download_plan : List PathManifestEntry → List Bytes → List DownloadBatch
build_download_plan entries have = plan_loop (suc (length entries)) entries have 0

-- The hashes that `expand_closure_hashes` goes on to from `hash`: none if the narinfo is missing or fails.
unfoldable pub known_references : (Bytes → Option (Option NarInfo)) → Bytes → List Bytes
known_references get_narinfo hash = elim (get_narinfo hash) [
  | none ↦ []
  | some none ↦ []
  | some (some ni) ↦ map store_path_hash ni.references
]

-- `visited` and `queue`
pub record Frontier : Type 0 where
  pub visited : List Bytes
  pub queue : List Bytes

unfoldable pub enqueue : List Bytes → Bytes → Frontier → Frontier
enqueue have hash f =
    if contains hash have || contains hash f.visited
    then f
    else record { visited = hash ∷ f.visited; queue = f.queue ++ (hash ∷ []) }

unfoldable pub enqueue_all : List Bytes → List Bytes → Frontier → Frontier
enqueue_all have [] f = f
enqueue_all have (hash ∷ hashes) f = enqueue_all have hashes (enqueue have hash f)

-- The `while` loop: `room` is `MAX_CLOSURE_SIZE - result.len()`, which each turn takes one from.
unfoldable pub closure_loop :
    ℕ → (Bytes → Option (Option NarInfo)) → List Bytes → List Bytes → List Bytes → List Bytes
closure_loop room get_narinfo have visited [] = []
closure_loop zero get_narinfo have visited (hash ∷ queue) = []
closure_loop (suc room) get_narinfo have visited (hash ∷ queue) =
    let f =
      enqueue_all have (known_references get_narinfo hash)
        (record { visited = visited; queue = queue }) in
    hash ∷ closure_loop room get_narinfo have f.visited f.queue

abbrev pub max_closure_size : ℕ
max_closure_size = 50000

unfoldable pub expand_closure_hashes :
    (Bytes → Option (Option NarInfo)) → List Bytes → List Bytes → List Bytes
expand_closure_hashes get_narinfo seeds have =
    let f = enqueue_all have seeds (record { visited = []; queue = [] }) in
    closure_loop max_closure_size get_narinfo have f.visited f.queue

-- `split('-').collect()`
unfoldable pub split_dashes : Bytes → List Bytes
split_dashes [] = [] ∷ []
split_dashes (b ∷ bs) =
    let rest = split_dashes bs in
    if b == b'-'
    then [] ∷ rest
    else elim rest [ [] ↦ (b ∷ []) ∷ [] | part ∷ parts ↦ (b ∷ part) ∷ parts ]

-- `join("-")`
unfoldable pub join_dashes : List Bytes → Bytes
join_dashes [] = []
join_dashes (part ∷ []) = part
join_dashes (part ∷ next ∷ parts) = part ++ (b'-' ∷ join_dashes (next ∷ parts))

-- `parts[..pname_end]`: the parts without the longest end of parts that start with a digit.
unfoldable pub strip_version : List Bytes → List Bytes
strip_version [] = []
strip_version (part ∷ parts) =
    let rest = strip_version parts in
    elim rest [ [] ↦ (if starts_with_digit part then [] else part ∷ []) | p ∷ ps ↦ part ∷ p ∷ ps ]

unfoldable pub extract_pname : Bytes → Option Bytes
extract_pname store_path = elim (split_once b'-' (after_last b'/' store_path)) [
  | none ↦ none
  | some (hash, after_hash) ↦ some (elim (strip_version (split_dashes after_hash)) [
    | [] ↦ after_hash
    | p ∷ ps ↦ join_dashes (p ∷ ps)
  ])
]
