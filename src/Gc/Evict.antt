-- ===== src/Gc/Evict.antt =====
-- The reference-aware LRU eviction of `run_gc` in crates/ekapkgs-serve/src/gc.rs: which paths are
-- evicted. Hash sets are lists that are asked only what they contain.
pub mod Rule
pub mod Safety
pub mod Freed
pub mod Progress
use ekapkgs_cli.Prelude.{
  ℕ, zero, suc, ◌+◌, Bool, true, false, not, ◌&&◌, Option, none, some, List, [], ◌∷◌, Bytes,
  bytes_eq, contains, any, map, leb, if◌then◌else◌,
}

-- A row of the query, in the order of `last_access`.
pub record PathEntry : Type 0 where
  pub hash : Bytes
  pub nar_url : Bytes
  pub size : ℕ

-- A row of the table `refs`.
pub record Ref : Type 0 where
  pub referrer : Bytes
  pub referee : Bytes

abbrev pub hashes : List PathEntry → List Bytes
hashes = map (λ (e : PathEntry). e.hash)

-- `referenced_by[hash]`: the referrers of `hash` among the stored paths.
unfoldable pub referenced_by : List Bytes → List Ref → Bytes → List Bytes
referenced_by all_hashes [] hash = []
referenced_by all_hashes (r ∷ refs) hash =
    let rest = referenced_by all_hashes refs hash in
    if contains r.referrer all_hashes && bytes_eq r.referee hash then r.referrer ∷ rest else rest

-- What the two loops change.
pub record Sweep : Type 0 where
  pub evict_set : List Bytes
  pub freed : ℕ
  pub evicted_any : Bool

abbrev pub start : Sweep
start = record { evict_set = []; freed = 0; evicted_any = false }

abbrev pub evict_one : PathEntry → Sweep → Sweep
evict_one e s = record {
  evict_set = e.hash ∷ s.evict_set;
  freed = s.freed + e.size;
  evicted_any = true;
}

module _ (entries : List PathEntry) (refs : List Ref) where
  -- Some path that is kept, other than `hash` itself, refers to `hash`.
  unfoldable pub pinned : Bytes → List Bytes → Bool
  unfolding any
  pinned hash evict_set =
      any (λ r. not (bytes_eq r hash) && contains r (hashes entries) && not (contains r evict_set))
        (referenced_by (hashes entries) refs hash)

module _ (entries : List PathEntry) (refs : List Ref) (to_free : ℕ) where
  -- One round over the entries that are left; it stops when enough is freed.
  unfoldable pub sweep : List PathEntry → Sweep → Sweep
  sweep [] s = s
  sweep (e ∷ es) s =
      let skip = sweep es s in
      let next = sweep es (evict_one e s) in
      if contains e.hash s.evict_set
      then skip
      else if pinned entries refs e.hash s.evict_set
      then skip
      else if leb to_free (s.freed + e.size)
      then evict_one e s
      else next

  -- The outer loop, on fuel; `none` is running out of it.
  unfoldable pub rounds : ℕ → Sweep → Option Sweep
  rounds zero s = none
  rounds (suc fuel) s =
      let next = sweep entries (record s { evicted_any = false }) in
      let rest = rounds fuel next in
      if leb to_free s.freed then some s else if next.evicted_any then rest else some next
