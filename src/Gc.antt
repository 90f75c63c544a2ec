-- ===== src/Gc.antt =====
-- crates/ekapkgs-serve/src/gc.rs: the garbage collector of the cache server.
-- The SQLite tables are lists of rows, a SQL `WHERE` is a test, and a cache directory is the list of
-- the names of its files. The statements are taken to succeed and the transactions to commit.
pub mod Evict
pub mod Order
pub mod Outcome
pub mod Loops
mod Examples
use ekapkgs_cli.Prelude.{
  ℕ, zero, suc, ◌+◌, ◌-◌, ◌*◌, ◌%◌, Bool, true, false, not, ◌&&◌, Option, none, some, List, [], ◌∷◌,
  ◌++◌, Bytes, bytes_eq, codes, contains, retain, map, length, leb, ◌==◌, if◌then◌else◌,
}
use Evict.{PathEntry, Ref, Sweep, start, rounds}

-- A row of the table `store_paths`.
pub record StorePath : Type 0 where
  pub hash : Bytes
  pub store_path : Bytes
  pub nar_url : Bytes
  pub file_size : ℕ
  pub narinfo_size : ℕ
  pub last_access : ℕ
  pub added_at : ℕ

-- The database, and the files of the cache directory by their names.
pub record Cache : Type 0 where
  pub store_paths : List StorePath
  pub refs : List Ref
  pub files : List Bytes

-- `SELECT COALESCE(SUM(file_size + narinfo_size), 0) FROM store_paths`
unfoldable pub total_size : List StorePath → ℕ
total_size [] = 0
total_size (p ∷ ps) = p.file_size + p.narinfo_size + total_size ps

abbrev pub to_entry : StorePath → PathEntry
to_entry p = record { hash = p.hash; nar_url = p.nar_url; size = p.file_size + p.narinfo_size }

unfoldable pub remove_file : Bytes → List Bytes → List Bytes
remove_file name = retain (λ f. not (bytes_eq f name))

-- The files and the rows of one evicted path. A file that is not there is no error.
unfoldable pub delete_entry : PathEntry → Cache → Cache
delete_entry entry c = record {
  store_paths = retain (λ (p : StorePath). not (bytes_eq p.hash entry.hash)) c.store_paths;
  refs =
      retain (λ (r : Ref). not (bytes_eq r.referee entry.hash))
        (retain (λ (r : Ref). not (bytes_eq r.referrer entry.hash)) c.refs);
  files = remove_file entry.nar_url (remove_file (entry.hash ++ codes ".narinfo") c.files);
}

unfoldable pub delete_entries : List PathEntry → Cache → Cache
delete_entries [] c = c
delete_entries (e ∷ es) c = delete_entries es (delete_entry e c)

-- What `run_gc` returns: the cache afterwards and the counters for the metrics.
pub record GcResult : Type 0 where
  pub cache : Cache
  pub evict_set : List Bytes
  pub freed : ℕ

abbrev pub unchanged : Cache → GcResult
unchanged c = record { cache = c; evict_set = []; freed = 0 }

-- The database's `ORDER BY last_access ASC`, whose order among equal keys is the database's.
module _ (order_by : List StorePath → List StorePath) where
  abbrev pub entries_of : Cache → List PathEntry
  entries_of c = map to_entry (order_by c.store_paths)

  -- After the loops: `evict_set` empty returns early, otherwise the entries in it are deleted.
  unfoldable pub finish : Cache → Sweep → GcResult
  finish c s =
      let to_evict = retain (λ (e : PathEntry). contains e.hash s.evict_set) (entries_of c) in
      if length s.evict_set == 0
      then unchanged c
      else record { cache = delete_entries to_evict c; evict_set = s.evict_set; freed = s.freed }

  -- `current_size.saturating_sub(target_size)` is `-`. The fuel is enough for every cache.
  unfoldable pub run_gc : Cache → ℕ → ℕ → Option GcResult
  run_gc c current_size target_size =
      let to_free = current_size - target_size in
      let entries = entries_of c in
      if to_free == 0
      then some (unchanged c)
      else elim (rounds entries c.refs to_free (length entries + 1) start) [
        | none ↦ none
        | some s ↦ some (finish c s)
      ]

  unfoldable pub maybe_run_gc : Cache → ℕ → ℕ → Option GcResult
  maybe_run_gc c max_size target_size =
      let total = total_size c.store_paths in
      if leb total max_size then some (unchanged c) else run_gc c total target_size

-- `flush_accesses` at the time `now`: the rows of the batch get the time, rounded down to an hour.
unfoldable pub flush_accesses : ℕ → List Bytes → List StorePath → List StorePath
flush_accesses now batch = map (λ (p : StorePath).
    if contains p.hash batch then record p { last_access = now - now % 3600 } else p)
