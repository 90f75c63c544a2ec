-- ===== src/Gc/Loops.antt =====
-- The background tasks of crates/ekapkgs-serve/src/gc.rs: `gc_loop` and `cas_gc_loop`, which have the same
-- shape, and `cas_maybe_run_gc`. What `select!` picks is a list of events, each with the time of the
-- turn; a store is of any type `S`. The statements of a flush are taken to succeed.
pub mod Accesses
pub mod Recent
pub mod Cas
pub mod Backend
mod Examples
use ekapkgs_cli.Prelude.{
  ℕ, zero, suc, ◌+◌, ◌-◌, ◌≡◌, Bool, true, false, not, Option, none, some, List, [], ◌∷◌, ◌++◌,
  Bytes, length, ltb, leb, ◌==◌, if◌then◌else◌,
}
use ekapkgs_cli.Gc.{Cache, GcResult, flush_accesses, maybe_run_gc, StorePath}
use ekapkgs_cli.Castore.{CastoreBackend, update_access}

-- What the loop reacts to: an event of the tracker, or the interval's tick.
pub data GcEvent : Type 0 where
  access : Bytes → GcEvent
  tick : GcEvent

pub record LoopState {ℓ} (S : Type ℓ) : Type ℓ where
  pub pending : List Bytes
  pub store : S

module _ {ℓ} {S : Type ℓ} (flush : ℕ → List Bytes → S → S) (collect : S → S) where
  -- One turn: a batch of 500 accesses is flushed, and every tick flushes what is pending and collects.
  unfoldable pub turn : ℕ → GcEvent → LoopState S → LoopState S
  turn now (access hash) l =
      let pending = l.pending ++ (hash ∷ []) in
      if leb 500 (length pending)
      then record { pending = []; store = flush now pending l.store }
      else record { pending = pending; store = l.store }
  turn now tick l =
      if length l.pending == 0
      then record { pending = []; store = collect l.store }
      else record { pending = []; store = collect (flush now l.pending l.store) }

  unfoldable pub turns : List (ℕ × GcEvent) → LoopState S → LoopState S
  turns [] l = l
  turns ((now, e) ∷ es) l = turns es (turn now e l)

-- `gc_loop`: a collection that fails leaves the cache as it is.
unfoldable pub gc_loop :
    (List StorePath → List StorePath)
    → ℕ
    → ℕ
    → List (ℕ × GcEvent)
    → LoopState Cache
    → LoopState Cache
gc_loop order_by max_size target_size =
    turns (λ now batch c. record c { store_paths = flush_accesses now batch c.store_paths })
      (λ c. elim (maybe_run_gc order_by c max_size target_size) [ none ↦ c | some r ↦ r.cache ])

-- What the collection asks of the content-addressed store. An error is `none`.
pub record CasOperations (S : Type 0) : Type 0 where
  pub total_chunk_bytes : S → Option ℕ
  pub path_files_ready : S → Bool
  pub paths_by_access_asc : S → Option (List Bytes)
  pub evict_path : Bytes → S → S × Option ℕ

-- The store and the two counters.
pub record CasGcResult (S : Type 0) : Type 0 where
  pub store : S
  pub freed : ℕ
  pub evicted : ℕ

module _ {S : Type 0} (ops : CasOperations S) where
  unfoldable pub evict_loop : ℕ → List Bytes → CasGcResult S → CasGcResult S
  evict_loop to_free [] r = r
  evict_loop to_free (hash ∷ paths) r =
      let attempt = ops.evict_path hash r.store in
      if leb to_free r.freed then r else elim attempt.1 [
        | none ↦ evict_loop to_free paths (record r { store = attempt.0 })
        | some bytes ↦
            evict_loop to_free paths
              (record { store = attempt.0; freed = r.freed + bytes; evicted = r.evicted + 1 })
      ]

  abbrev pub untouched : S → CasGcResult S
  untouched s = record { store = s; freed = 0; evicted = 0 }

  unfoldable pub cas_maybe_run_gc : ℕ → ℕ → S → Option (CasGcResult S)
  cas_maybe_run_gc max_size target_size s = elim (ops.total_chunk_bytes s) [
    | none ↦ none
    | some total ↦
        if leb total max_size
        then some (untouched s)
        else if not (ops.path_files_ready s)
        then some (untouched s)
        else elim (ops.paths_by_access_asc s) [
          | none ↦ none
          | some paths ↦
              if total - target_size == 0
              then some (untouched s)
              else some (evict_loop (total - target_size) paths (untouched s))
        ]
  ]

-- `cas_gc_loop`
unfoldable pub cas_gc_loop :
    CasOperations CastoreBackend
    → ℕ
    → ℕ
    → List (ℕ × GcEvent)
    → LoopState CastoreBackend
    → LoopState CastoreBackend
cas_gc_loop ops max_size target_size =
    turns update_access
      (λ s. elim (cas_maybe_run_gc ops max_size target_size s) [ none ↦ s | some r ↦ r.store ])
