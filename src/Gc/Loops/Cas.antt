-- ===== src/Gc/Loops/Cas.antt =====
-- `cas_maybe_run_gc` of crates/ekapkgs-serve/src/gc.rs, over any store whose eviction reports what it frees,
-- and the content-addressed store as such a store.
use ekapkgs_cli.Prelude.{
  ℕ, ◌+◌, ◌-◌, ◌≤◌, ◌<◌, ◌≡◌, refl, ◌⊎◌, inl, inr, true, false, none, some, List, [], ◌∷◌, Bytes,
  leb, ◌==◌, Bool-cases, Option-cases, arith,
}
use ekapkgs_cli.Gc.Loops.{CasOperations, CasGcResult, evict_loop, untouched, cas_maybe_run_gc}

-- The store reports its size; an eviction that succeeds reports the bytes that the store loses, and one
-- that fails leaves the size.
pub record CasLaws (S : Type 0) (ops : CasOperations S) (size : S → ℕ) (IsValid : S → Type 0)
    : Type 0 where
  pub total : (s : S) → ops.total_chunk_bytes s ≡ some (size s)
  pub valid : (hash : Bytes) (s : S) → IsValid s → IsValid (ops.evict_path hash s).0
  pub freed :
      (hash : Bytes) (s : S) (bytes : ℕ)
      → IsValid s
      → (ops.evict_path hash s).1 ≡ some bytes
      → size (ops.evict_path hash s).0 + bytes ≡ size s
  pub failed :
      (hash : Bytes) (s : S)
      → IsValid s
      → (ops.evict_path hash s).1 ≡ none
      → size (ops.evict_path hash s).0 ≡ size s

-- The eviction of every path.
unfoldable pub evict_each : {S : Type 0} → CasOperations S → List Bytes → S → S
evict_each ops [] s = s
evict_each ops (hash ∷ paths) s = evict_each ops paths (ops.evict_path hash s).0

module _ {S : Type 0} (ops : CasOperations S) (size : S → ℕ) (IsValid : S → Type 0)
    (laws : CasLaws S ops size IsValid) where
  -- What the loop guarantees of its result, from a state whose store and freed bytes make up `total`.
  Ends : ℕ → ℕ → S → CasGcResult S → Type 0
  Ends total to_free every r =
      (size r.store + r.freed ≡ total) × ((to_free ≤ r.freed) ⊎ (r.store ≡ every))

  evict_loop-Ends :
      (total to_free : ℕ) (paths : List Bytes) (r : CasGcResult S)
      → IsValid r.store
      → size r.store + r.freed ≡ total
      → Ends total to_free (evict_each ops paths r.store) (evict_loop ops to_free paths r)
  unfolding Ends evict_loop evict_each
  evict_loop-Ends total to_free [] r valid sum = (sum, inr refl)
  evict_loop-Ends total to_free (hash ∷ paths) r valid sum =
      let s' = (ops.evict_path hash r.store).0 in
      let valid' = laws.valid hash r.store valid in
      elim (Bool-cases (leb to_free r.freed)) [
        | inl enough ↦ rw enough (sum, inl (ground arith))
        | inr more ↦ elim (Option-cases (ops.evict_path hash r.store).1) [
          | inl err ↦
              rw (more, err)
                (evict_loop-Ends total to_free paths (record r { store = s' }) valid'
                  (omega (arith, laws.failed hash r.store valid err, sum)))
          | inr (bytes, ok) ↦
              rw (more, ok)
                (evict_loop-Ends total to_free paths
                  (record { store = s'; freed = r.freed + bytes; evicted = r.evicted + 1 }) valid'
                  (omega (arith, laws.freed hash r.store bytes valid ok, sum)))
        ]
      ]

  -- Over a store that keeps the laws of eviction, whose table of files is ready and whose paths can be
  -- listed, a collection of a store over its limit returns a result: the bytes that stay and those
  -- reported as freed make up those before, and the store is within the target or is what the eviction
  -- of every listed path leaves.
  pub cas_maybe_run_gc_target :
      (max_size target_size : ℕ) (paths : List Bytes) (s : S)
      → IsValid s
      → max_size < size s
      → ops.path_files_ready s ≡ true
      → ops.paths_by_access_asc s ≡ some paths
      → (r : CasGcResult S) × (cas_maybe_run_gc ops max_size target_size s ≡ some r)
        × (size r.store + r.freed ≡ size s)
        × ((size r.store ≤ target_size) ⊎ (r.store ≡ evict_each ops paths s))
  unfolding cas_maybe_run_gc Ends
  cas_maybe_run_gc_target max_size target_size paths s valid full ready listed =
      let over : leb (size s) max_size ≡ false = ground arith in
      elim (Bool-cases (size s - target_size == 0)) [
        | inl within ↦
            (untouched ops s, ground (arith, laws.total s), omega arith, inl (ground arith))
        | inr beyond ↦
            let r = evict_loop ops (size s - target_size) paths (untouched ops s) in
            let ends =
              evict_loop-Ends (size s) (size s - target_size) paths (untouched ops s) valid
                (omega arith) in
            (
              r,
              ground (arith, laws.total s),
              ends.0,
              elim ends.1 [
                | inl enough ↦ inl (omega (arith, ends.0, enough))
                | inr every ↦ inr every
              ],
            )
      ]

  -- Over a store that keeps the laws of eviction, a collection leaves a store within its limit, or
  -- whose table of files is not ready, as it is.
  cas_maybe_run_gc_deferred :
      (max_size target_size : ℕ) (s : S)
      → (size s ≤ max_size) ⊎ (ops.path_files_ready s ≡ false)
      → cas_maybe_run_gc ops max_size target_size s ≡ some (untouched ops s)
  unfolding cas_maybe_run_gc
  cas_maybe_run_gc_deferred max_size target_size s (inl within) =
      let under : leb (size s) max_size ≡ true = ground arith in ground (arith, laws.total s)
  cas_maybe_run_gc_deferred max_size target_size s (inr filling) =
      elim (Bool-cases (leb (size s) max_size)) [
        | inl under ↦ ground (arith, laws.total s)
        | inr over ↦ ground (arith, laws.total s)
      ]
