-- ===== src/Negotiate/Expand.antt =====
-- What `expand_closure_hashes` of crates/ekapkgs-serve/src/api/negotiate.rs returns.
use ekapkgs_cli.Prelude.{
  ℕ, zero, suc, ◌<◌, ◌≤◌, ◌≡◌, refl, subst, ◌⊎◌, inl, inr, true, false, Option, List, [], ◌∷◌,
  Bytes, contains, bytes_eq, bytes_eq→eq, bytes_eq_refl, AllDistinct, length, All, Bool-cases,
  arith,
}
use ekapkgs_cli.Storage.{NarInfo}
use ekapkgs_cli.Negotiate.{
  known_references, Frontier, enqueue_all, closure_loop, max_closure_size, expand_closure_hashes,
}
use ekapkgs_cli.Negotiate.Closure.{
  all_queued_before, all_visited_or_queued, all_enqueued, IsGood, enqueue_all-IsGood,
}
use ekapkgs_cli.Negotiate.Reach.{
  frontier, next, next-IsGood, length-closure_loop, closure_loop-AllDistinct,
}

module _ (get_narinfo : Bytes → Option (Option NarInfo)) (have : List Bytes) where
  loop : ℕ → List Bytes → List Bytes → List Bytes
  loop room visited queue = closure_loop room get_narinfo have visited queue

  loop-wanted :
      (x : Bytes) (room : ℕ) (visited queue : List Bytes)
      → IsGood have (frontier get_narinfo have visited queue)
      → contains x (loop room visited queue) ≡ true
      → contains x have ≡ false
  unfolding loop closure_loop contains next frontier
  loop-wanted x room visited [] good p = absurd (ground arith)
  loop-wanted x zero visited (h ∷ queue) good p = absurd (ground arith)
  loop-wanted x (suc room) visited (h ∷ queue) good p =
      let f = next get_narinfo have h visited queue in
      elim (Bool-cases (bytes_eq x h)) [
        | inl same ↦ good.wanted x (good.queued x (ground arith))
        | inr other ↦
            loop-wanted x room f.visited f.queue (next-IsGood get_narinfo have visited h queue good)
              (ground arith)
      ]

  -- Below the cap the loop ends with an empty queue.
  loop_drains :
      (x : Bytes) (room : ℕ) (visited queue : List Bytes)
      → length (loop room visited queue) < room
      → contains x queue ≡ true
      → contains x (loop room visited queue) ≡ true
  unfolding loop closure_loop contains next frontier
  loop_drains x room visited [] below p = absurd (ground arith)
  loop_drains x zero visited (h ∷ queue) below p = absurd (omega arith)
  loop_drains x (suc room) visited (h ∷ queue) below p =
      let f = next get_narinfo have h visited queue in
      elim (Bool-cases (bytes_eq x h)) [
        | inl same ↦ ground arith
        | inr other ↦
            let queued =
              all_queued_before have x (known_references get_narinfo h)
                (frontier get_narinfo have visited queue) (ground arith) in
            let rest = loop_drains x room f.visited f.queue (omega arith) queued in ground arith
      ]

  loop_closed :
      (x r : Bytes) (room : ℕ) (visited queue : List Bytes)
      → length (loop room visited queue) < room
      → contains x (loop room visited queue) ≡ true
      → contains r (known_references get_narinfo x) ≡ true
      → (contains r have ≡ true)
        ⊎ (contains r visited ≡ true)
        ⊎ (contains r (loop room visited queue) ≡ true)
  unfolding loop closure_loop contains next frontier
  loop_closed x r room visited [] below p k = absurd (ground arith)
  loop_closed x r zero visited (h ∷ queue) below p k = absurd (omega arith)
  loop_closed x r (suc room) visited (h ∷ queue) below p k =
      let f = next get_narinfo have h visited queue in
      let refs = known_references get_narinfo h in
      let start = frontier get_narinfo have visited queue in
      let place = (λ (v : contains r f.visited ≡ true).
        elim (all_visited_or_queued have r refs start v)
          as (λ _.
            (contains r visited ≡ true) ⊎ (contains r (h ∷ loop room f.visited f.queue) ≡ true)) [
              | inl old ↦ inl old
              | inr q ↦
                  let found = loop_drains r room f.visited f.queue (omega arith) q in
                  inr (ground arith)
            ]) in
      elim (Bool-cases (bytes_eq x h)) [
        | inl same ↦
            elim (all_enqueued have r refs start (
              subst (λ y. contains r (known_references get_narinfo y) ≡ true) (bytes_eq→eq x h same)
                k)) [ inl c ↦ inl c | inr v ↦ inr (place v) ]
        | inr other ↦ elim (loop_closed x r room f.visited f.queue (omega arith) (ground arith) k) [
          | inl c ↦ inl c
          | inr (inl v) ↦ inr (place v)
          | inr (inr q) ↦ inr (inr (ground arith))
        ]
      ]

All-contains :
    (P : Bytes → Type 0) (xs : List Bytes) → ((x : Bytes) → contains x xs ≡ true → P x) → All P xs
unfolding contains
All-contains P [] f = tt
All-contains P (x ∷ xs) f =
    (f x (rw (bytes_eq_refl x) refl), All-contains P xs (λ y p. f y (ground arith)))

module _ (get_narinfo : Bytes → Option (Option NarInfo)) (seeds have : List Bytes) where
  seeded : Frontier
  seeded = enqueue_all have seeds (frontier get_narinfo have [] [])

  seeded-IsGood : IsGood have seeded
  unfolding seeded frontier contains
  seeded-IsGood =
      enqueue_all-IsGood have seeds _
        (record { distinct = tt; queued = λ x q. q; wanted = λ x q. absurd (ground arith) })

  -- The returned hashes are different, at most 50000, and none is among the hashes at hand.
  pub expand_closure_hashes-AllDistinct :
      AllDistinct (expand_closure_hashes get_narinfo seeds have)
      × (length (expand_closure_hashes get_narinfo seeds have) ≤ max_closure_size)
      × All (λ x. contains x have ≡ false) (expand_closure_hashes get_narinfo seeds have)
  unfolding expand_closure_hashes seeded loop frontier
  expand_closure_hashes-AllDistinct = (
    closure_loop-AllDistinct get_narinfo have max_closure_size seeded.visited seeded.queue
        seeded-IsGood,
    length-closure_loop get_narinfo have max_closure_size seeded.visited seeded.queue,
    All-contains _ _ (λ x p.
        loop-wanted get_narinfo have x max_closure_size seeded.visited seeded.queue seeded-IsGood
          p),
  )

  queued_seed : (x : Bytes) → contains x seeded.visited ≡ true → contains x seeded.queue ≡ true
  unfolding seeded frontier contains
  queued_seed x v = elim (all_visited_or_queued have x seeds (frontier get_narinfo have [] []) v) [
    | inl none ↦ absurd (ground arith)
    | inr q ↦ q
  ]

  drained_seed :
      (x : Bytes)
      → length (expand_closure_hashes get_narinfo seeds have) < max_closure_size
      → contains x seeded.visited ≡ true
      → contains x (expand_closure_hashes get_narinfo seeds have) ≡ true
  unfolding expand_closure_hashes seeded loop frontier
  drained_seed x below v =
      loop_drains get_narinfo have x max_closure_size seeded.visited seeded.queue below
        (queued_seed x v)

  -- Below the cap, a seed and a reference of a returned path are returned or among the hashes at hand.
  pub expand_closure_hashes_closed :
      (x : Bytes)
      → length (expand_closure_hashes get_narinfo seeds have) < max_closure_size
      → (contains x seeds ≡ true)
        ⊎ ((y : Bytes) × (contains y (expand_closure_hashes get_narinfo seeds have) ≡ true)
            × (contains x (known_references get_narinfo y) ≡ true))
      → (contains x have ≡ true)
        ⊎ (contains x (expand_closure_hashes get_narinfo seeds have) ≡ true)
  unfolding expand_closure_hashes seeded loop frontier
  expand_closure_hashes_closed x below (inl seed) =
      elim (all_enqueued have x seeds (frontier get_narinfo have [] []) seed) [
        | inl c ↦ inl c
        | inr v ↦ inr (drained_seed x below v)
      ]
  expand_closure_hashes_closed x below (inr (y, listed, reference)) =
      elim (loop_closed get_narinfo have y x max_closure_size seeded.visited seeded.queue below
        listed reference) [
          | inl c ↦ inl c
          | inr (inl v) ↦ inr (drained_seed x below v)
          | inr (inr q) ↦ inr q
        ]
