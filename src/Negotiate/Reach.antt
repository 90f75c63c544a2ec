-- ===== src/Negotiate/Reach.antt =====
-- The loop of `expand_closure_hashes`, crates/ekapkgs-serve/src/api/negotiate.rs, over the frontier.
use ekapkgs_cli.Prelude.{
  ℕ, zero, suc, ◌≤◌, ◌≡◌, Empty, refl, ◌⊎◌, inl, inr, true, false, Option, List, [], ◌∷◌, Bytes,
  contains, bytes_eq, bytes_eq_refl, AllDistinct, length, Bool-cases, arith,
}
use ekapkgs_cli.Storage.{NarInfo}
use ekapkgs_cli.Negotiate.{known_references, Frontier, enqueue_all, closure_loop}
use ekapkgs_cli.Negotiate.Closure.{
  all_visited_before, all_queued_is_new, IsGood, enqueue_all-IsGood,
}

module _ (get_narinfo : Bytes → Option (Option NarInfo)) (have : List Bytes) where
  unfoldable pub frontier : List Bytes → List Bytes → Frontier
  frontier visited queue = record { visited = visited; queue = queue }

  unfoldable pub next : Bytes → List Bytes → List Bytes → Frontier
  next h visited queue =
      enqueue_all have (known_references get_narinfo h)
        (record { visited = visited; queue = queue })

  step :
      (room : ℕ) (visited : List Bytes) (h : Bytes) (queue : List Bytes)
      → closure_loop (suc room) get_narinfo have visited (h ∷ queue)
        ≡ h
          ∷ closure_loop room get_narinfo have
              (next h visited queue).visited
              (next h visited queue).queue
  unfolding closure_loop next
  step room visited h queue = refl

  pub length-closure_loop :
      (room : ℕ) (visited queue : List Bytes)
      → length (closure_loop room get_narinfo have visited queue) ≤ room
  unfolding closure_loop next
  length-closure_loop room visited [] = omega arith
  length-closure_loop zero visited (h ∷ queue) = omega arith
  length-closure_loop (suc room) visited (h ∷ queue) =
      let ih =
        length-closure_loop room (next h visited queue).visited (next h visited queue).queue in
      omega (arith, ih)

  -- What the loop returns was in the queue or had not been visited.
  from_queue :
      (x : Bytes) (room : ℕ) (visited queue : List Bytes)
      → contains x (closure_loop room get_narinfo have visited queue) ≡ true
      → (contains x queue ≡ true) ⊎ (contains x visited ≡ false)
  unfolding closure_loop contains next frontier
  from_queue x room visited [] p = absurd (ground arith)
  from_queue x zero visited (h ∷ queue) p = absurd (ground arith)
  from_queue x (suc room) visited (h ∷ queue) p =
      let f = next h visited queue in
      elim (Bool-cases (bytes_eq x h)) [
        | inl same ↦ inl (ground arith)
        | inr other ↦ elim (from_queue x room f.visited f.queue (ground arith)) [
          | inl q ↦
              elim (all_queued_is_new have x (known_references get_narinfo h)
                (frontier visited queue) q) [ inl old ↦ inl (ground arith) | inr new ↦ inr new ]
          | inr unseen ↦ elim (Bool-cases (contains x visited)) [
            | inl v ↦
                let kept =
                  all_visited_before have x (known_references get_narinfo h)
                    (frontier visited queue) v in
                absurd (ground arith)
            | inr v ↦ inr v
          ]
        ]
      ]

  head_visited :
      (visited : List Bytes) (h : Bytes) (queue : List Bytes)
      → IsGood have (record { visited = visited; queue = h ∷ queue })
      → contains h visited ≡ true
  unfolding contains
  head_visited visited h queue good = good.queued h (rw (bytes_eq_refl h) refl)

  pub next-IsGood :
      (visited : List Bytes) (h : Bytes) (queue : List Bytes)
      → IsGood have (record { visited = visited; queue = h ∷ queue })
      → IsGood have (next h visited queue)
  unfolding next contains
  next-IsGood visited h queue good = enqueue_all-IsGood have _ _ (record {
    distinct = good.distinct.1;
    queued = λ x q. good.queued x (ground arith);
    wanted = good.wanted;
  })

  head_once :
      (room : ℕ) (visited : List Bytes) (h : Bytes) (queue : List Bytes)
      → IsGood have (record { visited = visited; queue = h ∷ queue })
      → contains h (
          closure_loop room get_narinfo have
            (next h visited queue).visited
            (next h visited queue).queue)
        ≡ true
      → Empty {0}
  unfolding next frontier
  head_once room visited h queue good again =
      let f = next h visited queue in
      let seen = head_visited visited h queue good in
      let refs = known_references get_narinfo h in
      let start = frontier visited queue in
      elim (from_queue h room f.visited f.queue again) [
        | inl q ↦ elim (all_queued_is_new have h refs start q) [
          | inl old ↦ absurd (ground (arith, good.distinct.0, old))
          | inr new ↦ absurd (ground (arith, seen, new))
        ]
        | inr unseen ↦ absurd (ground (arith, all_visited_before have h refs start seen, unseen))
      ]

  pub closure_loop-AllDistinct :
      (room : ℕ) (visited queue : List Bytes)
      → IsGood have (record { visited = visited; queue = queue })
      → AllDistinct (closure_loop room get_narinfo have visited queue)
  unfolding closure_loop next
  closure_loop-AllDistinct room visited [] good = tt
  closure_loop-AllDistinct zero visited (h ∷ queue) good = tt
  closure_loop-AllDistinct (suc room) visited (h ∷ queue) good = (
    elim (Bool-cases (
        contains h (
          closure_loop room get_narinfo have (next h visited queue).visited
            (next h visited queue).queue))) [
              | inl again ↦ elim (head_once room visited h queue good again) [ ]
              | inr once ↦ once
            ],
    closure_loop-AllDistinct room (next h visited queue).visited (next h visited queue).queue
        (next-IsGood visited h queue good),
  )
