-- ===== src/Negotiate/Closure.antt =====
-- `expand_closure_hashes` of crates/ekapkgs-serve/src/api/negotiate.rs: no hash twice, none of `have`, at
-- most the cap, and below the cap everything that can be reached.
use ekapkgs_cli.Prelude.{
  ◌≡◌, refl, subst, ◌⊎◌, inl, inr, true, false, ◌||◌, List, [], ◌∷◌, ◌++◌, Bytes, contains,
  contains-append, bytes_eq, bytes_eq→eq, bytes_eq_refl, AllDistinct, Bool-cases, arith,
}
use ekapkgs_cli.Negotiate.{Frontier, enqueue, enqueue_all}

-- What one step adds to the frontier, seen from a hash `x`.
module _ (have : List Bytes) (x : Bytes) where
  visited_before :
      (h : Bytes) (f : Frontier)
      → contains x f.visited ≡ true
      → contains x (enqueue have h f).visited ≡ true
  unfolding enqueue contains
  visited_before h f p = ground arith

  queued_before :
      (h : Bytes) (f : Frontier)
      → contains x f.queue ≡ true
      → contains x (enqueue have h f).queue ≡ true
  unfolding enqueue contains
  queued_before h f p = ground (arith, contains-append x f.queue (h ∷ []))

  visited_or_queued :
      (h : Bytes) (f : Frontier)
      → contains x (enqueue have h f).visited ≡ true
      → (contains x f.visited ≡ true) ⊎ (contains x (enqueue have h f).queue ≡ true)
  unfolding enqueue contains
  visited_or_queued h f p = ground (arith, contains-append x f.queue (h ∷ []))

  queued_is_new :
      (h : Bytes) (f : Frontier)
      → contains x (enqueue have h f).queue ≡ true
      → (contains x f.queue ≡ true) ⊎ (contains x f.visited ≡ false)
  unfolding enqueue contains
  queued_is_new h f p = ground (arith, contains-append x f.queue (h ∷ []), bytes_eq→eq x h)

  enqueued :
      (f : Frontier) → (contains x have ≡ true) ⊎ (contains x (enqueue have x f).visited ≡ true)
  unfolding enqueue contains
  enqueued f = ground (arith, bytes_eq_refl x)

  -- The same for a list of hashes.
  pub all_visited_before :
      (hs : List Bytes) (f : Frontier)
      → contains x f.visited ≡ true
      → contains x (enqueue_all have hs f).visited ≡ true
  unfolding enqueue_all
  all_visited_before [] f p = p
  all_visited_before (h ∷ hs) f p = all_visited_before hs (enqueue have h f) (visited_before h f p)

  pub all_queued_before :
      (hs : List Bytes) (f : Frontier)
      → contains x f.queue ≡ true
      → contains x (enqueue_all have hs f).queue ≡ true
  unfolding enqueue_all
  all_queued_before [] f p = p
  all_queued_before (h ∷ hs) f p = all_queued_before hs (enqueue have h f) (queued_before h f p)

  pub all_visited_or_queued :
      (hs : List Bytes) (f : Frontier)
      → contains x (enqueue_all have hs f).visited ≡ true
      → (contains x f.visited ≡ true) ⊎ (contains x (enqueue_all have hs f).queue ≡ true)
  unfolding enqueue_all
  all_visited_or_queued [] f p = inl p
  all_visited_or_queued (h ∷ hs) f p = elim (all_visited_or_queued hs (enqueue have h f) p) [
    | inl v ↦ elim (visited_or_queued h f v) [
      | inl w ↦ inl w
      | inr q ↦ inr (all_queued_before hs (enqueue have h f) q)
    ]
    | inr q ↦ inr q
  ]

  pub all_queued_is_new :
      (hs : List Bytes) (f : Frontier)
      → contains x (enqueue_all have hs f).queue ≡ true
      → (contains x f.queue ≡ true) ⊎ (contains x f.visited ≡ false)
  unfolding enqueue_all
  all_queued_is_new [] f p = inl p
  all_queued_is_new (h ∷ hs) f p = elim (all_queued_is_new hs (enqueue have h f) p) [
    | inl q ↦ queued_is_new h f q
    | inr v ↦
        let before = visited_before h f in
        elim (Bool-cases (contains x f.visited)) [
          | inl w ↦ absurd (ground (arith, before w))
          | inr w ↦ inr w
        ]
  ]

  pub all_enqueued :
      (hs : List Bytes) (f : Frontier)
      → contains x hs ≡ true
      → (contains x have ≡ true) ⊎ (contains x (enqueue_all have hs f).visited ≡ true)
  unfolding enqueue_all contains
  all_enqueued [] f p = absurd (ground arith)
  all_enqueued (h ∷ hs) f p = elim (Bool-cases (bytes_eq x h)) [
    | inl same ↦ elim (enqueued f) [
      | inl c ↦ inl c
      | inr v ↦
          let e = bytes_eq→eq x h same in
          inr (
            subst (λ y. contains x (enqueue_all have hs (enqueue have y f)).visited ≡ true) e
              (all_visited_before hs (enqueue have x f) v))
    ]
    | inr other ↦ all_enqueued hs (enqueue have h f) (ground arith)
  ]

-- The queue holds different hashes, visited and not in `have`.
pub record IsGood (have : List Bytes) (f : Frontier) : Type 0 where
  pub distinct : AllDistinct f.queue
  pub queued : (x : Bytes) → contains x f.queue ≡ true → contains x f.visited ≡ true
  pub wanted : (x : Bytes) → contains x f.visited ≡ true → contains x have ≡ false

AllDistinct-snoc :
    (h : Bytes) (xs : List Bytes)
    → contains h xs ≡ false
    → AllDistinct xs
    → AllDistinct (xs ++ (h ∷ []))
unfolding contains
AllDistinct-snoc h [] p d = (refl, tt)
AllDistinct-snoc h (x ∷ xs) p d = (
  ground (arith, contains-append x xs (h ∷ []), d.0, bytes_eq→eq x h, bytes_eq_refl h),
  AllDistinct-snoc h xs (ground arith) d.1,
)

enqueue-IsGood :
    (have : List Bytes) (h : Bytes) (f : Frontier) → IsGood have f → IsGood have (enqueue have h f)
unfolding enqueue contains
enqueue-IsGood have h f good = elim (Bool-cases (contains h have || contains h f.visited)) [
  | inl c ↦ rw c good
  | inr c ↦ rw c (record {
    distinct =
        AllDistinct-snoc h f.queue
          (elim (Bool-cases (contains h f.queue)) [
            | inl q ↦ let v = good.queued h q in absurd (ground arith)
            | inr q ↦ q
          ])
          good.distinct;
    queued =
        λ x q. let old = good.queued x in ground (arith, old, contains-append x f.queue (h ∷ []));
    wanted =
        λ x v. let old = good.wanted x in let same = bytes_eq→eq x h in ground (arith, old, same);
  })
]

pub enqueue_all-IsGood :
    (have : List Bytes) (hs : List Bytes) (f : Frontier)
    → IsGood have f
    → IsGood have (enqueue_all have hs f)
unfolding enqueue_all
enqueue_all-IsGood have [] f good = good
enqueue_all-IsGood have (h ∷ hs) f good =
    enqueue_all-IsGood have hs (enqueue have h f) (enqueue-IsGood have h f good)
