-- ===== src/Gc/Evict/Freed.antt =====
-- The counter `freed` is the size of what is evicted.
use ekapkgs_cli.Prelude.{
  ℕ, ◌+◌, ◌≡◌, refl, false, some, List, [], ◌∷◌, ◌++◌, Bytes, bytes_eq, bytes_eq_iff, contains,
  contains_head, contains-cons, AllDistinct, arith, if◌then◌else◌, sym,
}
use ekapkgs_cli.Gc.Evict.{PathEntry, Ref, Sweep, hashes, start, rounds}
use ekapkgs_cli.Gc.Evict.Rule.{rounds_inv}

-- The bytes of the entries whose hash is in the set.
unfoldable pub size_of : List PathEntry → List Bytes → ℕ
size_of [] evict_set = 0
size_of (e ∷ es) evict_set =
    (if contains e.hash evict_set then e.size else 0) + size_of es evict_set

size_of_absent :
    (es : List PathEntry) (hash : Bytes) (evict_set : List Bytes)
    → contains hash (hashes es) ≡ false
    → size_of es (hash ∷ evict_set) ≡ size_of es evict_set
unfolding size_of contains
size_of_absent [] hash evict_set h = refl
size_of_absent (e ∷ es) hash evict_set h =
    ground
      (arith, size_of_absent es hash evict_set, bytes_eq_iff hash e.hash, bytes_eq_iff e.hash hash)

size_of_present :
    (front back : List PathEntry) (e : PathEntry) (evict_set : List Bytes)
    → AllDistinct (hashes (front ++ (e ∷ back)))
    → contains e.hash evict_set ≡ false
    → size_of (front ++ (e ∷ back)) (e.hash ∷ evict_set)
      ≡ size_of (front ++ (e ∷ back)) evict_set + e.size
unfolding size_of
size_of_present [] back e evict_set d h =
    ground (arith, size_of_absent back e.hash evict_set, contains_head e.hash evict_set)
size_of_present (f ∷ front) back e evict_set d h = ground (
  arith,
  size_of_present front back e evict_set,
  contains-cons f.hash e.hash evict_set,
  bytes_eq_iff f.hash e.hash,
  in_middle f.hash e front back,
)
  where
    in_middle :
        (x : Bytes) (y : PathEntry) (xs ys : List PathEntry)
        → contains x (hashes (xs ++ (y ∷ ys))) ≡ false
        → bytes_eq x y.hash ≡ false
    in_middle x y [] ys p = ground (arith, contains-cons x y.hash (hashes ys))
    in_middle x y (z ∷ xs) ys p =
        in_middle x y xs ys (ground (arith, contains-cons x z.hash (hashes (xs ++ (y ∷ ys)))))

pub size_of_empty : (es : List PathEntry) → size_of es [] ≡ 0
unfolding size_of contains
size_of_empty [] = refl
size_of_empty (e ∷ es) = omega (arith, size_of_empty es)

-- Where the hashes of the entries are pairwise different, as the primary key of the table makes them,
-- the counter `freed` at the end is the total size of the entries that are evicted.
pub rounds-size_of :
    (entries : List PathEntry) (refs : List Ref) (to_free fuel : ℕ) (t : Sweep)
    → AllDistinct (hashes entries)
    → rounds entries refs to_free fuel start ≡ some t
    → t.freed ≡ size_of entries t.evict_set
rounds-size_of entries refs to_free fuel t distinct ended =
    rounds_inv entries refs to_free (λ s. s.freed ≡ size_of entries s.evict_set)
      (λ e s may h.
        let grown : size_of entries (e.hash ∷ s.evict_set) ≡ size_of entries s.evict_set + e.size =
          rw may.listed (
            size_of_present may.front may.back e s.evict_set (rw may.listed at distinct)
              may.kept) in
        omega (arith, grown, h))
      (λ s h. h) fuel start t (sym (size_of_empty entries)) ended
