-- ===== src/Gc/Order.antt =====
-- What does not depend on the order in which the database returns the rows.
use ekapkgs_cli.Prelude.{
  ◌≡◌, refl, sym, ap, ◌∙◌, List, [], ◌∷◌, Bytes, bytes_eq_iff, contains, map, AllDistinct, arith,
}
use mathlib.Core.List.{Perm, Permᴰ}
use mathlib.Core.Logic.{∥∥₁_elim}
use mathlib.Core.HLevel.{×_prop}
use mathlib.Core.Bool.{Bool-set}
use native.Mathlib.Nat.{ℕ_set}
use ekapkgs_cli.Gc.{StorePath, to_entry}
use ekapkgs_cli.Gc.Evict.{hashes}
use ekapkgs_cli.Gc.Evict.Freed.{size_of}

abbrev pub row_hashes : List StorePath → List Bytes
row_hashes ps = hashes (map to_entry ps)

size_of-permd :
    {ps qs : List StorePath} (evict_set : List Bytes)
    → Permᴰ ps qs
    → size_of (map to_entry ps) evict_set ≡ size_of (map to_entry qs) evict_set
unfolding size_of
size_of-permd s Permᴰ.nil = refl
size_of-permd s (Permᴰ.cons {l₁ = xs} {l₂ = ys} e p) =
    let ih : size_of (map to_entry xs) s ≡ size_of (map to_entry ys) s = size_of-permd s p in cc
size_of-permd s (Permᴰ.swap e f) = rw (e, f) (omega arith)
size_of-permd s (Permᴰ.trans p q) = size_of-permd s p ∙ size_of-permd s q

contains_swap : (x a b : Bytes) (l : List Bytes) → contains x (a ∷ b ∷ l) ≡ contains x (b ∷ a ∷ l)
unfolding contains
contains_swap x a b l = ground arith

contains-permd :
    {ps qs : List StorePath} (x : Bytes)
    → Permᴰ ps qs
    → contains x (row_hashes ps) ≡ contains x (row_hashes qs)
unfolding contains
contains-permd x Permᴰ.nil = refl
contains-permd x (Permᴰ.cons {l₁ = xs} {l₂ = ys} e p) =
    let ih : contains x (row_hashes xs) ≡ contains x (row_hashes ys) = contains-permd x p in cc
contains-permd x (Permᴰ.swap {a = a} {b = b} {l = l} e f) =
    rw (← e, ← f) (contains_swap x a.hash b.hash (row_hashes l))
contains-permd x (Permᴰ.trans p q) = contains-permd x p ∙ contains-permd x q

distinct_swap : (a b : Bytes) (l : List Bytes) → AllDistinct (a ∷ b ∷ l) → AllDistinct (b ∷ a ∷ l)
unfolding contains
distinct_swap a b l d = (ground (arith, bytes_eq_iff b a, bytes_eq_iff a b), (ground arith, d.1.1))

AllDistinct-permd :
    {ps qs : List StorePath}
    → Permᴰ ps qs
    → AllDistinct (row_hashes ps)
    → AllDistinct (row_hashes qs)
AllDistinct-permd Permᴰ.nil d = tt
AllDistinct-permd (Permᴰ.cons {a = a} {b = b} {l₁ = xs} {l₂ = ys} e p) d = (
  sym (contains-permd b.hash p)
      ∙ ap (λ (y : StorePath). contains y.hash (row_hashes xs)) (sym e)
      ∙ d.0,
  AllDistinct-permd p d.1,
)
AllDistinct-permd (Permᴰ.swap {a = a} {b = b} {l = l} e f) d =
    rw (← e, ← f) (distinct_swap a.hash b.hash (row_hashes l) d)
AllDistinct-permd (Permᴰ.trans p q) d = AllDistinct-permd q (AllDistinct-permd p d)

AllDistinct-prop : (xs : List Bytes) → IsProp (AllDistinct xs)
AllDistinct-prop [] = hlevel
AllDistinct-prop (x ∷ xs) = ×_prop (Bool-set _ _) (AllDistinct-prop xs)

module _ {ps qs : List StorePath} (p : Perm ps qs) where
  pub size_of-perm :
      (evict_set : List Bytes)
      → size_of (map to_entry ps) evict_set ≡ size_of (map to_entry qs) evict_set
  size_of-perm s = ∥∥₁_elim p (ℕ_set _ _) (size_of-permd s)

  pub contains-perm : (x : Bytes) → contains x (row_hashes ps) ≡ contains x (row_hashes qs)
  contains-perm x = ∥∥₁_elim p (Bool-set _ _) (contains-permd x)

  pub AllDistinct-perm : AllDistinct (row_hashes ps) → AllDistinct (row_hashes qs)
  AllDistinct-perm d = ∥∥₁_elim p (AllDistinct-prop _) (λ q. AllDistinct-permd q d)
