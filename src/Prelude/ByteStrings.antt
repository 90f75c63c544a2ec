-- ===== src/Prelude/ByteStrings.antt =====
-- Byte strings. A Rust `String` is the list of its UTF-8 bytes, as `as_bytes` gives it; a `u64` in
-- little-endian order is `le_bytes 8`.
use Prim.Native.Nat.{ℕ, zero, suc, ◌+◌, ◌*◌, ◌/◌, ◌%◌, ◌^◌, ◌<◌}
use Prim.Native.Char.{code}
use Prim.Native.String.{String}
use mathlib.Core.Path.{◌≡◌, refl, sym, ap, ◌∙◌}
use mathlib.Core.Logic.{◌↔◌}
use mathlib.Core.Bool.{Bool, true, false, ◌&&◌}
use mathlib.Core.List.{List, [], ◌∷◌, ◌++◌}
use native.Mathlib.Omega.{arith}
use ekapkgs_cli.Prelude.Tests.{◌==◌, if◌then◌else◌}
use ekapkgs_cli.Prelude.Lists.{length}

abbrev pub Bytes : Type 0
Bytes = List ℕ

-- The bytes of a text literal; all literals of the program are ASCII.
abbrev pub codes : String → Bytes
codes String.[] = []
codes (String.◌∷◌ c s) = code c ∷ codes s

-- `==` of byte strings.
unfoldable pub bytes_eq : Bytes → Bytes → Bool
bytes_eq [] [] = true
bytes_eq (x ∷ xs) (y ∷ ys) = x == y && bytes_eq xs ys
bytes_eq _ _ = false

pub bytes_eq→eq : (a b : Bytes) → bytes_eq a b ≡ true → a ≡ b
unfolding bytes_eq
bytes_eq→eq [] [] h = refl
bytes_eq→eq [] (y ∷ ys) h = cc
bytes_eq→eq (x ∷ xs) [] h = cc
bytes_eq→eq (x ∷ xs) (y ∷ ys) h = ground (arith, bytes_eq→eq xs ys)

pub bytes_eq_refl : (a : Bytes) → bytes_eq a a ≡ true
unfolding bytes_eq
bytes_eq_refl [] = refl
bytes_eq_refl (x ∷ xs) = ground (arith, bytes_eq_refl xs)

pub bytes_eq_iff : (a b : Bytes) → (bytes_eq a b ≡ true) ↔ (a ≡ b)
bytes_eq_iff a b = (bytes_eq→eq a b, λ p. rw p (bytes_eq_refl b))

-- `n.to_le_bytes()` of a `k`-byte integer, and `from_le_bytes`.
unfoldable pub le_bytes : ℕ → ℕ → Bytes
le_bytes zero n = []
le_bytes (suc k) n = (n % 256) ∷ le_bytes k (n / 256)

unfoldable pub from_le_bytes : Bytes → ℕ
from_le_bytes [] = 0
from_le_bytes (b ∷ bs) = b + 256 * from_le_bytes bs

pub length-le_bytes : (k n : ℕ) → length (le_bytes k n) ≡ k
unfolding le_bytes
length-le_bytes zero n = refl
length-le_bytes (suc k) n = omega (arith, length-le_bytes k (n / 256))

pub from_le_bytes-le_bytes : (k n : ℕ) → n < 256 ^ k → from_le_bytes (le_bytes k n) ≡ n
unfolding le_bytes from_le_bytes
from_le_bytes-le_bytes zero n h = omega arith
from_le_bytes-le_bytes (suc k) n h = omega (arith, from_le_bytes-le_bytes k (n / 256))

-- The encoding determines an integer that fits.
pub le_bytes-injective :
    (k m n : ℕ) → m < 256 ^ k → n < 256 ^ k → le_bytes k m ≡ le_bytes k n → m ≡ n
le_bytes-injective k m n hm hn p =
    sym (from_le_bytes-le_bytes k m hm) ∙ ap from_le_bytes p ∙ from_le_bytes-le_bytes k n hn

-- A `HashSet<String>` is a list of its elements; only `contains` is ever asked of it.
unfoldable pub contains : Bytes → List Bytes → Bool
contains x [] = false
contains x (y ∷ ys) = if bytes_eq x y then true else contains x ys

-- The names are pairwise different.
abbrev pub AllDistinct : List Bytes → Type 0
AllDistinct [] = Unit
AllDistinct (x ∷ xs) = (contains x xs ≡ false) × AllDistinct xs

pub contains_head : (x : Bytes) (xs : List Bytes) → contains x (x ∷ xs) ≡ true
unfolding contains
contains_head x xs = rw (bytes_eq_refl x)

pub contains_tail :
    (x y : Bytes) (ys : List Bytes) → contains x ys ≡ true → contains x (y ∷ ys) ≡ true
unfolding contains
contains_tail x y ys h = ground arith

-- What a cons contains, as a test.
pub contains-cons :
    (x y : Bytes) (ys : List Bytes)
    → contains x (y ∷ ys) ≡ (if bytes_eq x y then true else contains x ys)
unfolding contains
contains-cons x y ys = refl

pub contains-append :
    (x : Bytes) (xs ys : List Bytes)
    → contains x (xs ++ ys) ≡ (if contains x xs then true else contains x ys)
unfolding contains
contains-append x [] ys = refl
contains-append x (z ∷ xs) ys = ground (arith, contains-append x xs ys)
