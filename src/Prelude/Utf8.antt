-- ===== src/Prelude/Utf8.antt =====
-- `String::from_utf8`: which byte strings are UTF-8.
use Prim.Native.Nat.{ℕ, zero, suc}
use mathlib.Core.Bool.{Bool, true, false, ◌&&◌}
use mathlib.Core.List.{[], ◌∷◌}
use ekapkgs_cli.Prelude.Tests.{ltb, leb, ◌==◌, if◌then◌else◌}
use ekapkgs_cli.Prelude.ByteStrings.{Bytes}

-- What may follow a byte that begins a character: how many bytes, and the range of the first of them.
pub record Tail : Type 0 where
  pub valid : Bool
  pub count : ℕ
  pub low : ℕ
  pub high : ℕ

pub tail_of : ℕ → Tail
tail_of b =
    let tail : Bool → ℕ → ℕ → ℕ → Tail =
      λ v n l h. record { valid = v; count = n; low = l; high = h } in
    if ltb b 0x80
    then tail true 0 0 0
    else if ltb b 0xc2
    then tail false 0 0 0
    else if ltb b 0xe0
    then tail true 1 0x80 0xbf
    else if b == 0xe0
    then tail true 2 0xa0 0xbf
    else if b == 0xed
    then tail true 2 0x80 0x9f
    else if ltb b 0xf0
    then tail true 2 0x80 0xbf
    else if b == 0xf0
    then tail true 3 0x90 0xbf
    else if ltb b 0xf4
    then tail true 3 0x80 0xbf
    else if b == 0xf4
    then tail true 3 0x80 0x8f
    else tail false 0 0 0

pub utf8_from : ℕ → ℕ → ℕ → Bytes → Bool
utf8_from zero low high [] = true
utf8_from (suc n) low high [] = false
utf8_from zero low high (b ∷ bs) =
    let t = tail_of b in let rest = utf8_from t.count t.low t.high bs in t.valid && rest
utf8_from (suc n) low high (b ∷ bs) =
    let rest = utf8_from n 0x80 0xbf bs in (leb low b && leb b high) && rest

unfoldable pub is_utf8 : Bytes → Bool
unfolding utf8_from tail_of
is_utf8 = utf8_from 0 0 0
