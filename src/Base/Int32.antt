-- ===== src/Base/Int32.antt =====
-- Go's int32: a value is its bit pattern, a number below 2 ^ 32; arithmetic wraps.
use Prim.Native.Nat.{ℕ, ◌+◌, ◌-◌, ◌*◌, ◌/◌, ◌%◌, ◌^◌, ◌≤◌, ◌<◌}
use mathlib.Core.Path.{◌≡◌}
use mathlib.Core.Bool.{Bool, true}
use native.Mathlib.Omega.{arith}
use logger_double_buffer.Base.Tests.{ltb, leb, if◌then◌else◌}

-- int32(n) of a Go int.
abbrev pub int32 : ℕ → ℕ
int32 n = n % 2 ^ 32

abbrev pub is_negative : ℕ → Bool
is_negative a = leb (2 ^ 31) a

-- a + b
unfoldable pub add : ℕ → ℕ → ℕ
add a b = (a + b) % 2 ^ 32

-- The patterns in the order of the integers that they stand for.
abbrev pub biased : ℕ → ℕ
biased a = (a + 2 ^ 31) % 2 ^ 32

-- a >= b
unfoldable pub ge : ℕ → ℕ → Bool
ge a b = leb (biased b) (biased a)

-- a > b
unfoldable pub gt : ℕ → ℕ → Bool
gt a b = ltb (biased b) (biased a)

-- a * 9 / 10: the product wraps, and the quotient is rounded towards zero.
unfoldable pub nine_tenths : ℕ → ℕ
nine_tenths a =
    let m = a * 9 % 2 ^ 32 in
    if is_negative m then (2 ^ 32 - (2 ^ 32 - m) / 10) % 2 ^ 32 else m / 10

module _ (a b : ℕ) where
  pub add-eq : a + b < 2 ^ 32 → add a b ≡ a + b
  unfolding add
  add-eq h = omega arith

  pub ge-eq : a < 2 ^ 31 → b < 2 ^ 31 → ge a b ≡ leb b a
  unfolding ge
  ge-eq ha hb = ground arith

  pub gt-eq : a < 2 ^ 31 → b < 2 ^ 31 → gt a b ≡ ltb b a
  unfolding gt
  gt-eq ha hb = ground arith

-- Up to this size the product does not wrap.
abbrev pub max_nine_tenths : ℕ
max_nine_tenths = 238_609_294

pub nine_tenths-eq : (a : ℕ) → a ≤ max_nine_tenths → nine_tenths a ≡ a * 9 / 10
unfolding nine_tenths
nine_tenths-eq a h = ground arith

-- Above it, up to twice the size, it is negative: every offset is at or beyond it.
pub ge-nine_tenths_wrapped :
    (a b : ℕ)
    → max_nine_tenths < a
    → a ≤ 2 * max_nine_tenths
    → b < 2 ^ 31
    → ge b (nine_tenths a) ≡ true
unfolding ge nine_tenths
ge-nine_tenths_wrapped a b lo hi hb = ground arith
