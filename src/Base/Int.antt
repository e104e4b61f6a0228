-- ===== src/Base/Int.antt =====
-- Go's int where it can be negative.
use Prim.Native.Nat.{ℕ, zero, suc, ◌/◌}
use mathlib.Core.Bool.{Bool, true, false}
use logger_double_buffer.Base.Tests.{ltb}

-- `negsuc n` is -(n + 1).
pub data ℤ : Type 0 where
  pos : ℕ → ℤ
  negsuc : ℕ → ℤ

-- i <= 0
abbrev pub not_positive : ℤ → Bool
not_positive (pos zero) = true
not_positive (pos (suc n)) = false
not_positive (negsuc n) = true

abbrev pub negate : ℕ → ℤ
negate zero = pos zero
negate (suc n) = negsuc n

-- Go's quotient by a positive number, rounded towards zero.
abbrev pub div : ℤ → ℕ → ℤ
div (pos a) n = pos (a / n)
div (negsuc a) n = negate (suc a / n)

-- i < n, for n not negative.
abbrev pub lt_pos : ℤ → ℕ → Bool
lt_pos (pos a) n = ltb a n
lt_pos (negsuc a) n = true

-- The value of a positive int, and 0 for others.
abbrev pub pos_part : ℤ → ℕ
pos_part (pos n) = n
pos_part (negsuc n) = 0
