-- ===== src/Base/Int.antt =====
-- Python's signed integers, as far as the program compares and clamps them.
use Prim.Native.Nat.{ℕ}
use mathlib.Core.Bool.{Bool, true, false}
use zouseeking.Base.Tests.{nat_beq}

-- `negsuc n` is -(n + 1).
pub data ℤ : Type 0 where
  pos : ℕ → ℤ
  negsuc : ℕ → ℤ

-- `x <= 0` and `x < 0`.
abbrev pub is_nonpos : ℤ → Bool
is_nonpos (pos n) = nat_beq n 0
is_nonpos (negsuc n) = true

abbrev pub is_neg : ℤ → Bool
is_neg (pos n) = false
is_neg (negsuc n) = true

-- `max(0, x)`.
abbrev pub clamp0 : ℤ → ℕ
clamp0 (pos n) = n
clamp0 (negsuc n) = 0
