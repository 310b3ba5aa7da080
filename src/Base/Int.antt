-- ===== src/Base/Int.antt =====
-- Signed integers of C over the native numbers: `negsuc n` is -(n + 1).
use Prim.Native.Nat.{ℕ, zero, suc}
use mathlib.Core.Bool.{Bool, false}
use soi_laboratoria_2025z.Base.Tests.{◌==◌}

pub data ℤ : Type 0 where
  pos : ℕ → ℤ
  negsuc : ℕ → ℤ

-- A comparison with an `int` constant that is not negative.
abbrev pub is_pos : ℤ → ℕ → Bool
is_pos (pos n) k = n == k
is_pos (negsuc n) k = false

abbrev pub minus : ℕ → ℤ
minus zero = pos zero
minus (suc n) = negsuc n
