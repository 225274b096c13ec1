-- ===== src/Base/Int.antt =====
-- Signed integers over the native numbers; `negsuc n` is -(n + 1).
use Prim.Native.Nat.{ℕ, suc, ◌+◌, ◌-◌}
use mathlib.Core.Bool.{Bool}
use cresix.Base.Tests.{leb, ◌==◌}
use mathlib.Core.Bool.{false}

pub data ℤ : Type 0 where
  pos : ℕ → ℤ
  negsuc : ℕ → ℤ

-- `i64::abs_diff`
abbrev pub abs_diff : ℤ → ℤ → ℕ
abs_diff (pos a) (pos b) = (a - b) + (b - a)
abs_diff (pos a) (negsuc b) = suc (a + b)
abs_diff (negsuc a) (pos b) = suc (a + b)
abs_diff (negsuc a) (negsuc b) = (a - b) + (b - a)

-- `(-n..=n).contains(&z)`
abbrev pub within : ℕ → ℤ → Bool
within n (pos a) = leb a n
within n (negsuc a) = leb (suc a) n

abbrev pub is_zero : ℤ → Bool
is_zero (pos a) = a == 0
is_zero (negsuc a) = false
