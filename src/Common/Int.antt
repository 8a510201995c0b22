-- ===== src/Common/Int.antt =====
-- Python's `int`, as far as it is compared with small numbers.
use Prim.Native.Nat.{ℕ, zero, suc}
use mathlib.Core.Bool.{Bool, true, false}

pub data ℤ : Type 0 where
  pos negsuc : ℕ → ℤ

-- `n < 1`
abbrev pub below_one : ℤ → Bool
below_one (pos zero) = true
below_one (pos (suc n)) = false
below_one (negsuc n) = true
