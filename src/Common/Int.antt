-- ===== src/Common/Int.antt =====
-- The integers over the native numbers, for an `i32` that may be negative: `negsuc n` is `-(n +
-- 1)`.
use Prim.Native.Nat.{ℕ}
use mathlib.Core.Bool.{Bool, true, false}

pub data ℤ : Type 0 where
  pos : ℕ → ℤ
  negsuc : ℕ → ℤ

-- `x < 0`
abbrev pub is_negative : ℤ → Bool
is_negative (pos n) = false
is_negative (negsuc n) = true
