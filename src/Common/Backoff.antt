-- ===== src/Common/Backoff.antt =====
-- Saturating u64 arithmetic, and the backoff delay that two crates compute from it.
use Prim.Native.Nat.{ℕ, zero, suc, ◌+◌, ◌-◌, ◌*◌, ◌^◌, ◌≤◌, min}
use mathlib.Core.Path.{◌≡◌}
use native.Mathlib.Omega.{arith}
use native.Mathlib.Nat.{pow-suc}

abbrev pub u64_max : ℕ
u64_max = 2 ^ 64 - 1

-- `2u64.saturating_pow(n)` and `a.saturating_mul(b)`
abbrev pub saturating_pow_two : ℕ → ℕ
saturating_pow_two n = min (2 ^ n) u64_max

abbrev pub saturating_mul : ℕ → ℕ → ℕ
saturating_mul a b = min (a * b) u64_max

pub pow_two-le : (n k : ℕ) → 2 ^ n ≤ 2 ^ (k + n)
pow_two-le n zero = let e : 0 + n ≡ n = omega arith in rw e (omega arith)
pow_two-le n (suc k) =
    let e : suc k + n ≡ suc (k + n) = omega arith in
    rw e (omega (arith, pow_two-le n k, pow-suc 2 (k + n)))
