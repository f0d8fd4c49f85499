-- ===== src/Engine/Backoff.antt =====
-- `backoff_delay` of engine/crates/gravital-engine/src/session.rs and of
-- engine/crates/gravital-socks/src/client.rs, in milliseconds. The attempt is a u32, whose
-- `saturating_sub(1)` is the subtraction of ℕ.
use gravital_share.Common.{ℕ, ◌+◌, ◌-◌, ◌*◌, ◌^◌, ◌≤◌, ◌≡◌, arith, min}
use gravital_share.Common.Backoff.{saturating_pow_two, saturating_mul, pow_two-le}

pub backoff_delay : ℕ → ℕ
backoff_delay attempt = min (saturating_mul 250 (saturating_pow_two (attempt - 1))) 30000

pub pow_split : (n m : ℕ) → m ≤ n → 2 ^ m ≤ 2 ^ n
pow_split n m h = rw (split n m h) (pow_two-le m (n - m))
  where
    split : (a b : ℕ) → b ≤ a → a ≡ a - b + b
    split a b le = omega arith

-- The first seven delays double from 250 ms; every later one is 30 s; no delay is below 250 ms;
-- and a later attempt never waits less.
backoff_delay-steps :
    ((a : ℕ) → 1 ≤ a → a ≤ 7 → backoff_delay a ≡ 250 * 2 ^ (a - 1))
    × ((a : ℕ) → 8 ≤ a → backoff_delay a ≡ 30000)
    × ((a : ℕ) → 250 ≤ backoff_delay a)
    × ((a b : ℕ) → a ≤ b → backoff_delay a ≤ backoff_delay b)
unfolding backoff_delay
backoff_delay-steps = (
  λ a lo hi. omega (arith, pow_split 6 (a - 1) (omega arith)),
  λ a lo. omega (arith, pow_split (a - 1) 7 (omega arith)),
  λ a. omega (arith, pow_split (a - 1) 0 (omega arith)),
  λ a b le. omega (arith, pow_split (b - 1) (a - 1) (omega arith)),
)
