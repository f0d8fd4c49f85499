-- ===== src/Proto/Checksum/Carry.antt =====
-- The end-around carry: `fold_carry` ends, and computes the sum modulo 65535.
use gravital_share.Common.{ℕ, zero, suc, ◌+◌, ◌*◌, ◌/◌, ◌%◌, ◌<◌, ◌≡◌, refl, arith}
use gravital_share.Proto.Checksum.{fold_carry, not_u16, u32_mod}

-- The test of the loop fails on a 16-bit sum, whatever fuel is left.
carry_done : (fuel sum : ℕ) → sum < 65536 → fold_carry fuel sum ≡ sum
unfolding fold_carry
carry_done zero sum h = refl
carry_done (suc fuel) sum h = ground arith

-- Two rounds are enough for a u32, whatever fuel is left behind them.
carry_value :
    (fuel sum : ℕ)
    → sum < u32_mod
    → fold_carry (suc (suc fuel)) sum
      ≡ (sum % 65536 + sum / 65536) % 65536 + (sum % 65536 + sum / 65536) / 65536
unfolding fold_carry
carry_value fuel sum h = ground (
  arith,
  carry_done fuel ((sum % 65536 + sum / 65536) % 65536 + (sum % 65536 + sum / 65536) / 65536),
)

-- The loop has ended, since the result has 16 bits, and it kept the residue modulo 65535.
pub carry_residue :
    (fuel sum : ℕ)
    → sum < u32_mod
    → (laps : ℕ) × (sum ≡ fold_carry (suc (suc fuel)) sum + 65535 * laps)
      × (fold_carry (suc (suc fuel)) sum < 65536)
      × (0 < sum → 0 < fold_carry (suc (suc fuel)) sum)
carry_residue fuel sum h =
    let e = carry_value fuel sum h in
    (
      sum / 65536 + (sum % 65536 + sum / 65536) / 65536,
      omega (arith, e),
      omega (arith, e),
      omega (arith, e),
    )

-- Adding the complement of a folded sum to the sum folds to all ones.
pub carry_complement :
    (fuel base total : ℕ)
    → base < u32_mod
    → total < u32_mod
    → total ≡ base + not_u16 (fold_carry (suc (suc fuel)) base)
    → fold_carry (suc (suc fuel)) total ≡ 65535
carry_complement fuel base total hb ht e =
    let (k, eq, lt, pos) = carry_residue fuel base hb in
    let (k', eq', lt', pos') = carry_residue fuel total ht in omega arith
