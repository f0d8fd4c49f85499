-- ===== src/Proto/Checksum/Verify.antt =====
-- The checksum of a buffer that carries its checksum: the lemmas behind what the engine writes.
use gravital_share.Common.{
  ℕ, zero, suc, ◌+◌, ◌*◌, ◌/◌, ◌%◌, ◌≤◌, ◌<◌, ◌≡◌, arith, List, [], ◌∷◌, length,
}
use gravital_share.Common.Bytes.{be16, to_be16, IsBytes, write, length-write, write-IsBytes}
use gravital_share.Proto.Checksum.{add_words, fold_carry, not_u16, internet_checksum}
use gravital_share.Proto.Checksum.Carry.{carry_residue, carry_complement}
use gravital_share.Proto.Checksum.Words.{words, double, add_words-words, words-le}

-- The two bytes at an even offset cleared.
abbrev pub cleared : ℕ → List ℕ → List ℕ
cleared k p = write p (double k) (0 ∷ 0 ∷ [])

words-store :
    (k : ℕ) (p : List ℕ) (hi lo : ℕ)
    → double k + 2 ≤ length p
    → words (write (cleared k p) (double k) (hi ∷ lo ∷ [])) ≡ words (cleared k p) + be16 hi lo
words-store zero [] hi lo h = absurd (omega arith)
words-store zero (x ∷ []) hi lo h = absurd (omega arith)
words-store zero (x ∷ y ∷ p) hi lo h = omega arith
words-store (suc k) [] hi lo h = absurd (omega arith)
words-store (suc k) (x ∷ []) hi lo h = absurd (omega arith)
words-store (suc k) (x ∷ y ∷ p) hi lo h = omega (arith, words-store k p hi lo (omega arith))

-- With a part of the sum (a pseudo header) that is not stored in the buffer.
pub stored_sum_folds :
    (seed k : ℕ) (p : List ℕ)
    → IsBytes p
    → length p ≤ 65535
    → seed ≤ 1000000
    → double k + 2 ≤ length p
    → fold_carry 3 (
        add_words seed (
          write
            (cleared k p)
            (double k)
            (to_be16 (not_u16 (fold_carry 3 (add_words seed (cleared k p)))))))
      ≡ 65535
stored_sum_folds seed k p hp hl hs hk =
    let q = cleared k p in
    let hq : IsBytes q = write-IsBytes p (double k) (0 ∷ 0 ∷ []) (omega arith) hp in
    let lq = length-write p (double k) (0 ∷ 0 ∷ []) in
    let a = add_words-words seed q (omega (arith, words-le q hq)) in
    let c = not_u16 (fold_carry 3 (add_words seed q)) in
    let st = words-store k p (c / 256 % 256) (c % 256) hk in
    let b = add_words-words seed (write q (double k) (to_be16 c)) (omega (arith, words-le q hq)) in
    carry_complement 1 (add_words seed q) (add_words seed (write q (double k) (to_be16 c)))
      (omega (arith, words-le q hq)) (omega (arith, words-le q hq)) (omega arith)

-- The checksum of a buffer in which its own checksum was stored, over a cleared field, is 0.
pub internet_checksum-stored :
    (k : ℕ) (p : List ℕ)
    → IsBytes p
    → length p ≤ 65535
    → double k + 2 ≤ length p
    → internet_checksum (write (cleared k p) (double k) (to_be16 (internet_checksum (cleared k p))))
      ≡ 0
unfolding internet_checksum
internet_checksum-stored k p hp hl hk = omega (arith, stored_sum_folds 0 k p hp hl (omega arith) hk)

-- The checksum of any buffer of at most 65535 bytes is a u16, the complement of a number that
-- has the residue of the sum of the words modulo 65535, and that is 0 only for the sum 0.
internet_checksum-residue :
    (p : List ℕ)
    → IsBytes p
    → length p ≤ 65535
    → (laps : ℕ) × (words p + internet_checksum p ≡ 65535 + 65535 * laps)
      × (internet_checksum p ≤ 65535)
      × (0 < words p → internet_checksum p < 65535)
unfolding internet_checksum
internet_checksum-residue p hp hl =
    let a = add_words-words 0 p (omega (arith, words-le p hp)) in
    let (k, eq, lt, pos) = carry_residue 1 (add_words 0 p) (omega (arith, words-le p hp)) in
    (k, omega arith, omega arith, λ h. omega arith)
