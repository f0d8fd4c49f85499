-- ===== src/Proto/Checksum/Words.antt =====
-- The accumulator of the checksum loops as a plain sum of 16-bit words.
use gravital_share.Common.{
  ℕ, zero, suc, ◌+◌, ◌*◌, ◌%◌, ◌≤◌, ◌<◌, ◌≡◌, refl, arith, List, [], ◌∷◌, length,
}
use gravital_share.Common.Bytes.{be16, IsBytes, word, write}
use gravital_share.Proto.Checksum.{add_words, u32_mod}

-- The sum of the big-endian words of a buffer, an odd last byte padded with zero.
abbrev pub words : List ℕ → ℕ
words [] = 0
words (odd ∷ []) = odd * 256
words (hi ∷ lo ∷ rest) = be16 hi lo + words rest

-- The u32 accumulator does not wrap where the sum fits.
pub add_words-words :
    (acc : ℕ) (p : List ℕ) → acc + words p < u32_mod → add_words acc p ≡ acc + words p
unfolding add_words
add_words-words acc [] h = omega arith
add_words-words acc (odd ∷ []) h = omega arith
add_words-words acc (hi ∷ lo ∷ rest) h =
    omega (arith, add_words-words ((acc + be16 hi lo) % u32_mod) rest (omega arith))

pub words-le : (p : List ℕ) → IsBytes p → 2 * words p ≤ 65535 * (length p + 1)
words-le [] h = omega arith
words-le (odd ∷ []) h = omega arith
words-le (hi ∷ lo ∷ rest) (h0, (h1, h)) = omega (arith, words-le rest h)

-- An even offset.
abbrev pub double : ℕ → ℕ
double zero = zero
double (suc k) = suc (suc (double k))

double-eq : (k : ℕ) → double k ≡ 2 * k
double-eq zero = refl
double-eq (suc k) = omega (arith, double-eq k)

-- A word written at an even offset replaces the word that stood there in the sum.
words-write :
    (k : ℕ) (p : List ℕ) (hi lo : ℕ)
    → double k + 2 ≤ length p
    → words (write p (double k) (hi ∷ lo ∷ [])) + word p (double k) ≡ words p + be16 hi lo
words-write zero [] hi lo h = absurd (omega arith)
words-write zero (x ∷ []) hi lo h = absurd (omega arith)
words-write zero (x ∷ y ∷ p) hi lo h = omega arith
words-write (suc k) [] hi lo h = absurd (omega arith)
words-write (suc k) (x ∷ []) hi lo h = absurd (omega arith)
words-write (suc k) (x ∷ y ∷ p) hi lo h = omega (arith, words-write k p hi lo (omega arith))
