-- ===== src/Common/Append.antt =====
-- Reading the bytes of a list behind a prefix, and a u16 from its two bytes.
use gravital_share.Common.{
  ℕ, suc, ◌+◌, ◌/◌, ◌%◌, ◌<◌, ◌≡◌, refl, ap, ◌∙◌, arith, List, [], ◌∷◌, ◌++◌, length, drop,
  length-append,
}
use gravital_share.Common.Bytes.{byte, u16_at, word, be16, u16_at_lt}
use gravital_share.Common.Outcome.{ret}

pub be16-to_be16 : (v : ℕ) → v < 65536 → be16 (v / 256 % 256) (v % 256) ≡ v
be16-to_be16 v h = omega arith

byte-append_right : (q t : List ℕ) (k : ℕ) → byte (q ++ t) (length q + k) ≡ byte t k
byte-append_right [] t k = ap (byte t) (omega arith)
byte-append_right (x ∷ q) t k =
    let e : suc (length q) + k ≡ suc (length q + k) = omega arith in rw e (byte-append_right q t k)

pub drop-append_right : (q t : List ℕ) (k : ℕ) → drop (length q + k) (q ++ t) ≡ drop k t
drop-append_right [] t k = ap (λ (n : ℕ). drop n t) (omega arith)
drop-append_right (x ∷ q) t k =
    let e : suc (length q) + k ≡ suc (length q + k) = omega arith in rw e (drop-append_right q t k)

-- A word behind a prefix.
pub u16_at-append :
    (q t : List ℕ) (k : ℕ) → suc k < length t → u16_at (q ++ t) (length q + k) ≡ ret (word t k)
u16_at-append q t k h =
    let n = length-append q t in
    let e : suc (length q + k) ≡ length q + suc k = omega arith in
    u16_at_lt (q ++ t) (length q + k) (omega arith)
    ∙ rw (e, byte-append_right q t k, byte-append_right q t (suc k)) refl
