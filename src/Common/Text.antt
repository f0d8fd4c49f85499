-- ===== src/Common/Text.antt =====
-- Texts as the bytes of their UTF-8, and the decimal texts of the standard library: `{}` of an
-- unsigned number and `str::parse::<u16>`.
use Prim.Native.Char.{code}
use Prim.Native.String.{String}
use Prim.Native.Nat.{ℕ, zero, suc, ◌+◌, ◌-◌, ◌*◌, ◌/◌, ◌%◌, ◌^◌, ◌<◌}
use mathlib.Core.Path.{◌≡◌, refl, ◌∙◌}
use mathlib.Core.Logic.{◌≢◌, inl, inr}
use mathlib.Core.Bool.{Bool, true, ◌&&◌}
use mathlib.Core.List.{List, [], ◌∷◌, ◌++◌}
use mathlib.Core.Option.{Option, none, some}
use native.Mathlib.Omega.{arith}
use gravital_share.Common.Tests.{ltb→lt, Bool-cases, ltb, leb, ◌==◌, if◌then◌else◌}
use gravital_share.Common.Lists.{All, All-append}

-- The bytes of an ASCII literal.
abbrev pub codes : String → List ℕ
codes String.[] = []
codes (String.◌∷◌ c s) = code c ∷ codes s

abbrev pub is_digit : ℕ → Bool
is_digit c = leb b'0' c && leb c b'9'

-- The digits of a number below `10 ^ suc f`, without leading zeros.
unfoldable pub digits : ℕ → ℕ → List ℕ
digits zero n = (b'0' + n) ∷ []
digits (suc f) n =
    let front = digits f (n / 10) in
    if ltb n 10 then (b'0' + n) ∷ [] else front ++ ((b'0' + n % 10) ∷ [])

-- `{}` of a `u16`.
abbrev pub show_u16 : ℕ → List ℕ
show_u16 = digits 4

-- The digits read behind the number `n`; `none` if one is no digit or the number overflows.
read_digits : ℕ → List ℕ → Option ℕ
read_digits n [] = some n
read_digits n (c ∷ cs) =
    let rest = read_digits (n * 10 + (c - b'0')) cs in
    if is_digit c && ltb (n * 10 + (c - b'0')) 65536 then rest else none

-- `parse::<u16>`: digits, after an optional `+`.
pub parse_u16 : List ℕ → Option ℕ
parse_u16 [] = none
parse_u16 (c ∷ []) = read_digits 0 (c ∷ [])
parse_u16 (c ∷ d ∷ cs) = if c == b'+' then read_digits 0 (d ∷ cs) else read_digits 0 (c ∷ d ∷ cs)

-- Reading one more digit at the end.
read_digits-snoc :
    (cs : List ℕ) (a n d : ℕ)
    → read_digits a cs ≡ some n
    → d < 10
    → n * 10 + d < 65536
    → read_digits a (cs ++ ((b'0' + d) ∷ [])) ≡ some (n * 10 + d)
unfolding read_digits
read_digits-snoc [] a n d h lt fits = ground arith
read_digits-snoc (c ∷ cs) a n d h lt fits =
    ground (arith, read_digits-snoc cs (a * 10 + (c - b'0')) n d)

tenth_lt : (n p : ℕ) → n < 10 * p → n / 10 < p
tenth_lt n p h = omega arith

-- Reading the digits gives the number.
read_digits-digits : (f n : ℕ) → n < 10 ^ suc f → n < 65536 → read_digits 0 (digits f n) ≡ some n
unfolding read_digits digits
read_digits-digits zero n lt fits = ground arith
read_digits-digits (suc f) n lt fits =
    let front =
      read_digits-digits f (n / 10) (tenth_lt n (10 ^ suc f) (omega (arith, lt))) (omega arith) in
    let all =
      read_digits-snoc (digits f (n / 10)) 0 (n / 10) (n % 10) front (omega arith) (omega arith) in
    ground (arith, all)

-- A byte that is a decimal digit.
abbrev pub IsDigit : ℕ → Type 0
IsDigit c = is_digit c ≡ true

IsDigit-lt : (n : ℕ) → n < 10 → IsDigit (b'0' + n)
IsDigit-lt n lt = ground arith

-- Digits only: in particular no sign and no colon.
pub digits-All : (f n : ℕ) → n < 10 ^ suc f → All IsDigit (digits f n)
unfolding digits
digits-All zero n lt = (IsDigit-lt n (omega (arith, lt)), tt)
digits-All (suc f) n lt = elim (Bool-cases (ltb n 10)) [
  | inl h ↦ rw h (IsDigit-lt n (ltb→lt n 10 h), tt)
  | inr h ↦ rw h (
      All-append IsDigit (digits f (n / 10)) _
        (digits-All f (n / 10) (tenth_lt n (10 ^ suc f) (omega (arith, lt))))
        (IsDigit-lt (n % 10) (omega arith), tt))
]

-- A text of digits has no sign.
parse_u16-read_digits : (cs : List ℕ) → cs ≢ [] → All IsDigit cs → parse_u16 cs ≡ read_digits 0 cs
unfolding parse_u16
parse_u16-read_digits [] h d = absurd (h refl)
parse_u16-read_digits (c ∷ []) h d = refl
parse_u16-read_digits (c ∷ e ∷ cs) h d = ground arith

snoc-ne-nil : (xs : List ℕ) (y : ℕ) → (xs ++ (y ∷ [])) ≢ []
snoc-ne-nil [] y h = cc
snoc-ne-nil (x ∷ xs) y h = cc

digits-ne-nil : (f n : ℕ) → digits f n ≢ []
unfolding digits
digits-ne-nil zero n = cc
digits-ne-nil (suc f) n = ground (arith, snoc-ne-nil (digits f (n / 10)) (b'0' + n % 10))

-- The decimal text of a port reads back as the port.
pub parse_u16-show_u16 : (n : ℕ) → n < 65536 → parse_u16 (show_u16 n) ≡ some n
parse_u16-show_u16 n h =
    parse_u16-read_digits (show_u16 n) (digits-ne-nil 4 n) (digits-All 4 n (omega arith))
    ∙ read_digits-digits 4 n (omega arith) h
