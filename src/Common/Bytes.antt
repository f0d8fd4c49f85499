-- ===== src/Common/Bytes.antt =====
-- Byte buffers as lists of numbers below 256, with Rust's checked indexing and slicing.
use Prim.Native.Nat.{ℕ, zero, suc, ◌+◌, ◌-◌, ◌*◌, ◌/◌, ◌%◌, ◌≤◌, ◌<◌}
use mathlib.Core.Path.{◌≡◌, refl, ap, ◌∙◌}
use mathlib.Core.List.{List, [], ◌∷◌}
use native.Mathlib.Omega.{arith}
use gravital_share.Common.Tests.{ltb, leb, if◌then◌else◌, lt→ltb}
use gravital_share.Common.Lists.{length, take, drop, get_or, All, take_of_length-le, length-drop}
use gravital_share.Common.Outcome.{Outcome, ret, panic, ◌>>=◌}

abbrev pub IsByte : ℕ → Type 0
IsByte b = b < 256

abbrev pub IsBytes : List ℕ → Type 0
IsBytes = All IsByte

-- The byte at a position that exists; 0 elsewhere.
abbrev pub byte : List ℕ → ℕ → ℕ
byte p i = get_or p i 0

-- `p[i]`
unfoldable pub at : List ℕ → ℕ → Outcome ℕ
at p i = if ltb i (length p) then ret (byte p i) else panic

-- `&p[a..b]`
pub slice : List ℕ → ℕ → ℕ → Outcome (List ℕ)
slice p a b =
    if leb a b then (if leb b (length p) then ret (take (b - a) (drop a p)) else panic) else panic

-- `u16::from_be_bytes([hi, lo])`
abbrev pub be16 : ℕ → ℕ → ℕ
be16 hi lo = hi * 256 + lo

-- `u32::from_be_bytes([a, b, c, d])`
abbrev pub be32 : ℕ → ℕ → ℕ → ℕ → ℕ
be32 a b c d = ((a * 256 + b) * 256 + c) * 256 + d

-- `v.to_be_bytes()` of a u16
abbrev pub to_be16 : ℕ → List ℕ
to_be16 v = v / 256 % 256 ∷ v % 256 ∷ []

-- `u16::from_be_bytes([p[i], p[i + 1]])`, the second index written `suc i`
pub u16_at : List ℕ → ℕ → Outcome ℕ
unfolding at
u16_at p i = do hi ← at p i; lo ← at p (suc i); ret (be16 hi lo)

-- `u32::from_be_bytes([p[i], p[i + 1], p[i + 2], p[i + 3]])`
pub u32_at : List ℕ → ℕ → Outcome ℕ
unfolding at
u32_at p i = do a ← at p i; b ← at p (i + 1); c ← at p (i + 2); d ← at p (i + 3); ret (be32 a b c d)

-- The total reading of two bytes, and of four.
abbrev pub word : List ℕ → ℕ → ℕ
word p i = be16 (byte p i) (byte p (suc i))

abbrev pub word32 : List ℕ → ℕ → ℕ
word32 p i = be32 (byte p i) (byte p (i + 1)) (byte p (i + 2)) (byte p (i + 3))

-- The bytes `bs` written over `p`, from its front.
abbrev pub overlay : List ℕ → List ℕ → List ℕ
overlay [] p = p
overlay (b ∷ bs) [] = []
overlay (b ∷ bs) (x ∷ p) = b ∷ overlay bs p

abbrev pub write : List ℕ → ℕ → List ℕ → List ℕ
write p zero bs = overlay bs p
write [] (suc i) bs = []
write (x ∷ p) (suc i) bs = x ∷ write p i bs

-- `p[i..i + bs.len()].copy_from_slice(bs)`, and `p[i] = b` for a single byte
pub copy_at : List ℕ → ℕ → List ℕ → Outcome (List ℕ)
copy_at p i bs = if leb (i + length bs) (length p) then ret (write p i bs) else panic

pub at_lt : (p : List ℕ) (i : ℕ) → i < length p → at p i ≡ ret (byte p i)
unfolding at
at_lt p i h = rw (lt→ltb _ _ h)

at_ge : (p : List ℕ) (i : ℕ) → length p ≤ i → at p i ≡ panic
unfolding at
at_ge p i h = ground arith

pub slice_in :
    (p : List ℕ) (a b : ℕ) → a ≤ b → b ≤ length p → slice p a b ≡ ret (take (b - a) (drop a p))
unfolding slice
slice_in p a b h k = ground arith

pub slice_prefix : (p : List ℕ) (n : ℕ) → n ≤ length p → slice p 0 n ≡ ret (take n p)
slice_prefix p n h = slice_in p 0 n (omega arith) h ∙ ap (λ (m : ℕ). ret (take m p)) (omega arith)

pub slice_suffix : (p : List ℕ) (a : ℕ) → a ≤ length p → slice p a (length p) ≡ ret (drop a p)
slice_suffix p a h =
    slice_in p a (length p) h (omega arith)
    ∙ ap ret (take_of_length-le (length p - a) (drop a p) (omega (arith, length-drop a p)))

pub slice_out : (p : List ℕ) (a b : ℕ) → b < a → slice p a b ≡ panic
unfolding slice
slice_out p a b h = ground arith

pub u16_at_lt : (p : List ℕ) (i : ℕ) → suc i < length p → u16_at p i ≡ ret (word p i)
unfolding u16_at
u16_at_lt p i h = ground (arith, at_lt p i, at_lt p (suc i))

pub u32_at_lt : (p : List ℕ) (i : ℕ) → i + 3 < length p → u32_at p i ≡ ret (word32 p i)
unfolding u32_at
u32_at_lt p i h = ground (arith, at_lt p i, at_lt p (i + 1), at_lt p (i + 2), at_lt p (i + 3))

pub copy_at_in :
    (p : List ℕ) (i : ℕ) (bs : List ℕ)
    → i + length bs ≤ length p
    → copy_at p i bs ≡ ret (write p i bs)
unfolding copy_at
copy_at_in p i bs h = ground arith

-- A write in range, in the middle of a computation.
pub copy_then :
    {A : Type 0} (p : List ℕ) (i : ℕ) (bs : List ℕ) (f : List ℕ → Outcome A) {r : Outcome A}
    → i + length bs ≤ length p
    → f (write p i bs) ≡ r
    → (copy_at p i bs >>= f) ≡ r
copy_then p i bs f h k = ap (λ m. m >>= f) (copy_at_in p i bs h) ∙ k

length-overlay : (bs p : List ℕ) → length (overlay bs p) ≡ length p
length-overlay [] p = refl
length-overlay (b ∷ bs) [] = refl
length-overlay (b ∷ bs) (x ∷ p) = ap suc (length-overlay bs p)

pub length-write : (p : List ℕ) (i : ℕ) (bs : List ℕ) → length (write p i bs) ≡ length p
length-write p zero bs = length-overlay bs p
length-write [] (suc i) bs = refl
length-write (x ∷ p) (suc i) bs = ap suc (length-write p i bs)

byte-overlay : (bs p : List ℕ) (j : ℕ) → length bs ≤ j → byte (overlay bs p) j ≡ byte p j
byte-overlay [] p j h = refl
byte-overlay (b ∷ bs) [] j h = refl
byte-overlay (b ∷ bs) (x ∷ p) zero h = absurd (omega arith)
byte-overlay (b ∷ bs) (x ∷ p) (suc j) h = byte-overlay bs p j (omega arith)

byte-overlay_in :
    (bs p : List ℕ) (j : ℕ) → j < length bs → j < length p → byte (overlay bs p) j ≡ byte bs j
byte-overlay_in [] p j h k = absurd (omega arith)
byte-overlay_in (b ∷ bs) [] j h k = absurd (omega arith)
byte-overlay_in (b ∷ bs) (x ∷ p) zero h k = refl
byte-overlay_in (b ∷ bs) (x ∷ p) (suc j) h k = byte-overlay_in bs p j (omega arith) (omega arith)

-- A write changes no byte before it and none behind it.
pub byte-write_before :
    (p : List ℕ) (i : ℕ) (bs : List ℕ) (j : ℕ) → j < i → byte (write p i bs) j ≡ byte p j
byte-write_before p zero bs j h = absurd (omega arith)
byte-write_before [] (suc i) bs j h = refl
byte-write_before (x ∷ p) (suc i) bs zero h = refl
byte-write_before (x ∷ p) (suc i) bs (suc j) h = byte-write_before p i bs j (omega arith)

pub byte-write_after :
    (p : List ℕ) (i : ℕ) (bs : List ℕ) (j : ℕ)
    → i + length bs ≤ j
    → byte (write p i bs) j ≡ byte p j
byte-write_after p zero bs j h = byte-overlay bs p j (omega arith)
byte-write_after [] (suc i) bs j h = refl
byte-write_after (x ∷ p) (suc i) bs zero h = absurd (omega arith)
byte-write_after (x ∷ p) (suc i) bs (suc j) h = byte-write_after p i bs j (omega arith)

pub byte-write_in :
    (p : List ℕ) (i : ℕ) (bs : List ℕ) (j : ℕ)
    → j < length bs
    → i + j < length p
    → byte (write p i bs) (i + j) ≡ byte bs j
byte-write_in p zero bs j h k = rw (byte_add p j) (byte-overlay_in bs p j h (omega arith))
  where
    byte_add : (q : List ℕ) (n : ℕ) → 0 + n ≡ n
    byte_add q n = omega arith
byte-write_in [] (suc i) bs j h k = absurd (omega arith)
byte-write_in (x ∷ p) (suc i) bs j h k = rw (suc_add i j) (byte-write_in p i bs j h (omega arith))
  where
    suc_add : (a b : ℕ) → suc a + b ≡ suc (a + b)
    suc_add a b = omega arith

pub byte-IsByte : (p : List ℕ) (i : ℕ) → IsBytes p → byte p i < 256
byte-IsByte [] i h = omega arith
byte-IsByte (x ∷ p) zero (hx, h) = hx
byte-IsByte (x ∷ p) (suc i) (hx, h) = byte-IsByte p i h

overlay-IsBytes : (bs p : List ℕ) → IsBytes bs → IsBytes p → IsBytes (overlay bs p)
overlay-IsBytes [] p hb h = h
overlay-IsBytes (b ∷ bs) [] hb h = tt
overlay-IsBytes (b ∷ bs) (x ∷ p) (hb, hbs) (hx, h) = (hb, overlay-IsBytes bs p hbs h)

pub write-IsBytes :
    (p : List ℕ) (i : ℕ) (bs : List ℕ) → IsBytes bs → IsBytes p → IsBytes (write p i bs)
write-IsBytes p zero bs hb h = overlay-IsBytes bs p hb h
write-IsBytes [] (suc i) bs hb h = tt
write-IsBytes (x ∷ p) (suc i) bs hb (hx, h) = (hx, write-IsBytes p i bs hb h)

pub to_be16-IsBytes : (v : ℕ) → IsBytes (to_be16 v)
to_be16-IsBytes v = omega arith
