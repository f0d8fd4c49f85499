-- ===== src/Common/Splice.antt =====
-- How writes into a buffer meet its prefixes and suffixes.
use Prim.Native.Nat.{ℕ, zero, suc, ◌+◌, ◌-◌, ◌≤◌, ◌<◌}
use mathlib.Core.Path.{◌≡◌, refl, ap, ◌∙◌}
use mathlib.Core.List.{List, [], ◌∷◌}
use native.Mathlib.Omega.{arith}
use gravital_share.Common.Lists.{length, take, drop}
use gravital_share.Common.Bytes.{overlay, write, copy_at, copy_at_in, length-write}
use gravital_share.Common.Outcome.{Outcome, ret, ◌>>=◌}

-- `p[i] = 0; p[i + 1] = 0;`
unfoldable pub clear_pair : List ℕ → ℕ → Outcome (List ℕ)
clear_pair p i = do q ← copy_at p i (0 ∷ []); copy_at q (suc i) (0 ∷ [])

write_pair :
    (p : List ℕ) (i x y : ℕ)
    → suc i < length p
    → write (write p i (x ∷ [])) (suc i) (y ∷ []) ≡ write p i (x ∷ y ∷ [])
write_pair [] i x y h = absurd (omega arith)
write_pair (a ∷ []) zero x y h = absurd (omega arith)
write_pair (a ∷ b ∷ p) zero x y h = refl
write_pair (a ∷ p) (suc i) x y h = ap (◌∷◌ a) (write_pair p i x y (omega arith))

pub clear_pair_in :
    (p : List ℕ) (i : ℕ) → suc i < length p → clear_pair p i ≡ ret (write p i (0 ∷ 0 ∷ []))
unfolding clear_pair
clear_pair_in p i h =
    let n = length-write p i (0 ∷ []) in
    rw (copy_at_in p i (0 ∷ []) (omega arith))
      (rw (copy_at_in (write p i (0 ∷ [])) (suc i) (0 ∷ []) (omega arith), write_pair p i 0 0 h))

take-overlay_in :
    (bs p : List ℕ) (n : ℕ) → length bs ≤ n → take n (overlay bs p) ≡ overlay bs (take n p)
take-overlay_in [] p n h = refl
take-overlay_in (b ∷ bs) [] zero h = refl
take-overlay_in (b ∷ bs) [] (suc n) h = refl
take-overlay_in (b ∷ bs) (x ∷ p) zero h = absurd (omega arith)
take-overlay_in (b ∷ bs) (x ∷ p) (suc n) h = ap (◌∷◌ b) (take-overlay_in bs p n (omega arith))

-- A prefix that holds the write.
pub take-write_in :
    (p : List ℕ) (i : ℕ) (bs : List ℕ) (n : ℕ)
    → i + length bs ≤ n
    → take n (write p i bs) ≡ write (take n p) i bs
take-write_in p zero bs n h = take-overlay_in bs p n (omega arith)
take-write_in [] (suc i) bs zero h = refl
take-write_in [] (suc i) bs (suc n) h = refl
take-write_in (x ∷ p) (suc i) bs zero h = absurd (omega arith)
take-write_in (x ∷ p) (suc i) bs (suc n) h = ap (◌∷◌ x) (take-write_in p i bs n (omega arith))

-- A prefix that ends before the write.
take-write_after :
    (p : List ℕ) (i : ℕ) (bs : List ℕ) (n : ℕ) → n ≤ i → take n (write p i bs) ≡ take n p
take-write_after p i bs zero h = refl
take-write_after p zero bs (suc n) h = absurd (omega arith)
take-write_after [] (suc i) bs (suc n) h = refl
take-write_after (x ∷ p) (suc i) bs (suc n) h = ap (◌∷◌ x) (take-write_after p i bs n (omega arith))

-- A suffix that holds the write.
pub drop-write_in :
    (p : List ℕ) (i : ℕ) (bs : List ℕ) (n : ℕ)
    → n ≤ i
    → drop n (write p i bs) ≡ write (drop n p) (i - n) bs
drop-write_in p i bs zero h = ap (λ j. write p j bs) (omega arith)
drop-write_in p zero bs (suc n) h = absurd (omega arith)
drop-write_in [] (suc i) bs (suc n) h = nothing (suc i - suc n)
  where
    nothing : (j : ℕ) → [] ≡ write [] j bs
    nothing zero = empty bs
      where
        empty : (cs : List ℕ) → [] ≡ overlay cs []
        empty [] = refl
        empty (c ∷ cs) = refl
    nothing (suc j) = refl
drop-write_in (x ∷ p) (suc i) bs (suc n) h =
    drop-write_in p i bs n (omega arith) ∙ ap (λ j. write (drop n p) j bs) (omega arith)

drop-overlay_before : (bs p : List ℕ) (n : ℕ) → length bs ≤ n → drop n (overlay bs p) ≡ drop n p
drop-overlay_before [] p n h = refl
drop-overlay_before (b ∷ bs) [] n h = refl
drop-overlay_before (b ∷ bs) (x ∷ p) zero h = absurd (omega arith)
drop-overlay_before (b ∷ bs) (x ∷ p) (suc n) h = drop-overlay_before bs p n (omega arith)

-- A suffix that begins behind the write.
pub drop-write_before :
    (p : List ℕ) (i : ℕ) (bs : List ℕ) (n : ℕ)
    → i + length bs ≤ n
    → drop n (write p i bs) ≡ drop n p
drop-write_before p zero bs n h = drop-overlay_before bs p n (omega arith)
drop-write_before [] (suc i) bs n h = refl
drop-write_before (x ∷ p) (suc i) bs zero h = absurd (omega arith)
drop-write_before (x ∷ p) (suc i) bs (suc n) h = drop-write_before p i bs n (omega arith)

-- A window of `m` bytes from `n` that a write does not touch.
abbrev pub window : ℕ → ℕ → List ℕ → List ℕ
window n m p = take m (drop n p)

pub window-write_before :
    (p : List ℕ) (i : ℕ) (bs : List ℕ) (n m : ℕ)
    → i + length bs ≤ n
    → window n m (write p i bs) ≡ window n m p
window-write_before p i bs n m h = ap (take m) (drop-write_before p i bs n h)

pub window-write_after :
    (p : List ℕ) (i : ℕ) (bs : List ℕ) (n m : ℕ)
    → n + m ≤ i
    → window n m (write p i bs) ≡ window n m p
window-write_after p i bs n m h =
    ap (take m) (drop-write_in p i bs n (omega arith))
    ∙ take-write_after (drop n p) (i - n) bs m (omega arith)
