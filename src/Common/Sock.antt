-- ===== src/Common/Sock.antt =====
-- A TCP socket: the segments that the network delivers, what comes after them, and the bytes
-- written. How the network cuts what the peer sent into segments is left open.
use Prim.Native.Nat.{ℕ, zero, suc, ◌≤◌, ◌<◌}
use mathlib.Core.Path.{◌≡◌, refl, ap, ◌∙◌}
use mathlib.Core.Logic.{◌≢◌, inl, inr}
use mathlib.Core.Option.{Option, none, some}
use mathlib.Core.List.{List, [], ◌∷◌, ◌++◌}
use native.Mathlib.Omega.{arith}
use gravital_share.Common.Tests.{leb, if◌then◌else◌, Bool-cases}
use gravital_share.Common.Lists.{length, length-take, take, drop, All}
use gravital_share.Common.Io.{IoError}
use gravital_share.Common.Outcome.{Result, ok, err}

-- `ending` is the error that follows the segments; `none` is a peer that closed.
pub record Sock : Type 0 where
  pub segments : List (List ℕ)
  pub ending : Option IoError
  pub output : List ℕ
  pub broken : Option IoError

-- `read` into `room` bytes: what the next segment has, as far as it fits; no bytes at the end.
unfoldable pub read : ℕ → Sock → Sock × Result IoError (List ℕ)
read room s = elim s.segments [
  | [] ↦ elim s.ending [ none ↦ (s, ok []) | some e ↦ (s, err e) ]
  | seg ∷ rest ↦
      if leb (length seg) room
      then (record s { segments = rest }, ok seg)
      else (record s { segments = drop room seg ∷ rest }, ok (take room seg))
]

-- The segments put together.
abbrev pub concat : List (List ℕ) → List ℕ
concat [] = []
concat (seg ∷ segs) = seg ++ concat segs

abbrev pub IsNonempty : List ℕ → Type 0
IsNonempty seg = seg ≢ []

abbrev pub sock : List (List ℕ) → Option IoError → List ℕ → Option IoError → Sock
sock segs e o b = record { segments = segs; ending = e; output = o; broken = b }

-- A read delivers at most `room` bytes.
read_room_sock :
    (room : ℕ) (segs : List (List ℕ)) (e : Option IoError) (o : List ℕ) (b : Option IoError)
    (bs : List ℕ)
    → (read room (sock segs e o b)).1 ≡ ok bs
    → length bs ≤ room
unfolding read
read_room_sock room [] none o b bs h = ground arith
read_room_sock room [] (some x) o b bs h = cc
read_room_sock room (seg ∷ segs) e o b bs h = ground (arith, length-take room seg)

pub read_room :
    (room : ℕ) (s : Sock) (r : Sock × Result IoError (List ℕ)) (bs : List ℕ)
    → read room s ≡ r
    → r.1 ≡ ok bs
    → length bs ≤ room
read_room room s r bs q h =
    read_room_sock room s.segments s.ending s.output s.broken bs
      (ap (λ (x : Sock × Result IoError (List ℕ)). x.1) q ∙ h)

-- A read while data is to come delivers a piece of it that is not empty, and leaves the rest.
abbrev pub Delivers : ℕ → List (List ℕ) → Option IoError → List ℕ → Option IoError → Type 0
Delivers room segs e o b =
    (first : ℕ) × (others : List ℕ) × (left : List (List ℕ)) × (read room (sock segs e o b)
      ≡ (sock left e o b, ok (first ∷ others)))
    × ((first ∷ others) ++ concat left ≡ concat segs)
    × All IsNonempty left

drop-IsNonempty : (n : ℕ) (xs : List ℕ) → n < length xs → IsNonempty (drop n xs)
drop-IsNonempty n [] lt = absurd (omega arith)
drop-IsNonempty zero (x ∷ xs) lt = cc
drop-IsNonempty (suc n) (x ∷ xs) lt = drop-IsNonempty n xs (omega arith)

take-drop-append : (n : ℕ) (xs ys : List ℕ) → take n xs ++ (drop n xs ++ ys) ≡ xs ++ ys
take-drop-append zero xs ys = refl
take-drop-append (suc n) [] ys = refl
take-drop-append (suc n) (x ∷ xs) ys = ap (◌∷◌ x) (take-drop-append n xs ys)

module _ (segs : List (List ℕ)) (e : Option IoError) (o : List ℕ) (b : Option IoError) where
  read-Delivers :
      (room first : ℕ) (others : List ℕ)
      → All IsNonempty segs
      → Delivers (suc room) ((first ∷ others) ∷ segs) e o b
  unfolding read
  read-Delivers room first others whole =
      elim (Bool-cases (leb (suc (length others)) (suc room)))
        as (λ _. Delivers (suc room) ((first ∷ others) ∷ segs) e o b) [
          | inl h ↦ (first, others, segs, rw h refl, refl, whole)
          | inr h ↦ (
            first,
            take room others,
            drop room others ∷ segs,
            rw h refl,
            ap (◌∷◌ first) (take-drop-append room others (concat segs)),
            (drop-IsNonempty room others (ground arith), whole),
          )
        ]

  pub read-Delivers_at :
      (room first : ℕ) (others : List ℕ)
      → All IsNonempty segs
      → 0 < room
      → Delivers room ((first ∷ others) ∷ segs) e o b
  read-Delivers_at zero first others whole pos = absurd (omega arith)
  read-Delivers_at (suc room) first others whole pos = read-Delivers room first others whole
