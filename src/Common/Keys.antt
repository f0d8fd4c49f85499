-- ===== src/Common/Keys.antt =====
-- The keys of an association list: each once.
use mathlib.Core.List.{List, [], ◌∷◌, map}
use mathlib.Core.Logic.{ite, ◌≢◌}
use mathlib.Core.Option.{none}
use mathlib.Core.Path.{◌≡◌, sym, ◌∙◌}
use native.Mathlib.Omega.{arith}
use gravital_share.Common.Lists.{All}
use gravital_share.Common.Assoc.{
  get, remove, insert, get-remove_self, get-remove_ne, get-insert_self, get-insert_ne,
}

module _ {ℓ} {K V : Type ℓ} (dec : Discrete K) where
  abbrev pub IsDistinct : List (K × V) → Type ℓ
  IsDistinct [] = Unit
  IsDistinct ((k, v) ∷ m) = (get dec m k ≡ none) × IsDistinct m

  pub remove-IsDistinct : (m : List (K × V)) (k : K) → IsDistinct m → IsDistinct (remove dec m k)
  unfolding remove
  remove-IsDistinct [] k h = tt
  remove-IsDistinct ((j, v) ∷ m) k (new, h) =
      elim (dec j k) as (λ d. IsDistinct (ite d (remove dec m k) ((j, v) ∷ remove dec m k))) [
        | yes _ ↦ remove-IsDistinct m k h
        | no n ↦ (get-remove_ne dec m k j (λ e. n (sym e)) ∙ new, remove-IsDistinct m k h)
      ]

  pub insert-IsDistinct :
      (m : List (K × V)) (k : K) (v : V) → IsDistinct m → IsDistinct (insert dec m k v)
  unfolding insert
  insert-IsDistinct m k v h = (get-remove_self dec m k, remove-IsDistinct m k h)

  abbrev pub HasKey : List (K × V) → K → Type ℓ
  HasKey m k = get dec m k ≢ none

  -- A list of different keys that the map has.
  abbrev pub AreKeys : List (K × V) → List K → Type ℓ
  AreKeys m [] = Unit
  AreKeys m (k ∷ ks) = HasKey m k × All (λ j. k ≢ j) ks × AreKeys m ks

  AreKeys-mono :
      (m m' : List (K × V)) (ks : List K)
      → ((k : K) → HasKey m k → HasKey m' k)
      → AreKeys m ks
      → AreKeys m' ks
  AreKeys-mono m m' [] f h = tt
  AreKeys-mono m m' (k ∷ ks) f (here, new, h) = (f k here, new, AreKeys-mono m m' ks f h)

  insert-HasKey :
      (m : List (K × V)) (k : K) (v : V) (j : K) → HasKey m j → HasKey (insert dec m k v) j
  insert-HasKey m k v j h = elim (dec k j) [
    | yes e ↦ rw (← e) (rw (get-insert_self dec m k v) cc)
    | no n ↦ rw (get-insert_ne dec m k j v n) h
  ]

  pub insert-AreKeys :
      (m : List (K × V)) (k : K) (v : V) (ks : List K)
      → AreKeys m ks
      → AreKeys (insert dec m k v) ks
  insert-AreKeys m k v ks = AreKeys-mono m (insert dec m k v) ks (insert-HasKey m k v)

  pub remove-AreKeys :
      (m : List (K × V)) (k : K) (ks : List K)
      → All (λ j. k ≢ j) ks
      → AreKeys m ks
      → AreKeys (remove dec m k) ks
  remove-AreKeys m k [] far h = tt
  remove-AreKeys m k (j ∷ ks) (ne, far) (here, new, h) =
      (rw (get-remove_ne dec m k j ne) here, new, remove-AreKeys m k ks far h)

  -- The keys in their order.
  abbrev pub keys : List (K × V) → List K
  keys = map (λ e. e.0)

  cons-HasKey : (k : K) (v : V) (m : List (K × V)) (j : K) → HasKey m j → HasKey ((k, v) ∷ m) j
  unfolding get
  cons-HasKey k v m j h = ground arith

  keys_new : (m : List (K × V)) (k : K) → get dec m k ≡ none → All (λ j. k ≢ j) (keys m)
  unfolding get
  keys_new [] k h = tt
  keys_new ((j, v) ∷ m) k h = (ground arith, keys_new m k (ground arith))

  pub keys-AreKeys : (m : List (K × V)) → IsDistinct m → AreKeys m (keys m)
  unfolding get
  keys-AreKeys [] h = tt
  keys-AreKeys ((k, v) ∷ m) (new, h) = (
    ground arith,
    keys_new m k new,
    AreKeys-mono m ((k, v) ∷ m) (keys m) (cons-HasKey k v m) (keys-AreKeys m h),
  )
