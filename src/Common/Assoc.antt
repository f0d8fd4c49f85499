-- ===== src/Common/Assoc.antt =====
-- `HashMap` as an association list: one entry for a key at most is ever read.
use mathlib.Core.List.{List, [], ◌∷◌}
use mathlib.Core.Logic.{ite, ◌≢◌}
use mathlib.Core.Option.{Option, none, some}
use mathlib.Core.Path.{◌≡◌, refl}
use native.Mathlib.Omega.{arith}

module _ {ℓ} {K V : Type ℓ} (dec : Discrete K) where
  -- `map.get(&k).copied()`
  unfoldable pub get : List (K × V) → K → Option V
  get [] k = none
  get ((j, v) ∷ m) k = ite (dec j k) (some v) (get m k)

  -- `map.remove(&k)`
  unfoldable pub remove : List (K × V) → K → List (K × V)
  remove [] k = []
  remove ((j, v) ∷ m) k = ite (dec j k) (remove m k) ((j, v) ∷ remove m k)

  -- `map.insert(k, v)`
  unfoldable pub insert : List (K × V) → K → V → List (K × V)
  insert m k v = (k, v) ∷ remove m k

  pub get-remove_self : (m : List (K × V)) (k : K) → get (remove m k) k ≡ none
  unfolding get remove
  get-remove_self [] k = refl
  get-remove_self ((j, v) ∷ m) k = ground (arith, get-remove_self m k)

  pub get-remove_ne : (m : List (K × V)) (k j : K) → k ≢ j → get (remove m k) j ≡ get m j
  unfolding get remove
  get-remove_ne [] k j h = refl
  get-remove_ne ((i, v) ∷ m) k j h = ground (arith, get-remove_ne m k j)

  pub get-insert_self : (m : List (K × V)) (k : K) (v : V) → get (insert m k v) k ≡ some v
  unfolding get insert
  get-insert_self m k v = ground arith

  pub get-insert_ne : (m : List (K × V)) (k j : K) (v : V) → k ≢ j → get (insert m k v) j ≡ get m j
  unfolding get insert
  get-insert_ne m k j v h = ground (arith, get-remove_ne m k j)
