-- ===== src/Common/Outcome.antt =====
-- Code that may panic (an index or a slice out of range), and code that returns a `Result`.
use mathlib.Core.Path.{◌≡◌, refl, ap, ◌∙◌}
use mathlib.Core.Logic.{◌≢◌, ◌⊎◌, inl, inr}
use mathlib.Core.Bool.{Bool, true, false}
use gravital_share.Common.Tests.{if◌then◌else◌}

-- `ret` is an ordinary return of a value, `panic` is an unwinding Rust panic.
pub data Outcome {ℓ} (A : Type ℓ) : Type ℓ where
  ret : A → Outcome A
  panic : Outcome A

infixl 5 ◌>>=◌
abbrev pub ◌>>=◌ {ℓ κ} : {A : Type ℓ} {B : Type κ} → Outcome A → (A → Outcome B) → Outcome B
ret a >>= f = f a
panic >>= f = panic

-- Rust's `Result`.
pub data Result {ℓ} (E A : Type ℓ) : Type ℓ where
  ok : A → Result E A
  err : E → Result E A

-- Inversion of a bind that returned.
pub >>=-eq-ret {ℓ κ} :
    {A : Type ℓ} {B : Type κ} (m : Outcome A) (f : A → Outcome B) {b : B}
    → (m >>= f) ≡ ret b
    → (a : A) × (m ≡ ret a) × (f a ≡ ret b)
>>=-eq-ret (ret a) f h = (a, refl, h)
>>=-eq-ret panic f h = cc

-- A step that returns, in the middle of a computation.
pub ret_then {ℓ κ} :
    {A : Type ℓ} {B : Type κ} (m : Outcome A) (a : A) (f : A → Outcome B) {r : Outcome B}
    → m ≡ ret a
    → f a ≡ r
    → (m >>= f) ≡ r
ret_then m a f h k = ap (λ n. n >>= f) h ∙ k

-- A bind of code that cannot panic.
pub >>=-ne-panic {ℓ κ} :
    {A : Type ℓ} {B : Type κ} (m : Outcome A) (f : A → Outcome B)
    → m ≢ panic
    → ((a : A) → f a ≢ panic)
    → (m >>= f) ≢ panic
>>=-ne-panic (ret a) f h k = k a
>>=-ne-panic panic f h k = absurd (h refl)

-- To split on a result and keep the equation.
pub Result-cases {ℓ} :
    {E A : Type ℓ} (r : Result E A) → ((a : A) × (r ≡ ok a)) ⊎ ((e : E) × (r ≡ err e))
Result-cases (ok a) = inl (a, refl)
Result-cases (err e) = inr (e, refl)

-- Code that does not panic returns.
pub returned {ℓ} : {A : Type ℓ} (m : Outcome A) → m ≢ panic → (a : A) × (m ≡ ret a)
returned (ret a) h = (a, refl)
returned panic h = absurd (h refl)

-- Code that returns, with a property of what it returns.
abbrev pub Returns : {A : Type 0} → (A → Type 0) → Outcome A → Type 0
Returns {A} P m = (a : A) × (m ≡ ret a) × P a

pub >>=-Returns :
    {A B : Type 0} {P : A → Type 0} {Q : B → Type 0} (m : Outcome A) (f : A → Outcome B)
    → Returns P m
    → ((a : A) → P a → Returns Q (f a))
    → Returns Q (m >>= f)
>>=-Returns m f (a, e, p) k = let (b, e', q) = k a p in (b, ret_then m a f e e', q)

-- A guard that returns early.
pub guard-Returns :
    {A : Type 0} {P : A → Type 0} (b : Bool) (x : A) (m : Outcome A)
    → P x
    → (b ≡ false → Returns P m)
    → Returns P (if b then ret x else m)
guard-Returns true x m p k = (x, refl, p)
guard-Returns false x m p k = k refl
