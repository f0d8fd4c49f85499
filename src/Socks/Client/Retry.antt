-- ===== src/Socks/Client/Retry.antt =====
-- When `connect_with_retry` stops, and what it waited for.
use gravital_share.Common.{
  ℕ, zero, suc, ◌+◌, ◌≤◌, ◌<◌, ◌≡◌, ◌⊎◌, inl, inr, refl, ap, ◌∙◌, sym, arith, List, [], ◌∷◌, ◌==◌,
  eq→==, true, false, ◌-◌, ◌*◌, ◌^◌, leb, if◌then◌else◌, Bool-cases,
}
use gravital_share.Common.Outcome.{ret, Result, ok, err, Result-cases}
use gravital_share.Socks.Stream.{SocksError}
use gravital_share.Engine.Backoff.{pow_split}
use gravital_share.Socks.Client.{backoff_delay, retry_from, connect_with_retry}

-- The delay behind a failed attempt, in milliseconds: 250, 500, and so on up to 16000 behind the
-- seventh; 30000 behind every later one.
abbrev pub delay : ℕ → ℕ
delay attempt = if leb attempt 7 then 250 * 2 ^ (attempt - 1) else 30000

-- The delays after `d` failed attempts from `a` on.
abbrev pub delays_from : ℕ → ℕ → List ℕ
delays_from a zero = []
delays_from a (suc d) = delay a ∷ delays_from (suc a) d

backoff_delay-delay : (a : ℕ) → 1 ≤ a → backoff_delay a ≡ delay a
unfolding backoff_delay
backoff_delay-delay a lo = elim (Bool-cases (leb a 7)) [
  | inr late ↦ rw late (omega (arith, pow_split (a - 1) 7 (ground arith)))
  | inl soon ↦ rw soon (omega (arith, pow_split 6 (a - 1) (ground arith)))
]

module _ {T : Type 0} (try : ℕ → Result SocksError T) (n : ℕ) where
  -- The attempt fails, and the attempt succeeds.
  abbrev pub Fails : ℕ → Type 0
  Fails j = (e : SocksError) × (try j ≡ err e)

  abbrev pub Succeeds : ℕ → Type 0
  Succeeds j = (t : T) × (try j ≡ ok t)

  retry_stops :
      (d a left : ℕ)
      → 1 ≤ a
      → a + left ≡ suc n
      → d < left
      → ((j : ℕ) → j < d → Fails (a + j))
      → ((suc d ≡ left) ⊎ Succeeds (a + d))
      → retry_from try n a left ≡ ret (delays_from a d, try (a + d))
  unfolding retry_from
  retry_stops d a zero lo h k fails last = absurd (omega arith)
  retry_stops zero a (suc l) lo h k fails last =
      let z : a + 0 ≡ a = omega arith in
      rw z (elim (Result-cases (try a)) [
        | inl (t, e) ↦ rw (e, retry_from) refl
        | inr (x, e) ↦
            let final : (a == n) ≡ true = elim last [
              | inl one ↦ eq→== a n (omega arith)
              | inr (t, s) ↦ absurd (cc (s, e, ap try z))
            ] in
            rw (e, retry_from) (rw final refl)
      ])
  retry_stops (suc d) a (suc l) lo h k fails last =
      let z : a + 0 ≡ a = omega arith in
      let step : (j : ℕ) → a + suc j ≡ suc a + j = λ j. omega arith in
      let (x, e0) = fails 0 (omega arith) in
      let e : try a ≡ err x = ap try (sym z) ∙ e0 in
      let go_on : (a == n) ≡ false = ground arith in
      let rest : retry_from try n (suc a) l ≡ ret (delays_from (suc a) d, try (suc a + d)) =
        retry_stops d (suc a) l (omega arith) (omega arith) (omega arith)
          (λ j lt. let (y, f) = fails (suc j) (omega arith) in (y, ap try (sym (step j)) ∙ f))
          (elim last [
            | inl q ↦ inl (omega arith)
            | inr (t, f) ↦ inr (t, ap try (sym (step d)) ∙ f)
          ]) in
      rw (step d) (
        rw (e, retry_from)
          (rw (go_on, rest)
            (ap (λ t. ret (t ∷ delays_from (suc a) d, try (suc a + d)))
              (backoff_delay-delay a lo))))

  -- Let `suc d` be an allowed attempt such that the `d` attempts before it fail, and that succeeds
  -- itself or is the last one: `connect_with_retry` returns the result of that attempt, after a
  -- delay for each attempt before it: 250 ms behind the first, twice as long behind each further
  -- one up to the seventh, and 30 s behind every later one, whatever `max_backoff_ms` is.
  pub connect_with_retry-stops :
      (d : ℕ)
      → suc d ≤ n
      → ((j : ℕ) → j < d → Fails (1 + j))
      → ((suc d ≡ n) ⊎ Succeeds (1 + d))
      → connect_with_retry try n ≡ ret (delays_from 1 d, try (1 + d))
  unfolding connect_with_retry
  connect_with_retry-stops d hi fails last =
      retry_stops d 1 n (omega arith) (omega arith) (omega arith) fails last
