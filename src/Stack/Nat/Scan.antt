-- ===== src/Stack/Nat/Scan.antt =====
-- The search for a free port.
use gravital_share.Common.{
  ℕ, zero, suc, ◌+◌, ◌%◌, ◌≤◌, ◌<◌, ◌≡◌, ◌≢◌, ◌⊎◌, inl, inr, ◌∙◌, ap, arith, Option, none, some,
  true, false, ◌==◌, Option-cases, Bool-cases, ℕ_discrete,
}
use gravital_share.Common.Assoc.{insert}
use gravital_share.Stack.Nat.{NatTable, Flow, Flow-discrete, next_port, lookup_reverse, scan}

-- [BASE_PORT, BASE_PORT + PORT_RANGE)
pub record InRange (p : ℕ) : Type 0 where
  pub low : 10000 ≤ p
  pub high : p < 60000

next_port-InRange : (p : ℕ) → InRange (next_port p)
unfolding next_port
next_port-InRange p = omega arith

-- The port reached from offset `s` after `i` advances.
abbrev pub port_at : ℕ → ℕ → ℕ
port_at s i = 10000 + (s + i) % 50000

next_port_at : (s i : ℕ) → next_port (port_at s i) ≡ port_at s (suc i)
unfolding next_port
next_port_at s i = omega arith

-- The table with the flow stored under a port.
abbrev pub stored : NatTable → Flow → ℕ → ℕ → NatTable
stored t key p n = record {
  forward = insert Flow-discrete t.forward key p;
  reverse = insert ℕ_discrete t.reverse p key;
  next = n;
}

module _ (fuel start : ℕ) (key : Flow) (t : NatTable) where
  scan_free :
      lookup_reverse t t.next ≡ none
      → scan (suc fuel) start key t ≡ some (stored t key t.next (next_port t.next), some t.next)
  unfolding scan
  scan_free e = rw (e, scan)

  scan_wrapped :
      {k : Flow}
      → lookup_reverse t t.next ≡ some k
      → (next_port t.next == start) ≡ true
      → scan (suc fuel) start key t ≡ some (record t { next = next_port t.next }, none)
  unfolding scan
  scan_wrapped e h = rw (e, h, scan)

  scan_taken :
      {k : Flow}
      → lookup_reverse t t.next ≡ some k
      → (next_port t.next == start) ≡ false
      → scan (suc fuel) start key t ≡ scan fuel start key (record t { next = next_port t.next })
  unfolding scan
  scan_taken e h = rw (e, h, scan)

-- What the search returned: a port that was free, now stored, or `none` after a whole lap over
-- taken ports.
abbrev pub Found : NatTable → Flow → Option (NatTable × Option ℕ) → Type 0
Found t key r =
    (p : ℕ) × (n : ℕ) × (r ≡ some (stored t key p n, some p))
    × (lookup_reverse t p ≡ none)
    × InRange p
    × InRange n

abbrev pub Full : NatTable → ℕ → ℕ → Option (NatTable × Option ℕ) → Type 0
Full t s i r =
    (n : ℕ) × (r ≡ some (record t { next = n }, none))
    × InRange n
    × ((j : ℕ) → i ≤ j → j < 50000 → lookup_reverse t (port_at s j) ≢ none)

-- The lap closes at its last port, and not before.
lap_end :
    (s i p : ℕ)
    → s < 50000
    → i < 50000
    → p ≡ port_at s i
    → ((next_port p == 10000 + s) ≡ true → suc i ≡ 50000)
      × ((next_port p == 10000 + s) ≡ false → suc i < 50000)
lap_end s i p hs hi e = rw (e, next_port_at s i) (λ h. ground arith, λ h. ground arith)

-- The ports from the `i`-th on are taken if the `i`-th is and those behind it are.
taken_from :
    (t : NatTable) (s i : ℕ) (n : ℕ) (k : Flow)
    → t.next ≡ port_at s i
    → lookup_reverse t t.next ≡ some k
    → ((j : ℕ)
        → suc i ≤ j
        → j < 50000
        → lookup_reverse (record t { next = n }) (port_at s j) ≢ none)
    → (j : ℕ) → i ≤ j
    → j < 50000
    → lookup_reverse t (port_at s j) ≢ none
unfolding lookup_reverse
taken_from t s i n k hn taken rest j le lt = elim (ℕ_discrete i j) [
  | yes same ↦ λ e. cc (ap (port_at s) same)
  | no other ↦ rest j (omega arith) lt
]

-- From the `i`-th port on, with a round left for each port that remains of the lap.
pub scan_cases :
    (fuel s i : ℕ) (key : Flow) (t : NatTable)
    → s < 50000
    → i < 50000
    → i + fuel ≡ 50000
    → t.next ≡ port_at s i
    → Found t key (scan fuel (10000 + s) key t) ⊎ Full t s i (scan fuel (10000 + s) key t)
unfolding lookup_reverse
scan_cases zero s i key t hs hi hf hn = absurd (omega arith)
scan_cases (suc fuel) s i key t hs hi hf hn = elim (Option-cases (lookup_reverse t t.next)) [
  | inl free ↦ inl (
    t.next,
    next_port t.next,
    scan_free fuel (10000 + s) key t free,
    free,
    rw hn (omega arith),
    next_port-InRange t.next,
  )
  | inr (k, taken) ↦ elim (Bool-cases (next_port t.next == 10000 + s)) [
    | inl wrapped ↦ inr (
      next_port t.next,
      scan_wrapped fuel (10000 + s) key t taken wrapped,
      next_port-InRange t.next,
      taken_from t s i 0 k hn taken
          (λ j le lt. absurd (omega (arith, (lap_end s i t.next hs hi hn).0 wrapped))),
    )
    | inr more ↦
        let t' : NatTable = record t { next = next_port t.next } in
        let ih =
          scan_cases fuel s (suc i) key t' hs ((lap_end s i t.next hs hi hn).1 more) (omega arith)
            (ap next_port hn ∙ next_port_at s i) in
        rw (scan_taken fuel (10000 + s) key t taken more) (elim ih [
          | inl found ↦ inl found
          | inr (n, e, r, rest) ↦ inr (n, e, r, taken_from t s i (next_port t.next) k hn taken rest)
        ])
  ]
]
