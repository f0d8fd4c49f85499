-- ===== src/Stack/Nat/Invariant.antt =====
-- The two maps of the table are inverse to each other, over ports of the range.
use gravital_share.Common.{
  ℕ, zero, suc, ◌+◌, ◌-◌, ◌%◌, ◌≤◌, ◌<◌, ◌≡◌, ◌≢◌, ◌⊎◌, inl, inr, refl, sym, ◌∙◌, ap, arith, Option,
  none, some, Option-cases, ℕ_discrete,
}
use gravital_share.Common.Assoc.{
  insert, remove, get-insert_self, get-insert_ne, get-remove_self, get-remove_ne,
}
use gravital_share.Stack.Nat.{NatTable, Flow, Flow-discrete, lookup_forward, lookup_reverse, new}
use gravital_share.Stack.Nat.Scan.{InRange, stored}

pub record IsNat (t : NatTable) : Type 0 where
  pub cursor : InRange t.next
  pub ports : (p : ℕ) (k : Flow) → lookup_reverse t p ≡ some k → InRange p
  pub to_reverse : (k : Flow) (p : ℕ) → lookup_forward t k ≡ some p → lookup_reverse t p ≡ some k
  pub to_forward : (k : Flow) (p : ℕ) → lookup_reverse t p ≡ some k → lookup_forward t k ≡ some p

pub new-IsNat : IsNat new
unfolding new lookup_forward lookup_reverse gravital_share.Common.Assoc.get
new-IsNat = record {
  cursor = omega arith;
  ports = λ p k e. cc;
  to_reverse = λ k p e. cc;
  to_forward = λ k p e. cc;
}

module _ (t : NatTable) (k : Flow) (p n : ℕ) where
  pub forward_stored_self : lookup_forward (stored t k p n) k ≡ some p
  unfolding lookup_forward
  forward_stored_self = get-insert_self Flow-discrete t.forward k p

  pub forward_stored_ne :
      (j : Flow) → k ≢ j → lookup_forward (stored t k p n) j ≡ lookup_forward t j
  unfolding lookup_forward
  forward_stored_ne j h = get-insert_ne Flow-discrete t.forward k j p h

  pub reverse_stored_self : lookup_reverse (stored t k p n) p ≡ some k
  unfolding lookup_reverse
  reverse_stored_self = get-insert_self ℕ_discrete t.reverse p k

  reverse_stored_ne : (q : ℕ) → p ≢ q → lookup_reverse (stored t k p n) q ≡ lookup_reverse t q
  unfolding lookup_reverse
  reverse_stored_ne q h = get-insert_ne ℕ_discrete t.reverse p q k h

  -- Storing a new flow under a free port keeps the invariant.
  pub stored-IsNat :
      IsNat t
      → lookup_forward t k ≡ none
      → lookup_reverse t p ≡ none
      → InRange p
      → InRange n
      → IsNat (stored t k p n)
  stored-IsNat v nf nr rp rn = record {
    cursor = rn;
    ports = λ q j e. elim (ℕ_discrete p q) [
      | yes same ↦ rw (← same) rp
      | no other ↦ v.ports q j (cc (reverse_stored_ne q other))
    ];
    to_reverse = λ j q e. elim (Flow-discrete k j) [
      | yes same ↦ cc (forward_stored_self, reverse_stored_self)
      | no other ↦
          let old : lookup_forward t j ≡ some q = cc (forward_stored_ne j other) in
          let kept = v.to_reverse j q old in cc (kept, reverse_stored_ne q (λ same. cc))
    ];
    to_forward = λ j q e. elim (ℕ_discrete p q) [
      | yes same ↦ cc (forward_stored_self, reverse_stored_self)
      | no other ↦
          let old : lookup_reverse t q ≡ some j = cc (reverse_stored_ne q other) in
          let kept = v.to_forward j q old in cc (kept, forward_stored_ne j (λ same. cc))
    ];
  }
