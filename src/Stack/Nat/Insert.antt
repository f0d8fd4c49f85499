-- ===== src/Stack/Nat/Insert.antt =====
-- `insert` and `remove_by_vport` on a valid table.
use gravital_share.Common.{
  ℕ, ◌+◌, ◌-◌, ◌%◌, ◌≤◌, ◌<◌, ◌≡◌, ◌≢◌, ◌⊎◌, inl, inr, refl, sym, ap, arith, none, some,
  Option-cases, ℕ_discrete,
}
use gravital_share.Common.Assoc
use gravital_share.Common.Assoc.{get-remove_self, get-remove_ne}
use gravital_share.Stack.Nat.{
  NatTable, Flow, Flow-discrete, port_range, lookup_forward, lookup_reverse, scan, insert_flow,
  remove_by_vport,
}
use gravital_share.Stack.Nat.Scan.{InRange, port_at, stored, Found, Full, scan_cases}
use gravital_share.Stack.Nat.Invariant.{
  IsNat, stored-IsNat, forward_stored_self, forward_stored_ne, reverse_stored_self,
}

-- What a successful `insert` of `k` promises of the new table `t'` and the port `p`.
pub record Inserted (t : NatTable) (k : Flow) (t' : NatTable) (p : ℕ) : Type 0 where
  pub valid : IsNat t'
  pub in_range : InRange p
  pub found_forward : lookup_forward t' k ≡ some p
  pub found_reverse : lookup_reverse t' p ≡ some k
  pub others : (j : Flow) → k ≢ j → lookup_forward t' j ≡ lookup_forward t j
  pub idempotent : (q : ℕ) → lookup_forward t k ≡ some q → (t' ≡ t) × (p ≡ q)
  pub fresh : lookup_forward t k ≡ none → lookup_reverse t p ≡ none

-- Every port of the range carries a flow.
abbrev pub Exhausted : NatTable → Type 0
Exhausted t = (p : ℕ) → InRange p → lookup_reverse t p ≢ none

insert_known :
    (t : NatTable) (k : Flow) (p : ℕ)
    → lookup_forward t k ≡ some p
    → insert_flow t k ≡ some (t, some p)
unfolding insert_flow
insert_known t k p e = rw (e, insert_flow)

insert_new :
    (t : NatTable) (k : Flow) (start : ℕ)
    → lookup_forward t k ≡ none
    → start ≡ t.next
    → insert_flow t k ≡ scan port_range start k t
unfolding insert_flow
insert_new t k start e h = rw (e, insert_flow) (ap (λ s. scan port_range s k t) (sym h))

known-Inserted :
    (t : NatTable) (k : Flow) (p : ℕ) → IsNat t → lookup_forward t k ≡ some p → Inserted t k t p
known-Inserted t k p v e = record {
  valid = v;
  in_range = v.ports p k (v.to_reverse k p e);
  found_forward = e;
  found_reverse = v.to_reverse k p e;
  others = λ j h. refl;
  idempotent = λ q h. (refl, cc);
  fresh = λ h. cc;
}

stored-Inserted :
    (t : NatTable) (k : Flow) (p n : ℕ)
    → IsNat t
    → lookup_forward t k ≡ none
    → lookup_reverse t p ≡ none
    → InRange p
    → InRange n
    → Inserted t k (stored t k p n) p
stored-Inserted t k p n v nf nr rp rn = record {
  valid = stored-IsNat t k p n v nf nr rp rn;
  in_range = rp;
  found_forward = forward_stored_self t k p n;
  found_reverse = reverse_stored_self t k p n;
  others = λ j h. forward_stored_ne t k p n j h;
  idempotent = λ q h. cc;
  fresh = λ h. nr;
}

-- Moving the cursor within the range keeps the invariant.
cursor-IsNat : (t : NatTable) (n : ℕ) → IsNat t → InRange n → IsNat (record t { next = n })
unfolding lookup_forward lookup_reverse
cursor-IsNat t n v rn = record {
  cursor = rn;
  ports = v.ports;
  to_reverse = v.to_reverse;
  to_forward = v.to_forward;
}

Full-Exhausted :
    (t : NatTable) (s : ℕ)
    → s < 50000
    → ((j : ℕ) → 0 ≤ j → j < 50000 → lookup_reverse t (port_at s j) ≢ none)
    → Exhausted t
Full-Exhausted t s hs all p r e =
    let j = (p - 10000 + 50000 - s) % 50000 in
    let at_j : port_at s j ≡ p = let lo = r.low in let hi = r.high in omega arith in
    all j (omega arith) (omega arith) (rw at_j e)

-- On a valid table `insert` ends within its fuel. It either returns a port, under which the flow
-- is then found in both directions, or it returns `None` for a new flow, with the maps unchanged,
-- and then every port of the range is taken.
pub insert_flow-returns :
    (t : NatTable) (k : Flow)
    → IsNat t
    → ((t' : NatTable) × (p : ℕ) × (insert_flow t k ≡ some (t', some p)) × Inserted t k t' p)
      ⊎ ((n : ℕ) × (insert_flow t k ≡ some (record t { next = n }, none))
          × IsNat (record t { next = n })
          × (lookup_forward t k ≡ none)
          × Exhausted t)
insert_flow-returns t k v = elim (Option-cases (lookup_forward t k)) [
  | inr (p, e) ↦ inl (t, p, insert_known t k p e, known-Inserted t k p v e)
  | inl e ↦
      let s = t.next - 10000 in
      let c = v.cursor in
      let lo = c.low in
      let hi = c.high in
      let start : 10000 + s ≡ t.next = omega arith in
      let cases =
        scan_cases port_range s 0 k t (omega arith) (omega arith) (omega arith) (omega arith) in
      let cases' : Found t k (insert_flow t k) ⊎ Full t s 0 (insert_flow t k) =
        rw (insert_new t k (10000 + s) e start) cases in
      elim cases' [
        | inl (p, n, eq, nr, rp, rn) ↦
            inl (stored t k p n, p, eq, stored-Inserted t k p n v e nr rp rn)
        | inr (n, eq, rn, all) ↦
            inr (n, eq, cursor-IsNat t n v rn, e, Full-Exhausted t s (omega arith) all)
      ]
]

-- A full table refuses every new flow, and changes no more than the cursor.
insert_flow-Exhausted :
    (t : NatTable) (k : Flow)
    → IsNat t
    → lookup_forward t k ≡ none
    → Exhausted t
    → (n : ℕ) × (insert_flow t k ≡ some (record t { next = n }, none))
insert_flow-Exhausted t k v e full = elim (insert_flow-returns t k v) [
  | inl (t', p, eq, ins) ↦ absurd (full p ins.in_range (ins.fresh e))
  | inr (n, eq, _, _, _) ↦ (n, eq)
]

-- What `remove_by_vport` promises for the port `p` that carries `k`.
pub record Removed (t : NatTable) (k : Flow) (p : ℕ) (t' : NatTable) : Type 0 where
  pub valid : IsNat t'
  pub gone_forward : lookup_forward t' k ≡ none
  pub gone_reverse : lookup_reverse t' p ≡ none
  pub other_flows : (j : Flow) → k ≢ j → lookup_forward t' j ≡ lookup_forward t j
  pub other_ports : (q : ℕ) → p ≢ q → lookup_reverse t' q ≡ lookup_reverse t q

abbrev removed : NatTable → Flow → ℕ → NatTable
removed t k p = record t {
  reverse = Assoc.remove ℕ_discrete t.reverse p;
  forward = Assoc.remove Flow-discrete t.forward k;
}

module _ (t : NatTable) (k : Flow) (p : ℕ) where
  forward_removed_self : lookup_forward (removed t k p) k ≡ none
  unfolding lookup_forward
  forward_removed_self = get-remove_self Flow-discrete t.forward k

  forward_removed_ne : (j : Flow) → k ≢ j → lookup_forward (removed t k p) j ≡ lookup_forward t j
  unfolding lookup_forward
  forward_removed_ne j h = get-remove_ne Flow-discrete t.forward k j h

  reverse_removed_self : lookup_reverse (removed t k p) p ≡ none
  unfolding lookup_reverse
  reverse_removed_self = get-remove_self ℕ_discrete t.reverse p

  reverse_removed_ne : (q : ℕ) → p ≢ q → lookup_reverse (removed t k p) q ≡ lookup_reverse t q
  unfolding lookup_reverse
  reverse_removed_ne q h = get-remove_ne ℕ_discrete t.reverse p q h

  removed-IsNat : IsNat t → lookup_reverse t p ≡ some k → IsNat (removed t k p)
  removed-IsNat v e = record {
    cursor = v.cursor;
    ports = λ q j h. elim (ℕ_discrete p q) [
      | yes same ↦ absurd (cc reverse_removed_self)
      | no other ↦ v.ports q j (cc (reverse_removed_ne q other))
    ];
    to_reverse = λ j q h. elim (Flow-discrete k j) [
      | yes same ↦ absurd (cc forward_removed_self)
      | no other ↦
          let old : lookup_forward t j ≡ some q = cc (forward_removed_ne j other) in
          let kept = v.to_reverse j q old in
          cc (kept, reverse_removed_ne q (λ same. other (cc kept)))
    ];
    to_forward = λ j q h. elim (ℕ_discrete p q) [
      | yes same ↦ absurd (cc reverse_removed_self)
      | no other ↦
          let old : lookup_reverse t q ≡ some j = cc (reverse_removed_ne q other) in
          let kept = v.to_forward j q old in
          let mine = v.to_forward k p e in
          cc (kept, forward_removed_ne j (λ same. other (cc (kept, mine))))
    ];
  }

remove_by_vport-removed :
    (t : NatTable) (k : Flow) (p : ℕ)
    → lookup_reverse t p ≡ some k
    → remove_by_vport t p ≡ removed t k p
unfolding remove_by_vport
remove_by_vport-removed t k p e = rw (e, remove_by_vport)

-- On a valid table `remove_by_vport` of a port in use frees that port and its flow, leaves every
-- other entry as it was, and keeps the table valid.
remove_by_vport-Removed :
    (t : NatTable) (k : Flow) (p : ℕ)
    → IsNat t
    → lookup_reverse t p ≡ some k
    → Removed t k p (remove_by_vport t p)
remove_by_vport-Removed t k p v e = rw (remove_by_vport-removed t k p e) (record {
  valid = removed-IsNat t k p v e;
  gone_forward = forward_removed_self t k p;
  gone_reverse = reverse_removed_self t k p;
  other_flows = forward_removed_ne t k p;
  other_ports = reverse_removed_ne t k p;
})
