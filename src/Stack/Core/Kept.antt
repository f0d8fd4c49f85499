-- ===== src/Stack/Core/Kept.antt =====
-- The invariant of the stack's state, what a step keeps, and the packets from TUN.
use gravital_share.Common.{
  ℕ, ◌≤◌, ◌≡◌, ◌⊎◌, inl, inr, refl, sym, ap, ◌∙◌, arith, List, [], ◌∷◌, ◌++◌, Option, none, some,
  Bool, true, false, Bool-cases, Option-cases, if◌then◌else◌, ltb, length, length-append,
}
use gravital_share.Common.Addr.{SocketAddr}
use gravital_share.Common.Outcome.{ret, ◌>>=◌, >>=-eq-ret}
use gravital_share.Stack.Nat.{NatTable, Flow, Flow-discrete, lookup_forward}
use gravital_share.Stack.Nat.Invariant.{IsNat}
use gravital_share.Stack.Nat.Insert.{Inserted, Exhausted, insert_flow-returns}
use gravital_share.Stack.Rewrite.{rewrite_inbound, extract_tcp_addrs, is_tcp_syn}
use gravital_share.Stack.Device.{Mpsc, pair}
use gravital_share.Stack.State.{Smoltcp, Inner, pending_cap, nat_insert, any_remote, iface_addr}
use gravital_share.Stack.Core.{
  create_listener, admitted, admit_syn, allocate, deliver, process_inbound, process_all,
}

-- Valid NAT table, at most `pending_cap` connections waiting.
pub record IsInner {S C : Type 0} (s : Inner S C) : Type 0 where
  pub nat_valid : IsNat s.nat
  pub queue : length s.pending ≤ pending_cap

-- What a step from `s` to `s'` keeps.
pub record Kept {S C : Type 0} (s s' : Inner S C) : Type 0 where
  pub inner : IsInner s'
  pub flows :
      (k : Flow) (p : ℕ) → lookup_forward s.nat k ≡ some p → lookup_forward s'.nat k ≡ some p

-- `nat_insert` on a valid table.
pub nat_insert-cases :
    (t : NatTable) (k : Flow)
    → IsNat t
    → ((t' : NatTable) × (p : ℕ) × (nat_insert t k ≡ (t', some p)) × Inserted t k t' p)
      ⊎ ((n : ℕ) × (nat_insert t k ≡ (record t { next = n }, none))
          × IsNat (record t { next = n })
          × (lookup_forward t k ≡ none)
          × Exhausted t)
unfolding nat_insert
nat_insert-cases t k v = elim (insert_flow-returns t k v) [
  | inl (t', p, e, ins) ↦ inl (t', p, rw (e, nat_insert) refl, ins)
  | inr (n, e, v', nf, full) ↦ inr (n, rw (e, nat_insert) refl, v', nf, full)
]

-- A new flow takes no old flow's port.
Inserted-flows :
    (t t' : NatTable) (k : Flow) (p : ℕ)
    → Inserted t k t' p
    → (j : Flow) (q : ℕ) → lookup_forward t j ≡ some q
    → lookup_forward t' j ≡ some q
Inserted-flows t t' k p ins j q h = elim (Flow-discrete k j) [
  | yes same ↦
      let known : lookup_forward t k ≡ some q = rw same h in
      let kept = ins.idempotent q known in rw (kept.0) h
  | no other ↦ ins.others j other ∙ h
]

-- The cursor is no part of a lookup.
same_flows :
    (t : NatTable) (n : ℕ) (j : Flow) (q : ℕ)
    → lookup_forward t j ≡ some q
    → lookup_forward (record t { next = n }) j ≡ some q
unfolding lookup_forward
same_flows t n j q f = f

pub ret_inj : {A : Type 0} (x y : A) → ret x ≡ ret y → x ≡ y
ret_inj x y e = cc e

chosen : {A : Type 0} (b : Bool) (x y : A) → b ≡ true → (if b then x else y) ≡ x
chosen b x y e = rw e refl

-- A step that leaves the table and the queue alone.
pub same-Kept :
    {S C : Type 0} (s s' : Inner S C)
    → IsInner s
    → s'.nat ≡ s.nat
    → s'.pending ≡ s.pending
    → Kept s s'
same-Kept s s' h e p = record {
  inner = record { nat_valid = rw e h.nat_valid; queue = rw p h.queue };
  flows = λ k q f. rw e f;
}

pub trans-Kept : {S C : Type 0} (s s' s'' : Inner S C) → Kept s s' → Kept s' s'' → Kept s s''
trans-Kept s s' s'' h k = record { inner = k.inner; flows = λ j q f. k.flows j q (h.flows j q f) }

pub moved : {S C : Type 0} (s s' : Inner S C) {u : Inner S C} → u ≡ s' → Kept s u → Kept s s'
moved s s' e k = rw (← e) k

module _ {S C : Type 0} (net : Smoltcp S) (chan : Mpsc C) where
  create_listener-Kept :
      (s : Inner S C) (vport : ℕ) (rd : SocketAddr)
      → IsInner s
      → Kept s (create_listener net chan s vport rd)
  unfolding create_listener
  create_listener-Kept s vport rd h = elim (Option-cases (net.listen s.sockets vport)) [
    | inl e ↦ rw (e, create_listener) (same-Kept s s h refl refl)
    | inr (r, e) ↦
        rw (e, create_listener)
          (record {
            inner = record {
              nat_valid = h.nat_valid;
              queue = room s.pending (pair chan (iface_addr vport) rd).0 h.queue;
            };
            flows = λ k q f. f;
          })
  ]
    where
      room :
          {V : Type 0} (q : List V) (c : V)
          → length q ≤ pending_cap
          → length (if ltb (length q) pending_cap then q ++ (c ∷ []) else q) ≤ pending_cap
      room q c b = ground (arith, length-append q (c ∷ []))

  -- A SYN: the table refuses and only its cursor moves, or the flow gets a port.
  admit_syn-Kept : (s : Inner S C) (k : Flow) → IsInner s → Kept s (admit_syn net chan s k).0
  unfolding admit_syn admitted
  admit_syn-Kept s k h = elim (nat_insert-cases s.nat k h.nat_valid) [
    | inl (t', p, e, ins) ↦
        let s' = record s { nat = t' } in
        let h' : IsInner s' = record { nat_valid = ins.valid; queue = h.queue } in
        let step : Kept s s' = record { inner = h'; flows = Inserted-flows s.nat t' k p ins } in
        rw e (elim (Bool-cases (any_remote s.active k.real_dst)) [
          | inl b ↦ rw b step
          | inr b ↦ rw b (
              trans-Kept s s' (create_listener net chan s' p k.real_dst) step
                (create_listener-Kept s' p k.real_dst h'))
        ])
    | inr (n, e, v, _, _) ↦
        rw e
          (record { inner = record { nat_valid = v; queue = h.queue }; flows = same_flows s.nat n })
  ]

  -- A SYN to a remote that has an active socket, whatever flow that socket serves, may take a
  -- port of the table, but no socket is made for it, and no connection becomes pending.
  admit_syn-shared :
      (s : Inner S C) (k : Flow)
      → IsInner s
      → any_remote s.active k.real_dst ≡ true
      → ((admit_syn net chan s k).0.active ≡ s.active)
        × ((admit_syn net chan s k).0.pending ≡ s.pending)
        × ((admit_syn net chan s k).0.sockets ≡ s.sockets)
  unfolding admit_syn admitted
  admit_syn-shared s k h b = elim (nat_insert-cases s.nat k h.nat_valid) [
    | inl (t', p, e, ins) ↦ rw e (rw b (refl, refl, refl))
    | inr (n, e, v, nf, full) ↦ rw e (refl, refl, refl)
  ]

  allocate-Kept :
      (s : Inner S C) (k : Flow) (syn : Bool) → IsInner s → Kept s (allocate net chan s k syn).0
  unfolding allocate
  allocate-Kept s k true h = admit_syn-Kept s k h
  allocate-Kept s k false h = same-Kept s s h refl refl

  deliver-Kept :
      (s s' : Inner S C) (port : Option ℕ) (raw : List ℕ)
      → IsInner s
      → deliver net chan s port raw ≡ ret s'
      → Kept s s'
  unfolding deliver
  deliver-Kept s s' none raw h e = moved s s' (cc e) (same-Kept s s h refl refl)
  deliver-Kept s s' (some p) raw h e =
      let (r, er, ef) = >>=-eq-ret (rewrite_inbound raw p) _ e in
      elim (Bool-cases r.1) [
        | inl b ↦
            let u = record s { device = record s.device { rx = s.device.rx ++ (r.0 ∷ []) } } in
            let same : u ≡ s' = ret_inj u s' (ap ret (sym (chosen r.1 u s b)) ∙ ef) in
            moved s s' same (same-Kept s u h refl refl)
        | inr b ↦ moved s s' (cc (ef, b)) (same-Kept s s h refl refl)
      ]

  process_inbound-Kept :
      (s s' : Inner S C) (raw : List ℕ)
      → IsInner s
      → process_inbound net chan s raw ≡ ret s'
      → Kept s s'
  unfolding process_inbound
  process_inbound-Kept s s' raw h e =
      let (addrs, ea, ef) = >>=-eq-ret (extract_tcp_addrs raw) _ e in
      elim addrs
          as (λ a.
            (elim a [
              | none ↦ ret s
              | some e ↦ (do
                syn ← is_tcp_syn raw
                let r = allocate net chan s (record { src = e.0; real_dst = e.1 }) syn
                deliver net chan r.0 r.1 raw)
            ])
              ≡ ret s'
            → Kept s s') [
              | none ↦ λ g. moved s s' (cc g) (same-Kept s s h refl refl)
              | some a ↦ λ g.
                  let (syn, es, ed) = >>=-eq-ret (is_tcp_syn raw) _ g in
                  let k : Flow = record { src = a.0; real_dst = a.1 } in
                  let r = allocate net chan s k syn in
                  let first = allocate-Kept s k syn h in
                  trans-Kept s r.0 s' first (deliver-Kept r.0 s' r.1 raw first.inner ed)
            ]
        ef

  pub process_all-Kept :
      (s s' : Inner S C) (raws : List (List ℕ))
      → IsInner s
      → process_all net chan s raws ≡ ret s'
      → Kept s s'
  unfolding process_all
  process_all-Kept s s' [] h e = moved s s' (cc e) (same-Kept s s h refl refl)
  process_all-Kept s s' (raw ∷ rest) h e =
      let (u, eu, eg) = >>=-eq-ret (process_inbound net chan s raw) _ e in
      let first = process_inbound-Kept s u raw h eu in
      trans-Kept s u s' first (process_all-Kept u s' rest first.inner eg)
