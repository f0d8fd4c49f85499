-- ===== src/Stack/Core/Translate.antt =====
-- What the stack makes of the packets of a flow, in both directions.
use gravital_share.Common.{
  ℕ, ◌≡◌, ◌⊎◌, inl, inr, refl, ap, sym, ◌∙◌, arith, List, [], ◌∷◌, ◌++◌, none, some, Bool, true,
  false, Bool-cases, Option-cases,
}
use gravital_share.Common.Addr.{ipv4_of}
use gravital_share.Common.Bytes.{word}
use gravital_share.Common.Outcome.{ret, returned, Returns}
use gravital_share.Stack.Nat.{NatTable, Flow, lookup_forward, lookup_reverse}
use gravital_share.Stack.Nat.Invariant.{IsNat}
use gravital_share.Stack.Nat.Insert.{Exhausted, Inserted}
use gravital_share.Stack.Nat.Scan.{InRange}
use gravital_share.Stack.Rewrite.{is_tcp_syn}
use gravital_share.Stack.Rewrite.Guards.{is_tcp_syn-ne-panic}
use gravital_share.Stack.Rewrite.Image.{ihl_of}
use gravital_share.Stack.Rewrite.Inbound.{Inbound}
use gravital_share.Stack.Rewrite.Outbound.{Outbound}
use gravital_share.Stack.Rewrite.Packets.{IsTcpPacket, dst_of, extract_tcp_addrs_in}
use gravital_share.Stack.Device.{Mpsc}
use gravital_share.Stack.State.{Smoltcp, Inner, any_remote}
use gravital_share.Stack.Core.{
  create_listener, admitted, admit_syn, allocate, deliver, process_inbound, emit,
}
use gravital_share.Stack.Core.Kept.{IsInner, nat_insert-cases}
use gravital_share.Stack.Core.Total.{SendsHeaders, IsOrderly}
use gravital_share.Stack.Core.History.{Call, calls, calls-Returns}
use gravital_share.Stack.Core.Packets.{flow_in, create_listener-same, deliver_in, emit_in, received}

module _ {S C : Type 0} (net : Smoltcp S) (chan : Mpsc C) where
  -- Why the flow of a packet has the port `vp`: it had it before, or the packet is a SYN of a flow
  -- without a port, and `vp` is a free port of the range.
  abbrev pub Granted : Inner S C → List ℕ → ℕ → Type 0
  Granted s raw vp =
      (lookup_forward s.nat (flow_in raw) ≡ some vp)
      ⊎ ((is_tcp_syn raw ≡ ret true)
          × (lookup_forward s.nat (flow_in raw) ≡ none)
          × InRange vp
          × (lookup_reverse s.nat vp ≡ none))

  Inserted-Granted :
      (s : Inner S C) (raw : List ℕ) (t : NatTable) (vp : ℕ)
      → is_tcp_syn raw ≡ ret true
      → Inserted s.nat (flow_in raw) t vp
      → Granted s raw vp
  Inserted-Granted s raw t vp e i = elim (Option-cases (lookup_forward s.nat (flow_in raw))) [
    | inl free ↦ inr (e, free, i.in_range, i.fresh free)
    | inr (q, known) ↦ inl (known ∙ ap some (sym ((i.idempotent q known).1)))
  ]

  -- What becomes of a packet `raw` that the application sends: dropped, or rewritten to `q` and
  -- queued for smoltcp.
  pub record Dropped (s s' : Inner S C) (raw : List ℕ) : Type 0 where
    pub runs : process_inbound net chan s raw ≡ ret s'
    pub unknown : lookup_forward s.nat (flow_in raw) ≡ none
    pub reason : (is_tcp_syn raw ≡ ret false) ⊎ Exhausted s.nat
    pub untouched : s'.device ≡ s.device

  pub record Queued (s s' : Inner S C) (raw : List ℕ) (vp : ℕ) (q : List ℕ) : Type 0 where
    pub runs : process_inbound net chan s raw ≡ ret s'
    pub known : lookup_forward s'.nat (flow_in raw) ≡ some vp
    pub granted : Granted s raw vp
    pub rewritten : Inbound raw vp q
    pub queued : s'.device.rx ≡ s.device.rx ++ (q ∷ [])

  pub Fate : Inner S C → List ℕ → Type 0
  Fate s raw =
      ((s' : Inner S C) × Dropped s s' raw)
      ⊎ ((s' : Inner S C) × (vp : ℕ) × (q : List ℕ) × Queued s s' raw vp q)

  runs_in :
      (s : Inner S C) (raw : List ℕ) (syn : Bool)
      → IsTcpPacket raw
      → is_tcp_syn raw ≡ ret syn
      → process_inbound net chan s raw
        ≡ (let r = allocate net chan s (flow_in raw) syn in deliver net chan r.0 r.1 raw)
  unfolding process_inbound
  runs_in s raw syn h e = rw (extract_tcp_addrs_in raw h) (rw e refl)

  -- The state behind an admission that found a port.
  admitted_in :
      (s : Inner S C) (k : Flow) (t : NatTable) (vp : ℕ)
      → (s' : Inner S C) × (admitted net chan s k (t, some vp) ≡ (s', some vp))
        × (s'.nat ≡ t)
        × (s'.device ≡ s.device)
  unfolding admitted
  admitted_in s k t vp =
      let u = record s { nat = t } in
      elim (Bool-cases (any_remote s.active k.real_dst)) [
        | inl b ↦ rw b (u, refl, refl, refl)
        | inr b ↦
            let (n, d) = create_listener-same net chan u vp k.real_dst in
            rw b (create_listener net chan u vp k.real_dst, refl, n, d)
      ]

  -- A packet whose flow has a port behind the allocation.
  queued_in :
      (s u : Inner S C) (raw : List ℕ) (syn : Bool) (vp : ℕ)
      → IsTcpPacket raw
      → is_tcp_syn raw ≡ ret syn
      → allocate net chan s (flow_in raw) syn ≡ (u, some vp)
      → u.device ≡ s.device
      → IsNat u.nat
      → lookup_forward u.nat (flow_in raw) ≡ some vp
      → Granted s raw vp
      → Fate s raw
  unfolding Fate
  queued_in s u raw syn vp h e a d v known why =
      let r = v.ports vp (flow_in raw) (v.to_reverse (flow_in raw) vp known) in
      let hi = r.high in
      let (q, de, i) = deliver_in net chan u vp raw h (omega arith) in
      inr (
        received u q,
        vp,
        q,
        record {
          runs = runs_in s raw syn h e ∙ rw a de;
          known = known;
          granted = why;
          rewritten = i;
          queued = ap (λ x. x.rx ++ (q ∷ [])) d;
        },
      )

  -- Over a valid state, every well-formed TCP packet of the application meets one of two fates,
  -- without a panic. Either it is dropped: its flow has no port, and it is no SYN or every port
  -- is taken. Or its flow has a port behind it, which it had before or which was free and is given
  -- to a SYN of a new flow, and the packet is queued for smoltcp, rewritten to that port: its
  -- checksums verify, and its source is unchanged.
  pub process_inbound-Fate :
      (s : Inner S C) (raw : List ℕ) → IsInner s → IsTcpPacket raw → Fate s raw
  unfolding allocate admit_syn admitted deliver Fate
  process_inbound-Fate s raw v h =
      let a = h.header in
      let b = h.segment in
      let (syn, e) = returned (is_tcp_syn raw) (is_tcp_syn-ne-panic raw (omega arith)) in
      elim syn as (λ b. is_tcp_syn raw ≡ ret b → Fate s raw) [
        | true ↦ λ e. elim (nat_insert-cases s.nat (flow_in raw) v.nat_valid) [
          | inl (t, vp, ins, i) ↦
              let (u, al, n, d) = admitted_in s (flow_in raw) t vp in
              queued_in s u raw true vp h e (ap (admitted net chan s (flow_in raw)) ins ∙ al) d
                (rw n i.valid) (rw n i.found_forward) (Inserted-Granted s raw t vp e i)
          | inr (n, ins, _, free, full) ↦ inl (
            record s { nat = record s.nat { next = n } },
            record {
              runs = runs_in s raw true h e ∙ rw ins refl;
              unknown = free;
              reason = inr full;
              untouched = refl;
            },
          )
        ]
        | false ↦ λ e. elim (Option-cases (lookup_forward s.nat (flow_in raw))) [
          | inl free ↦ inl (
            s,
            record {
              runs = runs_in s raw false h e ∙ rw free refl;
              unknown = free;
              reason = inl e;
              untouched = refl;
            },
          )
          | inr (vp, known) ↦
              queued_in s s raw false vp h e (λ i. (s, known i)) refl v.nat_valid known (inl known)
        ]
      ]
        e

  -- The way back. In a valid state, where each active socket stands once and the packets that
  -- wait in the device have a header, let the flow of a packet `raw` have the port `vp`. Whatever
  -- calls of the stack follow, they return, when smoltcp sends packets that have a header; and a
  -- well-formed packet that smoltcp then sends from `vp` is put out with the destination of `raw`
  -- as its source: its checksums verify, and its destination is unchanged.
  pub reply-readdressed :
      (s : Inner S C) (raw reply : List ℕ) (vp : ℕ) (cs : List Call)
      → SendsHeaders net
      → IsInner s
      → IsOrderly s
      → IsTcpPacket raw
      → IsTcpPacket reply
      → lookup_forward s.nat (flow_in raw) ≡ some vp
      → word reply (ihl_of reply) ≡ vp
      → Returns
          (λ s'.
            (q : List ℕ) × (emit net chan s' reply
              ≡ ret (record s' { tun_tx = s'.tun_tx ++ (q ∷ []) }))
            × Outbound reply (ipv4_of raw 16) (dst_of raw).port q)
          (calls net chan s cs)
  reply-readdressed s raw reply vp cs sends v o h hr known from =
      let (s', e, l) = calls-Returns net chan s cs sends v o in
      (
        s',
        e,
        emit_in net chan s' raw reply vp l.kept.inner.nat_valid h hr
            (l.kept.flows (flow_in raw) vp known) from,
      )
