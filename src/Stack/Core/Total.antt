-- ===== src/Stack/Core/Total.antt =====
-- A poll cycle returns: no packet of an application makes it panic.
use gravital_share.Common.{
  ℕ, ◌<◌, ◌≡◌, ◌≢◌, inl, inr, refl, arith, List, [], ◌∷◌, ◌++◌, Option, none, some, Bool, true,
  false, Option-cases, if◌then◌else◌, All, length, ℕ_discrete,
}
use gravital_share.Common.Addr.{SocketAddr, v4, v6, IpAddr}
use gravital_share.Common.Bytes.{at_lt, u16_at_lt}
use gravital_share.Common.Keys.{IsDistinct, insert-IsDistinct}
use gravital_share.Common.Outcome.{ret, panic, ◌>>=◌, returned, Returns, >>=-Returns}
use gravital_share.Stack.Nat.{NatTable, Flow}
use gravital_share.Stack.Rewrite.{rewrite_inbound, rewrite_outbound, extract_tcp_addrs, is_tcp_syn}
use gravital_share.Stack.Rewrite.Image.{ihl_of, header_length_lt}
use gravital_share.Stack.Rewrite.Guards.{extract-ne-panic, is_tcp_syn-ne-panic}
use gravital_share.Stack.Rewrite.Total.{rewrite_inbound-Mended, rewrite_outbound-Mended}
use gravital_share.Stack.Device.{Mpsc, TunVirtualDevice}
use gravital_share.Stack.State.{
  Smoltcp, Inner, nat_insert, any_remote, outbound_src_port, readdress,
}
use gravital_share.Stack.Core.{
  create_listener, admitted, admit_syn, allocate, deliver, process_inbound, process_all,
}

-- An IPv4 packet whose header is not empty, as smoltcp sends it.
abbrev pub HasHeader : List ℕ → Type 0
HasHeader p = 0 < ihl_of p

-- smoltcp adds only such packets to the transmit queue.
abbrev pub SendsHeaders : {S : Type 0} → Smoltcp S → Type 0
SendsHeaders {S} net =
    (sockets : S) (ts : ℕ) (d : TunVirtualDevice)
    → All HasHeader d.tx
    → All HasHeader (net.poll_iface sockets ts d).1.tx

-- Each active socket once, and packets of smoltcp in the transmit queue.
pub record IsOrderly {S C : Type 0} (s : Inner S C) : Type 0 where
  pub distinct : IsDistinct ℕ_discrete s.active
  pub headers : All HasHeader s.device.tx

pub outbound_src_port-ne-panic : (p : List ℕ) → outbound_src_port p ≢ panic
unfolding outbound_src_port
outbound_src_port-ne-panic p e =
    ground (arith, at_lt p 0, at_lt p 9, header_length_lt p, u16_at_lt p (ihl_of p))

-- Addresses are extracted of packets that have a header.
extract-some-nonempty :
    (p : List ℕ) (a : SocketAddr × SocketAddr) → extract_tcp_addrs p ≡ ret (some a) → 0 < length p
unfolding extract_tcp_addrs
extract-some-nonempty p a e = ground arith

pub readdress-Returns :
    (p : List ℕ) (ip : IpAddr) (port : ℕ)
    → HasHeader p
    → Returns (λ q. Unit {0}) (readdress p ip port)
unfolding readdress
readdress-Returns p (v4 ip) port h =
    >>=-Returns (rewrite_outbound p ip port) _ (rewrite_outbound-Mended p ip port h)
      λ r _. (r.0, refl, tt)
readdress-Returns p (v6 _) port h = (p, refl, tt)

module _ {S C : Type 0} (net : Smoltcp S) (chan : Mpsc C) where
  create_listener-IsOrderly :
      (s : Inner S C) (vport : ℕ) (rd : SocketAddr)
      → IsOrderly s
      → IsOrderly (create_listener net chan s vport rd)
  unfolding create_listener
  create_listener-IsOrderly s vport rd h = elim (Option-cases (net.listen s.sockets vport)) [
    | inl e ↦ rw (e, create_listener) h
    | inr (r, e) ↦
        rw (e, create_listener)
          (record {
            distinct = insert-IsDistinct ℕ_discrete s.active r.0 _ h.distinct;
            headers = h.headers;
          })
  ]

  admitted-IsOrderly :
      (s : Inner S C) (k : Flow) (r : NatTable × Option ℕ)
      → IsOrderly s
      → IsOrderly (admitted net chan s k r).0
  unfolding admitted
  admitted-IsOrderly s k (t, none) h = record { distinct = h.distinct; headers = h.headers }
  admitted-IsOrderly s k (t, some vp) h =
      let s' = record s { nat = t } in
      let h' : IsOrderly s' = record { distinct = h.distinct; headers = h.headers } in
      elim (any_remote s.active k.real_dst)
        as (λ b. IsOrderly (if b then s' else create_listener net chan s' vp k.real_dst)) [
          | true ↦ h'
          | false ↦ create_listener-IsOrderly s' vp k.real_dst h'
        ]

  allocate-IsOrderly :
      (s : Inner S C) (k : Flow) (syn : Bool)
      → IsOrderly s
      → IsOrderly (allocate net chan s k syn).0
  unfolding allocate admit_syn
  allocate-IsOrderly s k true h = admitted-IsOrderly s k (nat_insert s.nat k) h
  allocate-IsOrderly s k false h = h

  deliver-Returns :
      (s : Inner S C) (port : Option ℕ) (raw : List ℕ)
      → IsOrderly s
      → Returns IsOrderly (deliver net chan s port raw)
  unfolding deliver
  deliver-Returns s none raw h = (s, refl, h)
  deliver-Returns s (some p) raw h =
      >>=-Returns (rewrite_inbound raw p) _ (rewrite_inbound-Mended raw p) λ r _.
        let u = record s { device = record s.device { rx = s.device.rx ++ (r.0 ∷ []) } } in
        let h' : IsOrderly u = record { distinct = h.distinct; headers = h.headers } in
        (
          if r.1 then u else s,
          refl,
          elim r.1 as (λ b. IsOrderly (if b then u else s)) [ true ↦ h' | false ↦ h ],
        )

  process_inbound-Returns :
      (s : Inner S C) (raw : List ℕ)
      → IsOrderly s
      → Returns IsOrderly (process_inbound net chan s raw)
  unfolding process_inbound
  process_inbound-Returns s raw h =
      let (addrs, e) = returned (extract_tcp_addrs raw) (extract-ne-panic raw) in
      rw e (with addrs e)
    where
      with :
          (addrs : Option (SocketAddr × SocketAddr))
          → extract_tcp_addrs raw ≡ ret addrs
          → Returns IsOrderly (elim addrs [
            | none ↦ ret s
            | some e ↦ (do
              syn ← is_tcp_syn raw
              let r = allocate net chan s (record { src = e.0; real_dst = e.1 }) syn
              deliver net chan r.0 r.1 raw)
          ])
      with none e = (s, refl, h)
      with (some a) e =
          let (syn, es) =
            returned (is_tcp_syn raw) (is_tcp_syn-ne-panic raw (extract-some-nonempty raw a e)) in
          let k : Flow = record { src = a.0; real_dst = a.1 } in
          rw es (
            deliver-Returns (allocate net chan s k syn).0 (allocate net chan s k syn).1 raw
              (allocate-IsOrderly s k syn h))

  pub process_all-Returns :
      (s : Inner S C) (raws : List (List ℕ))
      → IsOrderly s
      → Returns IsOrderly (process_all net chan s raws)
  unfolding process_all
  process_all-Returns s [] h = (s, refl, h)
  process_all-Returns s (raw ∷ rest) h =
      >>=-Returns (process_inbound net chan s raw) _ (process_inbound-Returns s raw h)
        λ u hu. process_all-Returns u rest hu
