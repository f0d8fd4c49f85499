-- ===== src/Stack/Core/Packets.antt =====
-- Single steps on well-formed packets: a listener, a delivery and an emission.
use gravital_share.Common.{
  ℕ, suc, ◌+◌, ◌/◌, ◌<◌, ◌≡◌, inl, inr, refl, arith, List, [], ◌∷◌, ◌++◌, some, true, Option-cases,
  eq→==, le→ltb_false, length,
}
use gravital_share.Common.Addr.{SocketAddr, ipv4_of}
use gravital_share.Common.Bytes.{byte, byte-IsByte, word, at_lt, u16_at_lt}
use gravital_share.Common.Outcome.{ret, ret_then}
use gravital_share.Stack.Nat.{Flow, lookup_forward}
use gravital_share.Stack.Nat.Invariant.{IsNat}
use gravital_share.Stack.Rewrite.{rewrite_inbound}
use gravital_share.Stack.Rewrite.Image.{ihl_of, header_length_lt}
use gravital_share.Stack.Rewrite.Inbound.{Inbound, rewrite_inbound-returns}
use gravital_share.Stack.Rewrite.Outbound.{IsIpv4, Outbound, rewrite_outbound-returns}
use gravital_share.Stack.Rewrite.Packets.{IsTcpPacket, src_of, dst_of}
use gravital_share.Stack.Device.{Mpsc}
use gravital_share.Stack.State.{Smoltcp, Inner, outbound_src_port, flow_of, readdress}
use gravital_share.Stack.Core.{create_listener, deliver, emit_flow, emit}

-- The flow of a packet from the application.
abbrev pub flow_in : List ℕ → Flow
flow_in raw = record { src = src_of raw; real_dst = dst_of raw }

-- The device with one more packet to receive.
abbrev pub received : {S C : Type 0} → Inner S C → List ℕ → Inner S C
received s q = record s { device = record s.device { rx = s.device.rx ++ (q ∷ []) } }

dst-IsIpv4 : (raw : List ℕ) → IsTcpPacket raw → IsIpv4 (ipv4_of raw 16)
dst-IsIpv4 raw h = record {
  octet_a = byte-IsByte raw 16 h.bytes;
  octet_b = byte-IsByte raw 17 h.bytes;
  octet_c = byte-IsByte raw 18 h.bytes;
  octet_d = byte-IsByte raw 19 h.bytes;
}

dst_port-lt : (raw : List ℕ) → IsTcpPacket raw → (dst_of raw).port < 65536
dst_port-lt raw h =
    let a = byte-IsByte raw (ihl_of raw + 2) h.bytes in
    let b = byte-IsByte raw (suc (ihl_of raw + 2)) h.bytes in omega arith

outbound_src_port_in :
    (p : List ℕ) → IsTcpPacket p → outbound_src_port p ≡ ret (some (word p (ihl_of p)))
unfolding outbound_src_port
outbound_src_port_in p h =
    let a = h.header in
    let b = h.segment in
    rw (le→ltb_false (length p) 20 (omega arith)) (
      rw (at_lt p 0 (omega arith), at_lt p 9 (omega arith))
        (rw (eq→== (byte p 0 / 16) 4 h.version, eq→== (byte p 9) 6 h.protocol)
          (rw (header_length_lt p (omega arith)) (
            rw (le→ltb_false (length p) (ihl_of p + 4) (omega arith))
              (rw (u16_at_lt p (ihl_of p) (omega arith)))))))

module _ {S C : Type 0} (net : Smoltcp S) (chan : Mpsc C) where
  -- The listener of a new flow touches neither the table nor the device.
  pub create_listener-same :
      (s : Inner S C) (vport : ℕ) (rd : SocketAddr)
      → ((create_listener net chan s vport rd).nat ≡ s.nat)
        × ((create_listener net chan s vport rd).device ≡ s.device)
  unfolding create_listener
  create_listener-same s vport rd = elim (Option-cases (net.listen s.sockets vport)) [
    | inl e ↦ rw (e, create_listener) (refl, refl)
    | inr (r, e) ↦ rw (e, create_listener) (refl, refl)
  ]

  pub deliver_in :
      (s : Inner S C) (vp : ℕ) (raw : List ℕ)
      → IsTcpPacket raw
      → vp < 65536
      → (q : List ℕ) × (deliver net chan s (some vp) raw ≡ ret (received s q)) × Inbound raw vp q
  unfolding deliver
  deliver_in s vp raw h fits =
      let (q, e, i) = rewrite_inbound-returns raw vp h fits in
      (q, ret_then (rewrite_inbound raw vp) (q, true) _ e refl, i)

  pub emit_in :
      (s : Inner S C) (raw reply : List ℕ) (vp : ℕ)
      → IsNat s.nat
      → IsTcpPacket raw
      → IsTcpPacket reply
      → lookup_forward s.nat (flow_in raw) ≡ some vp
      → word reply (ihl_of reply) ≡ vp
      → (q : List ℕ) × (emit net chan s reply ≡ ret (record s { tun_tx = s.tun_tx ++ (q ∷ []) }))
        × Outbound reply (ipv4_of raw 16) (dst_of raw).port q
  unfolding emit emit_flow flow_of readdress
  emit_in s raw reply vp v h hr known from =
      let (q, e, o) =
        rewrite_outbound-returns reply (ipv4_of raw 16) (dst_of raw).port hr (dst-IsIpv4 raw h)
          (dst_port-lt raw h) in
      (
        q,
        rw (outbound_src_port_in reply hr)
            (rw from (rw (v.to_reverse (flow_in raw) vp known) (rw e refl))),
        o,
      )
