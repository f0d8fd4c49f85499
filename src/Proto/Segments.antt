-- ===== src/Proto/Segments.antt =====
-- The parsed TCP, UDP, ICMP and IPv6 views: which buffers parse, and what their payloads are.
use gravital_share.Common.{
  ℕ, ◌+◌, ◌-◌, ◌*◌, ◌/◌, ◌%◌, ◌≤◌, ◌<◌, ◌≡◌, ◌≢◌, ◌↔◌, arith, List, min, length, take, drop, dec_lt,
}
use gravital_share.Common.Bytes.{
  byte, word, word32, at_lt, u16_at_lt, u32_at_lt, slice_in, slice_out,
}
use gravital_share.Common.Outcome.{ret, panic, ok}
use gravital_share.Proto.Tcp
use gravital_share.Proto.Tcp.{TcpView}
use gravital_share.Proto.Udp
use gravital_share.Proto.Udp.{UdpView}
use gravital_share.Proto.Ipv6
use gravital_share.Proto.Ipv6.{Ipv6View}

pub record IsTcpHeader (p : List ℕ) : Type 0 where
  pub fixed : 20 ≤ length p
  pub long : 20 ≤ byte p 12 / 16 * 4
  pub fits : byte p 12 / 16 * 4 ≤ length p

tcp_parse_ok : (p : List ℕ) → IsTcpHeader p → Tcp.parse p ≡ ret (ok (record { bytes = p }))
unfolding Tcp.parse
tcp_parse_ok p h = ground (arith, at_lt p 12)

tcp_parse-IsTcpHeader :
    (p : List ℕ) (v : TcpView) → Tcp.parse p ≡ ret (ok v) → IsTcpHeader p × (v.bytes ≡ p)
unfolding Tcp.parse
tcp_parse-IsTcpHeader p v e = ground (arith, at_lt p 12)

tcp_parse-ne-panic : (p : List ℕ) → Tcp.parse p ≢ panic
unfolding Tcp.parse
tcp_parse-ne-panic p e = ground (arith, at_lt p 12)

tcp_fields :
    (p : List ℕ)
    → IsTcpHeader p
    → (Tcp.src_port (record { bytes = p }) ≡ ret (word p 0))
      × (Tcp.dst_port (record { bytes = p }) ≡ ret (word p 2))
      × (Tcp.seq_num (record { bytes = p }) ≡ ret (word32 p 4))
      × (Tcp.ack_num (record { bytes = p }) ≡ ret (word32 p 8))
      × (Tcp.flags (record { bytes = p }) ≡ ret (byte p 13 % 64))
      × (Tcp.window_size (record { bytes = p }) ≡ ret (word p 14))
unfolding Tcp.src_port Tcp.dst_port Tcp.seq_num Tcp.ack_num Tcp.flags Tcp.window_size
tcp_fields p h =
    let n = h.fixed in
    (
      u16_at_lt p 0 (omega arith),
      u16_at_lt p 2 (omega arith),
      u32_at_lt p 4 (omega arith),
      u32_at_lt p 8 (omega arith),
      rw (at_lt p 13 (omega arith)),
      u16_at_lt p 14 (omega arith),
    )

tcp_payload :
    (p : List ℕ)
    → IsTcpHeader p
    → Tcp.payload (record { bytes = p })
      ≡ ret (take (length p - byte p 12 / 16 * 4) (drop (byte p 12 / 16 * 4) p))
unfolding Tcp.payload Tcp.header_len
tcp_payload p h =
    let n = h.fixed in
    rw (at_lt p 12 (omega arith)) (slice_in p (byte p 12 / 16 * 4) (length p) h.fits (omega arith))

-- `TcpView::parse` never panics and accepts exactly the buffers whose data offset is at least 20
-- and lies within them; on such a view no reader panics, each field is read from its place, and
-- the payload is what lies behind the data offset.
tcp_view :
    (p : List ℕ)
    → (Tcp.parse p ≢ panic)
      × ((Tcp.parse p ≡ ret (ok (record { bytes = p }))) ↔ IsTcpHeader p)
      × (IsTcpHeader p
          → ((Tcp.src_port (record { bytes = p }) ≡ ret (word p 0))
              × (Tcp.dst_port (record { bytes = p }) ≡ ret (word p 2))
              × (Tcp.seq_num (record { bytes = p }) ≡ ret (word32 p 4))
              × (Tcp.ack_num (record { bytes = p }) ≡ ret (word32 p 8))
              × (Tcp.flags (record { bytes = p }) ≡ ret (byte p 13 % 64))
              × (Tcp.window_size (record { bytes = p }) ≡ ret (word p 14))))
      × (IsTcpHeader p
          → Tcp.payload (record { bytes = p })
            ≡ ret (take (length p - byte p 12 / 16 * 4) (drop (byte p 12 / 16 * 4) p)))
tcp_view p = (
  tcp_parse-ne-panic p,
  (λ e. (tcp_parse-IsTcpHeader p (record { bytes = p }) e).0, tcp_parse_ok p),
  tcp_fields p,
  tcp_payload p,
)

udp_payload_in :
    (p : List ℕ)
    → 8 ≤ length p
    → 8 ≤ word p 4
    → Udp.payload (record { bytes = p }) ≡ ret (take (min (word p 4) (length p) - 8) (drop 8 p))
unfolding Udp.payload Udp.udp_length
udp_payload_in p n h =
    rw (u16_at_lt p 4 (omega arith))
      (slice_in p 8 (min (word p 4) (length p)) (omega arith) (omega arith))

udp_payload_out :
    (p : List ℕ) → 8 ≤ length p → word p 4 < 8 → Udp.payload (record { bytes = p }) ≡ panic
unfolding Udp.payload Udp.udp_length
udp_payload_out p n h =
    rw (u16_at_lt p 4 (omega arith)) (slice_out p 8 (min (word p 4) (length p)) (omega arith))

udp_parse-length :
    (p : List ℕ) (v : UdpView) → Udp.parse p ≡ ret (ok v) → (8 ≤ length p) × (v.bytes ≡ p)
unfolding Udp.parse
udp_parse-length p v e = ground arith

-- The payload of a parsed UDP view is cut at the smaller of the length field and the end of the
-- buffer, and reading it panics exactly when the length field is below 8.
pub udp_payload-cases :
    (p : List ℕ) (v : UdpView)
    → Udp.parse p ≡ ret (ok v)
    → (8 ≤ word p 4 → Udp.payload v ≡ ret (take (min (word p 4) (length p) - 8) (drop 8 p)))
      × ((Udp.payload v ≡ panic) ↔ (word p 4 < 8))
udp_payload-cases p v e =
    let (n, eq) = udp_parse-length p v e in
    let same : v ≡ record { bytes = p } = λ i. record { bytes = eq i } in
    rw same (
      udp_payload_in p n,
      (
        λ q. elim (dec_lt (word p 4) 8) [
          | yes lt ↦ lt
          | no ge ↦ absurd (cc (udp_payload_in p n (omega arith)))
        ],
        udp_payload_out p n,
      ),
    )

ipv6_parse-length :
    (p : List ℕ) (v : Ipv6View) → Ipv6.parse p ≡ ret (ok v) → (40 ≤ length p) × (v.bytes ≡ p)
unfolding Ipv6.parse
ipv6_parse-length p v e = ground arith

-- Unlike the IPv4 and UDP views, a parsed IPv6 view yields its payload on every input.
ipv6_payload-returns :
    (p : List ℕ) (v : Ipv6View)
    → Ipv6.parse p ≡ ret (ok v)
    → Ipv6.payload v ≡ ret (take (min (40 + word p 4) (length p) - 40) (drop 40 p))
unfolding Ipv6.payload Ipv6.payload_length
ipv6_payload-returns p v e =
    let (n, eq) = ipv6_parse-length p v e in
    rw (eq, u16_at_lt p 4 (omega arith))
      (slice_in p 40 (min (40 + word p 4) (length p)) (omega arith) (omega arith))
