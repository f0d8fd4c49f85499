-- ===== src/Examples/Packets.antt =====
-- A TCP SYN and a DNS query, through the packet functions.
use gravital_share.Common.{
  ℕ, ◌-◌, ◌*◌, ◌%◌, ◌≤◌, ◌<◌, ◌≡◌, ◌↔◌, refl, arith, List, [], ◌∷◌, length, take, drop, min, true,
  some, none,
}
use gravital_share.Common.Bytes.{at, byte, word}
use gravital_share.Common.Addr.{Ipv4Addr}
use gravital_share.Common.Outcome.{ret, panic, Result, ok, err}
use gravital_share.Proto.Ip
use gravital_share.Proto.Ip.{IpView}
use gravital_share.Proto.Ipv4
use gravital_share.Proto.Ipv4.{Ipv4View, tcp}
use gravital_share.Proto.Ipv4.Safety.{IsHeader, payload-cases, parse_ok}
use gravital_share.Stack.Rewrite.{rewrite_inbound, rewrite_outbound, extract_tcp_addrs}
use gravital_share.Stack.Rewrite.Packets.{IsTcpPacket}
use gravital_share.Stack.Rewrite.Inbound.{Inbound, rewrite_inbound-returns}
use gravital_share.Stack.Rewrite.Outbound.{Outbound, rewrite_outbound-returns, IsIpv4}
use gravital_share.Engine.Reply.{build_udp_reply}
use gravital_share.Engine.Reply.Built.{IsUdpPacket, ReplyTo, build_udp_reply-returns}
use gravital_share.Engine.Dns.{DnsError, timeout, DnsInterceptor}
use gravital_share.Engine.Dns
use gravital_share.Engine.Tun.{EngineMetrics, handle_packet, count_in, feed}
use gravital_share.Engine.Tun.Leaks.{Fate, handle_packet-Fate}

abbrev pub syn_packet : List ℕ
syn_packet =
    0x45 ∷ 0 ∷ 0 ∷ 40 ∷ 0 ∷ 1 ∷ 0 ∷ 0 ∷ 64 ∷ 6 ∷ 0 ∷ 0 ∷ 10 ∷ 0 ∷ 0 ∷ 2 ∷ 93 ∷ 184 ∷ 216 ∷ 34 ∷ 0x30
    ∷ 0x39 ∷ 0 ∷ 80 ∷ 0 ∷ 0 ∷ 0 ∷ 1 ∷ 0 ∷ 0 ∷ 0 ∷ 0 ∷ 0x50 ∷ 2 ∷ 255 ∷ 255 ∷ 0 ∷ 0 ∷ 0 ∷ 0 ∷ []

abbrev dns_packet : List ℕ
dns_packet =
    0x45 ∷ 0 ∷ 0 ∷ 32 ∷ 0 ∷ 1 ∷ 0 ∷ 0 ∷ 64 ∷ 17 ∷ 0 ∷ 0 ∷ 10 ∷ 0 ∷ 0 ∷ 2 ∷ 1 ∷ 1 ∷ 1 ∷ 1 ∷ 0x9C
    ∷ 0x40 ∷ 0 ∷ 53 ∷ 0 ∷ 12 ∷ 0 ∷ 0 ∷ 0x12 ∷ 0x34 ∷ 1 ∷ 0 ∷ []

-- A header whose total length is below its own length.
abbrev short_packet : List ℕ
short_packet =
    0x45 ∷ 0 ∷ 0 ∷ 10 ∷ 0 ∷ 1 ∷ 0 ∷ 0 ∷ 64 ∷ 17 ∷ 0 ∷ 0 ∷ 10 ∷ 0 ∷ 0 ∷ 2 ∷ 1 ∷ 1 ∷ 1 ∷ 1 ∷ []

pub syn_packet-IsTcpPacket : IsTcpPacket syn_packet
syn_packet-IsTcpPacket = record {
  bytes = omega arith;
  version = refl;
  protocol = refl;
  header = omega arith;
  segment = omega arith;
  small = omega arith;
}

dns_packet-IsUdpPacket : IsUdpPacket dns_packet
dns_packet-IsUdpPacket = record {
  bytes = omega arith;
  version = refl;
  protocol = refl;
  header = omega arith;
  long = omega arith;
}

abbrev remote : Ipv4Addr
remote = record { a = 93; b = 184; c = 216; d = 34 }

remote-IsIpv4 : IsIpv4 remote
remote-IsIpv4 = record {
  octet_a = omega arith;
  octet_b = omega arith;
  octet_c = omega arith;
  octet_d = omega arith;
}

rewrite_inbound-returns_example :
    (q : List ℕ) × (rewrite_inbound syn_packet 10000 ≡ ret (q, true)) × Inbound syn_packet 10000 q
rewrite_inbound-returns_example =
    rewrite_inbound-returns syn_packet 10000 syn_packet-IsTcpPacket (omega arith)

rewrite_outbound-returns_example :
    (q : List ℕ) × (rewrite_outbound syn_packet remote 443 ≡ ret (q, true))
    × Outbound syn_packet remote 443 q
rewrite_outbound-returns_example =
    rewrite_outbound-returns syn_packet remote 443 syn_packet-IsTcpPacket remote-IsIpv4
      (omega arith)

dns_packet-none : extract_tcp_addrs dns_packet ≡ ret none
unfolding extract_tcp_addrs at
dns_packet-none = refl

abbrev metrics : EngineMetrics
metrics = record {
  bytes_in = 0;
  bytes_out = 0;
  packets_in = 0;
  packets_out = 0;
  active_tcp_sessions = 0;
  active_udp_assocs = 0;
  dns_queries = 0;
  dns_leaks_detected = 0;
  reconnects = 0;
  last_rtt_ms = 0;
  drops_buffer_full = 0;
  drops_parse_error = 0;
  socks_handshake_failures = 0;
}

-- A server that never answers.
abbrev silent : List ℕ → Result DnsError (List ℕ)
silent q = err (timeout [])

handle_packet-Fate_example :
    Fate (count_in metrics syn_packet) syn_packet (handle_packet metrics syn_packet)
    × (handle_packet metrics syn_packet ≡ ret (count_in metrics syn_packet, feed)
        → (v : IpView) × (Ip.parse syn_packet ≡ ret (ok v)) × (Ip.protocol v ≡ ret tcp))
handle_packet-Fate_example = handle_packet-Fate metrics syn_packet

build_udp_reply-returns_example :
    (r : List ℕ) × (build_udp_reply dns_packet (1 ∷ 2 ∷ 3 ∷ []) ≡ ret (some r))
    × ReplyTo dns_packet (1 ∷ 2 ∷ 3 ∷ []) r
build_udp_reply-returns_example =
    build_udp_reply-returns dns_packet (1 ∷ 2 ∷ 3 ∷ []) dns_packet-IsUdpPacket (omega arith)
      (omega arith)

short_packet-IsHeader : IsHeader short_packet
short_packet-IsHeader = record { fixed = omega arith; long = omega arith; fits = omega arith }

payload-cases_example :
    (byte short_packet 0 % 16 * 4 ≤ word short_packet 2
      → Ipv4.payload (record { bytes = short_packet })
        ≡ ret (
            take
              (min (word short_packet 2) (length short_packet) - byte short_packet 0 % 16 * 4)
              (drop (byte short_packet 0 % 16 * 4) short_packet)))
    × ((Ipv4.payload (record { bytes = short_packet }) ≡ panic)
        ↔ (word short_packet 2 < byte short_packet 0 % 16 * 4))
payload-cases_example =
    payload-cases short_packet (record { bytes = short_packet })
      (parse_ok short_packet short_packet-IsHeader)
