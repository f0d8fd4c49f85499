-- ===== src/Engine/Tun.antt =====
-- engine/crates/gravital-engine/src/runner.rs: what the client loop does with one packet from the
-- TUN device, and engine/crates/gravital-engine/src/metrics.rs.
pub mod Answered
pub mod Leaks
use gravital_share.Common.{
  ℕ, ◌+◌, ◌%◌, ◌^◌, List, [], ◌∷◌, Option, none, some, Bool, true, false, ◌==◌, if◌then◌else◌,
  length,
}
use gravital_share.Common.Outcome.{Outcome, ret, ◌>>=◌, Result, ok, err}
use gravital_share.Proto.Errors.{ParseError}
use gravital_share.Proto.Ip
use gravital_share.Proto.Ip.{IpView}
use gravital_share.Proto.Ipv4.{IpProtocol, icmp, tcp, udp, ipv6_icmp, other}
use gravital_share.Engine.Reply.{udp_dst_port, extract_udp_payload, build_udp_reply}
use gravital_share.Engine.Dns.{DnsError, DnsInterceptor, handle_query}

pub record EngineMetrics : Type 0 where
  pub bytes_in : ℕ
  pub bytes_out : ℕ
  pub packets_in : ℕ
  pub packets_out : ℕ
  pub active_tcp_sessions : ℕ
  pub active_udp_assocs : ℕ
  pub dns_queries : ℕ
  pub dns_leaks_detected : ℕ
  pub reconnects : ℕ
  pub last_rtt_ms : ℕ
  pub drops_buffer_full : ℕ
  pub drops_parse_error : ℕ
  pub socks_handshake_failures : ℕ

-- `fetch_add` on an AtomicU64
abbrev pub fetch_add : ℕ → ℕ → ℕ
fetch_add counter n = (counter + n) % 2 ^ 64

unfoldable pub count_in : EngineMetrics → List ℕ → EngineMetrics
count_in m pkt = record m {
  packets_in = fetch_add m.packets_in 1;
  bytes_in = fetch_add m.bytes_in (length pkt);
}

unfoldable pub count_out : EngineMetrics → List ℕ → EngineMetrics
count_out m pkt = record m {
  packets_out = fetch_add m.packets_out 1;
  bytes_out = fetch_add m.bytes_out (length pkt);
}

unfoldable pub count_drop : EngineMetrics → EngineMetrics
count_drop m = record m { drops_parse_error = fetch_add m.drops_parse_error 1 }

-- What becomes of a packet: it is fed to the stack, its payload goes to the interceptor in a task
-- of its own, it is counted as dropped, or it is a DNS packet without a payload.
pub data Action : Type 0 where
  feed : Action
  query : List ℕ → Action
  drop_counted : Action
  no_payload : Action

-- `udp_dst_port(&pkt) == Some(53)`
pub is_dns_port : Option ℕ → Bool
is_dns_port none = false
is_dns_port (some p) = p == 53

unfoldable pub query_of : Option (List ℕ) → Action
query_of none = no_payload
query_of (some q) = query q

-- The arms of the match on the protocol.
pub dispatch_protocol : EngineMetrics → List ℕ → IpProtocol → Outcome (EngineMetrics × Action)
dispatch_protocol m pkt tcp = ret (m, feed)
dispatch_protocol m pkt udp = do
  port ← udp_dst_port pkt
  if is_dns_port port
      then (do payload ← extract_udp_payload pkt; ret (m, query_of payload))
      else ret (count_drop m, drop_counted)
dispatch_protocol m pkt icmp = ret (count_drop m, drop_counted)
dispatch_protocol m pkt ipv6_icmp = ret (count_drop m, drop_counted)
dispatch_protocol m pkt (other n) = ret (count_drop m, drop_counted)

pub dispatch_view :
    EngineMetrics → List ℕ → Result ParseError IpView → Outcome (EngineMetrics × Action)
dispatch_view m pkt (err _) = ret (count_drop m, drop_counted)
dispatch_view m pkt (ok ip) = do proto ← Ip.protocol ip; dispatch_protocol m pkt proto

pub handle_packet : EngineMetrics → List ℕ → Outcome (EngineMetrics × Action)
handle_packet m pkt = do view ← Ip.parse pkt; dispatch_view (count_in m pkt) pkt view

-- The write of the reply, if one was built.
pub write_reply : EngineMetrics → Option (List ℕ) → EngineMetrics
write_reply m none = m
write_reply m (some reply) = count_out m reply

-- The task that answers a query: the interceptor, the metrics and the reply to be written.
pub answer_query :
    (List ℕ → Result DnsError (List ℕ))
    → DnsInterceptor
    → EngineMetrics
    → List ℕ
    → List ℕ
    → Outcome (DnsInterceptor × EngineMetrics × Option (List ℕ))
answer_query exchange d m pkt q = do
  let r = handle_query exchange d q
  reply ← build_udp_reply pkt r.1
  ret (r.0, write_reply m reply, reply)
