-- ===== src/Stack/Rewrite/Guards.antt =====
-- The guards of the packet functions on every buffer.
use gravital_share.Common.{ℕ, ◌+◌, ◌<◌, ◌≡◌, ◌≢◌, arith, List, length, none, false}
use gravital_share.Common.Bytes.{at_lt, u16_at_lt}
use gravital_share.Common.Addr.{Ipv4Addr, ipv4_at_lt}
use gravital_share.Common.Outcome.{ret, panic}
use gravital_share.Stack.Rewrite.{rewrite_inbound, rewrite_outbound, extract_tcp_addrs, is_tcp_syn}
use gravital_share.Stack.Rewrite.Image.{ihl_of, header_length_lt}

-- A packet from which no addresses can be extracted is refused by both rewrites, unchanged.
extract-none-rewrite :
    (p : List ℕ) (vport : ℕ) (ip : Ipv4Addr) (port : ℕ)
    → extract_tcp_addrs p ≡ ret none
    → (rewrite_inbound p vport ≡ ret (p, false)) × (rewrite_outbound p ip port ≡ ret (p, false))
unfolding extract_tcp_addrs rewrite_inbound rewrite_outbound
extract-none-rewrite p vport ip port e = ground (
  arith,
  at_lt p 0,
  at_lt p 9,
  header_length_lt p,
  ipv4_at_lt p 12,
  ipv4_at_lt p 16,
  u16_at_lt p (ihl_of p),
  u16_at_lt p (ihl_of p + 2),
)

-- `extract_tcp_addrs` returns on every buffer; `is_tcp_syn` returns on every buffer but the empty.
pub extract-ne-panic : (p : List ℕ) → extract_tcp_addrs p ≢ panic
unfolding extract_tcp_addrs
extract-ne-panic p e = ground (
  arith,
  at_lt p 0,
  at_lt p 9,
  header_length_lt p,
  ipv4_at_lt p 12,
  ipv4_at_lt p 16,
  u16_at_lt p (ihl_of p),
  u16_at_lt p (ihl_of p + 2),
)

pub is_tcp_syn-ne-panic : (p : List ℕ) → 0 < length p → is_tcp_syn p ≢ panic
unfolding is_tcp_syn
is_tcp_syn-ne-panic p h e = ground (arith, header_length_lt p, at_lt p (ihl_of p + 13))
