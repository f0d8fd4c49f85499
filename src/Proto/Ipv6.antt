-- ===== src/Proto/Ipv6.antt =====
-- engine/crates/gravital-proto/src/ip.rs, lines 140 to 192: `Ipv6View`.
use gravital_share.Common.{ℕ, ◌+◌, List, min, ltb, if◌then◌else◌, length}
use gravital_share.Common.Bytes.{at, slice, u16_at}
use gravital_share.Common.Outcome.{Outcome, ret, ◌>>=◌, Result, ok, err}
use gravital_share.Proto.Errors.{ParseError, truncated_header}
use gravital_share.Proto.Ipv4.{IpProtocol, from_u8}

pub record Ipv6View : Type 0 where
  pub bytes : List ℕ

unfoldable pub parse : List ℕ → Outcome (Result ParseError Ipv6View)
parse bytes =
    if ltb (length bytes) 40
    then ret (err (truncated_header 40 (length bytes)))
    else ret (ok (record { bytes = bytes }))

-- The sixteen octets of the source address.
unfoldable pub src : Ipv6View → Outcome (List ℕ)
src v = slice v.bytes 8 24

unfoldable pub dst : Ipv6View → Outcome (List ℕ)
dst v = slice v.bytes 24 40

unfoldable pub protocol : Ipv6View → Outcome IpProtocol
protocol v = do b ← at v.bytes 6; ret (from_u8 b)

unfoldable pub payload_length : Ipv6View → Outcome ℕ
payload_length v = u16_at v.bytes 4

unfoldable pub payload : Ipv6View → Outcome (List ℕ)
payload v = do len ← payload_length v; slice v.bytes 40 (min (40 + len) (length v.bytes))
