-- ===== src/Proto/Ipv4.antt =====
-- engine/crates/gravital-proto/src/ip.rs, lines 6 to 138: protocol numbers and `Ipv4View`.
-- `b >> 4` is `b / 16` and `b & 0x0F` is `b % 16` on a byte.
pub mod Safety
use gravital_share.Common.{ℕ, ◌+◌, ◌*◌, ◌/◌, ◌%◌, List, min, ltb, ◌==◌, if◌then◌else◌, not, length}
use gravital_share.Common.Bytes.{at, slice, u16_at}
use gravital_share.Common.Outcome.{Outcome, ret, panic, ◌>>=◌, Result, ok, err}
use gravital_share.Common.Addr.{Ipv4Addr, ipv4_at}
use gravital_share.Proto.Errors.{
  ParseError, truncated_header, invalid_header_length, invalid_checksum,
}
use gravital_share.Proto.Checksum.{internet_checksum}

pub data IpProtocol : Type 0 where
  icmp tcp udp ipv6_icmp : IpProtocol
  other : ℕ → IpProtocol

-- `impl From<u8> for IpProtocol`
unfoldable pub from_u8 : ℕ → IpProtocol
from_u8 v =
    if v == 1
    then icmp
    else if v == 6
    then tcp
    else if v == 17
    then udp
    else if v == 58
    then ipv6_icmp
    else other v

pub record Ipv4View : Type 0 where
  pub bytes : List ℕ

unfoldable pub parse : List ℕ → Outcome (Result ParseError Ipv4View)
parse bytes = if ltb (length bytes) 20 then ret (err (truncated_header 20 (length bytes))) else do
  b0 ← at bytes 0
  let ihl = b0 % 16 * 4
  if ltb ihl 20
      then ret (err (invalid_header_length (b0 % 16)))
      else if ltb (length bytes) ihl
      then ret (err (truncated_header ihl (length bytes)))
      else ret (ok (record { bytes = bytes }))

pub ihl : Ipv4View → Outcome ℕ
ihl v = do b0 ← at v.bytes 0; ret (b0 % 16 * 4)

pub src : Ipv4View → Outcome Ipv4Addr
src v = ipv4_at v.bytes 12

pub dst : Ipv4View → Outcome Ipv4Addr
dst v = ipv4_at v.bytes 16

unfoldable pub protocol : Ipv4View → Outcome IpProtocol
protocol v = do b ← at v.bytes 9; ret (from_u8 b)

pub total_length : Ipv4View → Outcome ℕ
total_length v = u16_at v.bytes 2

pub ttl : Ipv4View → Outcome ℕ
ttl v = at v.bytes 8

unfoldable pub payload : Ipv4View → Outcome (List ℕ)
payload v = do
  total ← total_length v
  start ← ihl v
  slice v.bytes start (min total (length v.bytes))

unfoldable pub verify_checksum : Ipv4View → Outcome (Result ParseError (Unit {0}))
verify_checksum v = do
  n ← ihl v
  hdr ← slice v.bytes 0 n
  let csum = internet_checksum hdr
  if not (csum == 0)
      then (do stored ← u16_at v.bytes 10; ret (err (invalid_checksum 0 stored)))
      else ret (ok tt)
