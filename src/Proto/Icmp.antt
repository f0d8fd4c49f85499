-- ===== src/Proto/Icmp.antt =====
-- engine/crates/gravital-proto/src/icmp.rs
use gravital_share.Common.{ℕ, List, ltb, ◌==◌, ◌&&◌, if◌then◌else◌, length}
use gravital_share.Common.Bytes.{at, slice, u16_at}
use gravital_share.Common.Outcome.{Outcome, ret, ◌>>=◌, Result, ok, err}
use gravital_share.Proto.Errors.{ParseError, truncated_header}

pub data IcmpType : Type 0 where
  echo_reply echo_request : IcmpType
  destination_unreachable : ℕ → IcmpType
  time_exceeded : ℕ → IcmpType
  other : ℕ → ℕ → IcmpType

pub record IcmpView : Type 0 where
  pub bytes : List ℕ

unfoldable pub parse : List ℕ → Outcome (Result ParseError IcmpView)
parse bytes =
    if ltb (length bytes) 4
    then ret (err (truncated_header 4 (length bytes)))
    else ret (ok (record { bytes = bytes }))

-- The arms of the match on the first two bytes, in their order.
unfoldable pub classify : ℕ → ℕ → IcmpType
classify t c =
    if (t == 0) && (c == 0)
    then echo_reply
    else if (t == 8) && (c == 0)
    then echo_request
    else if t == 3
    then destination_unreachable c
    else if t == 11
    then time_exceeded c
    else other t c

unfoldable pub icmp_type : IcmpView → Outcome IcmpType
icmp_type v = do t ← at v.bytes 0; c ← at v.bytes 1; ret (classify t c)

unfoldable pub checksum : IcmpView → Outcome ℕ
checksum v = u16_at v.bytes 2

unfoldable pub payload : IcmpView → Outcome (List ℕ)
payload v = slice v.bytes 4 (length v.bytes)
