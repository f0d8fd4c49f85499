-- ===== src/Proto/Udp.antt =====
-- engine/crates/gravital-proto/src/udp.rs
use gravital_share.Common.{ℕ, List, min, Bool, ltb, ◌==◌, if◌then◌else◌, length}
use gravital_share.Common.Bytes.{slice, u16_at}
use gravital_share.Common.Outcome.{Outcome, ret, ◌>>=◌, Result, ok, err}
use gravital_share.Proto.Errors.{ParseError, truncated_header}

pub record UdpView : Type 0 where
  pub bytes : List ℕ

unfoldable pub parse : List ℕ → Outcome (Result ParseError UdpView)
parse bytes =
    if ltb (length bytes) 8
    then ret (err (truncated_header 8 (length bytes)))
    else ret (ok (record { bytes = bytes }))

unfoldable pub src_port : UdpView → Outcome ℕ
src_port v = u16_at v.bytes 0

unfoldable pub dst_port : UdpView → Outcome ℕ
dst_port v = u16_at v.bytes 2

-- The length field of the header.
unfoldable pub udp_length : UdpView → Outcome ℕ
udp_length v = u16_at v.bytes 4

unfoldable pub checksum : UdpView → Outcome ℕ
checksum v = u16_at v.bytes 6

unfoldable pub payload : UdpView → Outcome (List ℕ)
payload v = do len ← udp_length v; slice v.bytes 8 (min len (length v.bytes))

unfoldable pub is_dns : UdpView → Outcome Bool
is_dns v = do port ← dst_port v; ret (port == 53)
