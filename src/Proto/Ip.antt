-- ===== src/Proto/Ip.antt =====
-- engine/crates/gravital-proto/src/ip.rs, lines 28 to 60: the version dispatch of `IpView`.
use gravital_share.Common.{ℕ, ◌/◌, List, ◌==◌, if◌then◌else◌, length}
use gravital_share.Common.Bytes.{at}
use gravital_share.Common.Outcome.{Outcome, ret, ◌>>=◌, Result, ok, err}
use gravital_share.Proto.Errors.{ParseError, truncated_header, invalid_version}
use gravital_share.Proto.Ipv4
use gravital_share.Proto.Ipv4.{Ipv4View, IpProtocol}
use gravital_share.Proto.Ipv6
use gravital_share.Proto.Ipv6.{Ipv6View}

pub data IpView : Type 0 where
  v4 : Ipv4View → IpView
  v6 : Ipv6View → IpView

-- `Ok(f(r?))`
abbrev pub map_ok : {A B : Type 0} → (A → B) → Result ParseError A → Result ParseError B
map_ok f (ok a) = ok (f a)
map_ok f (err e) = err e

unfoldable pub parse : List ℕ → Outcome (Result ParseError IpView)
parse buf = if length buf == 0 then ret (err (truncated_header 1 0)) else do
  b0 ← at buf 0
  if b0 / 16 == 4
      then (do r ← Ipv4.parse buf; ret (map_ok v4 r))
      else if b0 / 16 == 6
      then (do r ← Ipv6.parse buf; ret (map_ok v6 r))
      else ret (err (invalid_version (b0 / 16)))

unfoldable pub protocol : IpView → Outcome IpProtocol
protocol (v4 v) = Ipv4.protocol v
protocol (v6 v) = Ipv6.protocol v

unfoldable pub payload : IpView → Outcome (List ℕ)
payload (v4 v) = Ipv4.payload v
payload (v6 v) = Ipv6.payload v
