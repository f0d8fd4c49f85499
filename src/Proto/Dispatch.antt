-- ===== src/Proto/Dispatch.antt =====
-- What the version dispatch of `IpView::parse` decides, and what its views promise.
use gravital_share.Common.{ℕ, ◌/◌, ◌≡◌, ◌≢◌, refl, arith, List}
use gravital_share.Common.Bytes.{byte, at_lt}
use gravital_share.Common.Outcome.{Outcome, ret, panic, ok, ◌>>=◌, Result}
use gravital_share.Proto.Errors.{ParseError}
use gravital_share.Proto.Ip
use gravital_share.Proto.Ip.{IpView, v4, v6, map_ok}
use gravital_share.Proto.Ipv4
use gravital_share.Proto.Ipv4.{IpProtocol, from_u8}
use gravital_share.Proto.Ipv4.Safety.{IsHeader, parse_iff}
use gravital_share.Proto.Ipv6

map_ok-ne-panic :
    {A B : Type 0} (f : A → B) (m : Outcome (Result ParseError A))
    → m ≢ panic
    → (m >>= λ r. ret (map_ok f r)) ≢ panic
map_ok-ne-panic f (ret a) h e = cc
map_ok-ne-panic f panic h e = h refl

ipv6-ne-panic : (p : List ℕ) → Ipv6.parse p ≢ panic
unfolding Ipv6.parse
ipv6-ne-panic p e = ground arith

pub parse-ne-panic : (p : List ℕ) → Ip.parse p ≢ panic
unfolding Ip.parse
parse-ne-panic p e = ground (
  arith,
  at_lt p 0,
  map_ok-ne-panic v4 (Ipv4.parse p) (parse_iff p).0,
  map_ok-ne-panic v6 (Ipv6.parse p) (ipv6-ne-panic p),
)

pub parse_v4 :
    (p : List ℕ)
    → byte p 0 / 16 ≡ 4
    → IsHeader p
    → Ip.parse p ≡ ret (ok (v4 (record { bytes = p })))
unfolding Ip.parse
parse_v4 p h k = let n = k.fixed in ground (arith, at_lt p 0, (parse_iff p).1.1 k)
