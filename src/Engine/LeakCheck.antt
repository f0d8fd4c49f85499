-- ===== src/Engine/LeakCheck.antt =====
-- engine/crates/gravital-dns/src/leak_check.rs, and the construction of the resolver
-- (resolver.rs). The exchange with the server within eight seconds is a parameter: `none` when
-- the time is over.
use gravital_share.Common.{ℕ, List, [], ◌∷◌, Option, none, some}
use gravital_share.Common.Addr.{Ipv4Addr, IpAddr, v4, SocketAddr}
use gravital_share.Common.Outcome.{Result, ok, err}
use gravital_share.Engine.Dns.{DnsError, leak_detected}

abbrev pub default_resolver : Ipv4Addr
default_resolver = record { a = 1; b = 1; c = 1; d = 1 }

abbrev pub dns_port : ℕ
dns_port = 53

pub record DnsResolver : Type 0 where
  pub server : SocketAddr

abbrev pub new_resolver : IpAddr → DnsResolver
new_resolver server = record { server = record { ip = server; port = dns_port } }

abbrev pub with_default : DnsResolver
with_default = new_resolver (v4 default_resolver)

-- The query for the name one.one.one.one.
abbrev pub build_canary_query : List ℕ
build_canary_query =
    0xDE ∷ 0xAD ∷ 0x01 ∷ 0x00 ∷ 0x00 ∷ 0x01 ∷ 0x00 ∷ 0x00 ∷ 0x00 ∷ 0x00 ∷ 0x00 ∷ 0x00 ∷ 0x03 ∷ b'o'
    ∷ b'n' ∷ b'e' ∷ 0x03 ∷ b'o' ∷ b'n' ∷ b'e' ∷ 0x03 ∷ b'o' ∷ b'n' ∷ b'e' ∷ 0x03 ∷ b'o' ∷ b'n'
    ∷ b'e' ∷ 0x00 ∷ 0x00 ∷ 0x01 ∷ 0x00 ∷ 0x01 ∷ []

-- The match on the outcome of `timeout`.
checked : Option (Result DnsError (List ℕ)) → Result DnsError (Unit {0})
checked none = err leak_detected
checked (some (err e)) = err leak_detected
checked (some (ok [])) = err leak_detected
checked (some (ok (b ∷ resp))) = ok tt

unfoldable pub run : (List ℕ → Option (Result DnsError (List ℕ))) → Result DnsError (Unit {0})
unfolding checked
run forward_raw = checked (forward_raw build_canary_query)
