-- ===== src/Socks/Udp/Forwards.antt =====
-- What the relay of a UDP association sends, for the datagrams of RFC 1928, section 7.
use gravital_share.Common.{ℕ, ◌<◌, ◌≡◌, List, [], ◌∷◌, ◌++◌, Bool, ◌==◌, if◌then◌else◌, some}
use gravital_share.Common.Addr.{SocketAddr}
use gravital_share.Common.Io.{IoError}
use gravital_share.Common.Outcome.{Result, ok}
use gravital_share.Socks.Proto.{AddrSpec, encode_address, to_socket_addr}
use gravital_share.Socks.RoundTrip.{Encodable, atyp, body}
use gravital_share.Socks.Udp.{UdpEvent, received, Relay}

-- A datagram of a client: the fields of the header, the payload, the address that the target
-- resolves to, the sender, and whether a socket to send it on can be bound.
pub record Datagram : Type 0 where
  pub rsv0 : ℕ
  pub rsv1 : ℕ
  pub frag : ℕ
  pub target : AddrSpec
  pub port : ℕ
  pub payload : List ℕ
  pub resolved : SocketAddr
  pub peer : SocketAddr
  pub bound : Bool

-- The bytes by RFC 1928: two reserved bytes, the fragment, the address as in a request, the payload.
abbrev pub wire : Datagram → List ℕ
wire d = d.rsv0 ∷ d.rsv1 ∷ d.frag ∷ (encode_address d.target d.port [] ++ d.payload)

abbrev pub arrival : Datagram → UdpEvent
arrival d = received (wire d) d.peer d.bound

-- What is sent on: the payload to the resolved target, when the datagram is no fragment and a
-- socket can be bound.
abbrev pub forward_of : Datagram → List (List ℕ × SocketAddr)
forward_of d = if d.frag == 0 then (if d.bound then (d.payload, d.resolved) ∷ [] else []) else []

abbrev pub sent_of : List Datagram → List (List ℕ × SocketAddr)
sent_of [] = []
sent_of (d ∷ ds) = forward_of d ++ sent_of ds

module _ (lossy : List ℕ → List ℕ) where
  -- The bytes up to the port.
  abbrev front : ℕ → ℕ → ℕ → AddrSpec → List ℕ
  front r0 r1 frag a = r0 ∷ r1 ∷ frag ∷ atyp lossy a ∷ body lossy a

module _ (lossy : List ℕ → List ℕ)
    (lookup_host : List ℕ → ℕ → Result IoError (List SocketAddr)) where
  -- The header carries the target, and the target resolves.
  pub record Carried (d : Datagram) : Type 0 where
    pub encodable : Encodable lossy d.target
    pub port_fits : d.port < 65536
    pub resolves : to_socket_addr lookup_host d.target d.port ≡ ok d.resolved

  abbrev pub Sent : List Datagram → Relay → Type 0
  Sent ds r = (r.sent ≡ sent_of ds) × (r.ended ≡ some (ok tt))
