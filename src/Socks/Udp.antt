-- ===== src/Socks/Udp.antt =====
-- engine/crates/gravital-socks/src/server.rs: `relay_udp`. What the select waits for is a list
-- of events: a datagram with its sender (and whether a socket to send it on can be bound), an
-- error, or the notice to stop.
pub mod Forwards
use gravital_share.Common.{
  ℕ, List, [], ◌∷◌, ◌++◌, Option, none, some, Bool, ◌==◌, if◌then◌else◌, length,
}
use gravital_share.Common.Assoc
use gravital_share.Common.Addr.{SocketAddr, SocketAddr-discrete}
use gravital_share.Common.Bytes.{slice}
use gravital_share.Common.Io.{IoError}
use gravital_share.Common.Outcome.{Outcome, ret, ◌>>=◌, Result, ok, err}
use gravital_share.Socks.Stream.{SocksError, io}
use gravital_share.Socks.Proto.{UdpHeader, to_socket_addr}
use gravital_share.Socks.Datagram.{parse_udp_datagram}

pub data UdpEvent : Type 0 where
  received : List ℕ → SocketAddr → Bool → UdpEvent
  recv_failed : IoError → UdpEvent
  notified : UdpEvent

abbrev pub Assocs : Type 0
Assocs = List (SocketAddr × SocketAddr)

-- The payloads sent with their targets, and the result if the relay has ended.
pub record Relay : Type 0 where
  pub assocs : Assocs
  pub sent : List (List ℕ × SocketAddr)
  pub ended : Option (Result SocksError (Unit {0}))

-- What a datagram leads to: the table, and the payload that is sent.
abbrev pub Relayed : Type 0
Relayed = Result SocksError (Assocs × List (List ℕ × SocketAddr))

module _ (lossy : List ℕ → List ℕ)
    (lookup_host : List ℕ → ℕ → Result IoError (List SocketAddr)) where
  pub targeted :
      Assocs → List ℕ → ℕ → SocketAddr → Bool → Result SocksError SocketAddr → Outcome Relayed
  targeted assocs buf offset peer bound (err e) = ret (err e)
  targeted assocs buf offset peer bound (ok target) = do
    payload ← slice buf offset (length buf)
    ret (
        ok (
          Assoc.insert SocketAddr-discrete assocs target peer,
          if bound then (payload, target) ∷ [] else [],
        ))

  pub with_header :
      Assocs → List ℕ → SocketAddr → Bool → Result SocksError UdpHeader → Outcome Relayed
  unfolding targeted
  with_header assocs buf peer bound (err e) = ret (err e)
  with_header assocs buf peer bound (ok h) =
      if h.frag == 0
      then targeted assocs buf h.payload_offset peer bound
          (to_socket_addr lookup_host h.addr h.port)
      else ret (ok (assocs, []))

  pub relay_datagram : Assocs → List ℕ → SocketAddr → Bool → Outcome Relayed
  unfolding with_header
  relay_datagram assocs buf peer bound = do
    hdr ← parse_udp_datagram lossy buf
    with_header assocs buf peer bound hdr

  -- The loop goes on with the table, or ends with the error.
  pub continue_with : (Assocs → Outcome Relay) → Assocs → Relayed → Outcome Relay
  continue_with next assocs (err e) =
      ret (record { assocs = assocs; sent = []; ended = some (err e) })
  continue_with next assocs (ok (assocs', now)) = do
    rest ← next assocs'
    ret (record rest { sent = now ++ rest.sent })

  pub relay_udp : List UdpEvent → Assocs → Outcome Relay
  unfolding continue_with relay_datagram
  relay_udp [] assocs = ret (record { assocs = assocs; sent = []; ended = none })
  relay_udp (notified ∷ es) assocs =
      ret (record { assocs = assocs; sent = []; ended = some (ok tt) })
  relay_udp (recv_failed e ∷ es) assocs =
      ret (record { assocs = assocs; sent = []; ended = some (err (io e)) })
  relay_udp (received buf peer bound ∷ es) assocs = do
    r ← relay_datagram assocs buf peer bound
    continue_with (relay_udp es) assocs r
