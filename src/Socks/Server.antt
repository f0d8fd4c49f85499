-- ===== src/Socks/Server.antt =====
-- engine/crates/gravital-socks/src/server.rs. The resolver, the connection to the target, the copy
-- of one socket to another and the UDP socket's address are parameters.
pub mod Served
use gravital_share.Common.{ℕ, List, [], ◌∷◌, ◌++◌, Option, none, some, Bool, true, false, drop}
use gravital_share.Common.Addr.{Ipv4Addr, v4, SocketAddr}
use gravital_share.Common.Serve.{ServerEvent, accepted, accept_failed, changed, Serving}
use gravital_share.Common.Outcome.{Outcome, Result, ok, err}
use gravital_share.Common.Io.{IoError, unexpected_eof, connection_refused, timed_out, other}
use gravital_share.Socks.Stream.{Stream, SocksError, io, upstream, M, ◌>>=◌, ◌>>◌, done, fail, lift}
use gravital_share.Socks.Udp.{UdpEvent, notified, Relay, relay_udp}
use gravital_share.Socks.Proto
use gravital_share.Socks.Proto.{
  AddrSpec, Request, Cmd, Rep, host_unreachable, ttl_expired, succeeded, rep_command_not_supported,
  to_socket_addr, negotiate_method, read_request, send_reply,
}

pub record SocksConfig : Type 0 where
  pub bind_addr : SocketAddr
  pub auth_enabled : Bool
  pub handshake_timeout_secs : ℕ

abbrev pub default_config : SocksConfig
default_config = record {
  bind_addr = record { ip = v4 (record { a = 0; b = 0; c = 0; d = 0 }); port = 1080 };
  auth_enabled = false;
  handshake_timeout_secs = 30;
}

-- The loop of `run`.
unfoldable pub accept_loop : List ServerEvent → Serving SocksError
accept_loop [] = record { spawned = []; ended = none }
accept_loop (accepted c ∷ es) =
    let rest = accept_loop es in record rest { spawned = c ∷ rest.spawned }
accept_loop (accept_failed e ∷ es) = accept_loop es
accept_loop (changed true ∷ es) = record { spawned = []; ended = some (ok tt) }
accept_loop (changed false ∷ es) = accept_loop es

-- `bound` is the result of binding the listener.
unfoldable pub run : Result IoError (Unit {0}) → List ServerEvent → Serving SocksError
unfolding accept_loop
run (err e) es = record { spawned = []; ended = some (err (io e)) }
run (ok _) es = accept_loop es

-- "0.0.0.0:0"
abbrev pub zero_addr : SocketAddr
zero_addr = record { ip = v4 (record { a = 0; b = 0; c = 0; d = 0 }); port = 0 }

-- The reply for the error of a connection attempt.
pub rep_of : IoError → Rep
rep_of connection_refused = Proto.connection_refused
rep_of timed_out = ttl_expired
rep_of unexpected_eof = host_unreachable
rep_of (other n) = host_unreachable

-- A connection to the target, with what `local_addr` says of it.
pub record Upstream : Type 0 where
  pub stream : Stream
  pub local_addr : Result IoError SocketAddr

-- The environment of a connection. `copy` moves what its first socket receives to its second.
pub record Net : Type 0 where
  pub lossy : List ℕ → List ℕ
  pub lookup_host : List ℕ → ℕ → Result IoError (List SocketAddr)
  pub dial : SocketAddr → Result IoError Upstream
  pub bind_udp : Result IoError SocketAddr
  pub copy : Stream → Stream → Stream × Stream
  -- what the UDP socket of an association sees before its control connection ends
  pub datagrams : List UdpEvent

-- What a connection was used for: the upstream socket as the relay leaves it, the relay of
-- datagrams, or neither.
pub data Service : Type 0 where
  tunnel : Stream → Service
  association : Outcome Relay → Service
  no_service : Service

-- The upstream socket behind a relay, beside the client's.
unfoldable pub relayed : Stream × Stream → Stream × Result SocksError Service
relayed (b, a) = (a, ok (tunnel b))

-- The two copies work on different halves of the sockets, so their order does not matter;
-- `try_join!` waits for both.
pub relay_bidirectional : Net → Stream → M Service
unfolding relayed
relay_bidirectional net b a = let to_b = net.copy a b in relayed (net.copy to_b.1 to_b.0)

-- `map_err(SocksError::Io)?`
abbrev pub io_checked : {A : Type 0} → Result IoError A → Result SocksError A
io_checked (ok a) = ok a
io_checked (err e) = err (io e)

-- The upstream connection: a reply with its local address and the relay, or a reply with the
-- reason.
pub answer_dial : Net → Result IoError Upstream → M Service
unfolding relay_bidirectional
answer_dial net (ok up) = do
  local ← lift (io_checked up.local_addr)
  send_reply succeeded local
  relay_bidirectional net up.stream
answer_dial net (err e) = do send_reply (rep_of e) zero_addr; fail (upstream e)

pub handle_connect : Net → Request → M Service
handle_connect net req = do
  target ← lift (to_socket_addr net.lookup_host req.addr req.port)
  answer_dial net (net.dial target)

-- The `read` of one byte, whose result is ignored.
abbrev pub discard_one : Stream → Stream
discard_one s = record s { input = drop 1 s.input }

-- The relay of datagrams runs beside the wait for the control connection, until it is notified.
associate : Net → M Service
associate net s = (
  discard_one s,
  ok (association (relay_udp net.lossy net.lookup_host (net.datagrams ++ (notified ∷ [])) [])),
)

handle_udp_associate : Net → M Service
unfolding associate
handle_udp_associate net = do
  local ← lift (io_checked net.bind_udp)
  send_reply succeeded local
  associate net

-- The match on the command.
pub serve : Net → Request → Cmd → M Service
serve net req Proto.connect = handle_connect net req
serve net req Proto.udp_associate = handle_udp_associate net
serve net req Proto.bind = do send_reply rep_command_not_supported zero_addr; done no_service

pub handle_connection : Net → Bool → M Service
handle_connection net auth_enabled = do
  negotiated ← negotiate_method auth_enabled
  req ← read_request net.lossy
  serve net req req.cmd
