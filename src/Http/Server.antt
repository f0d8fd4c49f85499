-- ===== src/Http/Server.antt =====
-- engine/crates/gravital-http/src/server.rs: a connection of the proxy. A socket is the segments
-- that the network delivers, what comes after them (the peer's end or an error), and the bytes
-- written. httparse, the upstream connection and `tokio::io::copy` are parameters.
pub mod Head
pub mod Requested
pub mod Tunnel
pub mod Refused
use gravital_share.Common.{
  ℕ, zero, suc, ◌-◌, List, [], ◌∷◌, ◌++◌, Option, none, some, Bool, true, false, ltb, leb,
  if◌then◌else◌, length, take, drop, ℕ_discrete,
}
use mathlib.Core.Logic.{ite}
use gravital_share.Common.Addr.{SocketAddr, v4}
use gravital_share.Common.Io.{IoError}
use gravital_share.Common.Outcome.{Result, ok, err}
use gravital_share.Common.Serve.{ServerEvent, accepted, accept_failed, changed, Serving}
use gravital_share.Common.Sock.{Sock, read}
use gravital_share.Common.Text.{codes, show_u16}
use gravital_share.Http.Errors.{
  HttpProxyError, io, parse, unsupported_method, missing_target, upstream_failed, headers_too_large,
  premature_eof,
}
use gravital_share.Http.Target.{parse_host_port}

pub record HttpProxyConfig : Type 0 where
  pub bind_addr : SocketAddr
  pub auth_enabled : Bool

abbrev pub default_config : HttpProxyConfig
default_config = record {
  bind_addr = record { ip = v4 (record { a = 0; b = 0; c = 0; d = 0 }); port = 8080 };
  auth_enabled = false;
}

-- The loop of `run`.
unfoldable pub accept_loop : List ServerEvent → Serving HttpProxyError
accept_loop [] = record { spawned = []; ended = none }
accept_loop (accepted c ∷ es) =
    let rest = accept_loop es in record rest { spawned = c ∷ rest.spawned }
accept_loop (accept_failed e ∷ es) = accept_loop es
accept_loop (changed true ∷ es) = record { spawned = []; ended = some (ok tt) }
accept_loop (changed false ∷ es) = accept_loop es

-- `bound` is the result of binding the listener.
unfoldable pub run : Result IoError (Unit {0}) → List ServerEvent → Serving HttpProxyError
unfolding accept_loop
run (err e) es = record { spawned = []; ended = some (err (io e)) }
run (ok _) es = accept_loop es

-- `write_all`, its error as `HttpProxyError::Io`.
unfoldable pub write_all : List ℕ → Sock → Sock × Result HttpProxyError (Unit {0})
write_all bs s = elim s.broken [
  | some e ↦ (s, err (io e))
  | none ↦ (record s { output = s.output ++ bs }, ok tt)
]

-- What httparse says of a buffer: the status, and the method and the path as far as they are read.
pub data Status : Type 0 where
  complete : ℕ → Status
  partial : Status

pub record Request : Type 0 where
  pub method : Option (List ℕ)
  pub path : Option (List ℕ)

abbrev pub Parser : Type 0
Parser = List ℕ → Result (List ℕ) (Status × Request)

abbrev pub max_header_size : ℕ
max_header_size = 8192

-- The outcome of the loop that reads the head: the end of the head and the buffer. `none` is a
-- loop that ran out of fuel.
abbrev pub HeadResult : Type 0
HeadResult = Option (Sock × Result HttpProxyError (ℕ × List ℕ))

-- The match on the status of the buffer; `next` is the next round.
pub examined :
    (List ℕ → Sock → HeadResult) → List ℕ → Sock → Result (List ℕ) (Status × Request) → HeadResult
examined next buf s (err e) = some (s, err (parse e))
examined next buf s (ok (complete len, _)) = some (s, ok (len, buf))
examined next buf s (ok (partial, _)) =
    if leb max_header_size (length buf) then some (s, err headers_too_large) else next buf s

-- What follows a read.
pub received :
    Parser → (List ℕ → Sock → HeadResult) → List ℕ → Sock × Result IoError (List ℕ) → HeadResult
unfolding examined
received p next buf (s, err e) = some (s, err (io e))
received p next buf (s, ok []) = some (s, err premature_eof)
received p next buf (s, ok (b ∷ bs)) = examined next (buf ++ (b ∷ bs)) s (p (buf ++ (b ∷ bs)))

-- The loop, from a buffer that is filled so far; one unit of fuel for a round.
pub read_head : Parser → ℕ → List ℕ → Sock → HeadResult
unfolding received
read_head p zero buf s = none
read_head p (suc fuel) buf s =
    received p (read_head p fuel) buf (read (max_header_size - length buf) s)

pub send_error : ℕ → List ℕ → Sock → Sock × Result HttpProxyError (Unit {0})
unfolding write_all
send_error code msg = write_all (
    codes "HTTP/1.1 "
    ++ (show_u16 code
        ++ (codes " " ++ (msg ++ codes "\r\nContent-Length: 0\r\nConnection: close\r\n\r\n"))))

-- A connection that is done: the client's socket, the upstream socket if there is one, the result.
pub record Handled : Type 0 where
  pub client : Sock
  pub upstream : Option Sock
  pub result : Result HttpProxyError (Unit {0})

-- A reply that refuses the request: the error of the write, or `e`.
pub refused : Sock × Result HttpProxyError (Unit {0}) → HttpProxyError → Handled
refused (s, err x) e = record { client = s; upstream = none; result = err x }
refused (s, ok _) e = record { client = s; upstream = none; result = err e }

-- The environment: httparse, the upstream connection, and `copy`, which moves what one socket
-- receives to what another one sends.
pub record Net : Type 0 where
  pub parser : Parser
  pub connect : List ℕ → ℕ → Result IoError Sock
  pub copy : Sock → Sock → Sock × Sock

-- The client's socket and the upstream one behind the copies.
unfoldable pub relayed : Sock × Sock → Handled
relayed (b, a) = record { client = a; upstream = some b; result = ok tt }

-- The two copies work on different halves of the sockets, so their order does not matter.
pub relay_bidirectional : Net → Sock → Sock → Handled
unfolding relayed
relay_bidirectional net a b = let to_b = net.copy a b in relayed (net.copy to_b.1 to_b.0)

-- The write of the early bytes to the upstream socket, then the relay.
pub forwarded : Net → Sock → Sock × Result HttpProxyError (Unit {0}) → Handled
unfolding relay_bidirectional
forwarded net s (up, err e) = record { client = s; upstream = some up; result = err e }
forwarded net s (up, ok _) = relay_bidirectional net s up

-- `if filled > req_end`, behind the 200 reply.
pub established : Net → ℕ → List ℕ → Sock → Sock × Result HttpProxyError (Unit {0}) → Handled
unfolding forwarded write_all
established net req_end buf up (s, err e) = record {
  client = s;
  upstream = some up;
  result = err e;
}
established net req_end buf up (s, ok _) =
    if ltb req_end (length buf)
    then forwarded net s (write_all (drop req_end buf) up)
    else relay_bidirectional net s up

-- The match on the upstream connection.
pub dialled : Net → ℕ → List ℕ → Sock → Result IoError Sock → Handled
unfolding established refused send_error
dialled net req_end buf s (err _) = refused (send_error 502 (codes "Bad Gateway") s) upstream_failed
dialled net req_end buf s (ok up) =
    established net req_end buf up
      (write_all (codes "HTTP/1.1 200 Connection established\r\n\r\n") s)

pub connect_target : Net → ℕ → List ℕ → Sock → Result HttpProxyError (List ℕ × ℕ) → Handled
unfolding dialled
connect_target net req_end buf s (err e) = record { client = s; upstream = none; result = err e }
connect_target net req_end buf s (ok (host, port)) =
    dialled net req_end buf s (net.connect host port)

pub with_path : Net → ℕ → List ℕ → Sock → Option (List ℕ) → Handled
unfolding connect_target
with_path net req_end buf s none = record {
  client = s;
  upstream = none;
  result = err missing_target;
}
with_path net req_end buf s (some target) =
    connect_target net req_end buf s (parse_host_port target)

-- `req.method.unwrap_or("")`
abbrev pub method_or_empty : Option (List ℕ) → List ℕ
method_or_empty none = []
method_or_empty (some m) = m

pub text-discrete : Discrete (List ℕ)
text-discrete = hlevel ℕ_discrete

-- The second parse of the same buffer, and the check of the method.
pub requested : Net → ℕ → List ℕ → Sock → Result (List ℕ) (Status × Request) → Handled
unfolding with_path refused send_error
requested net req_end buf s (err e) = record { client = s; upstream = none; result = err (parse e) }
requested net req_end buf s (ok (_, req)) =
    ite (text-discrete (method_or_empty req.method) (codes "CONNECT"))
      (with_path net req_end buf s req.path)
      (refused (send_error 405 (codes "Method Not Allowed") s)
        (unsupported_method (method_or_empty req.method)))

pub after_head : Net → Option (Sock × Result HttpProxyError (ℕ × List ℕ)) → Option Handled
unfolding requested
after_head net none = none
after_head net (some (s, err e)) = some (record { client = s; upstream = none; result = err e })
after_head net (some (s, ok (req_end, buf))) = some (requested net req_end buf s (net.parser buf))

-- A round of the loop for each byte of the buffer is enough.
pub handle_http_proxy : Net → Sock → Option Handled
unfolding after_head read_head
handle_http_proxy net s = after_head net (read_head net.parser max_header_size [] s)
