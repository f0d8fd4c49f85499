-- ===== src/Examples/Protocols.antt =====
-- Sessions, SOCKS5 streams and udpgw frames.
use gravital_share.Common.{
  ℕ, zero, suc, ◌+◌, ◌<◌, ◌≡◌, ◌≢◌, ◌⊎◌, inr, refl, arith, List, [], ◌∷◌, ◌++◌, map, ◌==◌,
  if◌then◌else◌, true, false, none,
}
use gravital_share.Common.Addr.{v6, v4, SocketAddr}
use gravital_share.Common.Outcome.{ret, Result, ok, err}
use gravital_share.Engine.Errors.{EngineError}
use gravital_share.Engine.Session
use gravital_share.Engine.Session.{
  Session, SessionState, SessionEvent, preparing, user_start, engine_prepared, idle, shutdown,
  engine_stopped, transition, dispatch,
}
use gravital_share.Engine.Session.Automaton.{Legal}
use gravital_share.Engine.Session.Runs.{event, Sane, run, run-Sane, dispatch-cases}
use gravital_share.Common.Io.{IoError, unexpected_eof, connection_refused}
use gravital_share.Socks.Stream.{Stream, SocksError, timeout, upstream, server_reply}
use gravital_share.Socks.Proto
use gravital_share.Socks.Proto.{
  AddrSpec, ipv4, domain, Request, encode_address, reply_bytes, rep_code, read_request,
}
use gravital_share.Socks.RoundTrip.{with_input, read_request-encode}
use gravital_share.Socks.Datagram.{parse_udp_datagram}
use gravital_share.Socks.Udp.Forwards.{Datagram}
use gravital_share.Socks.Offsets.{Fits, parse_udp_datagram-Fits}
use gravital_share.Socks.Client.{connect, connect_with_retry}
use gravital_share.Socks.Client.Handshake.{opened, request_wire}
use gravital_share.Socks.Client.Retry.{delays_from, Fails, connect_with_retry-stops}
use gravital_share.Socks.Server.{tunnel, Net, handle_connection}
use gravital_share.Socks.Server.Served.{tunnel-established, refusal, tunnel-refused}
use gravital_share.Engine.Session.{engine_prepared}
use gravital_share.Engine.Session.Table.{Listed, Beyond, Refused, transition-cases}
use gravital_share.UdpGw.Frame.{plain_addr, UdpGwFrame, encode, decode}
use gravital_share.UdpGw.Frame.RoundTrip.{IsFrame, decode-encode}

abbrev host : SocketAddr
host = record { ip = v4 (record { a = 93; b = 184; c = 216; d = 34 }); port = 443 }

-- "a.b"
abbrev name : List ℕ
name = 97 ∷ 46 ∷ 98 ∷ []

abbrev same : List ℕ → List ℕ
same bytes = bytes

transition-cases_example :
    Listed (preparing Session.client) engine_prepared
    ⊎ (Beyond (preparing Session.client) engine_prepared
        ⊎ Refused (preparing Session.client) engine_prepared)
transition-cases_example = transition-cases (preparing Session.client) engine_prepared

abbrev session : Session
session = record { state = preparing Session.client; listeners = 1 ∷ [] }

dispatch-cases_example :
    ((x : EngineError) × (dispatch session shutdown ≡ (session, err x, []))
      × ((t : SessionState) → ¬ Legal session.state shutdown t))
    ⊎ ((t : SessionState) × Legal session.state shutdown t
        × (((t ≡ session.state) × (dispatch session shutdown ≡ (session, ok tt, [])))
            ⊎ ((t ≢ session.state)
                × (dispatch session shutdown ≡ (
                  record session { state = t },
                  ok tt,
                  map (λ f. record { listener = f; told = t }) session.listeners,
                )))))
dispatch-cases_example = dispatch-cases session shutdown

run-Sane_example :
    Sane
      (run Session.new
        (event (user_start Session.client) ∷ event engine_prepared ∷ event shutdown ∷ [])).state
run-Sane_example =
    run-Sane (event (user_start Session.client) ∷ event engine_prepared ∷ event shutdown ∷ [])

abbrev stream : Stream
stream = record { input = []; ending = unexpected_eof; output = []; broken = none }

read_request-encode_example :
    read_request same
      (with_input stream (0x05 ∷ 0x01 ∷ 0x00 ∷ (encode_address (domain name) 443 [] ++ (9 ∷ []))))
    ≡ (
      with_input stream (9 ∷ []),
      ok (record { cmd = Proto.connect; addr = domain name; port = 443 }),
    )
read_request-encode_example =
    read_request-encode same stream Proto.connect (domain name) 443 (9 ∷ []) (omega arith, refl)
      (omega arith)

-- All that the first socket receives is written to the second.
abbrev copied : Stream → Stream → Stream × Stream
copied a b = (record a { input = [] }, record b { output = b.output ++ a.input })

-- Every name resolves to `host`, which is reached from itself.
abbrev reached : Net
reached = record {
  lossy = same;
  lookup_host = λ d port. ok (host ∷ []);
  dial = λ a. ok (record { stream = opened unexpected_eof (2 ∷ []) []; local_addr = ok host });
  bind_udp = ok host;
  copy = copied;
  datagrams = [];
}

abbrev refused : Net
refused = record reached { dial = λ a. err connection_refused }

resolved : Proto.to_socket_addr reached.lookup_host (domain name) 443 ≡ ok host
unfolding Proto.to_socket_addr
resolved = refl

tunnel-established_example :
    (replies : List ℕ) × (handle_connection reached false
        (opened unexpected_eof (request_wire (domain name) 443 ++ (1 ∷ [])) [])
      ≡ (
        opened unexpected_eof [] (replies ++ (2 ∷ [])),
        ok (tunnel (opened unexpected_eof [] (1 ∷ []))),
      ))
    × (connect (domain name) 443 (opened unexpected_eof (replies ++ (2 ∷ [])) [])
        ≡ (opened unexpected_eof (2 ∷ []) (request_wire (domain name) 443), ok tt))
tunnel-established_example =
    tunnel-established reached false unexpected_eof unexpected_eof (1 ∷ []) (2 ∷ []) (domain name)
      443 host host (omega arith, refl) (omega arith) resolved refl tt (λ i i' o o'. refl)
      (λ i i' o o'. refl)

tunnel-refused_example :
    (handle_connection refused false
        (opened unexpected_eof (request_wire (domain name) 443 ++ (1 ∷ [])) [])
      ≡ (opened unexpected_eof (1 ∷ []) (refusal 5), err (upstream connection_refused)))
    × (s : Stream) × (connect (domain name) 443 (opened unexpected_eof (refusal 5) [])
        ≡ (s, err (server_reply 5)))
tunnel-refused_example =
    tunnel-refused refused false unexpected_eof (1 ∷ []) (domain name) 443 host connection_refused
      (omega arith, refl) (omega arith) resolved refl

-- The first attempt times out and the second succeeds.
abbrev attempts : ℕ → Result SocksError ℕ
attempts n = if n == 1 then err timeout else ok n

first-Fails : (j : ℕ) → j < 1 → Fails attempts 5 (1 + j)
first-Fails zero h = (timeout, refl)
first-Fails (suc j) h = absurd (omega arith)

connect_with_retry-stops_example :
    connect_with_retry attempts 5 ≡ ret (delays_from 1 1, attempts (1 + 1))
connect_with_retry-stops_example =
    connect_with_retry-stops attempts 5 1 (omega arith) first-Fails (inr (2, refl))

abbrev frame : UdpGwFrame
frame = record {
  client_id = 7;
  flags = 1;
  remote_addr = record {
    ip = v6 (0xFE ∷ 0x80 ∷ 0 ∷ 0 ∷ 0 ∷ 0 ∷ 0 ∷ 0 ∷ 0 ∷ 0 ∷ 0 ∷ 0 ∷ 0 ∷ 0 ∷ 0 ∷ 1 ∷ []);
    port = 53;
    flowinfo = 0;
    scope_id = 1;
  };
  payload = 1 ∷ 2 ∷ [];
}

frame-IsFrame : IsFrame frame
frame-IsFrame = record {
  id = omega arith;
  flag_bits = omega arith;
  port = omega arith;
  size = omega arith;
}

decode-encode_example :
    decode (encode frame)
    ≡ ret (ok (record frame { remote_addr = plain_addr frame.remote_addr.ip 53 }))
decode-encode_example = decode-encode frame frame-IsFrame refl

-- A datagram to `host` with two bytes behind the header.
abbrev datagram : List ℕ
datagram = 0 ∷ 0 ∷ 0 ∷ 1 ∷ 93 ∷ 184 ∷ 216 ∷ 34 ∷ 1 ∷ 187 ∷ 5 ∷ 6 ∷ []

parse_udp_datagram-Fits_example : Fits same datagram (parse_udp_datagram same datagram)
parse_udp_datagram-Fits_example = parse_udp_datagram-Fits same datagram

-- A datagram to the name, and a fragment.
abbrev whole : Datagram
whole = record {
  rsv0 = 0;
  rsv1 = 0;
  frag = 0;
  target = domain name;
  port = 443;
  payload = 5 ∷ 6 ∷ [];
  resolved = host;
  peer = host;
  bound = true;
}

abbrev found : List ℕ → ℕ → Result IoError (List SocketAddr)
found = reached.lookup_host

abbrev sent : List Datagram
sent = whole ∷ record whole { frag = 1 } ∷ whole ∷ []
