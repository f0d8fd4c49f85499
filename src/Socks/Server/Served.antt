-- ===== src/Socks/Server/Served.antt =====
-- Client and server together: what one writes is fed to the other.
use gravital_share.Common.{ℕ, ◌<◌, ◌≡◌, refl, sym, ◌∙◌, List, [], ◌∷◌, ◌++◌, Bool, ◌==◌, false}
use gravital_share.Common.Addr.{SocketAddr}
use gravital_share.Common.Outcome.{ok, err}
use gravital_share.Common.Io.{IoError, unexpected_eof, connection_refused, timed_out, other}
use gravital_share.Socks.Stream.{Stream, ◌>>=◌, bind_ok, fail, upstream, server_reply}
use gravital_share.Socks.Proto
use gravital_share.Socks.Proto.{
  AddrSpec, Request, encode_address, reply_bytes, Rep, rep_code, succeeded, read_request,
  to_socket_addr, negotiate_method, send_reply,
}
use gravital_share.Socks.RoundTrip.{Encodable}
use gravital_share.Socks.Client.{connect}
use gravital_share.Socks.Client.Handshake.{
  opened, IsBound, write_all-opened, connect-runs, connect-refused, negotiate-reads, read-reads,
  request_wire,
}
use gravital_share.Socks.Server.{
  tunnel, Net, rep_of, zero_addr, relayed, relay_bidirectional, answer_dial, handle_connect, serve,
  handle_connection,
}

module _ (net : Net) (auth : Bool) (e : IoError) (rest : List ℕ) (target : AddrSpec)
    (port : ℕ) where
  abbrev req : Request
  req = record { cmd = Proto.connect; addr = target; port = port }

  -- The server on the client's bytes is `handle_connect` on the request.
  handle_connection-request :
      Encodable net.lossy target
      → port < 65536
      → handle_connection net auth (opened e (request_wire target port ++ rest) [])
        ≡ handle_connect net req (opened e rest (0x05 ∷ 0x00 ∷ []))
  unfolding handle_connection serve
  handle_connection-request h fits =
      bind_ok (negotiate_method auth) (λ _. read_request net.lossy >>= λ r. serve net r r.cmd)
        (negotiate-reads auth e [] _)
      ∙ bind_ok (read_request net.lossy) (λ r. serve net r r.cmd)
          (read-reads net.lossy e (0x05 ∷ 0x00 ∷ []) rest target port h fits)

  handle_connect-ok :
      (addr local : SocketAddr) (o : List ℕ) (up : Stream)
      → to_socket_addr net.lookup_host target port ≡ ok addr
      → net.dial addr ≡ ok (record { stream = up; local_addr = ok local })
      → handle_connect net req (opened e rest o)
        ≡ relay_bidirectional net up (opened e rest (o ++ reply_bytes succeeded local))
  unfolding handle_connect answer_dial send_reply
  handle_connect-ok addr local o up hr hd =
      rw (hr, handle_connect)
        (rw (hd, answer_dial)
          (bind_ok (send_reply succeeded local) (λ _. relay_bidirectional net up)
            (write_all-opened e rest o (reply_bytes succeeded local))))

  handle_connect-err :
      (addr : SocketAddr) (x : IoError) (o : List ℕ)
      → to_socket_addr net.lookup_host target port ≡ ok addr
      → net.dial addr ≡ err x
      → handle_connect net req (opened e rest o)
        ≡ (opened e rest (o ++ reply_bytes (rep_of x) zero_addr), err (upstream x))
  unfolding handle_connect answer_dial send_reply
  handle_connect-err addr x o hr hd =
      rw (hr, handle_connect)
        (rw (hd, answer_dial)
          (bind_ok (send_reply (rep_of x) zero_addr) (λ _. fail (upstream x))
            (write_all-opened e rest o (reply_bytes (rep_of x) zero_addr))))

rep_of-code : (x : IoError) → (rep_code (rep_of x) == 0x00) ≡ false
unfolding rep_of
rep_of-code unexpected_eof = refl
rep_of-code connection_refused = refl
rep_of-code timed_out = refl
rep_of-code (other n) = refl

-- `copy` writes all that a reader receives that ends with `e`, up to its end, to a writer that
-- takes bytes. For a reader that ends cleanly this is what `tokio::io::copy` documents.
abbrev pub Copies : (Stream → Stream → Stream × Stream) → IoError → IoError → Type 0
Copies copy e e' =
    (i i' o o' : List ℕ)
    → copy (opened e i o) (opened e' i' o') ≡ (opened e [] o, opened e' i' (o' ++ i))

relay_bidirectional-Copies :
    (net : Net) (e e' : IoError) (i i' o : List ℕ)
    → Copies net.copy e e'
    → Copies net.copy e' e
    → relay_bidirectional net (opened e' i' []) (opened e i o)
      ≡ (opened e [] (o ++ i'), ok (tunnel (opened e' [] i)))
unfolding relay_bidirectional relayed
relay_bidirectional-Copies net e e' i i' o copies back_copies =
    rw (copies i i' o []) (rw (back_copies i' [] i o) refl)

-- A tunnel end to end, for a target and a port that the request carries. When the server resolves
-- the target and reaches it, from an address that the reply carries, and `copy` copies from readers that end as
-- both sockets do: of
-- what the client writes, the target receives exactly the bytes behind the request (`sent`), and
-- the client receives some replies and exactly the bytes of the target behind them (`back`). The
-- client's handshake on what it receives succeeds, has written what the server
-- has read as the request, and stops where the bytes of the target begin.
pub tunnel-established :
    (net : Net) (auth : Bool) (e e' : IoError) (sent back : List ℕ) (target : AddrSpec) (port : ℕ)
    (addr local : SocketAddr)
    → Encodable net.lossy target
    → port < 65536
    → to_socket_addr net.lookup_host target port ≡ ok addr
    → net.dial addr ≡ ok (record { stream = opened e' back []; local_addr = ok local })
    → IsBound local.ip
    → Copies net.copy e e'
    → Copies net.copy e' e
    → (replies : List ℕ) × (handle_connection net auth
          (opened e (request_wire target port ++ sent) [])
        ≡ (opened e [] (replies ++ back), ok (tunnel (opened e' [] sent))))
      × (connect target port (opened e (replies ++ back) [])
          ≡ (opened e back (request_wire target port), ok tt))
tunnel-established net auth e e' sent back target port addr local h fits hr hd hb copies
      back_copies =
    (
      0x05 ∷ 0x00 ∷ reply_bytes succeeded local,
      handle_connection-request net auth e sent target port h fits
          ∙ handle_connect-ok net auth e sent target port addr local (0x05 ∷ 0x00 ∷ [])
              (opened e' back []) hr hd
          ∙ relay_bidirectional-Copies net e e' sent back
              (0x05 ∷ 0x00 ∷ reply_bytes succeeded local) copies back_copies,
      connect-runs e [] back target port local hb,
    )

-- The reply codes of RFC 1928 for what the server meets: connection refused, TTL expired, and host
-- unreachable for everything else.
abbrev pub refusal_code : IoError → ℕ
refusal_code connection_refused = 0x05
refusal_code timed_out = 0x06
refusal_code unexpected_eof = 0x04
refusal_code (other n) = 0x04

rep_of-refusal_code : (x : IoError) → rep_code (rep_of x) ≡ refusal_code x
unfolding rep_of
rep_of-refusal_code unexpected_eof = refl
rep_of-refusal_code connection_refused = refl
rep_of-refusal_code timed_out = refl
rep_of-refusal_code (other n) = refl

-- The choice of a method, and a reply with a code and the address 0.0.0.0:0.
abbrev pub refusal : ℕ → List ℕ
refusal code = 0x05 ∷ 0x00 ∷ 0x05 ∷ code ∷ 0x00 ∷ 0x01 ∷ 0 ∷ 0 ∷ 0 ∷ 0 ∷ 0 ∷ 0 ∷ []

-- For a target and a port that the request carries, the server resolves the target but cannot
-- reach it: it answers with the twelve bytes of `refusal` and ends with that error; the code is 5
-- for a connection that is refused, 6 for one that times out and 4 for any other reason. The
-- client that reads the answer fails with that code.
pub tunnel-refused :
    (net : Net) (auth : Bool) (e : IoError) (sent : List ℕ) (target : AddrSpec) (port : ℕ)
    (addr : SocketAddr) (x : IoError)
    → Encodable net.lossy target
    → port < 65536
    → to_socket_addr net.lookup_host target port ≡ ok addr
    → net.dial addr ≡ err x
    → (handle_connection net auth (opened e (request_wire target port ++ sent) [])
        ≡ (opened e sent (refusal (refusal_code x)), err (upstream x)))
      × (s : Stream) × (connect target port (opened e (refusal (refusal_code x)) [])
          ≡ (s, err (server_reply (refusal_code x))))
tunnel-refused net auth e sent target port addr x h fits hr hd =
    let (s, refused) = connect-refused e [] [] target port (rep_of x) zero_addr (rep_of-code x) in
    rw (sym (rep_of-refusal_code x)) (
      handle_connection-request net auth e sent target port h fits
          ∙ handle_connect-err net auth e sent target port addr x (0x05 ∷ 0x00 ∷ []) hr hd,
      s,
      refused,
    )
