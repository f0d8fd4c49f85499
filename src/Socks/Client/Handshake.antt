-- ===== src/Socks/Client/Handshake.antt =====
-- The client's handshake, and the server that reads what the client wrote.
use gravital_share.Common.{
  ℕ, ◌<◌, ◌≡◌, refl, ap, ◌∙◌, arith, List, [], ◌∷◌, ◌++◌, length, length-append, Bool, false, ◌==◌,
  none,
}
use gravital_share.Common.Bytes.{to_be16}
use gravital_share.Common.Addr.{IpAddr, v4, v6, SocketAddr}
use gravital_share.Common.Outcome.{ok, err}
use gravital_share.Common.Io.{IoError}
use gravital_share.Socks.Stream.{Stream, ◌>>=◌, bind_ok, done, read_exact, write_all, server_reply}
use gravital_share.Socks.Proto
use gravital_share.Socks.Proto.{
  AddrSpec, ipv4, ipv6, domain, Request, Cmd, octets, encode_address, reply_bytes, Rep, rep_code,
  succeeded, read_request, skip_bound_address, negotiate_method, methods_of, choose_method, answer,
}
use gravital_share.Socks.RoundTrip.{
  with_input, read_exact-append, read_exact_of, Encodable, read_request-encode,
}
use gravital_share.Socks.Client.{connect, greeted, request, finish}

-- A stream whose peer takes bytes: its end, the bytes to come and the bytes written.
abbrev pub opened : IoError → List ℕ → List ℕ → Stream
opened e input output = record { input = input; ending = e; output = output; broken = none }

-- An address that a reply carries.
abbrev pub IsBound : IpAddr → Type 0
IsBound (v4 ip) = Unit {0}
IsBound (v6 os) = length os ≡ 16

pub write_all-opened :
    (e : IoError) (i o bs : List ℕ) → write_all bs (opened e i o) ≡ (opened e i (o ++ bs), ok tt)
unfolding write_all
write_all-opened e i o bs = refl

-- The address type byte of a reply, and the bytes behind it.
abbrev bound_type : IpAddr → ℕ
bound_type (v4 ip) = 0x01
bound_type (v6 os) = 0x04

abbrev bound_body : IpAddr → List ℕ
bound_body (v4 ip) = octets ip
bound_body (v6 os) = os

reply_split :
    (rep : Rep) (a : SocketAddr) (rest : List ℕ)
    → reply_bytes rep a ++ rest
      ≡ 0x05 ∷ rep_code rep ∷ 0x00 ∷ bound_type a.ip ∷ ((bound_body a.ip ++ to_be16 a.port) ++ rest)
reply_split rep a rest = go a.ip
  where
    go :
        (ip : IpAddr)
        → 0x05
            ∷ rep_code rep
            ∷ 0x00
            ∷ ((elim ip [ v4 x ↦ 0x01 ∷ octets x | v6 os ↦ 0x04 ∷ os ] ++ to_be16 a.port) ++ rest)
          ≡ 0x05 ∷ rep_code rep ∷ 0x00 ∷ bound_type ip ∷ ((bound_body ip ++ to_be16 a.port) ++ rest)
    go (v4 x) = refl
    go (v6 os) = refl

skip-bound :
    (s : Stream) (ip : IpAddr) (port : ℕ) (rest : List ℕ)
    → IsBound ip
    → skip_bound_address (bound_type ip) (with_input s ((bound_body ip ++ to_be16 port) ++ rest))
      ≡ (with_input s rest, ok tt)
unfolding skip_bound_address
skip-bound s (v4 x) port rest h =
    bind_ok (read_exact 6) (λ _. done tt) (read_exact-append s (octets x ++ to_be16 port) rest)
skip-bound s (v6 os) port rest h =
    bind_ok (read_exact 18) (λ _. done tt)
      (read_exact_of s 18 (os ++ to_be16 port) rest
        (omega (arith, length-append os (to_be16 port), h)))

-- A proxy that accepts the method and the request, whatever address it has bound: `connect`
-- succeeds, has written its offer and then its request, and stops exactly behind the reply, so
-- the tunnel starts with the first byte of the remote host.
pub connect-runs :
    (e : IoError) (o rest : List ℕ) (target : AddrSpec) (port : ℕ) (bound : SocketAddr)
    → IsBound bound.ip
    → connect target port (opened e (0x05 ∷ 0x00 ∷ (reply_bytes succeeded bound ++ rest)) o) ≡ (
      opened e rest (
          (o ++ (0x05 ∷ 0x01 ∷ 0x00 ∷ [])) ++ encode_address target port (0x05 ∷ 0x01 ∷ 0x00 ∷ [])),
      ok tt,
    )
unfolding connect greeted request finish
connect-runs e o rest target port bound h =
    let offer : List ℕ = 0x05 ∷ 0x01 ∷ 0x00 ∷ [] in
    let reply = reply_bytes succeeded bound ++ rest in
    let wire = (bound_body bound.ip ++ to_be16 bound.port) ++ rest in
    let o1 = o ++ offer in
    let req = encode_address target port offer in
    let o2 = o1 ++ req in
    bind_ok (write_all offer) (λ _. read_exact 2 >>= greeted target port)
      (write_all-opened e (0x05 ∷ 0x00 ∷ reply) o offer)
    ∙ bind_ok (read_exact 2) (greeted target port)
        (read_exact-append (opened e [] o1) (0x05 ∷ 0x00 ∷ []) reply)
    ∙ bind_ok (write_all req) (λ _. read_exact 4 >>= finish) (write_all-opened e reply o1 req)
    ∙ ap (λ (w : List ℕ). (read_exact 4 >>= finish) (opened e w o2))
        (reply_split succeeded bound rest)
    ∙ bind_ok (read_exact 4) finish
        (read_exact-append (opened e [] o2) (0x05 ∷ 0x00 ∷ 0x00 ∷ bound_type bound.ip ∷ []) wire)
    ∙ skip-bound (opened e [] o2) bound.ip bound.port rest h

-- A proxy that accepts the method and answers the request with another code than success.
pub connect-refused :
    (e : IoError) (o rest : List ℕ) (target : AddrSpec) (port : ℕ) (rep : Rep) (bound : SocketAddr)
    → (rep_code rep == 0x00) ≡ false
    → (s : Stream) × (connect target port
          (opened e (0x05 ∷ 0x00 ∷ (reply_bytes rep bound ++ rest)) o)
        ≡ (s, err (server_reply (rep_code rep))))
unfolding connect greeted request finish
connect-refused e o rest target port rep bound h =
    let offer : List ℕ = 0x05 ∷ 0x01 ∷ 0x00 ∷ [] in
    let reply = reply_bytes rep bound ++ rest in
    let wire = (bound_body bound.ip ++ to_be16 bound.port) ++ rest in
    let o1 = o ++ offer in
    let req = encode_address target port offer in
    let o2 = o1 ++ req in
    (
      opened e wire o2,
      bind_ok (write_all offer) (λ _. read_exact 2 >>= greeted target port)
            (write_all-opened e (0x05 ∷ 0x00 ∷ reply) o offer)
          ∙ bind_ok (read_exact 2) (greeted target port)
              (read_exact-append (opened e [] o1) (0x05 ∷ 0x00 ∷ []) reply)
          ∙ bind_ok (write_all req) (λ _. read_exact 4 >>= finish) (write_all-opened e reply o1 req)
          ∙ ap (λ (w : List ℕ). (read_exact 4 >>= finish) (opened e w o2))
              (reply_split rep bound rest)
          ∙ bind_ok (read_exact 4) finish (
              read_exact-append (opened e [] o2)
                (0x05 ∷ rep_code rep ∷ 0x00 ∷ bound_type bound.ip ∷ []) wire)
          ∙ rw h refl,
    )

request_bytes :
    (target : AddrSpec) (port : ℕ) (rest : List ℕ)
    → encode_address target port (0x05 ∷ 0x01 ∷ 0x00 ∷ []) ++ rest
      ≡ 0x05 ∷ 0x01 ∷ 0x00 ∷ (encode_address target port [] ++ rest)
unfolding encode_address
request_bytes (ipv4 ip) port rest = refl
request_bytes (ipv6 os) port rest = refl
request_bytes (domain d) port rest = refl

-- All that the client writes.
abbrev pub request_wire : AddrSpec → ℕ → List ℕ
request_wire target port = 0x05 ∷ 0x01 ∷ 0x00 ∷ encode_address target port (0x05 ∷ 0x01 ∷ 0x00 ∷ [])

-- The server answers the offer, and reads the request.
pub negotiate-reads :
    (auth : Bool) (e : IoError) (o req : List ℕ)
    → negotiate_method auth (opened e (0x05 ∷ 0x01 ∷ 0x00 ∷ req) o)
      ≡ (opened e req (o ++ (0x05 ∷ 0x00 ∷ [])), ok 0x00)
unfolding negotiate_method methods_of choose_method
negotiate-reads auth e o req =
    bind_ok (read_exact 2) (methods_of auth)
      (read_exact-append (opened e [] o) (0x05 ∷ 0x01 ∷ []) (0x00 ∷ req))
    ∙ bind_ok (read_exact 1) (choose_method auth)
        (read_exact-append (opened e [] o) (0x00 ∷ []) req)
    ∙ bind_ok (write_all (0x05 ∷ 0x00 ∷ [])) (λ _. done 0x00)
        (write_all-opened e req o (0x05 ∷ 0x00 ∷ []))

pub read-reads :
    (lossy : List ℕ → List ℕ) (e : IoError) (o rest : List ℕ) (target : AddrSpec) (port : ℕ)
    → Encodable lossy target
    → port < 65536
    → read_request lossy (opened e (encode_address target port (0x05 ∷ 0x01 ∷ 0x00 ∷ []) ++ rest) o)
      ≡ (opened e rest o, ok (record { cmd = Proto.connect; addr = target; port = port }))
read-reads lossy e o rest target port h fits =
    ap (λ (w : List ℕ). read_request lossy (opened e w o)) (request_bytes target port rest)
    ∙ read_request-encode lossy (opened e [] o) Proto.connect target port rest h fits
