-- ===== src/Socks/RoundTrip.antt =====
-- What one side of a SOCKS5 connection writes, the other side reads.
use gravital_share.Common.{
  ℕ, ◌+◌, ◌*◌, ◌/◌, ◌%◌, ◌<◌, ◌≡◌, refl, ap, ◌∙◌, sym, arith, List, [], ◌∷◌, ◌++◌, length,
}
use mathlib.Core.List.{append_assoc}
use gravital_share.Common.Bytes.{byte, be16, to_be16}
use gravital_share.Common.Addr.{ipv4_of}
use gravital_share.Common.Outcome.{ok}
use gravital_share.Socks.Stream.{
  Stream, M, ◌>>=◌, bind_ok, done, split_at?-append, read_exact, read_u8, read_u16,
}
use gravital_share.Socks.Proto.{
  AddrSpec, ipv4, ipv6, domain, Request, Cmd, connect, bind, udp_associate, cmd_of, octets,
  encode_address, read_address, request_of, read_request,
}

-- The stream with its next bytes replaced.
abbrev pub with_input : Stream → List ℕ → Stream
with_input s bs = record s { input = bs }

-- A read takes exactly the bytes that were written, whatever follows them.
pub read_exact-append :
    (s : Stream) (xs rest : List ℕ)
    → read_exact (length xs) (with_input s (xs ++ rest)) ≡ (with_input s rest, ok xs)
unfolding read_exact
read_exact-append s xs rest = rw (split_at?-append xs rest, read_exact)

read_u16-append :
    (s : Stream) (v : ℕ) (rest : List ℕ)
    → v < 65536
    → read_u16 (with_input s (to_be16 v ++ rest)) ≡ (with_input s rest, ok v)
unfolding read_u16
read_u16-append s v rest h =
    let e : v / 256 % 256 * 256 + v % 256 ≡ v = omega arith in
    bind_ok (read_exact 2) (λ b. done (be16 (byte b 0) (byte b 1)))
      (read_exact-append s (to_be16 v) rest)
    ∙ ap (λ (n : ℕ). (with_input s rest, ok n)) e

read_u8-cons :
    (s : Stream) (b : ℕ) (rest : List ℕ)
    → read_u8 (with_input s (b ∷ rest)) ≡ (with_input s rest, ok b)
unfolding read_u8
read_u8-cons s b rest =
    bind_ok (read_exact 1) (λ x. done (byte x 0)) (read_exact-append s (b ∷ []) rest)

-- A read of `n` bytes where the source computes `n` otherwise than by the length.
pub read_exact_of :
    (s : Stream) (n : ℕ) (xs rest : List ℕ)
    → length xs ≡ n
    → read_exact n (with_input s (xs ++ rest)) ≡ (with_input s rest, ok xs)
read_exact_of s n xs rest h =
    ap (λ k. read_exact k (with_input s (xs ++ rest))) (sym h) ∙ read_exact-append s xs rest

module _ (lossy : List ℕ → List ℕ) where
  -- The addresses that the encoding carries: an IPv6 address has sixteen octets, and a domain has
  -- at most 255 bytes of UTF-8, which the lossy decoding leaves as they are.
  abbrev pub Encodable : AddrSpec → Type 0
  Encodable (ipv4 ip) = Unit {0}
  Encodable (ipv6 os) = length os ≡ 16
  Encodable (domain d) = (length d < 256) × (lossy d ≡ d)

  -- The type byte of an address, and the bytes behind it.
  abbrev pub atyp : AddrSpec → ℕ
  atyp (ipv4 ip) = 0x01
  atyp (ipv6 os) = 0x04
  atyp (domain d) = 0x03

  abbrev pub body : AddrSpec → List ℕ
  body (ipv4 ip) = octets ip
  body (ipv6 os) = os
  body (domain d) = length d % 256 ∷ d

  pub encode_address-body :
      (addr : AddrSpec) (port : ℕ) (rest : List ℕ)
      → encode_address addr port [] ++ rest ≡ atyp addr ∷ (body addr ++ (to_be16 port ++ rest))
  unfolding encode_address
  encode_address-body (ipv4 ip) port rest = refl
  encode_address-body (ipv6 os) port rest = ap (◌∷◌ 0x04) (append_assoc os (to_be16 port) rest)
  encode_address-body (domain d) port rest =
      ap (λ t. 0x03 ∷ length d % 256 ∷ t) (append_assoc d (to_be16 port) rest)

  read_address-body :
      (s : Stream) (addr : AddrSpec) (rest : List ℕ)
      → Encodable addr
      → read_address lossy (atyp addr) (with_input s (body addr ++ rest))
        ≡ (with_input s rest, ok addr)
  unfolding read_address
  read_address-body s (ipv4 ip) rest h =
      bind_ok (read_exact 4) (λ x. done (ipv4 (ipv4_of x 0))) (read_exact-append s (octets ip) rest)
  read_address-body s (ipv6 os) rest h =
      bind_ok (read_exact 16) (λ x. done (ipv6 x)) (read_exact_of s 16 os rest h)
  read_address-body s (domain d) rest (short, same) =
      bind_ok read_u8 (λ len. read_exact len >>= λ x. done (domain (lossy x)))
        (read_u8-cons s (length d % 256) (d ++ rest))
      ∙ bind_ok (read_exact (length d % 256)) (λ x. done (domain (lossy x)))
          (read_exact_of s (length d % 256) d rest (omega arith))
      ∙ ap (λ x. (with_input s rest, ok (domain x))) same

  -- The command byte of a request.
  abbrev pub cmd_code : Cmd → ℕ
  cmd_code connect = 0x01
  cmd_code bind = 0x02
  cmd_code udp_associate = 0x03

  cmd_of-cmd_code : (c : Cmd) → cmd_of (cmd_code c) ≡ ok c
  unfolding cmd_of
  cmd_of-cmd_code connect = refl
  cmd_of-cmd_code bind = refl
  cmd_of-cmd_code udp_associate = refl

  -- A request for any command, address and port that the format carries, written with
  -- `encode_address`, is read back whole, and the reader stops exactly at its end.
  pub read_request-encode :
      (s : Stream) (c : Cmd) (addr : AddrSpec) (port : ℕ) (rest : List ℕ)
      → Encodable addr
      → port < 65536
      → read_request lossy
          (with_input s (0x05 ∷ cmd_code c ∷ 0x00 ∷ (encode_address addr port [] ++ rest)))
        ≡ (with_input s rest, ok (record { cmd = c; addr = addr; port = port }))
  unfolding read_request
  read_request-encode s c addr port rest h fits =
      let wire = body addr ++ (to_be16 port ++ rest) in
      let hdr : List ℕ = 0x05 ∷ cmd_code c ∷ 0x00 ∷ atyp addr ∷ [] in
      let tail : AddrSpec → M Request =
        λ a. read_u16 >>= λ q. done (record { cmd = c; addr = a; port = q }) in
      rw (encode_address-body addr port rest) (
        bind_ok (read_exact 4) (request_of lossy) (read_exact-append s hdr wire)
        ∙ rw (cmd_of-cmd_code c) (
            bind_ok (read_address lossy (atyp addr)) tail
              (read_address-body s addr (to_be16 port ++ rest) h)
            ∙ bind_ok read_u16 (λ q. done (record { cmd = c; addr = addr; port = q }))
                (read_u16-append s port rest fits)))
