-- ===== src/UdpGw/Frame/RoundTrip.antt =====
-- `decode` after `encode`, and on damaged frames.
use gravital_share.Common.{
  ℕ, suc, ◌+◌, ◌-◌, ◌/◌, ◌%◌, ◌^◌, ◌≤◌, ◌<◌, ◌≡◌, ◌≢◌, ◌==◌, false, refl, ap, ◌∙◌, sym, arith, List,
  ◌∷◌, ◌++◌, length, take, le→ltb_false, length-append, take-append, take_of_length-le,
}
use gravital_share.Common.Bytes.{
  byte, u16_at, u32_at, slice, word, word32, be32, to_be16, at_lt, u16_at_lt, u32_at_lt, slice_in,
}
use gravital_share.Common.Append.{be16-to_be16, drop-append_right, u16_at-append}
use gravital_share.Common.Addr.{IpAddr, v4, v6, ipv4_at_lt}
use gravital_share.Common.Outcome.{ret, panic, >>=-ne-panic, Result, ok, err}
use gravital_share.UdpGw.Frame.{
  plain_addr, UdpGwFrame, UdpGwError, to_be32, addr_bytes, encode, decode_ip, decode_rest, decode,
}

-- The frames that the format carries.
pub record IsFrame (f : UdpGwFrame) : Type 0 where
  pub id : f.client_id < 2 ^ 32
  pub flag_bits : f.flags < 4
  pub port : f.remote_addr.port < 65536
  pub size : length f.payload < 65536

-- An IPv6 address has sixteen octets.
abbrev pub IsIp : IpAddr → Type 0
IsIp (v4 ip) = Unit {0}
IsIp (v6 os) = length os ≡ 16

decode_ip-returns : (p : List ℕ) (t : ℕ) → decode_ip p t ≢ panic
unfolding decode_ip
decode_ip-returns p t e = ground (arith, ipv4_at_lt p 7, slice_in p 7 23)

decode_rest-ne-panic :
    (p : List ℕ) (fl id : ℕ) (r : Result UdpGwError (IpAddr × ℕ)) → decode_rest p fl id r ≢ panic
unfolding decode_rest
decode_rest-ne-panic p fl id (err x) e = cc
decode_rest-ne-panic p fl id (ok (ip, offset)) e = ground (
  arith,
  u16_at_lt p offset,
  u16_at_lt p (offset + 2),
  slice_in p (offset + 4) (offset + 4 + word p (offset + 2)),
)

-- `decode` returns on every buffer.
decode-ne-panic : (p : List ℕ) → decode p ≢ panic
unfolding decode
decode-ne-panic p e =
    let inner =
      >>=-ne-panic (decode_ip p (byte p 6)) (decode_rest p (byte p 1 % 4) (word32 p 2))
        (decode_ip-returns p (byte p 6)) (decode_rest-ne-panic p (byte p 1 % 4) (word32 p 2)) in
    ground (arith, at_lt p 0, at_lt p 1, at_lt p 6, u32_at_lt p 2, inner)

-- The four bytes of a u32 read back.
be32-to_be32 :
    (v : ℕ) → v < 2 ^ 32 → be32 (v / 2 ^ 24 % 256) (v / 2 ^ 16 % 256) (v / 256 % 256) (v % 256) ≡ v
be32-to_be32 v h = omega arith

-- The part of a frame behind the address.
abbrev tail_of : ℕ → List ℕ → List ℕ
tail_of port payload = to_be16 port ++ (to_be16 (length payload % 65536) ++ payload)

decode_rest-tail :
    (q : List ℕ) (flags id : ℕ) (ip : IpAddr) (port : ℕ) (payload : List ℕ)
    → port < 65536
    → length payload < 65536
    → decode_rest (q ++ tail_of port payload) flags id (ok (ip, length q))
      ≡ ret (
          ok (record {
            client_id = id;
            flags = flags;
            remote_addr = plain_addr ip port;
            payload = payload;
          }))
unfolding decode_rest
decode_rest-tail q flags id ip port payload hp hl =
    let t = tail_of port payload in
    let n = length-append q t in
    let w0 : u16_at (q ++ t) (length q) ≡ ret port =
      ap (u16_at (q ++ t)) (omega arith)
      ∙ u16_at-append q t 0 (omega arith)
      ∙ ap ret (be16-to_be16 port hp) in
    let w2 : u16_at (q ++ t) (length q + 2) ≡ ret (length payload) =
      u16_at-append q t 2 (omega arith) ∙ ap ret (omega arith) in
    let s : slice (q ++ t) (length q + 4) (length q + 4 + length payload) ≡ ret payload =
      slice_in (q ++ t) (length q + 4) (length q + 4 + length payload) (omega arith) (omega arith)
      ∙ ap ret (
          ap (λ l. take (length q + 4 + length payload - (length q + 4)) l)
            (drop-append_right q t 4)
          ∙ take_of_length-le (length q + 4 + length payload - (length q + 4)) payload
              (omega arith)) in
    rw (le→ltb_false (length (q ++ t)) (length q + 4) (omega arith)) (
      rw w0 (
        rw w2 (
          rw (le→ltb_false (length (q ++ t)) (length q + 4 + length payload) (omega arith))
            (rw s refl))))

-- A frame's bytes up to the port.
abbrev front : ℕ → ℕ → IpAddr → List ℕ
front flags id ip = 1 ∷ flags ∷ (to_be32 id ++ addr_bytes ip)

decode_ip-front :
    (flags id : ℕ) (ip : IpAddr) (t : List ℕ)
    → IsIp ip
    → decode_ip (front flags id ip ++ t) (byte (front flags id ip ++ t) 6)
      ≡ ret (ok (ip, length (front flags id ip)))
unfolding decode_ip
decode_ip-front flags id (v4 ip) t h =
    rw (le→ltb_false (length (front flags id (v4 ip) ++ t)) 11 (omega arith))
      (rw (ipv4_at_lt (front flags id (v4 ip) ++ t) 7 (omega arith)) refl)
decode_ip-front flags id (v6 os) t h =
    let p = front flags id (v6 os) ++ t in
    let n = length-append os t in
    let k : suc (suc (suc (suc (suc (suc (suc (length os))))))) ≡ 23 = omega (arith, h) in
    let s : slice p 7 23 ≡ ret os =
      slice_in p 7 23 (omega arith) (omega (arith, h))
      ∙ ap ret (ap (λ (m : ℕ). take m (os ++ t)) (sym h) ∙ take-append os t) in
    rw (le→ltb_false (length p) 23 (omega (arith, h)))
      (rw s (ap (λ (m : ℕ). ret (ok (v6 os, m))) (sym k)))

encode-front :
    (f : UdpGwFrame)
    → encode f ≡ front f.flags f.client_id f.remote_addr.ip ++ tail_of f.remote_addr.port f.payload
unfolding encode
encode-front f = split f.remote_addr.ip
  where
    split :
        (ip : IpAddr)
        → 1
            ∷ f.flags
            ∷ (to_be32 f.client_id ++ (addr_bytes ip ++ tail_of f.remote_addr.port f.payload))
          ≡ front f.flags f.client_id ip ++ tail_of f.remote_addr.port f.payload
    split (v4 ip) = refl
    split (v6 os) = refl

decode-front :
    (flags id : ℕ) (ip : IpAddr) (t : List ℕ)
    → flags < 4
    → id < 2 ^ 32
    → IsIp ip
    → 1 ≤ length t
    → decode (front flags id ip ++ t)
      ≡ decode_rest (front flags id ip ++ t) flags id (ok (ip, length (front flags id ip)))
unfolding decode
decode-front flags id ip t hf hi h ht =
    let p = front flags id ip ++ t in
    let n : 7 < length p = long ip in
    let w : u32_at p 2 ≡ ret id = u32_at_lt p 2 (omega arith) ∙ ap ret (be32-to_be32 id hi) in
    let z : (length p == 0) ≡ false = ground arith in
    rw (z, at_lt p 0 (omega arith))
      (rw (le→ltb_false (length p) 8 (omega arith)) (
        rw (at_lt p 1 (omega arith)) (
          rw w (
            rw (at_lt p 6 (omega arith)) (
              rw (decode_ip-front flags id ip t h) (
                ap (λ x. decode_rest p x id (ok (ip, length (front flags id ip))))
                  (omega arith)))))))
  where
    long : (i : IpAddr) → 7 < length (front flags id i ++ t)
    long (v4 x) = omega arith
    long (v6 os) = omega (arith, length-append os t)

-- Decoding an encoded frame gives the frame back, but for the flow label and the scope of an IPv6
-- address, which become 0: for a 32-bit client id, the two declared flags, a port and a payload
-- length below 2 ^ 16, and an address of four or of sixteen octets. A frame whose address has
-- neither is given back as it is.
pub decode-encode :
    (f : UdpGwFrame)
    → IsFrame f
    → IsIp f.remote_addr.ip
    → decode (encode f)
      ≡ ret (ok (record f { remote_addr = plain_addr f.remote_addr.ip f.remote_addr.port }))
decode-encode f h k =
    let id = f.client_id in
    let ip = f.remote_addr.ip in
    ap decode (encode-front f)
    ∙ decode-front f.flags id ip (tail_of f.remote_addr.port f.payload) h.flag_bits h.id k
        (omega arith)
    ∙ decode_rest-tail (front f.flags id ip) f.flags id ip f.remote_addr.port f.payload h.port
        h.size
