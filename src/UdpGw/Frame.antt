-- ===== src/UdpGw/Frame.antt =====
-- engine/crates/gravital-udpgw/src/frame.rs. The two flags declared are the two low bits, so
-- `from_bits_truncate` is `% 4`.
pub mod RoundTrip
use gravital_share.Common.{
  ℕ, ◌+◌, ◌/◌, ◌%◌, ◌^◌, List, [], ◌∷◌, ◌++◌, not, ltb, ◌==◌, if◌then◌else◌, length,
}
use gravital_share.Common.Bytes.{at, slice, u16_at, u32_at, to_be16}
use gravital_share.Common.Addr.{IpAddr, v4, v6, ipv4_at}
use gravital_share.Common.Io.{IoError}
use gravital_share.Common.Outcome.{Outcome, ret, ◌>>=◌, Result, ok, err}

pub data UdpGwError : Type 0 where
  io : IoError → UdpGwError
  frame_too_large : ℕ → UdpGwError
  invalid_version : ℕ → UdpGwError
  truncated closed : UdpGwError

-- The address of a frame. `flowinfo` and `scope_id` are those of a `SocketAddrV6`; they are 0 for
-- an IPv4 address, which has none.
pub record RemoteAddr : Type 0 where
  pub ip : IpAddr
  pub port : ℕ
  pub flowinfo : ℕ
  pub scope_id : ℕ

-- `SocketAddr::new(ip, port)`
abbrev pub plain_addr : IpAddr → ℕ → RemoteAddr
plain_addr ip port = record { ip = ip; port = port; flowinfo = 0; scope_id = 0 }

pub record UdpGwFrame : Type 0 where
  pub client_id : ℕ
  pub flags : ℕ
  pub remote_addr : RemoteAddr
  pub payload : List ℕ

-- `put_u32`
abbrev pub to_be32 : ℕ → List ℕ
to_be32 v = v / 2 ^ 24 % 256 ∷ v / 2 ^ 16 % 256 ∷ v / 256 % 256 ∷ v % 256 ∷ []

-- The address type byte and the octets.
abbrev pub addr_bytes : IpAddr → List ℕ
addr_bytes (v4 ip) = 0x01 ∷ ip.a ∷ ip.b ∷ ip.c ∷ ip.d ∷ []
addr_bytes (v6 os) = 0x04 ∷ os

pub encode : UdpGwFrame → List ℕ
encode f =
    1
    ∷ f.flags
    ∷ (to_be32 f.client_id
        ++ (addr_bytes f.remote_addr.ip
            ++ (to_be16 f.remote_addr.port ++ (to_be16 (length f.payload % 65536) ++ f.payload))))

-- The match on the address type: the address and the offset behind it.
pub decode_ip : List ℕ → ℕ → Outcome (Result UdpGwError (IpAddr × ℕ))
decode_ip data' addr_type =
    if addr_type == 0x01
    then (if ltb (length data') (7 + 4)
        then ret (err truncated)
        else do ip ← ipv4_at data' 7; ret (ok (v4 ip, 7 + 4)))
    else if addr_type == 0x04
    then (if ltb (length data') (7 + 16)
        then ret (err truncated)
        else do b ← slice data' 7 (7 + 16); ret (ok (v6 b, 7 + 16)))
    else ret (err truncated)

-- From the address on: the port, the payload's length and the payload.
pub decode_rest :
    List ℕ → ℕ → ℕ → Result UdpGwError (IpAddr × ℕ) → Outcome (Result UdpGwError UdpGwFrame)
decode_rest data' flags client_id (err e) = ret (err e)
decode_rest data' flags client_id (ok (ip, offset)) =
    if ltb (length data') (offset + 4) then ret (err truncated) else do
      port ← u16_at data' offset
      payload_len ← u16_at data' (offset + 2)
      if ltb (length data') (offset + 4 + payload_len) then ret (err truncated) else do
        payload ← slice data' (offset + 4) (offset + 4 + payload_len)
        ret (
            ok (record {
              client_id = client_id;
              flags = flags;
              remote_addr = plain_addr ip port;
              payload = payload;
            }))

pub decode : List ℕ → Outcome (Result UdpGwError UdpGwFrame)
decode data' = if length data' == 0 then ret (err truncated) else do
  version ← at data' 0
  if not (version == 1)
      then ret (err (invalid_version version))
      else if ltb (length data') 8
      then ret (err truncated)
      else do
        b1 ← at data' 1
        client_id ← u32_at data' 2
        addr_type ← at data' 6
        ip ← decode_ip data' addr_type
        decode_rest data' (b1 % 4) client_id ip
