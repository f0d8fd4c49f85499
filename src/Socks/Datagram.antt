-- ===== src/Socks/Datagram.antt =====
-- engine/crates/gravital-socks/src/proto.rs, lines 211 to 261: the header of a UDP ASSOCIATE
-- datagram (RFC 1928, section 7).
use gravital_share.Common.{ℕ, ◌+◌, List, ltb, ◌==◌, if◌then◌else◌, length}
use gravital_share.Common.Bytes.{at, slice, u16_at}
use gravital_share.Common.Addr.{ipv4_at}
use gravital_share.Common.Outcome.{Outcome, ret, ◌>>=◌, Result, ok, err}
use gravital_share.Socks.Stream.{SocksError, premature_eof, address_type_not_supported}
use gravital_share.Socks.Proto.{AddrSpec, ipv4, ipv6, domain, UdpHeader}

module _ (lossy : List ℕ → List ℕ) where
  -- The match on the address type: the address and the offset behind it.
  unfoldable pub udp_address : List ℕ → ℕ → Outcome (Result SocksError (AddrSpec × ℕ))
  udp_address buf atyp =
      if atyp == 0x01
      then (if ltb (length buf) (4 + 4)
          then ret (err premature_eof)
          else do ip ← ipv4_at buf 4; ret (ok (ipv4 ip, 4 + 4)))
      else if atyp == 0x03
      then (if ltb (length buf) (4 + 1) then ret (err premature_eof) else do
        len ← at buf 4
        if ltb (length buf) (5 + len)
            then ret (err premature_eof)
            else do d ← slice buf 5 (5 + len); ret (ok (domain (lossy d), 5 + len)))
      else if atyp == 0x04
      then (if ltb (length buf) (4 + 16)
          then ret (err premature_eof)
          else do ip ← slice buf 4 (4 + 16); ret (ok (ipv6 ip, 4 + 16)))
      else ret (err (address_type_not_supported atyp))

  unfoldable pub udp_port :
      List ℕ → ℕ → Result SocksError (AddrSpec × ℕ) → Outcome (Result SocksError UdpHeader)
  udp_port buf frag (err e) = ret (err e)
  udp_port buf frag (ok (addr, offset)) =
      if ltb (length buf) (offset + 2) then ret (err premature_eof) else do
        port ← u16_at buf offset
        ret (ok (record { frag = frag; addr = addr; port = port; payload_offset = offset + 2 }))

  unfoldable pub parse_udp_datagram : List ℕ → Outcome (Result SocksError UdpHeader)
  parse_udp_datagram buf =
      if ltb (length buf) 4
      then ret (err premature_eof)
      else do frag ← at buf 2; atyp ← at buf 3; addr ← udp_address buf atyp; udp_port buf frag addr
