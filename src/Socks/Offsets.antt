-- ===== src/Socks/Offsets.antt =====
-- engine/crates/gravital-socks/src/proto.rs: what the relay needs of `parse_udp_datagram`.
use gravital_share.Common.{
  ℕ, ◌+◌, ◌≤◌, ◌≡◌, ◌≢◌, ◌⊎◌, inl, inr, refl, dec_lt, lt→ltb, le→ltb_false, arith, List, length,
}
use gravital_share.Common.Bytes.{byte, word, u16_at, at_lt, u16_at_lt, slice_in}
use gravital_share.Common.Addr.{ipv4_at_lt}
use gravital_share.Common.Outcome.{Outcome, ret, panic, Result, ok, err, ret_then, returned}
use gravital_share.Socks.Stream.{SocksError, premature_eof}
use gravital_share.Socks.Proto.{AddrSpec, UdpHeader}
use gravital_share.Socks.Datagram.{udp_address, udp_port, parse_udp_datagram}

module _ (lossy : List ℕ → List ℕ) where
  address-ne-panic : (buf : List ℕ) (atyp : ℕ) → 4 ≤ length buf → udp_address lossy buf atyp ≢ panic
  unfolding udp_address
  address-ne-panic buf atyp n e =
      ground
        (arith, ipv4_at_lt buf 4, at_lt buf 4, slice_in buf 5 (5 + byte buf 4), slice_in buf 4 20)

  -- The two ends of a reading: an error, or a header whose payload begins within the buffer.
  abbrev pub Fits : List ℕ → Outcome (Result SocksError UdpHeader) → Type 0
  Fits buf o =
      ((e : SocksError) × (o ≡ ret (err e)))
      ⊎ ((h : UdpHeader) × (o ≡ ret (ok h)) × (h.payload_offset ≤ length buf))

  port-Fits :
      (buf : List ℕ) (frag : ℕ) (r : Result SocksError (AddrSpec × ℕ))
      → Fits buf (udp_port lossy buf frag r)
  unfolding udp_port
  port-Fits buf frag (err e) = inl (e, refl)
  port-Fits buf frag (ok (addr, offset)) = elim (dec_lt (length buf) (offset + 2)) [
    | yes short ↦ rw (lt→ltb (length buf) (offset + 2) short) (inl (premature_eof, refl))
    | no long ↦
        let h : UdpHeader = record {
          frag = frag;
          addr = addr;
          port = word buf offset;
          payload_offset = offset + 2;
        } in
        rw (le→ltb_false (length buf) (offset + 2) (omega arith)) (
          inr (
            h,
            ret_then (u16_at buf offset) (word buf offset) _ (u16_at_lt buf offset (omega arith))
                refl,
            omega arith,
          ))
  ]

  -- `parse_udp_datagram` never panics. It returns an error, or a header whose payload offset lies
  -- within the datagram, so that the slice `&buf[payload_offset..n]` of the relay is in range.
  pub parse_udp_datagram-Fits : (buf : List ℕ) → Fits buf (parse_udp_datagram lossy buf)
  unfolding parse_udp_datagram
  parse_udp_datagram-Fits buf = elim (dec_lt (length buf) 4) [
    | yes short ↦ rw (lt→ltb (length buf) 4 short) (inl (premature_eof, refl))
    | no long ↦
        let (r, e) =
          returned (udp_address lossy buf (byte buf 3))
            (address-ne-panic buf (byte buf 3) (omega arith)) in
        rw (le→ltb_false (length buf) 4 (omega arith)) (
          rw (at_lt buf 2 (omega arith))
            (rw (at_lt buf 3 (omega arith)) (rw e (port-Fits buf (byte buf 2) r))))
  ]
