-- ===== src/Engine/Reply/Built.antt =====
-- What `build_udp_reply` promises to the application that asked.
use gravital_share.Common.{
  ℕ, suc, ◌+◌, ◌-◌, ◌*◌, ◌/◌, ◌%◌, ◌≤◌, ◌≡◌, refl, ap, ◌∙◌, sym, arith, List, length, take,
  take_of_length-le, some, le→ltb_false,
}
use gravital_share.Common.Bytes.{
  byte, word, at, at_lt, u16_at, u16_at_lt, slice, slice_in, IsBytes, byte-IsByte,
}
use gravital_share.Common.Addr.{ipv4_of}
use gravital_share.Common.Outcome.{ret, ret_then}
use gravital_share.Stack.Rewrite.{header_length}
use gravital_share.Stack.Rewrite.Image.{ihl_of, header_length_lt, ip_fixed}
use gravital_share.Stack.Rewrite.Valid.{IpSumValid, ip_fixed-IpSumValid}
use gravital_share.Engine.Reply.{
  udp_dst_port, extract_udp_payload, fill_reply, rfc1071, fix_ip4_checksum, fix_udp_checksum,
  build_udp_reply,
}
use gravital_share.Engine.Reply.Image.{
  slice_four, slice_two, filled, fill_reply-filled, reply, fix_ip4-filled, udp_sum, fix_udp-filled,
}

-- An IPv4/UDP packet whose header is at least twenty bytes long and stands before the ports.
pub record IsUdpPacket (p : List ℕ) : Type 0 where
  pub bytes : IsBytes p
  pub version : byte p 0 / 16 ≡ 4
  pub protocol : byte p 9 ≡ 17
  pub header : 20 ≤ ihl_of p
  pub long : ihl_of p + 8 ≤ length p

-- The reply `r` to the request `p` with the DNS message `resp`.
pub record ReplyTo (p resp r : List ℕ) : Type 0 where
  pub size : length r ≡ 28 + length resp
  pub payload : extract_udp_payload r ≡ ret (some resp)
  pub to_port : udp_dst_port r ≡ ret (some (word p (ihl_of p)))
  pub from_port : word r 20 ≡ word p (ihl_of p + 2)
  pub source : ipv4_of r 12 ≡ ipv4_of p 16
  pub destination : ipv4_of r 16 ≡ ipv4_of p 12
  pub ip_valid : IpSumValid r

module _ (p resp : List ℕ) (h : IsUdpPacket p) (fits : 28 + length resp ≤ 65535) where
  abbrev i : ℕ
  i = ihl_of p

  abbrev body : List ℕ
  body =
      filled (byte p 12) (byte p 13) (byte p 14) (byte p 15) (byte p 16) (byte p 17) (byte p 18)
        (byte p 19) (byte p i) (byte p (suc i)) (byte p (i + 2)) (byte p (suc (i + 2))) resp

  abbrev c : ℕ
  c = rfc1071 (take 20 body)

  abbrev built : List ℕ
  built =
      reply (byte p 12) (byte p 13) (byte p 14) (byte p 15) (byte p 16) (byte p 17) (byte p 18)
        (byte p 19) (byte p i) (byte p (suc i)) (byte p (i + 2)) (byte p (suc (i + 2))) resp c
        (udp_sum (byte p 12) (byte p 13) (byte p 14) (byte p 15) (byte p 16) (byte p 17) (byte p 18)
          (byte p 19) (byte p i) (byte p (suc i)) (byte p (i + 2)) (byte p (suc (i + 2))) resp c)

  build-built : build_udp_reply p resp ≡ ret (some built)
  unfolding build_udp_reply
  build-built =
      let lo = h.header in
      let hi = h.long in
      let ports : i + 2 + 2 ≡ i + 4 = omega arith in
      rw (le→ltb_false (length p) 28 (omega arith)) (
        ret_then (at p 0) (byte p 0) _ (at_lt p 0 (omega arith)) (
          ret_then (at p 9) (byte p 9) _ (at_lt p 9 (omega arith)) (
            rw (h.version, h.protocol)
              (ret_then (header_length p) i _ (header_length_lt p (omega arith)) (
                ret_then (slice p 12 16) _ _ (slice_four p 12 (omega arith)) (
                  ret_then (slice p 16 20) _ _ (slice_four p 16 (omega arith)) (
                    ret_then (slice p i (i + 2)) _ _ (slice_two p i (omega arith)) (
                      ret_then (slice p (i + 2) (i + 4)) _ _
                        (ap (slice p (i + 2)) (sym ports) ∙ slice_two p (i + 2) (omega arith))
                        (ret_then (fill_reply _ _ _ _ resp) body _
                          (fill_reply-filled _ _ _ _ _ _ _ _ _ _ _ _ resp fits)
                          (ret_then (fix_ip4_checksum body) _ _
                            (fix_ip4-filled _ _ _ _ _ _ _ _ _ _ _ _ resp)
                            (ret_then (fix_udp_checksum _) _ _
                              (fix_udp-filled _ _ _ _ _ _ _ _ _ _ _ _ resp c) refl)))))))))))

  built-payload : extract_udp_payload built ≡ ret (some resp)
  unfolding extract_udp_payload header_length
  built-payload =
      let e : (8 + length resp) / 256 % 256 * 256 + (8 + length resp) % 256 ≡ 8 + length resp =
        omega arith in
      rw (le→ltb_false (length built) 20 (omega arith)) (
        ret_then (at built 0) 0x45 _ (at_lt built 0 (omega arith)) (
          ret_then (at built 9) 17 _ (at_lt built 9 (omega arith)) (
            ret_then (header_length built) 20 _ (header_length_lt built (omega arith)) (
              rw (le→ltb_false (length built) 28 (omega arith)) (
                ret_then (u16_at built 24) (8 + length resp) _
                  (u16_at_lt built 24 (omega arith) ∙ ap ret e)
                  (rw
                    (
                      le→ltb_false (8 + length resp) 8 (omega arith),
                      le→ltb_false (length built) (20 + (8 + length resp)) (omega arith),
                    )
                    (ret_then (slice built 28 (20 + (8 + length resp))) resp _
                      (slice_in built 28 (20 + (8 + length resp)) (omega arith) (omega arith)
                        ∙ ap ret
                            (take_of_length-le (20 + (8 + length resp) - 28) resp (omega arith)))
                      refl)))))))

  built-port : udp_dst_port built ≡ ret (some (word p i))
  unfolding udp_dst_port header_length
  built-port = rw (le→ltb_false (length built) 20 (omega arith)) (
      ret_then (at built 0) 0x45 _ (at_lt built 0 (omega arith)) (
        ret_then (at built 9) 17 _ (at_lt built 9 (omega arith)) (
          ret_then (header_length built) 20 _ (header_length_lt built (omega arith)) (
            rw (le→ltb_false (length built) 28 (omega arith))
              (ret_then (u16_at built 22) (word p i) _ (u16_at_lt built 22 (omega arith)) refl)))))

  body-IsBytes : IsBytes resp → IsBytes body
  body-IsBytes r =
      let b = λ (j : ℕ). byte-IsByte p j h.bytes in
      (
        omega arith,
        (
          omega arith,
          (
            omega arith,
            (
              omega arith,
              (
                omega arith,
                (
                  omega arith,
                  (
                    omega arith,
                    (
                      omega arith,
                      (
                        omega arith,
                        (
                          omega arith,
                          (
                            omega arith,
                            (
                              omega arith,
                              (
                                b 16,
                                (
                                  b 17,
                                  (
                                    b 18,
                                    (
                                      b 19,
                                      (
                                        b 12,
                                        (
                                          b 13,
                                          (
                                            b 14,
                                            (
                                              b 15,
                                              (
                                                b (i + 2),
                                                (
                                                  b (suc (i + 2)),
                                                  (
                                                    b i,
                                                    (
                                                      b (suc i),
                                                      (
                                                        omega arith,
                                                        (
                                                          omega arith,
                                                          (omega arith, (omega arith, r)),
                                                        ),
                                                      ),
                                                    ),
                                                  ),
                                                ),
                                              ),
                                            ),
                                          ),
                                        ),
                                      ),
                                    ),
                                  ),
                                ),
                              ),
                            ),
                          ),
                        ),
                      ),
                    ),
                  ),
                ),
              ),
            ),
          ),
        ),
      )

  built-valid : IsBytes resp → IpSumValid built
  unfolding ip_fixed rfc1071 gravital_share.Stack.Rewrite.checksum
  built-valid r =
      ip_fixed-IpSumValid body (body-IsBytes r) (omega arith) (omega arith) (omega arith)

-- For an IPv4/UDP packet (a header of at least twenty bytes, the ports behind it) and a response of
-- bytes that fits an IP packet, the reply is built. Its payload, as `extract_udp_payload` reads it,
-- is the response; it goes from the destination address and port of the request to its source
-- address and port; and its header checksum verifies.
pub build_udp_reply-returns :
    (p resp : List ℕ)
    → IsUdpPacket p
    → IsBytes resp
    → 28 + length resp ≤ 65535
    → (r : List ℕ) × (build_udp_reply p resp ≡ ret (some r)) × ReplyTo p resp r
build_udp_reply-returns p resp h hb fits = (
  built p resp h fits,
  build-built p resp h fits,
  record {
    size = omega arith;
    payload = built-payload p resp h fits;
    to_port = built-port p resp h fits;
    from_port = refl;
    source = refl;
    destination = refl;
    ip_valid = built-valid p resp h fits hb;
  },
)
