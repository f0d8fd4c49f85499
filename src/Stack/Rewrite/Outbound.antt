-- ===== src/Stack/Rewrite/Outbound.antt =====
-- `rewrite_outbound`: smoltcp to TUN.
use gravital_share.Common.{
  ℕ, suc, ◌+◌, ◌*◌, ◌/◌, ◌%◌, ◌≤◌, ◌<◌, ◌≡◌, ◌⊎◌, inl, inr, ap, ◌∙◌, sym, arith, List, length, some,
  true, eq→==, le→ltb_false,
}
use gravital_share.Common.Bytes.{
  byte, word, to_be16, to_be16-IsBytes, write, length-write, byte-write_before, byte-write_after,
  byte-write_in, at_lt, copy_at_in,
}
use gravital_share.Common.Addr.{Ipv4Addr, v4}
use gravital_share.Common.Outcome.{ret}
use gravital_share.Stack.Rewrite.{rewrite_outbound, octets, extract_tcp_addrs}
use gravital_share.Stack.Rewrite.Image.{ihl_of, header_length_lt}
use gravital_share.Stack.Rewrite.Valid.{IpSumValid, TcpSumValid}
use gravital_share.Stack.Rewrite.Packets.{
  IsTcpPacket, src_of, dst_of, extract_tcp_addrs_in, repaired, repaired-Repaired, ihl-repaired,
  repaired-IsTcpPacket, write-IsTcpPacket, repair_step, ipv4_of_same, word_same, addr_same,
}

-- The packet with the source address and the source port replaced.
abbrev readdressed : List ℕ → Ipv4Addr → List ℕ
readdressed p ip = write p 12 (octets ip)

abbrev patched : List ℕ → Ipv4Addr → ℕ → List ℕ
patched p ip port = write (readdressed p ip) (ihl_of p) (to_be16 port)

-- The octets of an address are bytes.
pub record IsIpv4 (ip : Ipv4Addr) : Type 0 where
  pub octet_a : ip.a < 256
  pub octet_b : ip.b < 256
  pub octet_c : ip.c < 256
  pub octet_d : ip.d < 256

-- What `rewrite_outbound` promises of its result `q`.
pub record Outbound (p : List ℕ) (ip : Ipv4Addr) (port : ℕ) (q : List ℕ) : Type 0 where
  pub same_length : length q ≡ length p
  pub ip_valid : IpSumValid q
  pub tcp_valid : TcpSumValid q
  pub addrs : extract_tcp_addrs q ≡ ret (some (record { ip = v4 ip; port = port }, dst_of p))
  pub kept :
      (j : ℕ)
      → (j < 10)
        ⊎ ((16 ≤ j) × (j < ihl_of p)
            ⊎ ((ihl_of p + 2 ≤ j) × (j < ihl_of p + 16) ⊎ (ihl_of p + 18 ≤ j)))
      → byte q j ≡ byte p j

module _ (p : List ℕ) (ip : Ipv4Addr) (port : ℕ) (h : IsTcpPacket p) (hi : IsIpv4 ip) where
  p0-IsTcpPacket : IsTcpPacket (readdressed p ip)
  p0-IsTcpPacket =
      let a = hi.octet_a in
      let b = hi.octet_b in
      let c = hi.octet_c in
      let d = hi.octet_d in write-IsTcpPacket p 12 (octets ip) (omega arith) (omega arith) h

  p1-IsTcpPacket : IsTcpPacket (patched p ip port)
  p1-IsTcpPacket =
      let a = h.header in
      write-IsTcpPacket (readdressed p ip) (ihl_of p) (to_be16 port) (omega arith)
        (to_be16-IsBytes port) p0-IsTcpPacket

  outbound_repaired : rewrite_outbound p ip port ≡ ret (repaired (patched p ip port), true)
  unfolding rewrite_outbound
  outbound_repaired =
      let a = h.header in
      let b = h.segment in
      let n = length-write p 12 (octets ip) in
      rw (le→ltb_false (length p) 20 (omega arith)) (
        rw (at_lt p 0 (omega arith), at_lt p 9 (omega arith))
          (rw (eq→== (byte p 0 / 16) 4 h.version, eq→== (byte p 9) 6 h.protocol)
            (rw (header_length_lt p (omega arith)) (
              rw (le→ltb_false (length p) (ihl_of p + 20) b) (
                rw (copy_at_in p 12 (octets ip) (omega arith)) (
                  rw (copy_at_in (readdressed p ip) (ihl_of p) (to_be16 port) (omega arith))
                    (repair_step (patched p ip port) (λ p3. ret (p3, true)) p1-IsTcpPacket)))))))

  ihl-patched : ihl_of (patched p ip port) ≡ ihl_of p
  ihl-patched =
      let a = h.header in
      ap (λ (x : ℕ). x % 16 * 4)
        (byte-write_before (readdressed p ip) (ihl_of p) (to_be16 port) 0 (omega arith)
          ∙ byte-write_before p 12 (octets ip) 0 (omega arith))

  kept_bytes :
      (j : ℕ)
      → (j < 10)
        ⊎ ((16 ≤ j) × (j < ihl_of p)
            ⊎ ((ihl_of p + 2 ≤ j) × (j < ihl_of p + 16) ⊎ (ihl_of p + 18 ≤ j)))
      → byte (repaired (patched p ip port)) j ≡ byte p j
  kept_bytes j out =
      let e = ihl-patched in
      let hd = h.header in
      let r = repaired-Repaired (patched p ip port) p1-IsTcpPacket in
      let before = byte-write_before (readdressed p ip) (ihl_of p) (to_be16 port) j in
      let after = byte-write_after (readdressed p ip) (ihl_of p) (to_be16 port) j in
      let before12 = byte-write_before p 12 (octets ip) j in
      let after12 = byte-write_after p 12 (octets ip) j in
      elim out [
        | inl lo ↦ r.kept j (inl lo) ∙ before (omega arith) ∙ before12 (omega arith)
        | inr (inl (lo, up)) ↦
            r.kept j (inr (inl (omega arith, omega arith))) ∙ before up ∙ after12 lo
        | inr (inr (inl (lo, up))) ↦
            r.kept j (inr (inl (omega arith, omega arith)))
            ∙ after (omega arith)
            ∙ after12 (omega arith)
        | inr (inr (inr up)) ↦
            r.kept j (inr (inr (omega arith))) ∙ after (omega arith) ∙ after12 (omega arith)
      ]

  ip_byte : (j : ℕ) → j < 4 → byte (repaired (patched p ip port)) (12 + j) ≡ byte (octets ip) j
  ip_byte j lt =
      let e = ihl-patched in
      let hd = h.header in
      let sg = h.segment in
      let r = repaired-Repaired (patched p ip port) p1-IsTcpPacket in
      r.kept (12 + j) (inr (inl (omega arith, omega arith)))
      ∙ byte-write_before (readdressed p ip) (ihl_of p) (to_be16 port) (12 + j) (omega arith)
      ∙ byte-write_in p 12 (octets ip) j lt (omega arith)

  port_byte :
      (j : ℕ) → j < 2 → byte (repaired (patched p ip port)) (ihl_of p + j) ≡ byte (to_be16 port) j
  port_byte j lt =
      let e = ihl-patched in
      let hd = h.header in
      let sg = h.segment in
      let n = length-write p 12 (octets ip) in
      let r = repaired-Repaired (patched p ip port) p1-IsTcpPacket in
      r.kept (ihl_of p + j) (inr (inl (omega arith, omega arith)))
      ∙ byte-write_in (readdressed p ip) (ihl_of p) (to_be16 port) j lt (omega arith)

  port_word : port < 65536 → word (repaired (patched p ip port)) (ihl_of p) ≡ port
  port_word fits =
      let q = repaired (patched p ip port) in
      let i0 : ihl_of p + 0 ≡ ihl_of p = omega arith in
      let i1 : ihl_of p + 1 ≡ suc (ihl_of p) = omega arith in
      let v0 = ap (byte q) (sym i0) ∙ port_byte 0 (omega arith) in
      let v1 = ap (byte q) (sym i1) ∙ port_byte 1 (omega arith) in omega arith

  ihl-result : ihl_of (repaired (patched p ip port)) ≡ ihl_of p
  ihl-result = ihl-repaired (patched p ip port) ∙ ihl-patched

  src-result :
      port < 65536 → src_of (repaired (patched p ip port)) ≡ record { ip = v4 ip; port = port }
  src-result fits =
      let q = repaired (patched p ip port) in
      let b0 = ip_byte 0 (omega arith) in
      let b1 = ip_byte 1 (omega arith) in
      let b2 = ip_byte 2 (omega arith) in
      let b3 = ip_byte 3 (omega arith) in
      addr_same (λ t. record { a = b0 t; b = b1 t; c = b2 t; d = b3 t })
        (ap (word q) ihl-result ∙ port_word fits)

  dst-result : dst_of (repaired (patched p ip port)) ≡ dst_of p
  dst-result =
      let q = repaired (patched p ip port) in
      let hd = h.header in
      let n = ihl_of p in
      addr_same
        (ipv4_of_same p q 16 (ip_kept 16 (omega arith) (omega arith))
          (ip_kept 17 (omega arith) (omega arith)) (ip_kept 18 (omega arith) (omega arith))
          (ip_kept 19 (omega arith) (omega arith)))
        (ap (λ i. word q (i + 2)) ihl-result
          ∙ word_same p q (n + 2) (kept_bytes (n + 2) (inr (inr (inl (omega arith, omega arith)))))
              (kept_bytes (suc (n + 2)) (inr (inr (inl (omega arith, omega arith))))))
    where
      ip_kept : (j : ℕ) → 16 ≤ j → j < 20 → byte (repaired (patched p ip port)) j ≡ byte p j
      ip_kept j lo up = let hd = h.header in kept_bytes j (inr (inl (lo, omega arith)))

-- On every well-formed TCP packet `rewrite_outbound` succeeds; the result has the same length, its
-- IPv4 and TCP checksums verify, its source is the real remote address, its destination is
-- unchanged, and every byte outside the source and the two checksums is as before.
pub rewrite_outbound-returns :
    (p : List ℕ) (ip : Ipv4Addr) (port : ℕ)
    → IsTcpPacket p
    → IsIpv4 ip
    → port < 65536
    → (q : List ℕ) × (rewrite_outbound p ip port ≡ ret (q, true)) × Outbound p ip port q
rewrite_outbound-returns p ip port h hi fits =
    let r = repaired-Repaired (patched p ip port) (p1-IsTcpPacket p ip port h hi) in
    (
      repaired (patched p ip port),
      outbound_repaired p ip port h hi,
      record {
        same_length =
            r.same_length
            ∙ length-write (readdressed p ip) (ihl_of p) (to_be16 port)
            ∙ length-write p 12 (octets ip);
        ip_valid = r.ip_valid;
        tcp_valid = r.tcp_valid;
        addrs =
            extract_tcp_addrs_in (repaired (patched p ip port))
              (repaired-IsTcpPacket (patched p ip port) (p1-IsTcpPacket p ip port h hi))
            ∙ (λ t. ret (some (src-result p ip port h hi fits t, dst-result p ip port h hi t)));
        kept = kept_bytes p ip port h hi;
      },
    )
