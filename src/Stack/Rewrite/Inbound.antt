-- ===== src/Stack/Rewrite/Inbound.antt =====
-- `rewrite_inbound`: TUN to smoltcp.
use gravital_share.Common.{
  ℕ, suc, ◌+◌, ◌*◌, ◌/◌, ◌%◌, ◌≤◌, ◌<◌, ◌≡◌, ◌⊎◌, inl, inr, ap, ◌∙◌, sym, arith, List, length, some,
  true, eq→==, le→ltb_false,
}
use gravital_share.Common.Bytes.{
  byte, word, to_be16, to_be16-IsBytes, write, length-write, byte-write_before, byte-write_after,
  byte-write_in, at_lt, copy_at_in,
}
use gravital_share.Common.Outcome.{ret}
use gravital_share.Stack.Rewrite.{rewrite_inbound, extract_tcp_addrs}
use gravital_share.Stack.Rewrite.Image.{ihl_of, header_length_lt}
use gravital_share.Stack.Rewrite.Valid.{IpSumValid, TcpSumValid}
use gravital_share.Stack.Rewrite.Packets.{
  IsTcpPacket, src_of, dst_of, extract_tcp_addrs_in, repaired, repaired-Repaired, ihl-repaired,
  repaired-IsTcpPacket, write-IsTcpPacket, repair_step, ipv4_of_same, word_same, addr_same,
}

-- The packet with the destination port replaced.
abbrev patched : List ℕ → ℕ → List ℕ
patched p vport = write p (ihl_of p + 2) (to_be16 vport)

inbound_repaired :
    (p : List ℕ) (vport : ℕ)
    → IsTcpPacket p
    → rewrite_inbound p vport ≡ ret (repaired (patched p vport), true)
unfolding rewrite_inbound
inbound_repaired p vport h =
    let a = h.header in
    let b = h.segment in
    let w =
      write-IsTcpPacket p (ihl_of p + 2) (to_be16 vport) (omega arith) (to_be16-IsBytes vport) h in
    rw (le→ltb_false (length p) 20 (omega arith)) (
      rw (at_lt p 0 (omega arith), at_lt p 9 (omega arith))
        (rw (eq→== (byte p 0 / 16) 4 h.version, eq→== (byte p 9) 6 h.protocol)
          (rw (header_length_lt p (omega arith)) (
            rw (le→ltb_false (length p) (ihl_of p + 20) b) (
              rw (copy_at_in p (ihl_of p + 2) (to_be16 vport) (omega arith))
                (repair_step (patched p vport) (λ p3. ret (p3, true)) w))))))

-- What `rewrite_inbound` promises of its result `q`.
pub record Inbound (p : List ℕ) (vport : ℕ) (q : List ℕ) : Type 0 where
  pub same_length : length q ≡ length p
  pub ip_valid : IpSumValid q
  pub tcp_valid : TcpSumValid q
  pub addrs : extract_tcp_addrs q ≡ ret (some (src_of p, record (dst_of p) { port = vport }))
  pub kept :
      (j : ℕ)
      → (j < 10)
        ⊎ ((12 ≤ j) × (j < ihl_of p + 2)
            ⊎ ((ihl_of p + 4 ≤ j) × (j < ihl_of p + 16) ⊎ (ihl_of p + 18 ≤ j)))
      → byte q j ≡ byte p j

module _ (p : List ℕ) (vport : ℕ) (h : IsTcpPacket p) (fits : vport < 65536) where
  p1-IsTcpPacket : IsTcpPacket (patched p vport)
  p1-IsTcpPacket =
      let a = h.header in
      write-IsTcpPacket p (ihl_of p + 2) (to_be16 vport) (omega arith) (to_be16-IsBytes vport) h

  ihl-patched : ihl_of (patched p vport) ≡ ihl_of p
  ihl-patched =
      ap (λ (x : ℕ). x % 16 * 4)
        (byte-write_before p (ihl_of p + 2) (to_be16 vport) 0 (omega arith))

  kept_bytes :
      (j : ℕ)
      → (j < 10)
        ⊎ ((12 ≤ j) × (j < ihl_of p + 2)
            ⊎ ((ihl_of p + 4 ≤ j) × (j < ihl_of p + 16) ⊎ (ihl_of p + 18 ≤ j)))
      → byte (repaired (patched p vport)) j ≡ byte p j
  kept_bytes j out =
      let e = ihl-patched in
      let hd = h.header in
      let r = repaired-Repaired (patched p vport) p1-IsTcpPacket in
      let before = byte-write_before p (ihl_of p + 2) (to_be16 vport) j in
      let after = byte-write_after p (ihl_of p + 2) (to_be16 vport) j in
      elim out [
        | inl lo ↦ r.kept j (inl lo) ∙ before (omega arith)
        | inr (inl (lo, hi)) ↦ r.kept j (inr (inl (lo, omega arith))) ∙ before hi
        | inr (inr (inl (lo, hi))) ↦
            r.kept j (inr (inl (omega arith, omega arith))) ∙ after (omega arith)
        | inr (inr (inr hi)) ↦ r.kept j (inr (inr (omega arith))) ∙ after (omega arith)
      ]

  port_bytes : word (repaired (patched p vport)) (ihl_of p + 2) ≡ vport
  port_bytes =
      let e = ihl-patched in
      let hd = h.header in
      let sg = h.segment in
      let r = repaired-Repaired (patched p vport) p1-IsTcpPacket in
      let k0 = r.kept (ihl_of p + 2) (inr (inl (omega arith, omega arith))) in
      let k1 = r.kept (suc (ihl_of p + 2)) (inr (inl (omega arith, omega arith))) in
      let w0 = byte-write_in p (ihl_of p + 2) (to_be16 vport) 0 (omega arith) (omega arith) in
      let w1 = byte-write_in p (ihl_of p + 2) (to_be16 vport) 1 (omega arith) (omega arith) in
      let i0 : ihl_of p + 2 + 0 ≡ ihl_of p + 2 = omega arith in
      let i1 : ihl_of p + 2 + 1 ≡ suc (ihl_of p + 2) = omega arith in
      let v0 : byte (patched p vport) (ihl_of p + 2) ≡ vport / 256 % 256 =
        ap (byte (patched p vport)) (sym i0) ∙ w0 in
      let v1 : byte (patched p vport) (suc (ihl_of p + 2)) ≡ vport % 256 =
        ap (byte (patched p vport)) (sym i1) ∙ w1 in
      omega arith

  ihl-result : ihl_of (repaired (patched p vport)) ≡ ihl_of p
  ihl-result = ihl-repaired (patched p vport) ∙ ihl-patched

  src-result : src_of (repaired (patched p vport)) ≡ src_of p
  src-result =
      let q = repaired (patched p vport) in
      let hd = h.header in
      addr_same
        (ipv4_of_same p q 12 (kept_bytes 12 (inr (inl (omega arith, omega arith))))
          (kept_bytes 13 (inr (inl (omega arith, omega arith))))
          (kept_bytes 14 (inr (inl (omega arith, omega arith))))
          (kept_bytes 15 (inr (inl (omega arith, omega arith)))))
        (ap (word q) ihl-result
          ∙ word_same p q (ihl_of p) (kept_bytes (ihl_of p) (inr (inl (omega arith, omega arith))))
              (kept_bytes (suc (ihl_of p)) (inr (inl (omega arith, omega arith)))))

  dst-result : dst_of (repaired (patched p vport)) ≡ record (dst_of p) { port = vport }
  dst-result =
      let q = repaired (patched p vport) in
      let hd = h.header in
      addr_same
        (ipv4_of_same p q 16 (kept_bytes 16 (inr (inl (omega arith, omega arith))))
          (kept_bytes 17 (inr (inl (omega arith, omega arith))))
          (kept_bytes 18 (inr (inl (omega arith, omega arith))))
          (kept_bytes 19 (inr (inl (omega arith, omega arith)))))
        (ap (λ i. word q (i + 2)) ihl-result ∙ port_bytes)

-- On every well-formed TCP packet `rewrite_inbound` succeeds; the result has the same length, its
-- IPv4 and TCP checksums verify, its source is unchanged, its destination has the same address and
-- the virtual port, and every byte outside the port and the two checksums is as before.
pub rewrite_inbound-returns :
    (p : List ℕ) (vport : ℕ)
    → IsTcpPacket p
    → vport < 65536
    → (q : List ℕ) × (rewrite_inbound p vport ≡ ret (q, true)) × Inbound p vport q
rewrite_inbound-returns p vport h fits =
    let r = repaired-Repaired (patched p vport) (p1-IsTcpPacket p vport h fits) in
    (
      repaired (patched p vport),
      inbound_repaired p vport h,
      record {
        same_length = r.same_length ∙ length-write p (ihl_of p + 2) (to_be16 vport);
        ip_valid = r.ip_valid;
        tcp_valid = r.tcp_valid;
        addrs =
            extract_tcp_addrs_in (repaired (patched p vport))
              (repaired-IsTcpPacket (patched p vport) (p1-IsTcpPacket p vport h fits))
            ∙ (λ t. ret (some (src-result p vport h fits t, dst-result p vport h fits t)));
        kept = kept_bytes p vport h fits;
      },
    )
