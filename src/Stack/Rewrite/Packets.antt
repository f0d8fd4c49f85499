-- ===== src/Stack/Rewrite/Packets.antt =====
-- Whole rewrites of a well-formed TCP packet.
use gravital_share.Common.{
  ℕ, suc, ◌+◌, ◌*◌, ◌/◌, ◌%◌, ◌≤◌, ◌<◌, ◌≡◌, ◌⊎◌, inl, inr, ap, ◌∙◌, arith, List, length, some,
  eq→==, le→ltb_false,
}
use gravital_share.Common.Bytes.{
  byte, word, be16, write, length-write, byte-write_before, IsBytes, write-IsBytes, at_lt,
  u16_at_lt,
}
use gravital_share.Common.Addr.{Ipv4Addr, SocketAddr, v4, ipv4_of, ipv4_at_lt}
use gravital_share.Common.Outcome.{Outcome, ret, ◌>>=◌}
use gravital_share.Stack.Rewrite.{extract_tcp_addrs, fix_tcp_checksum, fix_ipv4_checksum}
use gravital_share.Stack.Rewrite.Image.{
  ihl_of, ip_fixed, tcp_fixed, IsLong, header_length_lt, fix_tcp_checksum_in, fix_ipv4_checksum_in,
}
use gravital_share.Stack.Rewrite.Valid.{
  IpSumValid, TcpSumValid, length-ip_fixed, length-tcp_fixed, byte-ip_fixed, byte-tcp_fixed,
  tcp_fixed-IsBytes, ihl-tcp_fixed, ip_fixed-IpSumValid, tcp_fixed-TcpSumValid,
  ip_fixed-TcpSumValid, ihl-ip_fixed, ip_fixed-IsBytes,
}

-- An IPv4 packet with a whole header that carries a whole TCP header.
pub record IsTcpPacket (p : List ℕ) : Type 0 where
  pub bytes : IsBytes p
  pub version : byte p 0 / 16 ≡ 4
  pub protocol : byte p 9 ≡ 6
  pub header : 20 ≤ ihl_of p
  pub segment : ihl_of p + 20 ≤ length p
  pub small : length p ≤ 65535

-- The addresses that `extract_tcp_addrs` reads from such a packet.
abbrev pub src_of : List ℕ → SocketAddr
src_of p = record { ip = v4 (ipv4_of p 12); port = word p (ihl_of p) }

abbrev pub dst_of : List ℕ → SocketAddr
dst_of p = record { ip = v4 (ipv4_of p 16); port = word p (ihl_of p + 2) }

pub extract_tcp_addrs_in :
    (p : List ℕ) → IsTcpPacket p → extract_tcp_addrs p ≡ ret (some (src_of p, dst_of p))
unfolding extract_tcp_addrs
extract_tcp_addrs_in p h =
    let a = h.header in
    let b = h.segment in
    rw (le→ltb_false (length p) 20 (omega arith)) (
      rw (at_lt p 0 (omega arith), at_lt p 9 (omega arith))
        (rw (eq→== (byte p 0 / 16) 4 h.version, eq→== (byte p 9) 6 h.protocol)
          (rw (header_length_lt p (omega arith)) (
            rw (le→ltb_false (length p) (ihl_of p + 20) b) (
              rw (
                ipv4_at_lt p 12 (omega arith),
                ipv4_at_lt p 16 (omega arith),
                u16_at_lt p (ihl_of p) (omega arith),
                u16_at_lt p (ihl_of p + 2) (omega arith),
              ))))))

-- Both repairs, in the order of the source.
abbrev pub repaired : List ℕ → List ℕ
repaired p = ip_fixed (tcp_fixed p)

-- What both repairs give, for a packet whose header fields are as they should be.
pub record Repaired (p q : List ℕ) : Type 0 where
  pub same_length : length q ≡ length p
  pub ip_valid : IpSumValid q
  pub tcp_valid : TcpSumValid q
  pub kept :
      (j : ℕ)
      → (j < 10) ⊎ ((12 ≤ j) × (j < ihl_of p + 16) ⊎ (ihl_of p + 18 ≤ j))
      → byte q j ≡ byte p j

pub repaired-Repaired : (p : List ℕ) → IsTcpPacket p → Repaired p (repaired p)
repaired-Repaired p h =
    let a = h.header in
    let b = h.segment in
    let c = h.small in
    let q = tcp_fixed p in
    let lq = length-tcp_fixed p in
    let iq = ihl-tcp_fixed p in
    let long : IsLong p = record { tcp = b; ports = c } in
    record {
      same_length = length-ip_fixed q ∙ lq;
      ip_valid =
          ip_fixed-IpSumValid q (tcp_fixed-IsBytes p h.bytes) (omega arith) (omega arith)
            (omega arith);
      tcp_valid =
          ip_fixed-TcpSumValid q (omega arith) (tcp_fixed-TcpSumValid p h.bytes long (omega arith));
      kept = λ j out. elim out [
        | inl lo ↦ byte-ip_fixed q j (inl lo) ∙ byte-tcp_fixed p j (inl (omega arith))
        | inr (inl (lo, hi)) ↦ byte-ip_fixed q j (inr lo) ∙ byte-tcp_fixed p j (inl hi)
        | inr (inr hi) ↦ byte-ip_fixed q j (inr (omega arith)) ∙ byte-tcp_fixed p j (inr hi)
      ];
    }

pub ihl-repaired : (p : List ℕ) → ihl_of (repaired p) ≡ ihl_of p
ihl-repaired p = ihl-ip_fixed (tcp_fixed p) ∙ ihl-tcp_fixed p

pub repaired-IsTcpPacket : (p : List ℕ) → IsTcpPacket p → IsTcpPacket (repaired p)
repaired-IsTcpPacket p h =
    let r = repaired-Repaired p h in
    let a = h.header in
    let b = h.segment in
    let c = h.small in
    let n = r.same_length in
    let i = ihl-repaired p in
    let b0 = r.kept 0 (inl (omega arith)) in
    let b9 = r.kept 9 (inl (omega arith)) in
    record {
      bytes = ip_fixed-IsBytes (tcp_fixed p) (tcp_fixed-IsBytes p h.bytes);
      version = ap (λ (x : ℕ). x / 16) b0 ∙ h.version;
      protocol = b9 ∙ h.protocol;
      header = omega arith;
      segment = omega arith;
      small = omega arith;
    }

-- A write behind the first ten bytes leaves the packet well formed.
pub write-IsTcpPacket :
    (p : List ℕ) (i : ℕ) (bs : List ℕ)
    → 10 ≤ i
    → IsBytes bs
    → IsTcpPacket p
    → IsTcpPacket (write p i bs)
write-IsTcpPacket p i bs lo hb h =
    let a = h.header in
    let b = h.segment in
    let c = h.small in
    let n = length-write p i bs in
    let b0 = byte-write_before p i bs 0 (omega arith) in
    let b9 = byte-write_before p i bs 9 (omega arith) in
    let e : ihl_of (write p i bs) ≡ ihl_of p = ap (λ (x : ℕ). x % 16 * 4) b0 in
    record {
      bytes = write-IsBytes p i bs hb h.bytes;
      version = ap (λ (x : ℕ). x / 16) b0 ∙ h.version;
      protocol = b9 ∙ h.protocol;
      header = omega arith;
      segment = omega arith;
      small = omega arith;
    }

-- The repairs succeed, whatever follows them.
pub repair_step :
    (p : List ℕ) {B : Type 0} (k : List ℕ → Outcome B)
    → IsTcpPacket p
    → (fix_tcp_checksum p >>= λ p2. fix_ipv4_checksum p2 >>= k) ≡ k (repaired p)
repair_step p k h =
    let a = h.header in
    let b = h.segment in
    let c = h.small in
    let lq = length-tcp_fixed p in
    let iq = ihl-tcp_fixed p in
    rw (fix_tcp_checksum_in p (record { tcp = b; ports = c }))
      (rw (fix_ipv4_checksum_in (tcp_fixed p) (omega arith) (omega arith)))

-- Four equal octets are an equal address, two an equal port.
pub ipv4_of_same :
    (p q : List ℕ) (i : ℕ)
    → byte q i ≡ byte p i
    → byte q (i + 1) ≡ byte p (i + 1)
    → byte q (i + 2) ≡ byte p (i + 2)
    → byte q (i + 3) ≡ byte p (i + 3)
    → ipv4_of q i ≡ ipv4_of p i
ipv4_of_same p q i a b c d = λ t. record { a = a t; b = b t; c = c t; d = d t }

pub word_same :
    (p q : List ℕ) (i : ℕ)
    → byte q i ≡ byte p i
    → byte q (suc i) ≡ byte p (suc i)
    → word q i ≡ word p i
word_same p q i a b = λ t. be16 (a t) (b t)

pub addr_same :
    {x y : Ipv4Addr} {m n : ℕ}
    → x ≡ y
    → m ≡ n
    → ◌≡◌ {A = SocketAddr} (record { ip = v4 x; port = m }) (record { ip = v4 y; port = n })
addr_same a b = λ t. record { ip = v4 (a t); port = b t }
