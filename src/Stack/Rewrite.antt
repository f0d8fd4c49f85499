-- ===== src/Stack/Rewrite.antt =====
-- engine/crates/gravital-stack/src/rewrite.rs: the header rewriting between TUN and smoltcp.
-- A `&mut [u8]` argument is a value that is returned; the `debug_assert!` of `fix_ipv4_checksum`
-- is left out, as in a release build. `x as u16` is `x % 65536`.
pub mod Image
pub mod Valid
pub mod Packets
pub mod Inbound
pub mod Outbound
pub mod Guards
pub mod Total
use gravital_share.Common.{
  ℕ, suc, ◌+◌, ◌-◌, ◌*◌, ◌/◌, ◌%◌, ◌^◌, List, [], ◌∷◌, ◌++◌, Option, none, some, Bool, true, false,
  not, ◌||◌, ltb, ◌==◌, if◌then◌else◌, length, bit_and,
}
use gravital_share.Common.Bytes.{at, slice, copy_at, u16_at, to_be16, be16}
use gravital_share.Common.Splice.{clear_pair}
use gravital_share.Common.Outcome.{Outcome, ret, ◌>>=◌}
use gravital_share.Common.Addr.{Ipv4Addr, v4, SocketAddr, ipv4_at}
use gravital_share.Proto.Checksum.{u32_mod, fold_carry, not_u16}

-- The loop over `chunks_exact(2)`, and the odd byte shifted left by 8.
pub sum_chunks : ℕ → List ℕ → ℕ
sum_chunks sum [] = sum
sum_chunks sum (tail ∷ []) = (sum + tail * 256) % u32_mod
sum_chunks sum (hi ∷ lo ∷ rest) = sum_chunks ((sum + be16 hi lo) % u32_mod) rest

unfoldable pub checksum : List ℕ → ℕ
checksum data' = not_u16 (fold_carry 3 (sum_chunks 0 data'))

-- `(pkt[0] & 0x0F) as usize * 4`
unfoldable pub header_length : List ℕ → Outcome ℕ
header_length pkt = do b0 ← at pkt 0; ret (b0 % 16 * 4)

pub fix_ipv4_checksum : List ℕ → Outcome (List ℕ)
fix_ipv4_checksum pkt = do
  cleared ← clear_pair pkt 10
  ihl ← header_length cleared
  hdr ← slice cleared 0 ihl
  copy_at cleared 10 (to_be16 (checksum hdr))

-- The pseudo header: source, destination, zero, protocol 6, the length of the TCP segment.
abbrev pub pseudo_header : List ℕ → List ℕ → ℕ → List ℕ
pseudo_header src dst tcp_len = src ++ (dst ++ (0 ∷ 6 ∷ to_be16 (tcp_len % 65536)))

-- `pkt.len() - ihl` wraps as a usize; where it would, the next line panics.
pub fix_tcp_checksum : List ℕ → Outcome (List ℕ)
fix_tcp_checksum pkt = do
  ihl ← header_length pkt
  let tcp_len = (length pkt + 2 ^ 64 - ihl) % 2 ^ 64
  src ← slice pkt 12 16
  dst ← slice pkt 16 20
  cleared ← clear_pair pkt (ihl + 16)
  tcp_seg ← slice cleared ihl (length cleared)
  let sum = sum_chunks (sum_chunks 0 (pseudo_header src dst tcp_len)) tcp_seg
  copy_at cleared (ihl + 16) (to_be16 (not_u16 (fold_carry 3 sum)))

-- The guards that `rewrite_inbound` and `rewrite_outbound` share, then the write `patch`.
-- The result is the buffer with the returned flag.
pub rewrite_inbound : List ℕ → ℕ → Outcome (List ℕ × Bool)
rewrite_inbound pkt vport = if ltb (length pkt) 20 then ret (pkt, false) else do
  b0 ← at pkt 0
  if not (b0 / 16 == 4) then ret (pkt, false) else do
    proto ← at pkt 9
    if not (proto == 6) then ret (pkt, false) else do
      ihl ← header_length pkt
      if ltb (length pkt) (ihl + 20) then ret (pkt, false) else do
        p1 ← copy_at pkt (ihl + 2) (to_be16 vport)
        p2 ← fix_tcp_checksum p1
        p3 ← fix_ipv4_checksum p2
        ret (p3, true)

-- `ip.octets()`
abbrev pub octets : Ipv4Addr → List ℕ
octets ip = ip.a ∷ ip.b ∷ ip.c ∷ ip.d ∷ []

pub rewrite_outbound : List ℕ → Ipv4Addr → ℕ → Outcome (List ℕ × Bool)
rewrite_outbound pkt real_dst_ip real_dst_port =
    if ltb (length pkt) 20 then ret (pkt, false) else do
      b0 ← at pkt 0
      if not (b0 / 16 == 4) then ret (pkt, false) else do
        proto ← at pkt 9
        if not (proto == 6) then ret (pkt, false) else do
          ihl ← header_length pkt
          if ltb (length pkt) (ihl + 20) then ret (pkt, false) else do
            p0 ← copy_at pkt 12 (octets real_dst_ip)
            p1 ← copy_at p0 ihl (to_be16 real_dst_port)
            p2 ← fix_tcp_checksum p1
            p3 ← fix_ipv4_checksum p2
            ret (p3, true)

unfoldable pub extract_tcp_addrs : List ℕ → Outcome (Option (SocketAddr × SocketAddr))
extract_tcp_addrs pkt = if ltb (length pkt) 20 then ret none else do
  b0 ← at pkt 0
  proto ← at pkt 9
  if not (b0 / 16 == 4) || not (proto == 6) then ret none else do
    ihl ← header_length pkt
    if ltb (length pkt) (ihl + 20) then ret none else do
      src_ip ← ipv4_at pkt 12
      dst_ip ← ipv4_at pkt 16
      src_port ← u16_at pkt ihl
      dst_port ← u16_at pkt (ihl + 2)
      ret (
          some (
            record { ip = v4 src_ip; port = src_port },
            record { ip = v4 dst_ip; port = dst_port },
          ))

pub is_tcp_syn : List ℕ → Outcome Bool
is_tcp_syn pkt = do
  ihl ← header_length pkt
  if ltb (length pkt) (ihl + 14)
      then ret false
      else do flags ← at pkt (ihl + 13); ret (bit_and flags 0x12 == 0x02)
