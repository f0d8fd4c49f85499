-- ===== src/Engine/Reply.antt =====
-- engine/crates/gravital-engine/src/runner.rs: the readers of an IPv4/UDP packet, and the reply to
-- an intercepted DNS query. `x as u16` is `x % 65536`.
pub mod Image
pub mod Built
use gravital_share.Common.{
  ℕ, suc, ◌+◌, ◌-◌, ◌*◌, ◌/◌, ◌%◌, ◌^◌, List, [], ◌∷◌, Option, none, some, not, ◌||◌, ltb, ◌==◌,
  if◌then◌else◌, length, replicate,
}
use gravital_share.Common.Bytes.{at, slice, copy_at, u16_at, to_be16}
use gravital_share.Common.Splice.{clear_pair}
use gravital_share.Common.Outcome.{Outcome, ret, ◌>>=◌}
use gravital_share.Proto.Checksum.{fold_carry, not_u16}
use gravital_share.Stack.Rewrite.{sum_chunks, header_length}

unfoldable pub udp_dst_port : List ℕ → Outcome (Option ℕ)
udp_dst_port p = if ltb (length p) 20 then ret none else do
  b0 ← at p 0
  proto ← at p 9
  if not (b0 / 16 == 4) || not (proto == 17) then ret none else do
    ihl ← header_length p
    if ltb (length p) (ihl + 8) then ret none else do port ← u16_at p (ihl + 2); ret (some port)

unfoldable pub extract_udp_payload : List ℕ → Outcome (Option (List ℕ))
extract_udp_payload p = if ltb (length p) 20 then ret none else do
  b0 ← at p 0
  proto ← at p 9
  if not (b0 / 16 == 4) || not (proto == 17) then ret none else do
    ihl ← header_length p
    if ltb (length p) (ihl + 8) then ret none else do
      udp_len ← u16_at p (ihl + 4)
      if ltb udp_len 8 || ltb (length p) (ihl + udp_len)
          then ret none
          else do payload ← slice p (ihl + 8) (ihl + udp_len); ret (some payload)

pub rfc1071 : List ℕ → ℕ
rfc1071 data' = not_u16 (fold_carry 3 (sum_chunks 0 data'))

pub fix_ip4_checksum : List ℕ → Outcome (List ℕ)
fix_ip4_checksum pkt = do
  cleared ← clear_pair pkt 10
  hdr ← slice cleared 0 20
  copy_at cleared 10 (to_be16 (rfc1071 hdr))

-- The sum over the addresses, the protocol, the length and the segment.
pub fix_udp_checksum : List ℕ → Outcome (List ℕ)
fix_udp_checksum pkt = do
  ihl ← header_length pkt
  let udp_len = (length pkt + 2 ^ 64 - ihl) % 2 ^ 64
  cleared ← clear_pair pkt (ihl + 6)
  src ← slice cleared 12 16
  dst ← slice cleared 16 20
  let pseudo = (sum_chunks (sum_chunks 0 src) dst + 17 + udp_len % 2 ^ 32) % 2 ^ 32
  seg ← slice cleared ihl (length cleared)
  copy_at cleared (ihl + 6) (to_be16 (not_u16 (fold_carry 3 (sum_chunks pseudo seg))))

-- The writes into the zeroed buffer, with the four slices of the request.
pub fill_reply : List ℕ → List ℕ → List ℕ → List ℕ → List ℕ → Outcome (List ℕ)
fill_reply src_ip dst_ip src_port dst_port dns_resp = do
  let udp_len = (8 + length dns_resp) % 65536
  let total = 20 + udp_len
  o1 ← copy_at (replicate total 0) 0 (0x45 ∷ [])
  o2 ← copy_at o1 2 (to_be16 (total % 65536))
  o3 ← copy_at o2 8 (64 ∷ [])
  o4 ← copy_at o3 9 (17 ∷ [])
  o5 ← copy_at o4 12 dst_ip
  o6 ← copy_at o5 16 src_ip
  o7 ← copy_at o6 20 dst_port
  o8 ← copy_at o7 22 src_port
  o9 ← copy_at o8 24 (to_be16 udp_len)
  copy_at o9 28 dns_resp

pub build_udp_reply : List ℕ → List ℕ → Outcome (Option (List ℕ))
build_udp_reply p dns_resp = if ltb (length p) 28 then ret none else do
  b0 ← at p 0
  proto ← at p 9
  if not (b0 / 16 == 4) || not (proto == 17) then ret none else do
    ihl ← header_length p
    src_ip ← slice p 12 16
    dst_ip ← slice p 16 20
    src_port ← slice p ihl (ihl + 2)
    dst_port ← slice p (ihl + 2) (ihl + 4)
    out ← fill_reply src_ip dst_ip src_port dst_port dns_resp
    fixed ← fix_ip4_checksum out
    reply ← fix_udp_checksum fixed
    ret (some reply)
