-- ===== src/Stack/Rewrite/Image.antt =====
-- The two checksum repairs as total functions on a packet that is long enough.
use gravital_share.Common.{
  ℕ, ◌+◌, ◌-◌, ◌*◌, ◌%◌, ◌^◌, ◌≤◌, ◌<◌, ◌≡◌, refl, arith, List, [], ◌∷◌, length, take, drop,
}
use gravital_share.Common.Bytes.{
  byte, at_lt, slice_in, slice_prefix, slice_suffix, copy_at_in, to_be16, write, length-write,
  byte-write_before, be16,
}
use gravital_share.Common.Splice.{clear_pair_in, window}
use gravital_share.Common.Outcome.{ret}
use gravital_share.Proto.Checksum.{u32_mod, fold_carry, not_u16, add_words}
use gravital_share.Stack.Rewrite.{
  sum_chunks, checksum, header_length, fix_ipv4_checksum, fix_tcp_checksum, pseudo_header,
}

abbrev pub ihl_of : List ℕ → ℕ
ihl_of p = byte p 0 % 16 * 4

pub sum_chunks-add_words : (sum : ℕ) (p : List ℕ) → sum_chunks sum p ≡ add_words sum p
unfolding sum_chunks add_words
sum_chunks-add_words sum [] = refl
sum_chunks-add_words sum (t ∷ []) = omega arith
sum_chunks-add_words sum (hi ∷ lo ∷ rest) = sum_chunks-add_words ((sum + be16 hi lo) % u32_mod) rest

pub header_length_lt : (p : List ℕ) → 0 < length p → header_length p ≡ ret (ihl_of p)
unfolding header_length
header_length_lt p h = rw (at_lt p 0 h)

-- The packet with bytes 10 and 11 cleared, and with the header checksum stored.
abbrev pub ip_cleared : List ℕ → List ℕ
ip_cleared p = write p 10 (0 ∷ 0 ∷ [])

unfoldable pub ip_fixed : List ℕ → List ℕ
ip_fixed p = write (ip_cleared p) 10 (to_be16 (checksum (take (ihl_of p) (ip_cleared p))))

pub fix_ipv4_checksum_in :
    (p : List ℕ) → 12 ≤ length p → ihl_of p ≤ length p → fix_ipv4_checksum p ≡ ret (ip_fixed p)
unfolding fix_ipv4_checksum ip_fixed
fix_ipv4_checksum_in p h k =
    let q = ip_cleared p in
    let n = length-write p 10 (0 ∷ 0 ∷ []) in
    let b = byte-write_before p 10 (0 ∷ 0 ∷ []) 0 (omega arith) in
    rw (clear_pair_in p 10 (omega arith)) (
      rw (header_length_lt q (omega arith))
        (rw (slice_prefix q (ihl_of q) (omega arith)) (rw b (copy_at_in q 10 _ (omega arith)))))

-- A packet of at least a header and the twenty bytes of a TCP header behind it.
pub record IsLong (p : List ℕ) : Type 0 where
  pub tcp : ihl_of p + 20 ≤ length p
  pub ports : length p ≤ 65535

-- The words of the pseudo header, from the bytes of the packet.
abbrev pub pseudo_of : List ℕ → List ℕ
pseudo_of p = pseudo_header (window 12 4 p) (window 16 4 p) (length p - ihl_of p)

abbrev pub tcp_cleared : List ℕ → List ℕ
tcp_cleared p = write p (ihl_of p + 16) (0 ∷ 0 ∷ [])

abbrev pub tcp_sum : List ℕ → ℕ
tcp_sum p = sum_chunks (sum_chunks 0 (pseudo_of p)) (drop (ihl_of p) (tcp_cleared p))

unfoldable pub tcp_fixed : List ℕ → List ℕ
tcp_fixed p = write (tcp_cleared p) (ihl_of p + 16) (to_be16 (not_u16 (fold_carry 3 (tcp_sum p))))

usize_sub : (a b : ℕ) → b ≤ a → a ≤ 65535 → (a + 2 ^ 64 - b) % 2 ^ 64 ≡ a - b
usize_sub a b h k = omega arith

pub fix_tcp_checksum_in : (p : List ℕ) → IsLong p → fix_tcp_checksum p ≡ ret (tcp_fixed p)
unfolding fix_tcp_checksum tcp_fixed
fix_tcp_checksum_in p h =
    let n = h.tcp in
    let m = h.ports in
    let q = tcp_cleared p in
    let lq = length-write p (ihl_of p + 16) (0 ∷ 0 ∷ []) in
    rw (header_length_lt p (omega arith)) (
      rw (usize_sub (length p) (ihl_of p) (omega arith) m) (
        rw
          (
            slice_in p 12 16 (omega arith) (omega arith),
            slice_in p 16 20 (omega arith) (omega arith),
            clear_pair_in p (ihl_of p + 16) (omega arith),
          )
          (rw (slice_suffix q (ihl_of p) (omega arith))
            (copy_at_in q (ihl_of p + 16) _ (omega arith)))))
