-- ===== src/Stack/Rewrite/Total.antt =====
-- The packet functions return on buffers that a check of a header has not seen.
use gravital_share.Common.{
  ℕ, ◌+◌, ◌*◌, ◌/◌, ◌%◌, ◌≤◌, ◌<◌, ◌≡◌, refl, ap, ◌∙◌, arith, List, [], ◌∷◌, length, Bool, true,
  false, not, ◌==◌, ltb, if◌then◌else◌,
}
use gravital_share.Common.Bytes.{
  byte, at, at_lt, slice_in, slice_prefix, slice_suffix, copy_at, copy_at_in, to_be16, write,
  length-write, byte-write_before,
}
use gravital_share.Common.Splice.{clear_pair_in}
use gravital_share.Common.Addr.{Ipv4Addr}
use gravital_share.Common.Outcome.{Outcome, ret, ◌>>=◌, Returns, >>=-Returns, guard-Returns}
use gravital_share.Stack.Rewrite.{
  header_length, fix_ipv4_checksum, fix_tcp_checksum, rewrite_inbound, rewrite_outbound, octets,
}
use gravital_share.Stack.Rewrite.Image.{ihl_of, header_length_lt, ip_cleared, tcp_cleared}

-- The same length and the same first byte, which has the header's length.
abbrev pub Mended : List ℕ → List ℕ → Type 0
Mended p q = (length q ≡ length p) × (byte q 0 ≡ byte p 0)

-- The buffer beside the flag.
abbrev pub MendedTo : List ℕ → List ℕ × Bool → Type 0
MendedTo p r = Mended p r.0

write-Mended : (p q : List ℕ) (i : ℕ) (bs : List ℕ) → 0 < i → Mended p q → Mended p (write q i bs)
write-Mended p q i bs pos (n, b) = (length-write q i bs ∙ n, byte-write_before q i bs 0 pos ∙ b)

copy_at-Mended :
    (p q : List ℕ) (i : ℕ) (bs : List ℕ)
    → 0 < i
    → i + length bs ≤ length q
    → Mended p q
    → Returns (Mended p) (copy_at q i bs)
copy_at-Mended p q i bs pos fit m =
    (write q i bs, copy_at_in q i bs fit, write-Mended p q i bs pos m)

fix_tcp_checksum-Mended :
    (p : List ℕ)
    → 20 ≤ length p
    → ihl_of p + 18 ≤ length p
    → Returns (Mended p) (fix_tcp_checksum p)
unfolding fix_tcp_checksum
fix_tcp_checksum-Mended p h k =
    let q = tcp_cleared p in
    let lq = length-write p (ihl_of p + 16) (0 ∷ 0 ∷ []) in
    rw (header_length_lt p (omega arith)) (
      rw
        (
          slice_in p 12 16 (omega arith) (omega arith),
          slice_in p 16 20 (omega arith) (omega arith),
          clear_pair_in p (ihl_of p + 16) (omega arith),
        )
        (rw (slice_suffix q (ihl_of p) (omega arith)) (
          copy_at-Mended p q (ihl_of p + 16) _ (omega arith) (omega arith)
            (write-Mended p p (ihl_of p + 16) (0 ∷ 0 ∷ []) (omega arith) (refl, refl)))))

fix_ipv4_checksum-Mended :
    (p : List ℕ) → 12 ≤ length p → ihl_of p ≤ length p → Returns (Mended p) (fix_ipv4_checksum p)
unfolding fix_ipv4_checksum
fix_ipv4_checksum-Mended p h k =
    let q = ip_cleared p in
    let n = length-write p 10 (0 ∷ 0 ∷ []) in
    let b = byte-write_before p 10 (0 ∷ 0 ∷ []) 0 (omega arith) in
    rw (clear_pair_in p 10 (omega arith)) (
      rw (header_length_lt q (omega arith)) (
        rw (slice_prefix q (ihl_of q) (omega arith))
          (copy_at-Mended p q 10 _ (omega arith) (omega arith) (n, b))))

-- Both repairs, behind the write of a rewrite.
repair-Mended :
    (p q : List ℕ)
    → 20 ≤ length p
    → ihl_of p + 20 ≤ length p
    → Mended p q
    → Returns (MendedTo p) (do p2 ← fix_tcp_checksum q; p3 ← fix_ipv4_checksum p2; ret (p3, true))
repair-Mended p q h k (n, b) =
    let same = ap (λ (x : ℕ). x % 16 * 4) b in
    >>=-Returns (fix_tcp_checksum q) _ (fix_tcp_checksum-Mended q (omega arith) (omega arith))
      λ p2 (n2, b2).
        let same2 = ap (λ (x : ℕ). x % 16 * 4) b2 in
        >>=-Returns (fix_ipv4_checksum p2) _
          (fix_ipv4_checksum-Mended p2 (omega arith) (omega arith))
          λ p3 (n3, b3). ((p3, true), refl, (n3 ∙ n2 ∙ n, b3 ∙ b2 ∙ b))

-- The guards that both rewrites begin with, before the writes of `body`.
guards-Mended :
    (p : List ℕ) (body : ℕ → Outcome (List ℕ × Bool))
    → (20 ≤ length p → ihl_of p + 20 ≤ length p → Returns (MendedTo p) (body (ihl_of p)))
    → Returns (MendedTo p) (
        if ltb (length p) 20 then ret (p, false) else do
          b0 ← at p 0
          if not (b0 / 16 == 4) then ret (p, false) else do
            proto ← at p 9
            if not (proto == 6) then ret (p, false) else do
              ihl ← header_length p
              if ltb (length p) (ihl + 20) then ret (p, false) else body ihl)
guards-Mended p body k =
    guard-Returns (ltb (length p) 20) (p, false) _ (refl, refl)
      λ short.
        let h : 20 ≤ length p = ground (arith, short) in
        rw (at_lt p 0 (omega arith)) (
          guard-Returns (not (byte p 0 / 16 == 4)) (p, false) _ (refl, refl)
            λ _. rw (at_lt p 9 (omega arith)) (
              guard-Returns (not (byte p 9 == 6)) (p, false) _ (refl, refl)
                λ _. rw (header_length_lt p (omega arith)) (
                  guard-Returns (ltb (length p) (ihl_of p + 20)) (p, false) _ (refl, refl)
                    λ cut. k h (ground (arith, cut)))))

-- `rewrite_inbound` returns on every buffer, and keeps its length and its first byte.
pub rewrite_inbound-Mended :
    (p : List ℕ) (vport : ℕ) → Returns (MendedTo p) (rewrite_inbound p vport)
unfolding rewrite_inbound
rewrite_inbound-Mended p vport = guards-Mended p _ λ h k.
    let q = write p (ihl_of p + 2) (to_be16 vport) in
    rw (copy_at_in p (ihl_of p + 2) (to_be16 vport) (omega arith)) (
      repair-Mended p q h k
        (write-Mended p p (ihl_of p + 2) (to_be16 vport) (omega arith) (refl, refl)))

-- `rewrite_outbound` returns on every buffer but one whose header says that it is empty.
pub rewrite_outbound-Mended :
    (p : List ℕ) (ip : Ipv4Addr) (port : ℕ)
    → 0 < ihl_of p
    → Returns (MendedTo p) (rewrite_outbound p ip port)
unfolding rewrite_outbound
rewrite_outbound-Mended p ip port pos = guards-Mended p _ λ h k.
    let q = write p 12 (octets ip) in
    let n = length-write p 12 (octets ip) in
    rw (copy_at_in p 12 (octets ip) (omega arith)) (
      rw (copy_at_in q (ihl_of p) (to_be16 port) (omega arith)) (
        repair-Mended p (write q (ihl_of p) (to_be16 port)) h k (
          write-Mended p q (ihl_of p) (to_be16 port) pos
            (write-Mended p p 12 (octets ip) (omega arith) (refl, refl)))))
