-- ===== src/Stack/Rewrite/Valid.antt =====
-- The checksums of a repaired packet, and the bytes that the repairs leave alone.
use gravital_share.Common.{
  ℕ, ◌+◌, ◌-◌, ◌*◌, ◌%◌, ◌≤◌, ◌<◌, ◌≡◌, ◌⊎◌, inl, inr, ap, ◌∙◌, arith, List, [], ◌∷◌, ◌++◌, length,
  take, drop, All-append, All-take, All-drop, length-append, length-take, length-drop,
}
use gravital_share.Common.Bytes.{
  byte, to_be16, to_be16-IsBytes, write, length-write, byte-write_before, byte-write_after, IsByte,
  IsBytes, write-IsBytes,
}
use gravital_share.Common.Splice.{
  take-write_in, drop-write_in, window, window-write_before, window-write_after, drop-write_before,
}
use gravital_share.Proto.Checksum.{fold_carry, not_u16, internet_checksum}
use gravital_share.Proto.Checksum.Words.{add_words-words, words-le}
use gravital_share.Proto.Checksum.Verify.{stored_sum_folds, internet_checksum-stored}
use gravital_share.Stack.Rewrite.{sum_chunks, checksum}
use gravital_share.Stack.Rewrite.Image.{
  ihl_of, ip_cleared, ip_fixed, pseudo_of, tcp_cleared, tcp_sum, tcp_fixed, sum_chunks-add_words,
  IsLong,
}

-- The IPv4 header sums to zero, as `Ipv4View::verify_checksum` asks.
abbrev pub IpSumValid : List ℕ → Type 0
IpSumValid p = internet_checksum (take (ihl_of p) p) ≡ 0

-- The TCP segment with its pseudo header folds to all ones (RFC 793).
abbrev pub TcpSumValid : List ℕ → Type 0
TcpSumValid p = fold_carry 3 (sum_chunks (sum_chunks 0 (pseudo_of p)) (drop (ihl_of p) p)) ≡ 65535

checksum-internet_checksum : (p : List ℕ) → checksum p ≡ internet_checksum p
unfolding checksum internet_checksum
checksum-internet_checksum p = rw (sum_chunks-add_words 0 p)

pub length-ip_fixed : (p : List ℕ) → length (ip_fixed p) ≡ length p
unfolding ip_fixed
length-ip_fixed p = length-write (ip_cleared p) 10 _ ∙ length-write p 10 (0 ∷ 0 ∷ [])

pub length-tcp_fixed : (p : List ℕ) → length (tcp_fixed p) ≡ length p
unfolding tcp_fixed
length-tcp_fixed p =
    length-write (tcp_cleared p) (ihl_of p + 16) _ ∙ length-write p (ihl_of p + 16) (0 ∷ 0 ∷ [])

pub byte-ip_fixed : (p : List ℕ) (j : ℕ) → (j < 10) ⊎ (12 ≤ j) → byte (ip_fixed p) j ≡ byte p j
unfolding ip_fixed
byte-ip_fixed p j (inl h) =
    byte-write_before (ip_cleared p) 10 _ j h ∙ byte-write_before p 10 (0 ∷ 0 ∷ []) j h
byte-ip_fixed p j (inr h) =
    byte-write_after (ip_cleared p) 10 _ j h ∙ byte-write_after p 10 (0 ∷ 0 ∷ []) j h

pub byte-tcp_fixed :
    (p : List ℕ) (j : ℕ)
    → (j < ihl_of p + 16) ⊎ (ihl_of p + 18 ≤ j)
    → byte (tcp_fixed p) j ≡ byte p j
unfolding tcp_fixed
byte-tcp_fixed p j (inl h) =
    byte-write_before (tcp_cleared p) (ihl_of p + 16) _ j h
    ∙ byte-write_before p (ihl_of p + 16) (0 ∷ 0 ∷ []) j h
byte-tcp_fixed p j (inr h) =
    byte-write_after (tcp_cleared p) (ihl_of p + 16) _ j (omega arith)
    ∙ byte-write_after p (ihl_of p + 16) (0 ∷ 0 ∷ []) j (omega arith)

pub ip_fixed-IsBytes : (p : List ℕ) → IsBytes p → IsBytes (ip_fixed p)
unfolding ip_fixed
ip_fixed-IsBytes p h =
    write-IsBytes (ip_cleared p) 10 _ (to_be16-IsBytes _)
      (write-IsBytes p 10 (0 ∷ 0 ∷ []) (omega arith) h)

pub tcp_fixed-IsBytes : (p : List ℕ) → IsBytes p → IsBytes (tcp_fixed p)
unfolding tcp_fixed
tcp_fixed-IsBytes p h =
    write-IsBytes (tcp_cleared p) (ihl_of p + 16) _ (to_be16-IsBytes _)
      (write-IsBytes p (ihl_of p + 16) (0 ∷ 0 ∷ []) (omega arith) h)

pub ihl-ip_fixed : (p : List ℕ) → ihl_of (ip_fixed p) ≡ ihl_of p
ihl-ip_fixed p = ap (λ (b : ℕ). b % 16 * 4) (byte-ip_fixed p 0 (inl (omega arith)))

pub ihl-tcp_fixed : (p : List ℕ) → ihl_of (tcp_fixed p) ≡ ihl_of p
ihl-tcp_fixed p = ap (λ (b : ℕ). b % 16 * 4) (byte-tcp_fixed p 0 (inl (omega arith)))

-- After `fix_ipv4_checksum` the header verifies.
pub ip_fixed-IpSumValid :
    (p : List ℕ)
    → IsBytes p
    → length p ≤ 65535
    → 12 ≤ ihl_of p
    → ihl_of p ≤ length p
    → IpSumValid (ip_fixed p)
unfolding ip_fixed
ip_fixed-IpSumValid p hb hl lo hi =
    let n = ihl_of p in
    let c = to_be16 (checksum (take n (ip_cleared p))) in
    let outer = take-write_in (ip_cleared p) 10 c n lo in
    let inner = take-write_in p 10 (0 ∷ 0 ∷ []) n lo in
    let r =
      internet_checksum-stored 5 (take n p) (All-take IsByte n p hb)
        (omega (arith, length-take n p)) (omega (arith, length-take n p)) in
    rw (ihl-ip_fixed p)
      (rw outer (rw (checksum-internet_checksum (take n (ip_cleared p))) (rw inner r)))

pseudo-IsBytes : (p : List ℕ) → IsBytes p → IsBytes (pseudo_of p)
pseudo-IsBytes p h =
    All-append IsByte (window 12 4 p) _ (All-take IsByte 4 _ (All-drop IsByte 12 p h)) (
      All-append IsByte (window 16 4 p) _ (All-take IsByte 4 _ (All-drop IsByte 16 p h))
        (omega arith))

length-pseudo : (p : List ℕ) → length (pseudo_of p) ≤ 12
length-pseudo p =
    rw
      (
        length-append (window 12 4 p)
            (window 16 4 p ++ (0 ∷ 6 ∷ to_be16 ((length p - ihl_of p) % 65536))),
        length-append (window 16 4 p) (0 ∷ 6 ∷ to_be16 ((length p - ihl_of p) % 65536)),
      )
      (omega (arith, length-take 4 (drop 12 p), length-take 4 (drop 16 p)))

pseudo_sum-le : (p : List ℕ) → IsBytes p → sum_chunks 0 (pseudo_of p) ≤ 1000000
pseudo_sum-le p h =
    let w = words-le (pseudo_of p) (pseudo-IsBytes p h) in
    let l = length-pseudo p in
    let e = add_words-words 0 (pseudo_of p) (omega arith) in
    rw (sum_chunks-add_words 0 (pseudo_of p)) (omega arith)

pseudo_same :
    (p q : List ℕ)
    → window 12 4 q ≡ window 12 4 p
    → window 16 4 q ≡ window 16 4 p
    → length q ≡ length p
    → ihl_of q ≡ ihl_of p
    → pseudo_of q ≡ pseudo_of p
pseudo_same p q a b c d = cc

pseudo-tcp_fixed : (p : List ℕ) → 4 ≤ ihl_of p → pseudo_of (tcp_fixed p) ≡ pseudo_of p
unfolding tcp_fixed
pseudo-tcp_fixed p h =
    pseudo_same p (tcp_fixed p)
      (window-write_after (tcp_cleared p) (ihl_of p + 16) _ 12 4 (omega arith)
        ∙ window-write_after p (ihl_of p + 16) (0 ∷ 0 ∷ []) 12 4 (omega arith))
      (window-write_after (tcp_cleared p) (ihl_of p + 16) _ 16 4 (omega arith)
        ∙ window-write_after p (ihl_of p + 16) (0 ∷ 0 ∷ []) 16 4 (omega arith))
      (length-tcp_fixed p) (ihl-tcp_fixed p)

pseudo-ip_fixed : (p : List ℕ) → pseudo_of (ip_fixed p) ≡ pseudo_of p
unfolding ip_fixed
pseudo-ip_fixed p =
    pseudo_same p (ip_fixed p)
      (window-write_before (ip_cleared p) 10 _ 12 4 (omega arith)
        ∙ window-write_before p 10 (0 ∷ 0 ∷ []) 12 4 (omega arith))
      (window-write_before (ip_cleared p) 10 _ 16 4 (omega arith)
        ∙ window-write_before p 10 (0 ∷ 0 ∷ []) 16 4 (omega arith))
      (length-ip_fixed p) (ihl-ip_fixed p)

-- A write at `n + 16` seen from `n`.
drop-write_at :
    (p : List ℕ) (n : ℕ) (bs : List ℕ) → drop n (write p (n + 16) bs) ≡ write (drop n p) 16 bs
drop-write_at p n bs =
    let e : n + 16 - n ≡ 16 = omega arith in
    drop-write_in p (n + 16) bs n (omega arith) ∙ ap (λ i. write (drop n p) i bs) e

fold_same :
    (a b c d : List ℕ)
    → a ≡ b
    → c ≡ d
    → fold_carry 3 (sum_chunks (sum_chunks 0 a) c) ≡ fold_carry 3 (sum_chunks (sum_chunks 0 b) d)
fold_same a b c d p q = cc

stored_chunks_fold :
    (seed : ℕ) (seg : List ℕ)
    → IsBytes seg
    → length seg ≤ 65535
    → seed ≤ 1000000
    → 18 ≤ length seg
    → fold_carry 3 (
        sum_chunks seed (
          write
            (write seg 16 (0 ∷ 0 ∷ []))
            16
            (to_be16 (not_u16 (fold_carry 3 (sum_chunks seed (write seg 16 (0 ∷ 0 ∷ []))))))))
      ≡ 65535
stored_chunks_fold seed seg hb hl hs hk =
    simp sum_chunks-add_words (stored_sum_folds seed 8 seg hb hl hs hk)

-- The segment of the repaired packet is the repaired segment.
drop-tcp_fixed :
    (p : List ℕ)
    → drop (ihl_of (tcp_fixed p)) (tcp_fixed p)
      ≡ write (write (drop (ihl_of p) p) 16 (0 ∷ 0 ∷ [])) 16 (
          to_be16 (
            not_u16 (
              fold_carry 3 (
                sum_chunks
                  (sum_chunks 0 (pseudo_of p))
                  (write (drop (ihl_of p) p) 16 (0 ∷ 0 ∷ []))))))
unfolding tcp_fixed
drop-tcp_fixed p =
    let n = ihl_of p in
    let inner = drop-write_at p n (0 ∷ 0 ∷ []) in
    ap (λ i. drop i (tcp_fixed p)) (ihl-tcp_fixed p)
    ∙ drop-write_at (tcp_cleared p) n (to_be16 (not_u16 (fold_carry 3 (tcp_sum p))))
    ∙ ap
        (λ s.
          write s 16 (to_be16 (not_u16 (fold_carry 3 (sum_chunks (sum_chunks 0 (pseudo_of p)) s)))))
        inner

-- After `fix_tcp_checksum` the segment verifies.
pub tcp_fixed-TcpSumValid :
    (p : List ℕ) → IsBytes p → IsLong p → 4 ≤ ihl_of p → TcpSumValid (tcp_fixed p)
tcp_fixed-TcpSumValid p hb long h =
    let far = long.tcp in
    let bound = long.ports in
    fold_same (pseudo_of (tcp_fixed p)) (pseudo_of p) (drop (ihl_of (tcp_fixed p)) (tcp_fixed p)) _
      (pseudo-tcp_fixed p h) (drop-tcp_fixed p)
    ∙ stored_chunks_fold (sum_chunks 0 (pseudo_of p)) (drop (ihl_of p) p)
        (All-drop IsByte (ihl_of p) p hb) (omega (arith, length-drop (ihl_of p) p))
        (pseudo_sum-le p hb) (omega (arith, length-drop (ihl_of p) p))

drop-ip_fixed :
    (p : List ℕ) → 12 ≤ ihl_of p → drop (ihl_of (ip_fixed p)) (ip_fixed p) ≡ drop (ihl_of p) p
unfolding ip_fixed
drop-ip_fixed p h =
    ap (λ i. drop i (ip_fixed p)) (ihl-ip_fixed p)
    ∙ drop-write_before (ip_cleared p) 10 (to_be16 (checksum (take (ihl_of p) (ip_cleared p))))
        (ihl_of p) h
    ∙ drop-write_before p 10 (0 ∷ 0 ∷ []) (ihl_of p) h

-- Repairing the header leaves the segment and its pseudo header as they were.
pub ip_fixed-TcpSumValid : (p : List ℕ) → 12 ≤ ihl_of p → TcpSumValid p → TcpSumValid (ip_fixed p)
ip_fixed-TcpSumValid p h v =
    fold_same (pseudo_of (ip_fixed p)) (pseudo_of p) (drop (ihl_of (ip_fixed p)) (ip_fixed p))
      (drop (ihl_of p) p) (pseudo-ip_fixed p) (drop-ip_fixed p h)
    ∙ v
