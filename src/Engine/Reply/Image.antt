-- ===== src/Engine/Reply/Image.antt =====
-- The reply to a DNS query as an explicit list of bytes.
use gravital_share.Common.{
  ℕ, zero, suc, ◌+◌, ◌-◌, ◌/◌, ◌%◌, ◌^◌, ◌≤◌, ◌≡◌, refl, ap, ◌∙◌, arith, List, [], ◌∷◌, ◌++◌,
  length, take, drop, replicate, length-replicate,
}
use gravital_share.Common.Bytes.{
  byte, slice, at, at_lt, copy_at_in, copy_then, slice_suffix, slice_in, write, overlay, to_be16,
}
use gravital_share.Common.Splice.{clear_pair, clear_pair_in}
use gravital_share.Common.Outcome.{ret, ret_then}
use gravital_share.Proto.Checksum.{fold_carry, not_u16}
use gravital_share.Stack.Rewrite.{sum_chunks, header_length}
use gravital_share.Engine.Reply.{fill_reply, rfc1071, fix_ip4_checksum, fix_udp_checksum}

-- Four bytes of a buffer, and two.
pub slice_four :
    (p : List ℕ) (i : ℕ)
    → i + 4 ≤ length p
    → slice p i (i + 4) ≡ ret (byte p i ∷ byte p (i + 1) ∷ byte p (i + 2) ∷ byte p (i + 3) ∷ [])
slice_four p i h =
    slice_in p i (i + 4) (omega arith) h
    ∙ ap ret (ap (λ (n : ℕ). take n (drop i p)) {y = 4} (omega arith) ∙ four p i h)
  where
    four :
        (q : List ℕ) (j : ℕ)
        → j + 4 ≤ length q
        → take 4 (drop j q) ≡ byte q j ∷ byte q (j + 1) ∷ byte q (j + 2) ∷ byte q (j + 3) ∷ []
    four (a ∷ b ∷ c ∷ d ∷ q) zero k = refl
    four (a ∷ b ∷ c ∷ []) zero k = absurd (omega arith)
    four (a ∷ b ∷ []) zero k = absurd (omega arith)
    four (a ∷ []) zero k = absurd (omega arith)
    four [] zero k = absurd (omega arith)
    four [] (suc j) k = absurd (omega arith)
    four (x ∷ q) (suc j) k =
        let e1 : suc j + 1 ≡ suc (j + 1) = omega arith in
        let e2 : suc j + 2 ≡ suc (j + 2) = omega arith in
        let e3 : suc j + 3 ≡ suc (j + 3) = omega arith in rw (e1, e2, e3) (four q j (omega arith))

pub slice_two :
    (p : List ℕ) (i : ℕ)
    → i + 2 ≤ length p
    → slice p i (i + 2) ≡ ret (byte p i ∷ byte p (suc i) ∷ [])
slice_two p i h =
    slice_in p i (i + 2) (omega arith) h
    ∙ ap ret (ap (λ (n : ℕ). take n (drop i p)) {y = 2} (omega arith) ∙ two p i h)
  where
    two :
        (q : List ℕ) (j : ℕ) → j + 2 ≤ length q → take 2 (drop j q) ≡ byte q j ∷ byte q (suc j) ∷ []
    two (a ∷ b ∷ q) zero k = refl
    two (a ∷ []) zero k = absurd (omega arith)
    two [] zero k = absurd (omega arith)
    two [] (suc j) k = absurd (omega arith)
    two (x ∷ q) (suc j) k = two q j (omega arith)

overlay-replicate : (bs : List ℕ) → overlay bs (replicate (length bs) 0) ≡ bs
overlay-replicate [] = refl
overlay-replicate (b ∷ bs) = ap (◌∷◌ b) (overlay-replicate bs)

-- The twenty bytes of the IP header, without its checksum, and the eight of UDP.
abbrev pub ip_part : ℕ → List ℕ → List ℕ → List ℕ → List ℕ
ip_part n s d rest =
    0x45
    ∷ 0
    ∷ (28 + n) / 256 % 256
    ∷ (28 + n) % 256
    ∷ 0
    ∷ 0
    ∷ 0
    ∷ 0
    ∷ 64
    ∷ 17
    ∷ 0
    ∷ 0
    ∷ (d ++ (s ++ rest))

-- The filled buffer for a source `s`, a destination `d` and the ports `sp` and `dp`.
module _ (s0 s1 s2 s3 d0 d1 d2 d3 sp0 sp1 dp0 dp1 : ℕ) (resp : List ℕ) where
  abbrev pub filled : List ℕ
  filled = ip_part (length resp) (s0 ∷ s1 ∷ s2 ∷ s3 ∷ []) (d0 ∷ d1 ∷ d2 ∷ d3 ∷ []) (
      dp0
      ∷ dp1
      ∷ sp0
      ∷ sp1
      ∷ (8 + length resp) / 256 % 256
      ∷ (8 + length resp) % 256
      ∷ 0
      ∷ 0
      ∷ resp)

  pub fill_reply-filled :
      28 + length resp ≤ 65535
      → fill_reply
          (s0 ∷ s1 ∷ s2 ∷ s3 ∷ [])
          (d0 ∷ d1 ∷ d2 ∷ d3 ∷ [])
          (sp0 ∷ sp1 ∷ [])
          (dp0 ∷ dp1 ∷ [])
          resp
        ≡ ret filled
  unfolding fill_reply
  fill_reply-filled h =
      let n : length {A = ℕ} (replicate (length resp) 0) ≡ length resp =
        length-replicate (length resp) 0 in
      let e : (8 + length resp) % 65536 ≡ 8 + length resp = omega arith in
      let t : (20 + (8 + length resp)) % 65536 ≡ 28 + length resp = omega arith in
      let z : replicate {A = ℕ} (20 + (8 + length resp)) 0
          ≡ replicate 28 0 ++ replicate (length resp) 0 =
        ap (λ (k : ℕ). replicate {A = ℕ} k 0)
          {y = suc (
            suc (
              suc (
                suc (
                  suc (
                    suc (
                      suc (
                        suc (
                          suc (
                            suc (
                              suc (
                                suc (
                                  suc (
                                    suc (
                                      suc (
                                        suc (
                                          suc (
                                            suc (
                                              suc (
                                                suc (
                                                  suc (
                                                    suc (
                                                      suc (
                                                        suc (
                                                          suc (
                                                            suc (
                                                            suc (
                                                            suc (
                                                            length resp))))))))))))))))))))))))))))}
          (omega arith) in
      rw e (
        rw t (
          rw z (
            copy_then _ _ _ _ (omega (arith, n)) (
              copy_then _ _ _ _ (omega (arith, n)) (
                copy_then _ _ _ _ (omega (arith, n)) (
                  copy_then _ _ _ _ (omega (arith, n)) (
                    copy_then _ _ _ _ (omega (arith, n)) (
                      copy_then _ _ _ _ (omega (arith, n)) (
                        copy_then _ _ _ _ (omega (arith, n)) (
                          copy_then _ _ _ _ (omega (arith, n)) (
                            copy_then _ _ _ _ (omega (arith, n)) (
                              copy_at_in _ 28 resp (omega (arith, n))
                              ∙ ap
                                  (λ (l : List ℕ). ret (
                                    ip_part (length resp) (s0 ∷ s1 ∷ s2 ∷ s3 ∷ [])
                                      (d0 ∷ d1 ∷ d2 ∷ d3 ∷ [])
                                      (dp0
                                        ∷ dp1
                                        ∷ sp0
                                        ∷ sp1
                                        ∷ (8 + length resp) / 256 % 256
                                        ∷ (8 + length resp) % 256
                                        ∷ 0
                                        ∷ 0
                                        ∷ l)))
                                  (overlay-replicate resp)))))))))))))

  -- The reply with its two checksums.
  abbrev pub reply : ℕ → ℕ → List ℕ
  reply c u = write (write filled 10 (to_be16 c)) 26 (to_be16 u)

  pub fix_ip4-filled :
      fix_ip4_checksum filled ≡ ret (write filled 10 (to_be16 (rfc1071 (take 20 filled))))
  unfolding fix_ip4_checksum clear_pair
  fix_ip4-filled =
      ret_then (clear_pair filled 10) filled _ (clear_pair_in filled 10 (omega arith)) (
        ret_then (slice filled 0 20) (take 20 filled) _
          (slice_in filled 0 20 (omega arith) (omega arith)) (copy_at_in filled 10 _ (omega arith)))

  -- The value that `fix_udp_checksum` stores after the IP checksum `c`.
  abbrev pub udp_sum : ℕ → ℕ
  udp_sum c =
      let p = write filled 10 (to_be16 c) in
      let udp_len = (length p + 2 ^ 64 - 20) % 2 ^ 64 in
      not_u16 (
        fold_carry 3 (
          sum_chunks
            ((sum_chunks (sum_chunks 0 (d0 ∷ d1 ∷ d2 ∷ d3 ∷ [])) (s0 ∷ s1 ∷ s2 ∷ s3 ∷ [])
                + 17
                + udp_len % 2 ^ 32)
              % 2 ^ 32)
            (drop 20 p)))

  pub fix_udp-filled :
      (c : ℕ) → fix_udp_checksum (write filled 10 (to_be16 c)) ≡ ret (reply c (udp_sum c))
  unfolding fix_udp_checksum header_length
  fix_udp-filled c =
      let p = write filled 10 (to_be16 c) in
      ret_then (header_length p) 20 _ (ret_then (at p 0) 0x45 _ (at_lt p 0 (omega arith)) refl) (
        ret_then (clear_pair p 26) p _ (clear_pair_in p 26 (omega arith)) (
          ret_then (slice p 12 16) (d0 ∷ d1 ∷ d2 ∷ d3 ∷ []) _
            (slice_in p 12 16 (omega arith) (omega arith))
            (ret_then (slice p 16 20) (s0 ∷ s1 ∷ s2 ∷ s3 ∷ []) _
              (slice_in p 16 20 (omega arith) (omega arith))
              (ret_then (slice p 20 (length p)) (drop 20 p) _ (slice_suffix p 20 (omega arith))
                (copy_at_in p 26 _ (omega arith))))))
