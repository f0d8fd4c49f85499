-- ===== src/Proto/Ipv4/Safety.antt =====
-- What a parsed IPv4 view promises to its readers, and where `payload` panics.
use gravital_share.Common.{
  ℕ, ◌-◌, ◌*◌, ◌%◌, ◌≤◌, ◌<◌, ◌≡◌, ◌↔◌, ◌≢◌, dec_lt, arith, List, min, length, take, drop,
}
use gravital_share.Common.Bytes.{byte, word, at_lt, u16_at_lt, slice_in, slice_out}
use gravital_share.Common.Outcome.{ret, panic, ok}
use gravital_share.Common.Addr.{ipv4_of, ipv4_at_lt}
use gravital_share.Proto.Ipv4.{
  Ipv4View, from_u8, parse, ihl, src, dst, protocol, total_length, ttl, payload,
}

-- The buffers that `parse` accepts: the header is there, and its length field says so.
pub record IsHeader (p : List ℕ) : Type 0 where
  pub fixed : 20 ≤ length p
  pub long : 20 ≤ byte p 0 % 16 * 4
  pub fits : byte p 0 % 16 * 4 ≤ length p

pub parse_ok : (p : List ℕ) → IsHeader p → parse p ≡ ret (ok (record { bytes = p }))
unfolding parse
parse_ok p h = ground (arith, at_lt p 0)

pub parse-IsHeader : (p : List ℕ) (v : Ipv4View) → parse p ≡ ret (ok v) → IsHeader p × (v.bytes ≡ p)
unfolding parse
parse-IsHeader p v e = ground (arith, at_lt p 0)

parse-ne-panic : (p : List ℕ) → parse p ≢ panic
unfolding parse
parse-ne-panic p e = ground (arith, at_lt p 0)

-- `parse` never panics, and accepts exactly the buffers with a whole header of at least 20 bytes.
pub parse_iff :
    (p : List ℕ) → (parse p ≢ panic) × ((parse p ≡ ret (ok (record { bytes = p }))) ↔ IsHeader p)
parse_iff p = (parse-ne-panic p, (λ e. (parse-IsHeader p (record { bytes = p }) e).0, parse_ok p))

-- On a view that `parse` returned every reader of the fixed header returns its bytes.
readers-return :
    (p : List ℕ) (v : Ipv4View)
    → parse p ≡ ret (ok v)
    → (src v ≡ ret (ipv4_of p 12))
      × (dst v ≡ ret (ipv4_of p 16))
      × (protocol v ≡ ret (from_u8 (byte p 9)))
      × (total_length v ≡ ret (word p 2))
      × (ttl v ≡ ret (byte p 8))
unfolding src dst protocol total_length ttl
readers-return p v e =
    let (h, eq) = parse-IsHeader p v e in
    let n = h.fixed in
    rw eq (
      ipv4_at_lt p 12 (omega arith),
      ipv4_at_lt p 16 (omega arith),
      rw (at_lt p 9 (omega arith)),
      u16_at_lt p 2 (omega arith),
      at_lt p 8 (omega arith),
    )

payload_in :
    (p : List ℕ)
    → IsHeader p
    → byte p 0 % 16 * 4 ≤ word p 2
    → payload (record { bytes = p })
      ≡ ret (take (min (word p 2) (length p) - byte p 0 % 16 * 4) (drop (byte p 0 % 16 * 4) p))
unfolding payload total_length ihl
payload_in p h le =
    let fits = h.fits in
    rw (u16_at_lt p 2 (omega arith), at_lt p 0 (omega arith))
      (slice_in p (byte p 0 % 16 * 4) (min (word p 2) (length p)) (omega arith) (omega arith))

payload_out :
    (p : List ℕ)
    → IsHeader p
    → word p 2 < byte p 0 % 16 * 4
    → payload (record { bytes = p }) ≡ panic
unfolding payload total_length ihl
payload_out p h lt =
    rw (u16_at_lt p 2 (omega arith), at_lt p 0 (omega arith))
      (slice_out p (byte p 0 % 16 * 4) (min (word p 2) (length p)) (omega arith))

-- `payload` of a parsed view is the buffer between the header and the smaller of the total length
-- and the end of the buffer; it panics exactly when the total length is below the header length.
pub payload-cases :
    (p : List ℕ) (v : Ipv4View)
    → parse p ≡ ret (ok v)
    → (byte p 0 % 16 * 4 ≤ word p 2
        → payload v
          ≡ ret (take (min (word p 2) (length p) - byte p 0 % 16 * 4) (drop (byte p 0 % 16 * 4) p)))
      × ((payload v ≡ panic) ↔ (word p 2 < byte p 0 % 16 * 4))
payload-cases p v e =
    let (h, eq) = parse-IsHeader p v e in
    let same : v ≡ record { bytes = p } = λ i. record { bytes = eq i } in
    rw same (
      payload_in p h,
      (
        λ q. elim (dec_lt (word p 2) (byte p 0 % 16 * 4)) [
          | yes lt ↦ lt
          | no ge ↦ absurd (cc (payload_in p h (omega arith)))
        ],
        payload_out p h,
      ),
    )
