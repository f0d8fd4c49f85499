-- ===== src/Proto/Checksum.antt =====
-- engine/crates/gravital-proto/src/checksum.rs: the one's complement sum of RFC 1071.
-- A u32 accumulator wraps at 2 ^ 32. `x & 0xFFFF` is `x % 65536` and `x >> 16` is `x / 65536`.
pub mod Carry
pub mod Words
pub mod Verify
use gravital_share.Common.{
  ℕ, zero, suc, ◌+◌, ◌-◌, ◌/◌, ◌%◌, ◌^◌, List, [], ◌∷◌, ◌==◌, if◌then◌else◌,
}
use gravital_share.Common.Bytes.{be16}
use gravital_share.Common.Addr.{Ipv4Addr}

abbrev pub u32_mod : ℕ
u32_mod = 2 ^ 32

-- The loop over `chunks_exact(2)` and the odd byte behind it: the u32 accumulator at the end.
unfoldable pub add_words : ℕ → List ℕ → ℕ
add_words acc [] = acc
add_words acc (odd ∷ []) = (acc + be16 odd 0) % u32_mod
add_words acc (hi ∷ lo ∷ rest) = add_words ((acc + be16 hi lo) % u32_mod) rest

-- `while sum >> 16 != 0 { sum = (sum & 0xFFFF) + (sum >> 16) }`, with fuel.
pub fold_carry : ℕ → ℕ → ℕ
fold_carry zero sum = sum
fold_carry (suc fuel) sum =
    let rest = fold_carry fuel (sum % 65536 + sum / 65536) in if sum / 65536 == 0 then sum else rest

-- `!(sum as u16)`
abbrev pub not_u16 : ℕ → ℕ
not_u16 sum = 65535 - sum % 65536

-- Three rounds: a u32 is folded in two, and the third finds the loop's test false.
unfoldable pub fold : ℕ → ℕ
fold acc = not_u16 (fold_carry 3 acc)

unfoldable pub internet_checksum : List ℕ → ℕ
internet_checksum data' = not_u16 (fold_carry 3 (add_words 0 data'))

unfoldable pub pseudo_header_v4 : Ipv4Addr → Ipv4Addr → ℕ → ℕ → ℕ
pseudo_header_v4 src dst proto len =
    let s0 = (0 + be16 src.a src.b) % u32_mod in
    let s1 = (s0 + be16 src.c src.d) % u32_mod in
    let s2 = (s1 + be16 dst.a dst.b) % u32_mod in
    let s3 = (s2 + be16 dst.c dst.d) % u32_mod in
    let s4 = (s3 + be16 0 proto) % u32_mod in (s4 + len) % u32_mod
