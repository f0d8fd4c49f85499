-- ===== src/Proto/Tcp.antt =====
-- engine/crates/gravital-proto/src/tcp.rs
use gravital_share.Common.{ℕ, ◌*◌, ◌/◌, ◌%◌, List, ltb, if◌then◌else◌, length}
use gravital_share.Common.Bytes.{at, slice, u16_at, u32_at}
use gravital_share.Common.Outcome.{Outcome, ret, ◌>>=◌, Result, ok, err}
use gravital_share.Proto.Errors.{ParseError, truncated_header, invalid_header_length}

pub record TcpView : Type 0 where
  pub bytes : List ℕ

unfoldable pub parse : List ℕ → Outcome (Result ParseError TcpView)
parse bytes = if ltb (length bytes) 20 then ret (err (truncated_header 20 (length bytes))) else do
  b12 ← at bytes 12
  let data_offset = b12 / 16 * 4
  if ltb data_offset 20
      then ret (err (invalid_header_length (b12 / 16)))
      else if ltb (length bytes) data_offset
      then ret (err (truncated_header data_offset (length bytes)))
      else ret (ok (record { bytes = bytes }))

unfoldable pub src_port : TcpView → Outcome ℕ
src_port v = u16_at v.bytes 0

unfoldable pub dst_port : TcpView → Outcome ℕ
dst_port v = u16_at v.bytes 2

unfoldable pub seq_num : TcpView → Outcome ℕ
seq_num v = u32_at v.bytes 4

unfoldable pub ack_num : TcpView → Outcome ℕ
ack_num v = u32_at v.bytes 8

-- `TcpFlags::from_bits_truncate`: the flags declared are the six low bits.
unfoldable pub flags : TcpView → Outcome ℕ
flags v = do b ← at v.bytes 13; ret (b % 64)

unfoldable pub window_size : TcpView → Outcome ℕ
window_size v = u16_at v.bytes 14

unfoldable pub header_len : TcpView → Outcome ℕ
header_len v = do b ← at v.bytes 12; ret (b / 16 * 4)

unfoldable pub payload : TcpView → Outcome (List ℕ)
payload v = do n ← header_len v; slice v.bytes n (length v.bytes)
