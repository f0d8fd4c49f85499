-- ===== src/Tun/Errors.antt =====
-- engine/crates/gravital-tun/src/error.rs
use gravital_share.Common.{ℕ}
use gravital_share.Common.Int.{ℤ}
use gravital_share.Common.Io.{IoError}

pub data TunError : Type 0 where
  invalid_fd : ℤ → TunError
  io : IoError → TunError
  closed : TunError
  packet_too_large : (size mtu : ℕ) → TunError
