-- ===== src/Stack/Errors.antt =====
-- engine/crates/gravital-stack/src/error.rs
use gravital_share.Common.{ℕ}
use gravital_share.Common.Io.{IoError}

pub data StackError : Type 0 where
  invalid_mtu : ℕ → StackError
  socket_exhausted connection_reset : StackError
  io : IoError → StackError
