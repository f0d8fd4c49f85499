-- ===== src/Engine/Errors.antt =====
-- engine/crates/gravital-engine/src/error.rs
use gravital_share.Common.{ℕ, List}
use gravital_share.Common.Io.{IoError}

-- A text is its bytes.
pub data EngineError : Type 0 where
  already_initialized not_initialized : EngineError
  config_invalid : List ℕ → EngineError
  invalid_fd invalid_transition : EngineError
  io : IoError → EngineError
  panicked : List ℕ → EngineError
