-- ===== src/Proto/Errors.antt =====
-- engine/crates/gravital-proto/src/error.rs
use gravital_share.Common.{ℕ}

pub data ParseError : Type 0 where
  truncated_header : (needed got : ℕ) → ParseError
  invalid_version : ℕ → ParseError
  invalid_checksum : (expected got : ℕ) → ParseError
  unsupported_protocol : ℕ → ParseError
  invalid_header_length : ℕ → ParseError
  packet_too_large : ℕ → ParseError
