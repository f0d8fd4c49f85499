-- ===== src/Http/Errors.antt =====
-- engine/crates/gravital-http/src/error.rs
use gravital_share.Common.{ℕ, List}
use gravital_share.Common.Io.{IoError}

-- A text is its bytes.
pub data HttpProxyError : Type 0 where
  io : IoError → HttpProxyError
  parse : List ℕ → HttpProxyError
  unsupported_method : List ℕ → HttpProxyError
  missing_target : HttpProxyError
  invalid_target : List ℕ → HttpProxyError
  upstream_failed headers_too_large premature_eof auth_required : HttpProxyError
