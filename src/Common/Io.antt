-- ===== src/Common/Io.antt =====
-- `std::io::Error` by its kind, as far as the code tells kinds apart.
use Prim.Native.Nat.{ℕ}

pub data IoError : Type 0 where
  unexpected_eof connection_refused timed_out : IoError
  other : ℕ → IoError
