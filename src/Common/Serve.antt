-- ===== src/Common/Serve.antt =====
-- The loop of a server that accepts connections until it is told to stop, over what happens to
-- it: a connection (by its number), an error of `accept`, or a change of the flag that it
-- watches, with the flag's value.
use Prim.Native.Nat.{ℕ}
use mathlib.Core.Bool.{Bool}
use mathlib.Core.List.{List}
use mathlib.Core.Option.{Option}
use gravital_share.Common.Io.{IoError}
use gravital_share.Common.Outcome.{Result}

pub data ServerEvent : Type 0 where
  accepted : ℕ → ServerEvent
  accept_failed : IoError → ServerEvent
  changed : Bool → ServerEvent

-- The connections that tasks were spawned for, and the result if the server has ended.
pub record Serving (E : Type 0) : Type 0 where
  pub spawned : List ℕ
  pub ended : Option (Result E (Unit {0}))
