-- ===== src/Obs/Sink.antt =====
-- engine/crates/gravital-obs/src/sink.rs and lib.rs: the global sink. What a sink did is the
-- list of its lines: a buffer keeps them, the standard output prints them, the null sink drops
-- them.
use gravital_share.Common.{ℕ, List, [], ◌∷◌, ◌++◌, Option, none, some}
use gravital_share.Common.Outcome.{Result, ok, err}
use gravital_share.Obs.Event.{GsEvent}

pub data Sink : Type 0 where
  stdout : List (List ℕ) → Sink
  null : Sink
  buffer : List (List ℕ) → Sink

abbrev pub new_buffer : Sink
new_buffer = buffer []

pub write : Sink → List ℕ → Sink
write (stdout printed) line = stdout (printed ++ (line ∷ []))
write null line = null
write (buffer lines) line = buffer (lines ++ (line ∷ []))

-- `GLOBAL_SINK.set`, whose failure is ignored.
unfoldable pub init : Option Sink → Sink → Option Sink
init none sink = some sink
init (some s) sink = some s

-- `to_string` is serde's.
unfoldable pub emit :
    {P E : Type 0} → (GsEvent P → Result E (List ℕ)) → Option Sink → GsEvent P → Option Sink
unfolding write
emit to_string none event = none
emit to_string (some sink) event = elim (to_string event) [
  | err e ↦ some sink
  | ok json ↦ some (write sink json)
]
