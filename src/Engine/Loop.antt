-- ===== src/Engine/Loop.antt =====
-- engine/crates/gravital-engine/src/runner.rs: `run_client_loop`, its two tasks side by side. A wait
-- of a task is an event: what the next `read_packet` gives, or a tick of the interval.
pub mod Runs
use gravital_share.Common.{
  ℕ, suc, List, [], ◌∷◌, ◌++◌, Option, none, some, Bool, true, false, not, length,
}
use gravital_share.Common.Outcome.{Outcome, ret, ◌>>=◌, Result, ok, err}
use gravital_share.Stack.Device.{Mpsc, VirtualConnection}
use gravital_share.Stack.State.{Inner, Smoltcp}
use gravital_share.Stack.Core.{poll}
use gravital_share.Engine.Tun.{EngineMetrics}
use gravital_share.Engine.Poll.{Reading, read_loop, drain, accept_all}
use gravital_share.Tun.Errors.{TunError}

pub data LoopEvent : Type 0 where
  delivered : Result TunError (List ℕ) → LoopEvent
  ticked : ℕ → LoopEvent

-- The shared stack and metrics; what has been written to the device by ticks, the connections
-- and the queries that tasks have been spawned for; and whether the read task still runs.
pub record Looping (S C : Type 0) : Type 0 where
  pub stack : Inner S C
  pub metrics : EngineMetrics
  pub written : List (List ℕ)
  pub relays : List (VirtualConnection C)
  pub queries : List (List ℕ × List ℕ)
  pub reading : Bool

module _ {S C : Type 0} (net : Smoltcp S) (chan : Mpsc C) where
  abbrev pub begin : Inner S C → EngineMetrics → Looping S C
  begin s m = record {
    stack = s;
    metrics = m;
    written = [];
    relays = [];
    queries = [];
    reading = true;
  }

  -- One turn of the read task.
  pub read_turn : Looping S C → Result TunError (List ℕ) → Outcome (Looping S C)
  read_turn l res = do
    r ← read_loop net chan (res ∷ []) l.stack l.metrics
    ret (record l {
      stack = r.stack;
      metrics = r.metrics;
      queries = l.queries ++ r.queries;
      reading = not r.ended;
    })

  pub accepted_by :
      Looping S C
      → EngineMetrics
      → List (List ℕ)
      → Option (Inner S C × List (VirtualConnection C))
      → Option (Looping S C)
  accepted_by l m pkts none = none
  accepted_by l m pkts (some (s, conns)) =
      some (record l {
        stack = s;
        metrics = m;
        written = l.written ++ pkts;
        relays = l.relays ++ conns;
      })

  pub drained_by :
      Looping S C → Option (Inner S C × EngineMetrics × List (List ℕ)) → Option (Looping S C)
  unfolding accepted_by
  drained_by l none = none
  drained_by l (some (s, m, pkts)) =
      accepted_by l m pkts (accept_all net chan (suc (length s.pending)) s)

  -- One turn of the poll task; `none` is a loop of it that ran out of fuel.
  pub tick : Looping S C → ℕ → Outcome (Option (Looping S C))
  unfolding drained_by
  tick l ts = do
    r ← poll net chan l.stack ts
    ret (drained_by l (drain net chan (suc (length r.0.tun_tx)) r.0 l.metrics))

  -- A task that has ended takes no turn.
  pub turn : Looping S C → LoopEvent → Outcome (Option (Looping S C))
  unfolding read_turn tick
  turn l (ticked ts) = tick l ts
  turn l (delivered res) = elim l.reading [
    | true ↦ (do l' ← read_turn l res; ret (some l'))
    | false ↦ ret (some l)
  ]

  pub go_on :
      (Looping S C → Outcome (Option (Looping S C)))
      → Option (Looping S C)
      → Outcome (Option (Looping S C))
  go_on next none = ret none
  go_on next (some l) = next l

  pub run_client_loop : Looping S C → List LoopEvent → Outcome (Option (Looping S C))
  unfolding turn go_on
  run_client_loop l [] = ret (some l)
  run_client_loop l (e ∷ es) = do r ← turn l e; go_on (λ l'. run_client_loop l' es) r
