-- ===== src/Engine/Poll.antt =====
-- engine/crates/gravital-engine/src/runner.rs: what a tick of the poll task does after the cycle of
-- the stack, and the loop that reads the TUN device. A write to the device is a packet of the
-- list that is returned; its result is ignored.
pub mod Drained
use gravital_share.Common.{ℕ, zero, suc, List, [], ◌∷◌, ◌++◌, Option, none, some, Bool, true, false}
use gravital_share.Common.Outcome.{Outcome, ret, ◌>>=◌, Result, ok, err}
use gravital_share.Stack.Device.{Mpsc, VirtualConnection}
use gravital_share.Stack.State.{Inner, Smoltcp}
use gravital_share.Stack.Core.{drain_outbound, accept, feed_inbound}
use gravital_share.Engine.Tun.{
  EngineMetrics, count_out, handle_packet, Action, feed, query, drop_counted, no_payload,
}
use gravital_share.Tun.Errors.{TunError}

pub written :
    {A : Type 0}
    → List ℕ
    → Option (A × EngineMetrics × List (List ℕ))
    → Option (A × EngineMetrics × List (List ℕ))
written pkt none = none
written pkt (some (s, m, pkts)) = some (s, m, pkt ∷ pkts)

unfoldable pub relayed : {A B : Type 0} → B → Option (A × List B) → Option (A × List B)
relayed conn none = none
relayed conn (some (s, conns)) = some (s, conn ∷ conns)

-- What the read loop leaves: the stack, the metrics, the queries that tasks are spawned for, with
-- their packets, and whether the loop has ended.
pub record Reading (I : Type 0) : Type 0 where
  pub stack : I
  pub metrics : EngineMetrics
  pub queries : List (List ℕ × List ℕ)
  pub ended : Bool

module _ {S C : Type 0} (net : Smoltcp S) (chan : Mpsc C) where
  -- The packets that leave the stack, each counted and written. `none` is a loop that ran out of
  -- fuel.
  pub drain : ℕ → Inner S C → EngineMetrics → Option (Inner S C × EngineMetrics × List (List ℕ))
  unfolding written
  drain zero s m = none
  drain (suc fuel) s m =
      let r = drain_outbound net chan s in
      elim r.1 [
        | none ↦ some (r.0, m, [])
        | some pkt ↦ written pkt (drain fuel r.0 (count_out m pkt))
      ]

  -- The connections for which relay tasks are spawned.
  unfoldable pub accept_all : ℕ → Inner S C → Option (Inner S C × List (VirtualConnection C))
  unfolding relayed
  accept_all zero s = none
  accept_all (suc fuel) s =
      let r = accept net chan s in
      elim r.1 [ none ↦ some (r.0, []) | some conn ↦ relayed conn (accept_all fuel r.0) ]

  -- What a packet's action does to the stack, and the query for a task.
  pub perform : Inner S C → List ℕ → Action → Inner S C × List (List ℕ × List ℕ)
  perform s pkt feed = (feed_inbound net chan s pkt, [])
  perform s pkt (query q) = (s, (pkt, q) ∷ [])
  perform s pkt drop_counted = (s, [])
  perform s pkt no_payload = (s, [])

  -- The loop over what `read_packet` returns.
  pub read_loop :
      List (Result TunError (List ℕ)) → Inner S C → EngineMetrics → Outcome (Reading (Inner S C))
  unfolding perform
  read_loop [] s m = ret (record { stack = s; metrics = m; queries = []; ended = false })
  read_loop (err e ∷ es) s m = ret (record { stack = s; metrics = m; queries = []; ended = true })
  read_loop (ok pkt ∷ es) s m = do
    handled ← handle_packet m pkt
    let done = perform s pkt handled.1
    rest ← read_loop es done.0 handled.0
    ret (record rest { queries = done.1 ++ rest.queries })
