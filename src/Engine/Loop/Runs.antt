-- ===== src/Engine/Loop/Runs.antt =====
-- The client loop under every interleaving of its two tasks.
use gravital_share.Common.{
  ℕ, zero, suc, ◌<◌, ◌≡◌, refl, ap, ◌∙◌, arith, List, [], ◌∷◌, ◌++◌, Option, some, Bool, true,
  false, length, All, All-append,
}
use gravital_share.Common.Outcome.{Outcome, ret, ◌>>=◌, ret_then, Result, Returns, >>=-Returns}
use gravital_share.Stack.Device.{Mpsc, VirtualConnection}
use gravital_share.Stack.State.{Inner, Smoltcp}
use gravital_share.Stack.Core.{accept, poll}
use gravital_share.Stack.Core.Kept.{IsInner}
use gravital_share.Stack.Core.Total.{SendsHeaders, IsOrderly}
use gravital_share.Stack.Core.History.{Lives, same-Lives, trans-Lives, poll-Lives}
use gravital_share.Engine.Tun.{EngineMetrics}
use gravital_share.Engine.Poll.{read_loop, relayed, accept_all}
use gravital_share.Engine.Poll.Drained.{count_all, Query, read_loop-Reads, drain-all}
use gravital_share.Engine.Loop.{
  LoopEvent, delivered, ticked, Looping, begin, read_turn, accepted_by, drained_by, tick, turn,
  go_on, run_client_loop,
}
use gravital_share.Tun.Errors.{TunError}

module _ {S C : Type 0} (net : Smoltcp S) (chan : Mpsc C) where
  accept_all-at :
      (conns : List (VirtualConnection C)) (fuel : ℕ) (s : Inner S C)
      → length conns < fuel
      → accept_all net chan fuel (record s { pending = conns })
        ≡ some (record s { pending = [] }, conns)
  unfolding accept_all accept relayed
  accept_all-at conns zero s h = absurd (omega arith)
  accept_all-at [] (suc fuel) s h = refl
  accept_all-at (c ∷ conns) (suc fuel) s h =
      ap (relayed c) (accept_all-at conns fuel s (omega arith))

  -- A tick spawns a task for every connection that waits, in order.
  accept_all-all :
      (s : Inner S C)
      → accept_all net chan (suc (length s.pending)) s ≡ some (record s { pending = [] }, s.pending)
  accept_all-all s = accept_all-at s.pending (suc (length s.pending)) s (omega arith)

  -- What holds of the loop since the stack was `s`.
  pub record Going (s : Inner S C) (l : Looping S C) : Type 0 where
    pub lives : Lives net chan s l.stack
    pub asked : All (Query net chan) l.queries

  abbrev pub GoesOn : Inner S C → Option (Looping S C) → Type 0
  GoesOn s o = (l : Looping S C) × (o ≡ some l) × Going s l

  read_turn-Going :
      (s : Inner S C) (l : Looping S C) (res : Result TunError (List ℕ))
      → Going s l
      → Returns (Going s) (read_turn net chan l res)
  unfolding read_turn
  read_turn-Going s l res g =
      let (d, e, fed, stack, _, qs) = read_loop-Reads net chan (res ∷ []) l.stack l.metrics in
      let h = g.lives.kept.inner in
      let fed_stack = record l.stack { tun_rx = l.stack.tun_rx ++ fed } in
      let more : Lives net chan l.stack fed_stack =
        same-Lives net chan l.stack fed_stack (record { nat_valid = h.nat_valid; queue = h.queue })
          g.lives.orderly refl refl refl in
      (
        _,
        ret_then (read_loop net chan (res ∷ []) l.stack l.metrics) d _ e refl,
        record {
          lives = rw stack (trans-Lives net chan s l.stack fed_stack g.lives more);
          asked = All-append (Query net chan) l.queries d.queries g.asked qs;
        },
      )

  -- What a tick makes of the loop `b`, when the poll leaves the stack `r`: every packet of its
  -- outgoing queue is written to the TUN device and counted, a task is spawned for every connection
  -- that waits in it, both in order, and both queues are empty behind it.
  pub record Drained (b : Looping S C) (r : Inner S C) (l : Looping S C) : Type 0 where
    pub written : l.written ≡ b.written ++ r.tun_tx
    pub spawned : l.relays ≡ b.relays ++ r.pending
    pub counted : l.metrics ≡ count_all b.metrics r.tun_tx
    pub left : l.stack ≡ record r { tun_tx = []; pending = [] }

  abbrev pub Ticked : Inner S C → Looping S C → ℕ → Option (Looping S C) → Type 0
  Ticked s b ts o =
      (r : Inner S C × Bool) × (poll net chan b.stack ts ≡ ret r)
      × (l : Looping S C) × (o ≡ some l)
      × Going s l
      × Drained b r.0 l

  -- The loop went on to `b`, and the last tick emptied both queues.
  abbrev pub Quiet : Inner S C → Looping S C → List LoopEvent → ℕ → Option (Looping S C) → Type 0
  Quiet s l0 es ts o =
      (b : Looping S C) × (run_client_loop net chan l0 es ≡ ret (some b))
      × Going s b
      × Ticked s b ts o

  -- The end of a tick: the stack with both queues empty.
  abbrev emptied : Inner S C → Inner S C
  emptied s = record s { tun_tx = []; pending = [] }

  tick-Ticked :
      (s : Inner S C) (l : Looping S C) (ts : ℕ)
      → SendsHeaders net
      → Going s l
      → Returns (Ticked s l ts) (tick net chan l ts)
  unfolding tick drained_by accepted_by
  tick-Ticked s l ts sends g =
      let (r, q, polled) =
        poll-Lives net chan l.stack ts sends g.lives.kept.inner g.lives.orderly in
      let u = r.0 in
      let v = emptied u in
      let h = polled.kept.inner in
      let more : Lives net chan u v =
        same-Lives net chan u v (record { nat_valid = h.nat_valid; queue = omega arith })
          polled.orderly refl refl refl in
      let since = trans-Lives net chan s l.stack u g.lives polled in
      let l' = record l {
        stack = v;
        metrics = count_all l.metrics u.tun_tx;
        written = l.written ++ u.tun_tx;
        relays = l.relays ++ u.pending;
      } in
      (
        some l',
        ret_then (poll net chan l.stack ts) r _ q (
            ap ret (
              ap (drained_by net chan l) (drain-all net chan u l.metrics)
              ∙ ap (accepted_by net chan l (count_all l.metrics u.tun_tx) u.tun_tx)
                  (accept_all-all (record u { tun_tx = [] })))),
        (
          r,
          q,
          l',
          refl,
          record { lives = trans-Lives net chan s u v since more; asked = g.asked },
          record { written = refl; spawned = refl; counted = refl; left = refl },
        ),
      )

  turn-Going :
      (s : Inner S C) (l : Looping S C) (e : LoopEvent)
      → SendsHeaders net
      → Going s l
      → Returns (GoesOn s) (turn net chan l e)
  unfolding turn
  turn-Going s l (ticked ts) sends g =
      let (o, e, (_, _, l', q, g', _)) = tick-Ticked s l ts sends g in (o, e, (l', q, g'))
  turn-Going s l (delivered res) sends g =
      elim l.reading
        as (λ b. Returns (GoesOn s) (elim b as (λ _. Outcome (Option (Looping S C))) [
          | true ↦ (do l' ← read_turn net chan l res; ret (some l'))
          | false ↦ ret (some l)
        ])) [
          | true ↦
              >>=-Returns (read_turn net chan l res) _ (read_turn-Going s l res g)
                λ l' g'. (some l', refl, (l', refl, g'))
          | false ↦ (some l, refl, (l, refl, g))
        ]

  loop-Quiet :
      (s : Inner S C) (l : Looping S C) (es : List LoopEvent) (ts : ℕ)
      → SendsHeaders net
      → Going s l
      → Returns (Quiet s l es ts) (run_client_loop net chan l (es ++ (ticked ts ∷ [])))
  unfolding run_client_loop go_on turn
  loop-Quiet s l [] ts sends g =
      >>=-Returns (tick net chan l ts) _ (tick-Ticked s l ts sends g)
        λ o (r, e, l', q, gl, d). rw q (some l', refl, (l, refl, g, (r, e, l', refl, gl, d)))
  loop-Quiet s l (e ∷ es) ts sends g =
      let (o, t, (l', q, g')) = turn-Going s l e sends g in
      let first = t ∙ ap ret q in
      let (o', t', (b, run, gb, last)) = loop-Quiet s l' es ts sends g' in
      (
        o',
        ret_then (turn net chan l e) (some l') _ first t',
        (b, ret_then (turn net chan l e) (some l') _ first run, gb, last),
      )

-- The client loop under every interleaving of its two tasks that ends with a tick, from a stack
-- with a valid NAT table, at most 128 connections waiting, each active socket once, and packets
-- that have a header in its device; whatever the TUN device delivers, when smoltcp sends packets
-- that have a header. No turn panics or runs out of fuel; all of this still holds of the stack,
-- and each flow keeps its port; every query that a task was spawned for came in a UDP packet to
-- port 53. The last tick polls the stack, writes to the TUN device and counts every packet that
-- the poll leaves in the outgoing queue, and spawns a task for every connection that waits, both in
-- order; behind it no outgoing packet and no connection is left waiting in the stack.
pub run_client_loop-Quiet :
    {S C : Type 0} (net : Smoltcp S) (chan : Mpsc C) (s : Inner S C) (m : EngineMetrics)
    (es : List LoopEvent) (ts : ℕ)
    → SendsHeaders net
    → IsInner s
    → IsOrderly s
    → Returns
        (Quiet net chan s (begin net chan s m) es ts)
        (run_client_loop net chan (begin net chan s m) (es ++ (ticked ts ∷ [])))
run_client_loop-Quiet net chan s m es ts sends h o =
    loop-Quiet net chan s (begin net chan s m) es ts sends
      (record { lives = same-Lives net chan s s h o refl refl refl; asked = tt })
