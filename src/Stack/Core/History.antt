-- ===== src/Stack/Core/History.antt =====
-- The stack under every sequence of calls of its public interface.
use gravital_share.Common.{
  ℕ, Bool, ◌≤◌, ◌≡◌, refl, arith, List, [], ◌∷◌, ◌++◌, Option, none, some, length,
}
use gravital_share.Common.Outcome.{Outcome, ret, ◌>>=◌, Returns, >>=-Returns}
use gravital_share.Stack.Nat.Invariant.{new-IsNat}
use gravital_share.Stack.Device
use gravital_share.Stack.Device.{Mpsc, VirtualConnection}
use gravital_share.Stack.State.{Smoltcp, Inner, pending_cap}
use gravital_share.Stack.Core.{new_inner, poll, feed_inbound, drain_outbound, accept}
use gravital_share.Stack.Core.Kept.{IsInner, Kept, trans-Kept}
use gravital_share.Stack.Core.Flows.{poll-Kept}
use gravital_share.Stack.Core.Total.{SendsHeaders, IsOrderly}
use gravital_share.Stack.Core.Cycle.{poll-Returns}

-- A call of `UserspaceStack`.
pub data Call : Type 0 where
  feed : List ℕ → Call
  poll_at : ℕ → Call
  drain : Call
  take : Call

module _ {S C : Type 0} (net : Smoltcp S) (chan : Mpsc C) where
  -- The state behind a call; what the call gives its caller is left out.
  called : Inner S C → Call → Outcome (Inner S C)
  called s (feed pkt) = ret (feed_inbound net chan s pkt)
  called s (poll_at ts) = do r ← poll net chan s ts; ret r.0
  called s drain = ret (drain_outbound net chan s).0
  called s take = ret (accept net chan s).0

  pub calls : Inner S C → List Call → Outcome (Inner S C)
  calls s [] = ret s
  calls s (c ∷ cs) = do s' ← called s c; calls s' cs

  -- What holds between calls, and of the flows since `s`.
  pub record Lives (s s' : Inner S C) : Type 0 where
    pub kept : Kept s s'
    pub orderly : IsOrderly s'

  -- A call that leaves the table, the sockets and the transmit queue alone.
  pub same-Lives :
      (s s' : Inner S C)
      → IsInner s'
      → IsOrderly s
      → s'.nat ≡ s.nat
      → s'.active ≡ s.active
      → s'.device ≡ s.device
      → Lives s s'
  same-Lives s s' h o n a d = record {
    kept = record { inner = h; flows = λ k q f. rw n f };
    orderly = record { distinct = rw a o.distinct; headers = rw d o.headers };
  }

  pub trans-Lives : (s u v : Inner S C) → Lives s u → Lives u v → Lives s v
  trans-Lives s u v hu hv = record { kept = trans-Kept s u v hu.kept hv.kept; orderly = hv.orderly }

  pub poll-Lives :
      (s : Inner S C) (ts : ℕ)
      → SendsHeaders net
      → IsInner s
      → IsOrderly s
      → Returns (λ (r : Inner S C × Bool). Lives s r.0) (poll net chan s ts)
  poll-Lives s ts sends h o =
      let (r, e, o') = poll-Returns net chan s ts sends o in
      (r, e, record { kept = poll-Kept net chan s r.0 ts r.1 h e; orderly = o' })

  drain-Lives : (s : Inner S C) → IsInner s → IsOrderly s → Lives s (drain_outbound net chan s).0
  unfolding drain_outbound
  drain-Lives s h o =
      elim s.tun_tx
        as (λ q.
          Lives s
            (elim q as (λ _. Inner S C × Option (List ℕ)) [
              | [] ↦ (s, none)
              | pkt ∷ rest ↦ (record s { tun_tx = rest }, some pkt)
            ]).0) [
              | [] ↦ same-Lives s s h o refl refl refl
              | pkt ∷ rest ↦
                  same-Lives s (record s { tun_tx = rest })
                    (record { nat_valid = h.nat_valid; queue = h.queue }) o refl refl refl
            ]

  take-Lives : (s : Inner S C) → IsInner s → IsOrderly s → Lives s (accept net chan s).0
  unfolding accept
  take-Lives s h o = taken s.pending h.queue
    where
      taken :
          (q : List (VirtualConnection C))
          → length q ≤ pending_cap
          → Lives s
              (elim q as (λ _. Inner S C × Option (VirtualConnection C)) [
                | [] ↦ (s, none)
                | conn ∷ rest ↦ (record s { pending = rest }, some conn)
              ]).0
      taken [] fits = same-Lives s s h o refl refl refl
      taken (conn ∷ rest) fits =
          same-Lives s (record s { pending = rest })
            (record { nat_valid = h.nat_valid; queue = omega arith }) o refl refl refl

  called-Returns :
      (s : Inner S C) (c : Call)
      → SendsHeaders net
      → IsInner s
      → IsOrderly s
      → Returns (Lives s) (called s c)
  unfolding called feed_inbound
  called-Returns s (feed pkt) sends h o =
      let s' = record s { tun_rx = s.tun_rx ++ (pkt ∷ []) } in
      (
        s',
        refl,
        same-Lives s s' (record { nat_valid = h.nat_valid; queue = h.queue }) o refl refl refl,
      )
  called-Returns s (poll_at ts) sends h o =
      let (r, e, l) = poll-Lives s ts sends h o in rw e (r.0, refl, l)
  called-Returns s drain sends h o = ((drain_outbound net chan s).0, refl, drain-Lives s h o)
  called-Returns s take sends h o = ((accept net chan s).0, refl, take-Lives s h o)

  pub calls-Returns :
      (s : Inner S C) (cs : List Call)
      → SendsHeaders net
      → IsInner s
      → IsOrderly s
      → Returns (Lives s) (calls s cs)
  unfolding calls
  calls-Returns s [] sends h o = (s, refl, same-Lives s s h o refl refl refl)
  calls-Returns s (c ∷ cs) sends h o =
      >>=-Returns (called s c) _ (called-Returns s c sends h o) λ u hu.
        let (v, e, hv) = calls-Returns u cs sends hu.kept.inner hu.orderly in
        (v, e, trans-Lives s u v hu hv)

-- The stack from its creation, under any two stretches of calls (packets fed, polls, packets
-- drained, connections accepted), whatever the packets hold, when smoltcp sends packets that have
-- a header: every call returns, without a panic. Between the two, and behind them, the NAT table
-- is valid and at most 128 connections wait; and a flow that has a virtual port
-- between them has the same one behind them.
pub history-Returns :
    {S C : Type 0} (net : Smoltcp S) (chan : Mpsc C) (mtu : ℕ) (before after : List Call)
    → SendsHeaders net
    → Returns
        (λ s. IsInner s × Returns (Kept s) (calls net chan s after))
        (calls net chan (new_inner net chan mtu) before)
unfolding new_inner Device.new
history-Returns net chan mtu before after sends =
    let fresh : IsInner (new_inner net chan mtu) = record {
      nat_valid = new-IsNat;
      queue = omega arith;
    } in
    let (s, e, l) =
      calls-Returns net chan (new_inner net chan mtu) before sends fresh
        (record { distinct = tt; headers = tt }) in
    let (s', e', l') = calls-Returns net chan s after sends l.kept.inner l.orderly in
    (s, e, (l.kept.inner, (s', e', l'.kept)))
