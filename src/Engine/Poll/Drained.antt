-- ===== src/Engine/Poll/Drained.antt =====
-- What a tick writes to the device, and what the read loop feeds to the stack.
use gravital_share.Common.{
  ℕ, zero, suc, ◌+◌, ◌<◌, ◌≡◌, inl, inr, refl, ap, sym, ◌∙◌, arith, List, [], ◌∷◌, ◌++◌, Option,
  none, some, length, All,
}
use mathlib.Core.List.{append_assoc, append-nil}
use gravital_share.Common.Outcome.{Outcome, ret, ret_then, ◌>>=◌, Result, ok, err}
use gravital_share.Proto.Ip
use gravital_share.Proto.Ip.{IpView}
use gravital_share.Proto.Ipv4.{tcp}
use gravital_share.Stack.Device.{Mpsc}
use gravital_share.Stack.State.{Inner, Smoltcp}
use gravital_share.Stack.Core.{drain_outbound, feed_inbound}
use gravital_share.Tun.Errors.{TunError}
use gravital_share.Engine.Reply.{udp_dst_port}
use gravital_share.Engine.Tun.{
  EngineMetrics, count_out, handle_packet, Action, feed, query, drop_counted, no_payload, query_of,
}
use gravital_share.Engine.Tun.Leaks.{handle_packet-Fate}
use gravital_share.Engine.Poll.{written, drain, Reading, perform, read_loop}

-- The metrics with every packet counted.
abbrev pub count_all : EngineMetrics → List (List ℕ) → EngineMetrics
count_all m [] = m
count_all m (p ∷ ps) = count_all (count_out m p) ps

-- The bytes of all packets.
abbrev pub total : List (List ℕ) → ℕ
total [] = 0
total (p ∷ ps) = length p + total ps

module _ {S C : Type 0} (net : Smoltcp S) (chan : Mpsc C) where
  drain-at :
      (pkts : List (List ℕ)) (fuel : ℕ) (s : Inner S C) (m : EngineMetrics)
      → length pkts < fuel
      → drain net chan fuel (record s { tun_tx = pkts }) m
        ≡ some (record s { tun_tx = [] }, count_all m pkts, pkts)
  unfolding drain drain_outbound written
  drain-at pkts zero s m h = absurd (omega arith)
  drain-at [] (suc fuel) s m h = refl
  drain-at (p ∷ pkts) (suc fuel) s m h =
      ap (written p) (drain-at pkts fuel s (count_out m p) (omega arith))

  -- A tick writes every packet that waits in the stack to the device, in order, and counts
  -- it; a round for each and one more are enough, and nothing else of the stack changes.
  pub drain-all :
      (s : Inner S C) (m : EngineMetrics)
      → drain net chan (suc (length s.tun_tx)) s m
        ≡ some (record s { tun_tx = [] }, count_all m s.tun_tx, s.tun_tx)
  drain-all s m = drain-at s.tun_tx (suc (length s.tun_tx)) s m (omega arith)

  -- A TCP packet, by its parsed header.
  abbrev pub IsTcp : List ℕ → Type 0
  IsTcp p = (v : IpView) × (Ip.parse p ≡ ret (ok v)) × (Ip.protocol v ≡ ret tcp)

  -- What an action says of its packet.
  abbrev Suits : List ℕ → Action → Type 0
  Suits p feed = IsTcp p
  Suits p (query q) = udp_dst_port p ≡ ret (some 53)
  Suits p drop_counted = Unit {0}
  Suits p no_payload = Unit {0}

  query-Suits :
      (p : List ℕ) (q : Option (List ℕ)) → udp_dst_port p ≡ ret (some 53) → Suits p (query_of q)
  unfolding query_of
  query-Suits p none h = tt
  query-Suits p (some q) h = h

  handled-Suits :
      (m : EngineMetrics) (p : List ℕ)
      → (m' : EngineMetrics) × (act : Action) × (handle_packet m p ≡ ret (m', act)) × Suits p act
  handled-Suits m p =
      let (fate, fed) = handle_packet-Fate m p in
      elim fate [
        | inl q ↦ (_, feed, q, fed q)
        | inr (inl (port, q, _, e)) ↦ (_, query_of q, e, query-Suits p q port)
        | inr (inr q) ↦ (_, drop_counted, q, tt)
      ]

  abbrev pub Query : List ℕ × List ℕ → Type 0
  Query x = udp_dst_port x.0 ≡ ret (some 53)

  -- The loop returns; it has fed packets to the stack, and spawned tasks for queries.
  abbrev pub Reads : Inner S C → Outcome (Reading (Inner S C)) → Type 0
  Reads s o =
      (d : Reading (Inner S C)) × (o ≡ ret d)
      × (fed : List (List ℕ)) × (d.stack ≡ record s { tun_rx = s.tun_rx ++ fed })
      × All IsTcp fed
      × All Query d.queries

  stays : (s : Inner S C) → s ≡ record s { tun_rx = s.tun_rx ++ [] }
  stays s = ap (λ t. record s { tun_rx = t }) (sym (append-nil s.tun_rx))

  -- The rest of the loop behind one packet.
  performed-Reads :
      (s : Inner S C) (p : List ℕ) (act : Action) (next : Inner S C → Outcome (Reading (Inner S C)))
      → Suits p act
      → ((s' : Inner S C) → Reads s' (next s'))
      → Reads s (
          next (perform net chan s p act).0 >>= λ rest.
          ret (record rest { queries = (perform net chan s p act).1 ++ rest.queries }))
  unfolding perform feed_inbound
  performed-Reads s p feed next h go =
      let (d, q, fed, stack, tcps, qs) = go (record s { tun_rx = s.tun_rx ++ (p ∷ []) }) in
      (
        d,
        ret_then (next _) d _ q refl,
        p ∷ fed,
        stack ∙ ap (λ t. record s { tun_rx = t }) (append_assoc s.tun_rx (p ∷ []) fed),
        (h, tcps),
        qs,
      )
  performed-Reads s p (query x) next h go =
      let (d, q, fed, stack, tcps, qs) = go s in
      (_, ret_then (next s) d _ q refl, fed, stack, tcps, (h, qs))
  performed-Reads s p drop_counted next h go =
      let (d, q, fed, stack, tcps, qs) = go s in
      (_, ret_then (next s) d _ q refl, fed, stack, tcps, qs)
  performed-Reads s p no_payload next h go =
      let (d, q, fed, stack, tcps, qs) = go s in
      (_, ret_then (next s) d _ q refl, fed, stack, tcps, qs)

  pub read_loop-Reads :
      (es : List (Result TunError (List ℕ))) (s : Inner S C) (m : EngineMetrics)
      → Reads s (read_loop net chan es s m)
  unfolding read_loop
  read_loop-Reads [] s m = (_, refl, [], stays s, tt, tt)
  read_loop-Reads (err e ∷ es) s m = (_, refl, [], stays s, tt, tt)
  read_loop-Reads (ok p ∷ es) s m =
      let (m', act, q, suits) = handled-Suits m p in
      let (d, done, fed, stack, tcps, qs) =
        performed-Reads s p act (λ s'. read_loop net chan es s' m') suits
          (λ s'. read_loop-Reads es s' m') in
      (d, ret_then (handle_packet m p) (m', act) _ q done, fed, stack, tcps, qs)
