-- ===== src/Stack/Core/Cycle.antt =====
-- The rest of a poll cycle returns too: serving the sockets, and emptying the transmit queue.
use gravital_share.Common.{
  ℕ, inl, inr, refl, List, [], ◌∷◌, ◌++◌, map, Option, none, some, Bool, true, false, Bool-cases,
  Option-cases, if◌then◌else◌, All, ℕ_discrete,
}
use gravital_share.Common.Assoc
use gravital_share.Common.Keys.{
  AreKeys, remove-IsDistinct, insert-IsDistinct, insert-AreKeys, remove-AreKeys, keys-AreKeys,
}
use gravital_share.Common.Outcome.{◌>>=◌, returned, Returns, >>=-Returns}
use gravital_share.Stack.Nat.{Flow}
use gravital_share.Stack.Device.{Mpsc}
use gravital_share.Stack.State.{Smoltcp, Inner, outbound_src_port, flow_of, readdress}
use gravital_share.Stack.Core.{
  process_all, service_socket, remove_socket, service_all, emit_flow, emit, emit_all, poll,
}
use gravital_share.Stack.Core.Total.{
  HasHeader, SendsHeaders, IsOrderly, outbound_src_port-ne-panic, readdress-Returns,
  process_all-Returns,
}

-- Orderly, with the handles that are still to be served.
abbrev Serves : {S C : Type 0} → List ℕ → Inner S C → Type 0
Serves ks s = IsOrderly s × AreKeys ℕ_discrete s.active ks

module _ {S C : Type 0} (net : Smoltcp S) (chan : Mpsc C) where
  service_socket-Serves :
      (s : Inner S C) (handle : ℕ) (ks : List ℕ)
      → Serves ks s
      → Serves ks (service_socket net chan s handle).0
  unfolding service_socket
  service_socket-Serves s handle ks (h, k) = elim (Bool-cases (net.is_done s.sockets handle)) [
    | inl b ↦ rw (b, service_socket) (h, k)
    | inr b ↦ elim (Option-cases (Assoc.get ℕ_discrete s.active handle)) [
      | inl e ↦ rw (b, e, service_socket) (h, k)
      | inr (x, e) ↦
          rw (b, e, service_socket)
            (
              record {
                distinct = insert-IsDistinct ℕ_discrete s.active handle _ h.distinct;
                headers = h.headers;
              },
              insert-AreKeys ℕ_discrete s.active handle _ ks k,
            )
    ]
  ]

  remove_socket-Serves :
      (s : Inner S C) (handle : ℕ) (ks : List ℕ)
      → Serves (handle ∷ ks) s
      → Returns (Serves ks) (remove_socket net chan s handle)
  unfolding remove_socket
  remove_socket-Serves s handle ks (h, (here, far, k)) =
      elim (Option-cases (Assoc.get ℕ_discrete s.active handle)) [
        | inl n ↦ absurd (here n)
        | inr (x, n) ↦
            rw (n, remove_socket)
              (
                _,
                refl,
                (
                  record {
                    distinct = remove-IsDistinct ℕ_discrete s.active handle h.distinct;
                    headers = h.headers;
                  },
                  remove-AreKeys ℕ_discrete s.active handle ks far k,
                ),
              )
      ]

  service_all-Returns :
      (s : Inner S C) (more : Bool) (handles : List ℕ)
      → Serves handles s
      → Returns (λ (r : Inner S C × Bool). IsOrderly r.0) (service_all net chan s more handles)
  unfolding service_all
  service_all-Returns s more [] (h, _) = ((s, more), refl, h)
  service_all-Returns s more (handle ∷ rest) h =
      let u = service_socket net chan s handle in
      let hu = service_socket-Serves s handle (handle ∷ rest) h in
      elim u.1
        as (λ b.
          Returns (λ (r : Inner S C × Bool). IsOrderly r.0)
            (if b
              then (do s' ← remove_socket net chan u.0 handle; service_all net chan s' true rest)
              else service_all net chan u.0 more rest)) [
                | true ↦
                    >>=-Returns (remove_socket net chan u.0 handle) _
                      (remove_socket-Serves u.0 handle rest hu)
                      λ v hv. service_all-Returns v true rest hv
                | false ↦ service_all-Returns u.0 more rest (hu.0, hu.1.2)
              ]

  emit_flow-Returns :
      (s : Inner S C) (pkt : List ℕ) (k : Option Flow)
      → HasHeader pkt
      → IsOrderly s
      → Returns IsOrderly (emit_flow net chan s pkt k)
  unfolding emit_flow
  emit_flow-Returns s pkt none hp h = (s, refl, h)
  emit_flow-Returns s pkt (some k) hp h =
      >>=-Returns (readdress pkt k.real_dst.ip k.real_dst.port) _
        (readdress-Returns pkt k.real_dst.ip k.real_dst.port hp)
        λ q _. (
          record s { tun_tx = s.tun_tx ++ (q ∷ []) },
          refl,
          record { distinct = h.distinct; headers = h.headers },
        )

  emit_all-Returns :
      (s : Inner S C) (pkts : List (List ℕ))
      → All HasHeader pkts
      → IsOrderly s
      → Returns IsOrderly (emit_all net chan s pkts)
  unfolding emit_all emit
  emit_all-Returns s [] hs h = (s, refl, h)
  emit_all-Returns s (pkt ∷ rest) (hp, hs) h =
      let (port, e) = returned (outbound_src_port pkt) (outbound_src_port-ne-panic pkt) in
      rw e (
        >>=-Returns (emit_flow net chan s pkt (flow_of s.nat port)) _
          (emit_flow-Returns s pkt (flow_of s.nat port) hp h) λ u hu. emit_all-Returns u rest hs hu)

  -- A cycle that starts orderly returns, orderly again.
  pub poll-Returns :
      (s : Inner S C) (ts : ℕ)
      → SendsHeaders net
      → IsOrderly s
      → Returns (λ (r : Inner S C × Bool). IsOrderly r.0) (poll net chan s ts)
  unfolding poll
  poll-Returns s ts sends h =
      let s0 = record s { tun_rx = [] } in
      >>=-Returns (process_all net chan s0 s.tun_rx) _
        (process_all-Returns net chan s0 s.tun_rx
          (record { distinct = h.distinct; headers = h.headers }))
        λ fed hf.
          let r = net.poll_iface fed.sockets ts fed.device in
          let driven = record fed { sockets = r.0; device = r.1 } in
          let hd : IsOrderly driven = record {
            distinct = hf.distinct;
            headers = sends fed.sockets ts fed.device hf.headers;
          } in
          let handles = map (λ e. e.0) driven.active in
          >>=-Returns (service_all net chan driven r.2 handles) _
            (service_all-Returns driven r.2 handles
              (hd, keys-AreKeys ℕ_discrete driven.active hd.distinct))
            λ u hu.
              let cleared = record u.0 { device = record u.0.device { tx = [] } } in
              >>=-Returns (emit_all net chan cleared u.0.device.tx) _
                (emit_all-Returns cleared u.0.device.tx hu.headers
                  (record { distinct = hu.distinct; headers = tt }))
                λ d hdr. ((d, u.1), refl, hdr)
