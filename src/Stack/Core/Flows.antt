-- ===== src/Stack/Core/Flows.antt =====
-- The steps of a poll cycle behind the packets from TUN, and the cycle itself.
use gravital_share.Common.{
  ℕ, ◌≡◌, inl, inr, refl, sym, ◌∙◌, List, [], ◌∷◌, ◌++◌, map, Option, none, some, Bool, true, false,
  Bool-cases, Option-cases, if◌then◌else◌, ℕ_discrete,
}
use gravital_share.Common.Assoc
use gravital_share.Common.Assoc.{get-remove_self}
use gravital_share.Common.Outcome.{ret, panic, ◌>>=◌, >>=-eq-ret}
use gravital_share.Stack.Nat.{Flow}
use gravital_share.Stack.Device.{Mpsc}
use gravital_share.Stack.State.{Smoltcp, Inner, outbound_src_port, flow_of, readdress}
use gravital_share.Stack.Core.{
  process_all, service_socket, vport_of_handle, free_vport, remove_socket, service_all, emit_flow,
  emit, emit_all, poll,
}
use gravital_share.Stack.Core.Kept.{
  IsInner, Kept, ret_inj, same-Kept, trans-Kept, moved, process_all-Kept,
}

module _ {S C : Type 0} (net : Smoltcp S) (chan : Mpsc C) where
  service_socket-Kept :
      (s : Inner S C) (handle : ℕ) → IsInner s → Kept s (service_socket net chan s handle).0
  unfolding service_socket
  service_socket-Kept s handle h = elim (Bool-cases (net.is_done s.sockets handle)) [
    | inl b ↦ rw (b, service_socket) (same-Kept s s h refl refl)
    | inr b ↦ elim (Option-cases (Assoc.get ℕ_discrete s.active handle)) [
      | inl e ↦ rw (b, e, service_socket) (same-Kept s s h refl refl)
      | inr (x, e) ↦
          rw (b, e, service_socket)
            (record {
              inner = record { nat_valid = h.nat_valid; queue = h.queue };
              flows = λ k q f. f;
            })
    ]
  ]

  -- The handle is no longer active when its port is looked up, so no port is freed.
  remove_socket-Kept :
      (s s' : Inner S C) (handle : ℕ)
      → IsInner s
      → remove_socket net chan s handle ≡ ret s'
      → Kept s s'
  unfolding remove_socket vport_of_handle free_vport
  remove_socket-Kept s s' handle h e = elim (Option-cases (Assoc.get ℕ_discrete s.active handle)) [
    | inl n ↦ absurd (cc (remove_missing n))
    | inr (x, n) ↦
        let u = record s {
          active = Assoc.remove ℕ_discrete s.active handle;
          sockets = net.remove s.sockets handle;
        } in
        moved s s' (ret_inj u s' (sym (remove_found x n) ∙ e)) (same-Kept s u h refl refl)
  ]
    where
      remove_missing :
          Assoc.get ℕ_discrete s.active handle ≡ none → remove_socket net chan s handle ≡ panic
      remove_missing n = rw (n, remove_socket) refl

      remove_found :
          (x : _)
          → Assoc.get ℕ_discrete s.active handle ≡ some x
          → remove_socket net chan s handle
            ≡ ret (record s {
              active = Assoc.remove ℕ_discrete s.active handle;
              sockets = net.remove s.sockets handle;
            })
      remove_found x n =
          rw (n, remove_socket)
            (rw (get-remove_self ℕ_discrete s.active handle, vport_of_handle) refl)

  service_all-Kept :
      (s : Inner S C) (more : Bool) (handles : List ℕ) (r : Inner S C × Bool)
      → IsInner s
      → service_all net chan s more handles ≡ ret r
      → Kept s r.0
  unfolding service_all
  service_all-Kept s more [] r h e =
      let same : s ≡ r.0 = cc e in moved s r.0 same (same-Kept s s h refl refl)
  service_all-Kept s more (handle ∷ rest) r h e =
      let u = service_socket net chan s handle in
      let first = service_socket-Kept s handle h in
      elim u.1
          as (λ b.
            ((if b
                then (do s' ← remove_socket net chan u.0 handle; service_all net chan s' true rest)
                else service_all net chan u.0 more rest)
              ≡ ret r)
            → Kept s r.0) [
              | true ↦ λ g.
                  let (v, ev, eg) = >>=-eq-ret (remove_socket net chan u.0 handle) _ g in
                  let second =
                    trans-Kept s u.0 v first (remove_socket-Kept u.0 v handle first.inner ev) in
                  trans-Kept s v r.0 second (service_all-Kept v true rest r second.inner eg)
              | false ↦
                  λ g. trans-Kept s u.0 r.0 first (service_all-Kept u.0 more rest r first.inner g)
            ]
        e

  emit_flow-Kept :
      (s s' : Inner S C) (pkt : List ℕ) (k : Option Flow)
      → IsInner s
      → emit_flow net chan s pkt k ≡ ret s'
      → Kept s s'
  unfolding emit_flow
  emit_flow-Kept s s' pkt none h e = moved s s' (cc e) (same-Kept s s h refl refl)
  emit_flow-Kept s s' pkt (some k) h e =
      let (pkt', _, eg) = >>=-eq-ret (readdress pkt k.real_dst.ip k.real_dst.port) _ e in
      let u = record s { tun_tx = s.tun_tx ++ (pkt' ∷ []) } in
      moved s s' (ret_inj u s' eg) (same-Kept s u h refl refl)

  emit-Kept :
      (s s' : Inner S C) (pkt : List ℕ) → IsInner s → emit net chan s pkt ≡ ret s' → Kept s s'
  unfolding emit
  emit-Kept s s' pkt h e =
      let (port, _, eg) = >>=-eq-ret (outbound_src_port pkt) _ e in
      emit_flow-Kept s s' pkt (flow_of s.nat port) h eg

  emit_all-Kept :
      (s s' : Inner S C) (pkts : List (List ℕ))
      → IsInner s
      → emit_all net chan s pkts ≡ ret s'
      → Kept s s'
  unfolding emit_all
  emit_all-Kept s s' [] h e = moved s s' (cc e) (same-Kept s s h refl refl)
  emit_all-Kept s s' (pkt ∷ rest) h e =
      let (u, eu, eg) = >>=-eq-ret (emit net chan s pkt) _ e in
      let first = emit-Kept s u pkt h eu in
      trans-Kept s u s' first (emit_all-Kept u s' rest first.inner eg)

  -- From a valid NAT table and at most 128 connections waiting, a poll cycle that returns
  -- keeps both, and every flow that had a virtual port has the same port after it: no cycle
  -- frees a port, also not when it removes the closed socket of the flow.
  pub poll-Kept :
      (s s' : Inner S C) (ts : ℕ) (more : Bool)
      → IsInner s
      → poll net chan s ts ≡ ret (s', more)
      → Kept s s'
  unfolding poll
  poll-Kept s s' ts more h e =
      let s0 = record s { tun_rx = [] } in
      let (fed, e1, g1) = >>=-eq-ret (process_all net chan s0 s.tun_rx) _ e in
      let k0 : Kept s s0 = same-Kept s s0 h refl refl in
      let k1 = trans-Kept s s0 fed k0 (process_all-Kept net chan s0 fed s.tun_rx k0.inner e1) in
      let r = net.poll_iface fed.sockets ts fed.device in
      let driven = record fed { sockets = r.0; device = r.1 } in
      let k2 = trans-Kept s fed driven k1 (same-Kept fed driven k1.inner refl refl) in
      let handles = map (λ e. e.0) driven.active in
      let (u, e3, g3) = >>=-eq-ret (service_all net chan driven r.2 handles) _ g1 in
      let k3 = trans-Kept s driven u.0 k2 (service_all-Kept driven r.2 handles u k2.inner e3) in
      let cleared = record u.0 { device = record u.0.device { tx = [] } } in
      let k4 = trans-Kept s u.0 cleared k3 (same-Kept u.0 cleared k3.inner refl refl) in
      let (d, e5, g5) = >>=-eq-ret (emit_all net chan cleared u.0.device.tx) _ g3 in
      let k5 = trans-Kept s cleared d k4 (emit_all-Kept cleared d u.0.device.tx k4.inner e5) in
      moved s s' (cc g5) k5
