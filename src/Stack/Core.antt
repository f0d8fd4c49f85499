-- ===== src/Stack/Core.antt =====
-- engine/crates/gravital-stack/src/stack.rs: the poll cycle on the locked state. smoltcp and
-- tokio's channels are the parameters `net` and `chan`; a socket handle is a number. The hash map
-- of active sockets is an association list, read in its order.
pub mod Kept
pub mod Flows
pub mod Total
pub mod Cycle
pub mod History
pub mod Packets
pub mod Translate
pub mod Relayed
use gravital_share.Common.{
  ℕ, zero, suc, ◌+◌, ◌-◌, List, [], ◌∷◌, ◌++◌, map, Option, none, some, Bool, true, false, not,
  ◌||◌, ◌&&◌, ltb, ◌/◌, ◌==◌, if◌then◌else◌, length, ℕ_discrete,
}
use gravital_share.Common.Assoc
use gravital_share.Common.Addr.{Ipv4Addr, IpAddr, v4, v6, SocketAddr, SocketAddr-discrete}
use gravital_share.Common.Outcome.{Outcome, ret, panic, ◌>>=◌, Result, ok, err}
use gravital_share.Common.Bytes.{at, u16_at}
use gravital_share.Stack.Errors.{StackError, invalid_mtu}
use gravital_share.Stack.Nat
use gravital_share.Stack.Nat.{
  NatTable, Flow, lookup_forward, lookup_reverse, insert_flow, remove_by_vport,
}
use gravital_share.Stack.State.{
  Smoltcp, pending_cap, iface_addr, Inner, nat_insert, any_remote, outbound_src_port, first_vport,
  flow_of, readdress,
}
use gravital_share.Stack.Rewrite.{
  header_length, rewrite_inbound, rewrite_outbound, extract_tcp_addrs, is_tcp_syn,
}
use gravital_share.Stack.Device
use gravital_share.Stack.Device.{
  orphaned, TunVirtualDevice, Mpsc, VirtualConnection, VirtualConnectionPeer, pair,
}

module _ {S C : Type 0} (net : Smoltcp S) (chan : Mpsc C) where
  pub new_inner : ℕ → Inner S C
  new_inner mtu = record {
    sockets = net.init;
    device = Device.new mtu;
    nat = Nat.new;
    active = [];
    pending = [];
    tun_tx = [];
    tun_rx = [];
  }

  -- A connection that does not fit the queue is dropped, which closes its channels; its socket stays
  -- active.
  pub create_listener : Inner S C → ℕ → SocketAddr → Inner S C
  create_listener s vport real_remote = elim (net.listen s.sockets vport) [
    | none ↦ s
    | some r ↦
        let ends = pair chan (iface_addr vport) real_remote in
        record s {
          sockets = r.1;
          active = Assoc.insert ℕ_discrete s.active r.0 (
            real_remote,
            if ltb (length s.pending) pending_cap then ends.1 else orphaned chan ends.1,
          );
          pending =
              if ltb (length s.pending) pending_cap then s.pending ++ (ends.0 ∷ []) else s.pending;
        }
  ]

  -- A SYN allocates a port (`none` when the table is full), and a listener unless a socket to the
  -- same remote is active.
  pub admitted : Inner S C → Flow → NatTable × Option ℕ → Inner S C × Option ℕ
  admitted s k (t, none) = (record s { nat = t }, none)
  admitted s k (t, some vp) =
      let s' = record s { nat = t } in
      (if any_remote s.active k.real_dst then s' else create_listener s' vp k.real_dst, some vp)

  pub admit_syn : Inner S C → Flow → Inner S C × Option ℕ
  admit_syn s k = admitted s k (nat_insert s.nat k)

  -- The port of a packet: `admit_syn` for a SYN, a lookup for any other.
  pub allocate : Inner S C → Flow → Bool → Inner S C × Option ℕ
  allocate s k true = admit_syn s k
  allocate s k false = (s, lookup_forward s.nat k)

  -- The rewritten packet goes to the device's receive queue.
  pub deliver : Inner S C → Option ℕ → List ℕ → Outcome (Inner S C)
  deliver s none raw = ret s
  deliver s (some vport) raw = do
    r ← rewrite_inbound raw vport
    ret (
        if r.1 then record s { device = record s.device { rx = s.device.rx ++ (r.0 ∷ []) } } else s)

  pub process_inbound : Inner S C → List ℕ → Outcome (Inner S C)
  process_inbound s raw = do
    addrs ← extract_tcp_addrs raw
    elim addrs [
      | none ↦ ret s
      | some e ↦ do
        syn ← is_tcp_syn raw
        let r = allocate s (record { src = e.0; real_dst = e.1 }) syn
        deliver r.0 r.1 raw
    ]

  -- The loop of `poll` that empties `tun_rx`.
  pub process_all : Inner S C → List (List ℕ) → Outcome (Inner S C)
  process_all s [] = ret s
  process_all s (raw ∷ rest) = do s' ← process_inbound s raw; process_all s' rest

  -- `while socket.can_send()`: one message of the channel per round.
  pub pump : ℕ → S → ℕ → C → S × C
  pump zero sockets handle rx = (sockets, rx)
  pump (suc n) sockets handle rx =
      if net.can_send sockets handle
      then elim (chan.try_recv rx) [
        | none ↦ (sockets, rx)
        | some m ↦ pump n (net.send_slice sockets handle m.0) handle m.1
      ]
      else (sockets, rx)

  -- The received bytes go to the relay task, unless there are none.
  pub take_received : S → ℕ → C → S × C
  take_received sockets handle tx =
      if net.can_recv sockets handle
      then (let r = net.recv sockets handle in
          (r.1, elim r.0 [ [] ↦ tx | b ∷ bs ↦ chan.try_send tx (b ∷ bs) ]))
      else (sockets, tx)

  pub service_socket : Inner S C → ℕ → Inner S C × Bool
  service_socket s handle =
      if net.is_done s.sockets handle
      then (s, true)
      else elim (Assoc.get ℕ_discrete s.active handle) [
        | none ↦ (s, true)
        | some e ↦
            let received = take_received s.sockets handle e.1.tx in
            let sent = pump (suc (chan.len e.1.rx)) received.0 handle e.1.rx in
            let sockets' =
              if net.can_send sent.0 handle && chan.is_closed sent.1
              then net.close sent.0 handle
              else sent.0 in
            (
              record s {
                sockets = sockets';
                active =
                    Assoc.insert ℕ_discrete s.active handle
                      (e.0, record { rx = sent.1; tx = received.1 });
              },
              false,
            )
      ]

  -- The ports from 10,000 up to 60,000.
  pub vport_of_handle : Inner S C → ℕ → Option ℕ
  vport_of_handle s handle = elim (Assoc.get ℕ_discrete s.active handle) [
    | none ↦ none
    | some e ↦ first_vport 50000 10000 s.nat e.0
  ]

  pub free_vport : NatTable → Option ℕ → NatTable
  free_vport t none = t
  free_vport t (some vp) = remove_by_vport t vp

  -- The body of the `if closed`; `unwrap` panics on a handle that is not active.
  pub remove_socket : Inner S C → ℕ → Outcome (Inner S C)
  remove_socket s handle = elim (Assoc.get ℕ_discrete s.active handle) [
    | none ↦ panic
    | some e ↦
        let s' = record s { active = Assoc.remove ℕ_discrete s.active handle } in
        ret (record s' {
          nat = free_vport s'.nat (vport_of_handle s' handle);
          sockets = net.remove s'.sockets handle;
        })
  ]

  -- The service loop over the handles.
  pub service_all : Inner S C → Bool → List ℕ → Outcome (Inner S C × Bool)
  service_all s need_more [] = ret (s, need_more)
  service_all s need_more (handle ∷ rest) =
      let r = service_socket s handle in
      if r.1
      then (do s' ← remove_socket r.0 handle; service_all s' true rest)
      else service_all r.0 need_more rest

  -- A packet goes out when a flow is known for its port, its source readdressed.
  pub emit_flow : Inner S C → List ℕ → Option Flow → Outcome (Inner S C)
  emit_flow s pkt none = ret s
  emit_flow s pkt (some k) = do
    pkt' ← readdress pkt k.real_dst.ip k.real_dst.port
    ret (record s { tun_tx = s.tun_tx ++ (pkt' ∷ []) })

  -- A packet of the device's transmit queue.
  pub emit : Inner S C → List ℕ → Outcome (Inner S C)
  emit s pkt = do port ← outbound_src_port pkt; emit_flow s pkt (flow_of s.nat port)

  pub emit_all : Inner S C → List (List ℕ) → Outcome (Inner S C)
  emit_all s [] = ret s
  emit_all s (pkt ∷ rest) = do s' ← emit s pkt; emit_all s' rest

  -- `Inner::poll` at the time `ts`.
  pub poll : Inner S C → ℕ → Outcome (Inner S C × Bool)
  poll s ts = do
    fed ← process_all (record s { tun_rx = [] }) s.tun_rx
    let r = net.poll_iface fed.sockets ts fed.device
    let driven = record fed { sockets = r.0; device = r.1 }
    serviced ← service_all driven r.2 (map (λ e. e.0) driven.active)
    let s' = serviced.0
    drained ← emit_all (record s' { device = record s'.device { tx = [] } }) s'.device.tx
    ret (drained, serviced.1)

  -- The public interface of `UserspaceStack`.
  unfoldable pub new_stack : ℕ → Result StackError (Inner S C)
  new_stack mtu = if ltb mtu 576 || ltb 9000 mtu then err (invalid_mtu mtu) else ok (new_inner mtu)

  unfoldable pub feed_inbound : Inner S C → List ℕ → Inner S C
  feed_inbound s pkt = record s { tun_rx = s.tun_rx ++ (pkt ∷ []) }

  unfoldable pub drain_outbound : Inner S C → Inner S C × Option (List ℕ)
  drain_outbound s = elim s.tun_tx [
    | [] ↦ (s, none)
    | pkt ∷ rest ↦ (record s { tun_tx = rest }, some pkt)
  ]

  unfoldable pub accept : Inner S C → Inner S C × Option (VirtualConnection C)
  accept s = elim s.pending [
    | [] ↦ (s, none)
    | conn ∷ rest ↦ (record s { pending = rest }, some conn)
  ]
