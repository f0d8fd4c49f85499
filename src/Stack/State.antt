-- ===== src/Stack/State.antt =====
-- engine/crates/gravital-stack/src/stack.rs: the state under the lock, what it calls of smoltcp, and
-- the functions of it that need neither.
use gravital_share.Common.{
  ℕ, zero, suc, ◌+◌, List, [], ◌∷◌, Option, none, some, Bool, true, false, not, ◌||◌, ltb, ◌/◌,
  ◌==◌, if◌then◌else◌, length,
}
use gravital_share.Common.Addr.{IpAddr, v4, v6, SocketAddr, SocketAddr-discrete}
use gravital_share.Common.Outcome.{Outcome, ret, ◌>>=◌}
use gravital_share.Common.Bytes.{at, u16_at}
use gravital_share.Stack.Nat.{NatTable, Flow, lookup_reverse, insert_flow}
use gravital_share.Stack.Rewrite.{header_length, rewrite_outbound}
use gravital_share.Stack.Device.{TunVirtualDevice, VirtualConnection, VirtualConnectionPeer}

-- What stack.rs calls of smoltcp, over its own state `S` (the interface and the socket set). The
-- operations on a handle panic in smoltcp when the set does not hold it. stack.rs passes only
-- handles of `active`, each of which the set holds: it is added to both in `create_listener` and
-- removed from both in `poll`.
pub record Smoltcp (S : Type 0) : Type 0 where
  -- a fresh interface with the address IFACE_IP that accepts packets for any destination
  pub init : S
  -- `Interface::poll`
  pub poll_iface : S → ℕ → TunVirtualDevice → S × TunVirtualDevice × Bool
  -- a new TCP socket that listens on the port, added to the set; `none` when `listen` fails
  pub listen : S → ℕ → Option (ℕ × S)
  -- `state() == Closed || state() == TimeWait`
  pub is_done : S → ℕ → Bool
  pub can_recv : S → ℕ → Bool
  pub can_send : S → ℕ → Bool
  -- `recv`: the bytes that the closure sees and consumes
  pub recv : S → ℕ → List ℕ × S
  pub send_slice : S → ℕ → List ℕ → S
  pub close : S → ℕ → S
  pub remove : S → ℕ → S

abbrev pub pending_cap : ℕ
pending_cap = 128

-- IFACE_IP with a port.
abbrev pub iface_addr : ℕ → SocketAddr
iface_addr vport = record { ip = v4 (record { a = 10; b = 0; c = 2; d = 2 }); port = vport }

pub record Inner (S C : Type 0) : Type 0 where
  pub sockets : S
  pub device : TunVirtualDevice
  pub nat : NatTable
  pub active : List (ℕ × (SocketAddr × VirtualConnectionPeer C))
  pub pending : List (VirtualConnection C)
  pub tun_tx : List (List ℕ)
  pub tun_rx : List (List ℕ)

-- `nat.insert`: `insert_flow` always has a result on a valid table, so the first arm is not met.
unfoldable pub nat_insert : NatTable → Flow → NatTable × Option ℕ
nat_insert t k = elim (insert_flow t k) [ none ↦ (t, none) | some r ↦ r ]

-- `active.values().any(|(rd, _)| *rd == real_dst)`
unfoldable pub any_remote : {P : Type 0} → List (ℕ × (SocketAddr × P)) → SocketAddr → Bool
any_remote [] rd = false
any_remote ((h, (a, p)) ∷ rest) rd = elim (SocketAddr-discrete a rd) [
  | yes _ ↦ true
  | no _ ↦ any_remote rest rd
]

-- Source port of an outbound packet: the virtual port.
unfoldable pub outbound_src_port : List ℕ → Outcome (Option ℕ)
outbound_src_port pkt = if ltb (length pkt) 20 then ret none else do
  b0 ← at pkt 0
  proto ← at pkt 9
  if not (b0 / 16 == 4) || not (proto == 6) then ret none else do
    ihl ← header_length pkt
    if ltb (length pkt) (ihl + 4) then ret none else do port ← u16_at pkt ihl; ret (some port)

-- The first port from `vport` on, of `n` ports, whose flow goes to `rd`.
unfoldable pub first_vport : ℕ → ℕ → NatTable → SocketAddr → Option ℕ
first_vport zero vport t rd = none
first_vport (suc n) vport t rd =
    let rest = first_vport n (vport + 1) t rd in
    elim (lookup_reverse t vport) [
      | none ↦ rest
      | some k ↦ elim (SocketAddr-discrete k.real_dst rd) [ yes _ ↦ some vport | no _ ↦ rest ]
    ]

-- `and_then(|vp| self.nat.lookup_reverse(vp))`
unfoldable pub flow_of : NatTable → Option ℕ → Option Flow
flow_of t none = none
flow_of t (some vp) = lookup_reverse t vp

-- The source becomes the real remote; an IPv6 remote leaves the packet as it is.
unfoldable pub readdress : List ℕ → IpAddr → ℕ → Outcome (List ℕ)
readdress pkt (v4 ip) port = do r ← rewrite_outbound pkt ip port; ret r.0
readdress pkt (v6 _) port = ret pkt
