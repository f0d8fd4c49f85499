-- ===== src/Examples/Flows.antt =====
-- The stack with a flow, under calls, packets and the client loop.
use gravital_share.Common.{
  Option, length, map, List, ℕ, ◌++◌, ◌≡◌, refl, arith, [], ◌∷◌, true, false, some, none,
}
use gravital_share.Common.Addr.{SocketAddr, ipv4_of}
use gravital_share.Common.Outcome.{Returns, ret, Result, ok, err}
use gravital_share.Common.Assoc
use gravital_share.Stack.Nat
use gravital_share.Stack.Nat.{
  NatTable, Flow, lookup_forward, lookup_reverse, insert_flow, remove_by_vport,
}
use gravital_share.Stack.Nat.Invariant.{forward_stored_self}
use gravital_share.Tun.Errors.{TunError, closed}
use gravital_share.Engine.Runner.{new_metrics}
use gravital_share.Engine.Loop.{LoopEvent, ticked, begin, run_client_loop}
use gravital_share.Engine.Loop.Runs.{Quiet, run_client_loop-Quiet}
use gravital_share.Stack.Device.{TunVirtualDevice, Mpsc, VirtualConnectionPeer}
use gravital_share.Stack.State.{Smoltcp, Inner}
use gravital_share.Stack.Core.{new_inner, emit}
use gravital_share.Stack.Core.Kept.{IsInner, Kept}
use gravital_share.Stack.Core.Total.{SendsHeaders, IsOrderly}
use gravital_share.Stack.Core.History.{Call, feed, poll_at, drain, take, calls, history-Returns}
use gravital_share.Stack.Core.Packets.{flow_in}
use gravital_share.Common.Text.{codes}
use gravital_share.Stack.Core.Translate.{Fate, process_inbound-Fate, reply-readdressed}
use gravital_share.Stack.Rewrite.Outbound.{Outbound}
use gravital_share.Stack.Rewrite.Packets.{IsTcpPacket, dst_of}
use gravital_share.Examples.Packets.{syn_packet, syn_packet-IsTcpPacket}
use gravital_share.Examples.Tables.{remote, flow, table, table-IsNat}

-- A network whose sockets are all closed, and channels that are empty.
abbrev net : Smoltcp (Unit {0})
net = record {
  init = tt;
  poll_iface = λ s ts d. (s, d, false);
  listen = λ s vport. none;
  is_done = λ s handle. true;
  can_recv = λ s handle. false;
  can_send = λ s handle. false;
  recv = λ s handle. ([], s);
  send_slice = λ s handle bytes. s;
  close = λ s handle. s;
  remove = λ s handle. s;
}

abbrev chan : Mpsc (Unit {0})
chan = record {
  channel = λ n. tt;
  try_send = λ c m. c;
  try_recv = λ c. none;
  is_closed = λ c. true;
  len = λ c. 0;
  drop_sender = λ c. c;
  drop_receiver = λ c. c;
}

abbrev device : TunVirtualDevice
device = record { rx = []; tx = []; mtu = 1500 }

-- One socket is active, for the flow of the table.
abbrev before : Inner (Unit {0}) (Unit {0})
before = record {
  sockets = tt;
  device = device;
  nat = table;
  active = (0, (remote, record { rx = tt; tx = tt })) ∷ [];
  pending = [];
  tun_tx = [];
  tun_rx = [];
}

before-IsInner : IsInner before
before-IsInner = record { nat_valid = table-IsNat; queue = omega arith }

before-IsOrderly : IsOrderly before
unfolding Assoc.get
before-IsOrderly = record { distinct = (refl, tt); headers = tt }

net-SendsHeaders : SendsHeaders net
net-SendsHeaders sockets ts d h = h

-- The answer of smoltcp, from the port 10000.
abbrev reply : List ℕ
reply =
    0x45 ∷ 0 ∷ 0 ∷ 40 ∷ 0 ∷ 1 ∷ 0 ∷ 0 ∷ 64 ∷ 6 ∷ 0 ∷ 0 ∷ 93 ∷ 184 ∷ 216 ∷ 34 ∷ 10 ∷ 0 ∷ 0 ∷ 2 ∷ 0x27
    ∷ 0x10 ∷ 0x30 ∷ 0x39 ∷ 0 ∷ 0 ∷ 0 ∷ 1 ∷ 0 ∷ 0 ∷ 0 ∷ 2 ∷ 0x50 ∷ 0x12 ∷ 255 ∷ 255 ∷ 0 ∷ 0 ∷ 0 ∷ 0
    ∷ []

reply-IsTcpPacket : IsTcpPacket reply
reply-IsTcpPacket = record {
  bytes = omega arith;
  version = refl;
  protocol = refl;
  header = omega arith;
  segment = omega arith;
  small = omega arith;
}

-- A packet without a header is fed; later a whole one.
abbrev first_calls : List Call
first_calls = feed (0x40 ∷ []) ∷ poll_at 0 ∷ []

abbrev later_calls : List Call
later_calls = feed syn_packet ∷ poll_at 1 ∷ drain ∷ take ∷ []

history-Returns_example :
    Returns
      (λ s. IsInner s × Returns (Kept s) (calls net chan s later_calls))
      (calls net chan (new_inner net chan 1500) first_calls)
history-Returns_example = history-Returns net chan 1500 first_calls later_calls net-SendsHeaders

process_inbound-Fate_example : Fate net chan before syn_packet
process_inbound-Fate_example =
    process_inbound-Fate net chan before syn_packet before-IsInner syn_packet-IsTcpPacket

before-knows : lookup_forward before.nat (flow_in syn_packet) ≡ some 10000
unfolding lookup_forward
before-knows = forward_stored_self Nat.new flow 10000 10001

reply-readdressed_example :
    Returns
      (λ s'.
        (q : List ℕ) × (emit net chan s' reply ≡ ret (record s' { tun_tx = s'.tun_tx ++ (q ∷ []) }))
        × Outbound reply (ipv4_of syn_packet 16) (dst_of syn_packet).port q)
      (calls net chan before later_calls)
reply-readdressed_example =
    reply-readdressed net chan before syn_packet reply 10000 later_calls net-SendsHeaders
      before-IsInner before-IsOrderly syn_packet-IsTcpPacket reply-IsTcpPacket before-knows refl

-- An IPv4 header with the protocol TCP, a packet that is too short, and an error of the device.
abbrev delivered : List (Result TunError (List ℕ))
delivered =
    ok (0x45 ∷ 0 ∷ 0 ∷ 20 ∷ 0 ∷ 0 ∷ 0 ∷ 0 ∷ 64 ∷ 6 ∷ 0 ∷ 0 ∷ 10 ∷ 0 ∷ 0 ∷ 1 ∷ 10 ∷ 0 ∷ 0 ∷ 2 ∷ [])
    ∷ ok (1 ∷ [])
    ∷ err closed
    ∷ []

run_client_loop-Quiet_example :
    Returns
      (Quiet net chan before
        (begin net chan before new_metrics)
        (ticked 0 ∷ map LoopEvent.delivered delivered)
        5)
      (run_client_loop net chan
        (begin net chan before new_metrics)
        ((ticked 0 ∷ map LoopEvent.delivered delivered) ++ (ticked 5 ∷ [])))
run_client_loop-Quiet_example =
    run_client_loop-Quiet net chan before new_metrics (ticked 0 ∷ map LoopEvent.delivered delivered)
      5 net-SendsHeaders before-IsInner before-IsOrderly

-- A socket that receives two bytes at each poll and takes what it is given, and channels of
-- unlimited capacity.
abbrev busy : Smoltcp (List ℕ)
busy = record {
  init = [];
  poll_iface = λ s ts d. (s, d, false);
  listen = λ s vport. none;
  is_done = λ s handle. false;
  can_recv = λ s handle. true;
  can_send = λ s handle. true;
  recv = λ s handle. (codes "ok", s);
  send_slice = λ s handle bytes. s ++ bytes;
  close = λ s handle. s;
  remove = λ s handle. s;
}

abbrev received_next : List (List ℕ) → Option (List ℕ × List (List ℕ))
received_next [] = none
received_next (m ∷ ms) = some (m, ms)

abbrev queue : Mpsc (List (List ℕ))
queue = record {
  channel = λ n. [];
  try_send = λ c m. c ++ (m ∷ []);
  try_recv = received_next;
  is_closed = λ c. false;
  len = length;
  drop_sender = λ c. c;
  drop_receiver = λ c. c;
}

abbrev same : List (List ℕ) → List (List ℕ)
same c = c

abbrev entry : SocketAddr × VirtualConnectionPeer (List (List ℕ))
entry = (remote, record { rx = codes "a" ∷ codes "b" ∷ []; tx = [] })

abbrev served : Inner (List ℕ) (List (List ℕ))
served = record {
  sockets = [];
  device = device;
  nat = table;
  active = (0, entry) ∷ [];
  pending = [];
  tun_tx = [];
  tun_rx = [];
}
