-- ===== src/Stack/Device.antt =====
-- engine/crates/gravital-stack/src/device.rs and connection.rs: the in-memory device that smoltcp
-- drives, and the pair of channels between a virtual connection and the poll loop. A channel is
-- tokio's; its state is the type `C`.
use gravital_share.Common.{ℕ, List, [], ◌∷◌, ◌++◌, Option, none, some, Bool, true, false, replicate}
use gravital_share.Common.Addr.{SocketAddr}

pub record TunVirtualDevice : Type 0 where
  pub rx : List (List ℕ)
  pub tx : List (List ℕ)
  pub mtu : ℕ

unfoldable pub new : ℕ → TunVirtualDevice
new mtu = record { rx = []; tx = []; mtu = mtu }

unfoldable pub has_rx : TunVirtualDevice → Bool
has_rx d = elim d.rx [ [] ↦ false | _ ∷ _ ↦ true ]

-- The packet of the `RxToken`; the `TxToken` beside it is `consume_tx`.
unfoldable pub receive : TunVirtualDevice → Option (List ℕ × TunVirtualDevice)
receive d = elim d.rx [ [] ↦ none | pkt ∷ rest ↦ some (pkt, record d { rx = rest }) ]

-- `VirtualTxToken::consume`: `f` fills a zeroed buffer of `len` bytes, which is then queued.
unfoldable pub consume_tx :
    {R : Type 0} → TunVirtualDevice → ℕ → (List ℕ → List ℕ × R) → TunVirtualDevice × R
consume_tx d len f = let r = f (replicate len 0) in (record d { tx = d.tx ++ (r.0 ∷ []) }, r.1)

-- The documented operations of `tokio::sync::mpsc`: a channel of a capacity, `try_send` (which
-- drops the message when it is full or closed), `try_recv`, `is_closed` and `len`; and what becomes
-- of a channel whose last sender, or whose receiver, is dropped.
pub record Mpsc (C : Type 0) : Type 0 where
  pub channel : ℕ → C
  pub try_send : C → List ℕ → C
  pub try_recv : C → Option (List ℕ × C)
  pub is_closed : C → Bool
  pub len : C → ℕ
  pub drop_sender : C → C
  pub drop_receiver : C → C

-- The ends of the two channels: `rx` is read and `tx` written by the one who holds the record.
pub record VirtualConnection (C : Type 0) : Type 0 where
  pub local : SocketAddr
  pub remote : SocketAddr
  pub rx : C
  pub tx : C

pub record VirtualConnectionPeer (C : Type 0) : Type 0 where
  pub rx : C
  pub tx : C

unfoldable pub pair :
    {C : Type 0} → Mpsc C → SocketAddr → SocketAddr → VirtualConnection C × VirtualConnectionPeer C
pair chan local remote =
    let a = chan.channel 256 in
    let b = chan.channel 256 in
    (record { local = local; remote = remote; rx = a; tx = b }, record { rx = b; tx = a })

-- The peer of a connection that is dropped: nobody writes what it reads, or reads what it writes.
unfoldable pub orphaned : {C : Type 0} → Mpsc C → VirtualConnectionPeer C → VirtualConnectionPeer C
orphaned chan peer = record { rx = chan.drop_sender peer.rx; tx = chan.drop_receiver peer.tx }
