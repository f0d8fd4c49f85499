-- ===== src/Stack/Core/Relayed.antt =====
-- What the service of a socket moves between smoltcp and the relay task.
use gravital_share.Common.{
  ℕ, ◌≡◌, ◌≢◌, ◌⊎◌, List, [], ◌∷◌, ◌++◌, none, some, true, false, ◌&&◌, length, ℕ_discrete,
}
use gravital_share.Common.Addr.{SocketAddr}
use gravital_share.Common.Assoc
use gravital_share.Stack.Device.{Mpsc, VirtualConnectionPeer}
use gravital_share.Stack.State.{Smoltcp, Inner}

-- A channel is a queue: its messages, first the one that is received next.
pub record IsQueue {C : Type 0} (chan : Mpsc C) (messages : C → List (List ℕ)) : Type 0 where
  pub empty : (c : C) → messages c ≡ [] → chan.try_recv c ≡ none
  pub next :
      (c : C) (m : List ℕ) (ms : List (List ℕ))
      → messages c ≡ m ∷ ms
      → (c' : C) × (chan.try_recv c ≡ some (m, c')) × (messages c' ≡ ms)
  pub size : (c : C) → chan.len c ≡ length (messages c)

module _ {S C : Type 0} (net : Smoltcp S) (chan : Mpsc C) (messages : C → List (List ℕ)) where
  -- The socket behind the writes of some messages.
  abbrev pub sends : S → ℕ → List (List ℕ) → S
  sends sockets handle [] = sockets
  sends sockets handle (m ∷ ms) = sends (net.send_slice sockets handle m) handle ms

  -- Messages from the front of the channel have gone to the socket, in order, and the loop has
  -- stopped because there are no more, or the socket takes no more.
  pub record Pumped (sockets : S) (handle : ℕ) (rx : C) (sockets' : S) (rx' : C) : Type 0 where
    pub sent : List (List ℕ)
    pub in_order : messages rx ≡ sent ++ messages rx'
    pub written : sockets' ≡ sends sockets handle sent
    pub stopped : (messages rx' ≡ []) ⊎ (net.can_send sockets' handle ≡ false)

  -- The bytes that the socket has received are consumed and offered to the relay task once, unless
  -- there are none.
  abbrev pub Taken : S → ℕ → C → S → C → Type 0
  Taken sockets handle tx sockets' tx' =
      ((net.can_recv sockets handle ≡ false) × (sockets' ≡ sockets) × (tx' ≡ tx))
      ⊎ ((net.can_recv sockets handle ≡ true)
          × (sockets' ≡ (net.recv sockets handle).1)
          × (((net.recv sockets handle).0 ≡ []) × (tx' ≡ tx)
              ⊎ (tx' ≡ chan.try_send tx (net.recv sockets handle).0)))

  -- What a service of the socket `handle`, active for `e`, does.
  pub record Serviced (s s' : Inner S C) (handle : ℕ) (e : SocketAddr × VirtualConnectionPeer C)
      : Type 0 where
    pub middle : S
    pub written : S
    pub tx : C
    pub rx : C
    pub taken : Taken s.sockets handle e.1.tx middle tx
    pub pumped : Pumped middle handle e.1.rx written rx
    pub closing :
        (((net.can_send written handle && chan.is_closed rx) ≡ true)
          × (s'.sockets ≡ net.close written handle))
        ⊎ (((net.can_send written handle && chan.is_closed rx) ≡ false) × (s'.sockets ≡ written))
    pub kept : Assoc.get ℕ_discrete s'.active handle ≡ some (e.0, record { rx = rx; tx = tx })
    pub others :
        (j : ℕ) → handle ≢ j → Assoc.get ℕ_discrete s'.active j ≡ Assoc.get ℕ_discrete s.active j
    pub rest : s' ≡ record s { sockets = s'.sockets; active = s'.active }
