-- ===== src/Engine/Session.antt =====
-- engine/crates/gravital-engine/src/session.rs: the session automaton. The text of a disconnect
-- is its bytes. A listener is named by a number; what `dispatch` does to the outside is the list
-- of the calls that it makes.
pub mod Automaton
pub mod Runs
pub mod Table
use gravital_share.Common.{
  ℕ, ◌+◌, ◌-◌, ◌*◌, ◌^◌, List, [], ◌∷◌, ◌++◌, Option, none, some, Bool, true, false, min,
  ℕ_discrete, map,
}
use mathlib.Core.Logic.{ite}
use gravital_share.Common.Addr.{SocketAddr, SocketAddr-discrete}
use gravital_share.Common.Outcome.{Result, ok, err}
use gravital_share.Engine.Errors.{EngineError, invalid_transition}

pub data SessionMode : Type 0 where
  client server : SessionMode

pub data StopReason : Type 0 where
  user_request fatal_error shutdown_request : StopReason

pub data FailureKind : Type 0 where
  permission_denied config_invalid proxy_unreachable dns_resolve_failed : FailureKind
  tun_open_failed engine_crashed upstream_vpn_down unknown : FailureKind

abbrev pub is_recoverable : FailureKind → Bool
is_recoverable proxy_unreachable = true
is_recoverable dns_resolve_failed = true
is_recoverable permission_denied = false
is_recoverable config_invalid = false
is_recoverable tun_open_failed = false
is_recoverable engine_crashed = false
is_recoverable upstream_vpn_down = false
is_recoverable unknown = false

-- `proxy_addr` is the one field of `PeerInfo`.
pub record PeerInfo : Type 0 where
  pub proxy_addr : SocketAddr

pub data SessionState : Type 0 where
  idle : SessionState
  preparing : SessionMode → SessionState
  connecting : SessionMode → ℕ → SessionState
  connected : SessionMode → PeerInfo → SessionState
  reconnecting : SessionMode → ℕ → Option (List ℕ) → SessionState
  stopping : SessionMode → StopReason → SessionState
  failed : SessionMode → FailureKind → Bool → SessionState

abbrev pub mode : SessionState → Option SessionMode
mode idle = none
mode (preparing m) = some m
mode (connecting m _) = some m
mode (connected m _) = some m
mode (reconnecting m _ _) = some m
mode (stopping m _) = some m
mode (failed m _ _) = some m

abbrev pub is_active : SessionState → Bool
is_active (connected _ _) = true
is_active idle = false
is_active (preparing _) = false
is_active (connecting _ _) = false
is_active (reconnecting _ _ _) = false
is_active (stopping _ _) = false
is_active (failed _ _ _) = false

pub data SessionEvent : Type 0 where
  user_start : SessionMode → SessionEvent
  user_stop user_acknowledge engine_prepared engine_ready engine_stopped : SessionEvent
  proxy_connected : PeerInfo → SessionEvent
  proxy_disconnected : Option (List ℕ) → SessionEvent
  network_lost network_restored : SessionEvent
  fatal : FailureKind → SessionEvent
  shutdown : SessionEvent

-- `s.mode().cloned().unwrap_or(SessionMode::Client)`
abbrev pub mode_or_client : SessionState → SessionMode
mode_or_client s = elim (mode s) [ none ↦ client | some m ↦ m ]

-- The match of `transition` on the pair, its last arm the error.
unfoldable pub arms : SessionState → SessionEvent → Result EngineError SessionState
arms idle (user_start m) = ok (preparing m)
arms (preparing m) engine_ready = ok (connecting m 1)
arms (preparing m) engine_prepared = ok (preparing m)
arms (connecting m attempt) (proxy_connected peer) = ok (connected m peer)
arms (connecting m attempt) network_lost = ok (reconnecting m attempt none)
arms (connecting m attempt) (proxy_disconnected _) = ok (reconnecting m attempt none)
arms (connected m peer) network_lost = ok (reconnecting m 1 none)
arms (connected m peer) (proxy_disconnected _) = ok (reconnecting m 1 none)
arms (connected m peer) user_stop = ok (stopping m user_request)
arms (reconnecting m attempt last) (proxy_connected peer) = ok (connected m peer)
arms (reconnecting m attempt last) user_stop = ok (stopping m user_request)
arms (stopping m reason) engine_stopped = ok idle
arms (failed m error r) user_acknowledge = ok idle
arms current event = err invalid_transition

-- The two `if let` before the match, then the match.
unfoldable pub transition : SessionState → SessionEvent → Result EngineError SessionState
transition s (fatal kind) = ok (failed (mode_or_client s) kind (is_recoverable kind))
transition s shutdown = ok (stopping (mode_or_client s) shutdown_request)
transition s e = arms s e

-- `next != current`, by the derived `PartialEq`.
pub SessionState-discrete : Discrete SessionState
SessionState-discrete = hlevel (ℕ_discrete, SocketAddr-discrete)

-- `listeners` names the closures registered, in their order.
pub record Session : Type 0 where
  pub state : SessionState
  pub listeners : List ℕ

unfoldable pub new : Session
new = record { state = idle; listeners = [] }

unfoldable pub force_idle : Session → Session
force_idle s = record s { state = idle }

unfoldable pub add_listener : Session → ℕ → Session
add_listener s f = record s { listeners = s.listeners ++ (f ∷ []) }

-- One call of a listener.
pub record Notice : Type 0 where
  pub listener : ℕ
  pub told : SessionState

-- `dispatch` behind its first statement, which has read the state as `current`: the new session, the
-- result, and the calls of listeners that it makes. No lock is held in between, so `s` may have
-- another state by then.
pub settle :
    Session → SessionState → SessionEvent → Session × Result EngineError (Unit {0}) × List Notice
settle s current event = elim (transition current event) [
  | err e ↦ (s, err e, [])
  | ok next ↦
      ite (SessionState-discrete next current) (s, ok tt, [])
        (
          record s { state = next },
          ok tt,
          map (λ f. record { listener = f; told = next }) s.listeners,
        )
]

-- `dispatch` when no other thread writes the state between its read and its write.
pub dispatch : Session → SessionEvent → Session × Result EngineError (Unit {0}) × List Notice
dispatch s event = settle s s.state event
