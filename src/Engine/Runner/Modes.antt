-- ===== src/Engine/Runner/Modes.antt =====
-- Every interleaving of the engine's calls and of its tasks. `dispatch` of the session reads the
-- state under a read lock, releases it, and takes the write lock later.
use gravital_share.Common.{◌≡◌, List, ◌∷◌, ◌++◌, All, false}
use gravital_share.Engine.Session.{
  Session, SessionMode, SessionState, idle, preparing, connecting, connected, reconnecting,
  stopping, failed, user_request, tun_open_failed, PeerInfo, SessionEvent, user_start, user_stop,
  engine_ready, engine_stopped, proxy_connected, fatal, settle, force_idle,
}

-- The events that the engine dispatches.
pub data EngineEvent : SessionEvent → Type 0 where
  starts : (m : SessionMode) → EngineEvent (user_start m)
  stops : EngineEvent user_stop
  readies : EngineEvent engine_ready
  connects : (p : PeerInfo) → EngineEvent (proxy_connected p)
  fails : EngineEvent (fatal tun_open_failed)
  ends : EngineEvent engine_stopped

-- A dispatch that has read the state as `seen`, and has not written yet.
pub record Dispatching : Type 0 where
  pub seen : SessionState
  pub event : SessionEvent

-- What any thread does to the session at once. A dispatch is two steps, its read and what follows:
-- between them other threads may read, write and reset.
pub data Step : Session × List Dispatching → Session × List Dispatching → Type 0 where
  reads :
      (s : Session) (ds : List Dispatching) (e : SessionEvent)
      → EngineEvent e
      → Step (s, ds) (s, record { seen = s.state; event = e } ∷ ds)
  settles :
      (s : Session) (before after : List Dispatching) (d : Dispatching)
      → Step (s, before ++ (d ∷ after)) ((settle s d.seen d.event).0, before ++ after)
  resets : (s : Session) (ds : List Dispatching) → Step (s, ds) (force_idle s, ds)

infixl 30 ◌then◌
pub data Steps (s : Session × List Dispatching) : Session × List Dispatching → Type 0 where
  here : Steps s s
  ◌then◌ : {t u : Session × List Dispatching} → Steps s t → Step t u → Steps s u

-- The states of an engine's session.
abbrev pub IsEngineState : SessionState → Type 0
IsEngineState idle = Unit {0}
IsEngineState (preparing m) = Unit {0}
IsEngineState (connecting m n) = n ≡ 1
IsEngineState (connected m p) = Unit {0}
IsEngineState (reconnecting m n l) = ⊥
IsEngineState (stopping m r) = r ≡ user_request
IsEngineState (failed m k b) = (k ≡ tun_open_failed) × (b ≡ false)

-- The state that a dispatch has read, and its event, are the engine's.
abbrev IsPending : Dispatching → Type 0
IsPending d = IsEngineState d.seen × EngineEvent d.event

abbrev Inv : Session × List Dispatching → Type 0
Inv (s, ds) = IsEngineState s.state × All IsPending ds
