-- ===== src/Engine/Session/Table.antt =====
-- The table of docs/02-architecture/05-session-state-machine.md against `transition` of
-- engine/crates/gravital-engine/src/session.rs.
use gravital_share.Common.{ℕ, List, Option, none, some, ◌≡◌, ◌⊎◌, inl, inr, refl}
use gravital_share.Common.Outcome.{ok, err}
use gravital_share.Engine.Errors.{invalid_transition}
use gravital_share.Engine.Session.{
  SessionMode, PeerInfo, SessionState, idle, preparing, connecting, connected, reconnecting,
  stopping, failed, SessionEvent, user_start, user_stop, user_acknowledge, engine_prepared,
  engine_ready, engine_stopped, proxy_connected, proxy_disconnected, network_lost, network_restored,
  fatal, shutdown, arms, transition,
}
use gravital_share.Engine.Session.Automaton.{Legal}

-- The states as the document's table names them, without their fields.
pub data Phase : Type 0 where
  idle_row preparing_row connecting_row connected_row : Phase
  reconnecting_row stopping_row failed_row : Phase

abbrev pub phase_of : SessionState → Phase
phase_of idle = idle_row
phase_of (preparing _) = preparing_row
phase_of (connecting _ _) = connecting_row
phase_of (connected _ _) = connected_row
phase_of (reconnecting _ _ _) = reconnecting_row
phase_of (stopping _ _) = stopping_row
phase_of (failed _ _ _) = failed_row

-- The rows of the table in its order, below the diagram's transition to Failed from any state and
-- the table's last row, which are for every state.
abbrev pub documented : Phase → SessionEvent → Option Phase
documented s (fatal _) = some failed_row
documented s shutdown = some stopping_row
documented idle_row (user_start _) = some preparing_row
documented preparing_row engine_ready = some connecting_row
documented connecting_row (proxy_connected _) = some connected_row
documented connecting_row network_lost = some reconnecting_row
documented connected_row network_lost = some reconnecting_row
documented connected_row user_stop = some stopping_row
documented reconnecting_row (proxy_connected _) = some connected_row
documented reconnecting_row user_stop = some stopping_row
documented stopping_row engine_stopped = some idle_row
documented failed_row user_acknowledge = some idle_row
documented s e = none

-- The transitions that the code has and the document does not.
pub data Unlisted : SessionState → SessionEvent → SessionState → Type 0 where
  preparation : (m : SessionMode) → Unlisted (preparing m) engine_prepared (preparing m)
  attempt_cut :
      (m : SessionMode) (n : ℕ) (e : Option (List ℕ))
      → Unlisted (connecting m n) (proxy_disconnected e) (reconnecting m n none)
  connection_cut :
      (m : SessionMode) (p : PeerInfo) (e : Option (List ℕ))
      → Unlisted (connected m p) (proxy_disconnected e) (reconnecting m 1 none)

abbrev pub Listed : SessionState → SessionEvent → Type 0
Listed s e =
    (t : SessionState) × (transition s e ≡ ok t)
    × (documented (phase_of s) e ≡ some (phase_of t))
    × Legal s e t

abbrev pub Beyond : SessionState → SessionEvent → Type 0
Beyond s e =
    (t : SessionState) × (transition s e ≡ ok t)
    × (documented (phase_of s) e ≡ none)
    × Unlisted s e t

abbrev pub Refused : SessionState → SessionEvent → Type 0
Refused s e = (transition s e ≡ err invalid_transition) × (documented (phase_of s) e ≡ none)

-- Every state and event is of one of three kinds. It is a row of the documented table (or a fatal
-- error, from any state): `transition` accepts it and leads to the state of the row, with the
-- fields that `Legal` gives. Or it is one of three pairs that the document does not list and
-- `transition` accepts all the same: EnginePrepared while preparing, and ProxyDisconnected while
-- connecting or connected. Or the document does not list it and `transition` refuses it.
pub transition-cases :
    (s : SessionState) (e : SessionEvent) → Listed s e ⊎ (Beyond s e ⊎ Refused s e)
unfolding transition arms
transition-cases s (fatal k) = inl (_, refl, refl, Legal.broken s k refl)
transition-cases s shutdown = inl (_, refl, refl, Legal.forced s refl)
transition-cases idle (user_start m) = inl (_, refl, refl, Legal.start m refl)
transition-cases (preparing m) engine_ready = inl (_, refl, refl, Legal.ready m refl)
transition-cases (connecting m n) (proxy_connected p) =
    inl (_, refl, refl, Legal.first_connect m n p refl)
transition-cases (connecting m n) network_lost = inl (_, refl, refl, Legal.first_loss m n refl)
transition-cases (connected m p) network_lost = inl (_, refl, refl, Legal.loss m p refl)
transition-cases (connected m p) user_stop = inl (_, refl, refl, Legal.stop m p refl)
transition-cases (reconnecting m n l) (proxy_connected p) =
    inl (_, refl, refl, Legal.again m n l p refl)
transition-cases (reconnecting m n l) user_stop = inl (_, refl, refl, Legal.give_up m n l refl)
transition-cases (stopping m r) engine_stopped = inl (_, refl, refl, Legal.stopped m r refl)
transition-cases (failed m k b) user_acknowledge =
    inl (_, refl, refl, Legal.acknowledged m k b refl)
transition-cases (preparing m) engine_prepared = inr (inl (_, refl, refl, preparation m))
transition-cases (connecting m n) (proxy_disconnected e) =
    inr (inl (_, refl, refl, attempt_cut m n e))
transition-cases (connected m p) (proxy_disconnected e) =
    inr (inl (_, refl, refl, connection_cut m p e))
transition-cases idle network_restored = inr (inr (refl, refl))
transition-cases (preparing m) network_restored = inr (inr (refl, refl))
transition-cases (connecting m n) network_restored = inr (inr (refl, refl))
transition-cases (connected m p) network_restored = inr (inr (refl, refl))
transition-cases (reconnecting m n l) network_restored = inr (inr (refl, refl))
transition-cases (stopping m r) network_restored = inr (inr (refl, refl))
transition-cases (failed m k b) network_restored = inr (inr (refl, refl))
transition-cases s e = inr (inr (refl, refl))
