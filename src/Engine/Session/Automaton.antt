-- ===== src/Engine/Session/Automaton.antt =====
-- The transitions as a relation, and `transition` as its decision.
use gravital_share.Common.{ℕ, List, Option, none, ◌≡◌, ◌↔◌, Bool}
use gravital_share.Common.Outcome.{ok}
use gravital_share.Engine.Session.{
  SessionMode, StopReason, user_request, shutdown_request, FailureKind, PeerInfo, is_recoverable,
  SessionState, idle, preparing, connecting, connected, reconnecting, stopping, failed,
  SessionEvent, user_start, user_stop, user_acknowledge, engine_prepared, engine_ready,
  engine_stopped, proxy_connected, proxy_disconnected, network_lost, network_restored, fatal,
  shutdown, mode_or_client, arms, transition,
}

-- The transitions that the code has, a row for each constructor; every row keeps the mode, but for
-- the two events that come from anywhere.
pub data Legal : SessionState → SessionEvent → SessionState → Type 0 where
  start : {t : SessionState} (m : SessionMode) → t ≡ preparing m → Legal idle (user_start m) t
  prepared :
      {t : SessionState} (m : SessionMode) → t ≡ preparing m → Legal (preparing m) engine_prepared t
  ready :
      {t : SessionState} (m : SessionMode) → t ≡ connecting m 1 → Legal (preparing m) engine_ready t
  first_connect :
      {t : SessionState} (m : SessionMode) (n : ℕ) (p : PeerInfo)
      → t ≡ connected m p
      → Legal (connecting m n) (proxy_connected p) t
  first_loss :
      {t : SessionState} (m : SessionMode) (n : ℕ)
      → t ≡ reconnecting m n none
      → Legal (connecting m n) network_lost t
  first_disconnect :
      {t : SessionState} (m : SessionMode) (n : ℕ) (e : Option (List ℕ))
      → t ≡ reconnecting m n none
      → Legal (connecting m n) (proxy_disconnected e) t
  loss :
      {t : SessionState} (m : SessionMode) (p : PeerInfo)
      → t ≡ reconnecting m 1 none
      → Legal (connected m p) network_lost t
  disconnect :
      {t : SessionState} (m : SessionMode) (p : PeerInfo) (e : Option (List ℕ))
      → t ≡ reconnecting m 1 none
      → Legal (connected m p) (proxy_disconnected e) t
  stop :
      {t : SessionState} (m : SessionMode) (p : PeerInfo)
      → t ≡ stopping m user_request
      → Legal (connected m p) user_stop t
  again :
      {t : SessionState} (m : SessionMode) (n : ℕ) (e : Option (List ℕ)) (p : PeerInfo)
      → t ≡ connected m p
      → Legal (reconnecting m n e) (proxy_connected p) t
  give_up :
      {t : SessionState} (m : SessionMode) (n : ℕ) (e : Option (List ℕ))
      → t ≡ stopping m user_request
      → Legal (reconnecting m n e) user_stop t
  stopped :
      {t : SessionState} (m : SessionMode) (r : StopReason)
      → t ≡ idle
      → Legal (stopping m r) engine_stopped t
  acknowledged :
      {t : SessionState} (m : SessionMode) (k : FailureKind) (b : Bool)
      → t ≡ idle
      → Legal (failed m k b) user_acknowledge t
  broken :
      {t : SessionState} (s : SessionState) (k : FailureKind)
      → t ≡ failed (mode_or_client s) k (is_recoverable k)
      → Legal s (fatal k) t
  forced :
      {t : SessionState} (s : SessionState)
      → t ≡ stopping (mode_or_client s) shutdown_request
      → Legal s shutdown t

Legal-transition :
    {s : SessionState} {e : SessionEvent} {t : SessionState} → Legal s e t → transition s e ≡ ok t
unfolding transition arms
Legal-transition (start m q) = rw q
Legal-transition (prepared m q) = rw q
Legal-transition (ready m q) = rw q
Legal-transition (first_connect m n p q) = rw q
Legal-transition (first_loss m n q) = rw q
Legal-transition (first_disconnect m n e q) = rw q
Legal-transition (loss m p q) = rw q
Legal-transition (disconnect m p e q) = rw q
Legal-transition (stop m p q) = rw q
Legal-transition (again m n e p q) = rw q
Legal-transition (give_up m n e q) = rw q
Legal-transition (stopped m r q) = rw q
Legal-transition (acknowledged m k b q) = rw q
Legal-transition (broken s k q) = rw q
Legal-transition (forced s q) = rw q

transition-Legal :
    (s : SessionState) (e : SessionEvent) (t : SessionState) → transition s e ≡ ok t → Legal s e t
unfolding transition arms
transition-Legal s (fatal k) t h = broken s k (cc)
transition-Legal s shutdown t h = forced s (cc)
transition-Legal idle (user_start m) t h = start m (cc)
transition-Legal (preparing m) engine_ready t h = ready m (cc)
transition-Legal (preparing m) engine_prepared t h = prepared m (cc)
transition-Legal (connecting m n) (proxy_connected p) t h = first_connect m n p (cc)
transition-Legal (connecting m n) network_lost t h = first_loss m n (cc)
transition-Legal (connecting m n) (proxy_disconnected e) t h = first_disconnect m n e (cc)
transition-Legal (connected m p) network_lost t h = loss m p (cc)
transition-Legal (connected m p) (proxy_disconnected e) t h = disconnect m p e (cc)
transition-Legal (connected m p) user_stop t h = stop m p (cc)
transition-Legal (reconnecting m n l) (proxy_connected p) t h = again m n l p (cc)
transition-Legal (reconnecting m n l) user_stop t h = give_up m n l (cc)
transition-Legal (stopping m r) engine_stopped t h = stopped m r (cc)
transition-Legal (failed m k b) user_acknowledge t h = acknowledged m k b (cc)
transition-Legal idle network_restored t h = cc
transition-Legal (preparing m) network_restored t h = cc
transition-Legal (connecting m n) network_restored t h = cc
transition-Legal (connected m p) network_restored t h = cc
transition-Legal (reconnecting m n l) network_restored t h = cc
transition-Legal (stopping m r) network_restored t h = cc
transition-Legal (failed m k b) network_restored t h = cc
transition-Legal s e t h = cc

-- `transition` accepts exactly the transitions of `Legal`, with the state that it gives.
pub transition_iff :
    (s : SessionState) (e : SessionEvent) (t : SessionState) → (transition s e ≡ ok t) ↔ Legal s e t
transition_iff s e t = (transition-Legal s e t, Legal-transition)
