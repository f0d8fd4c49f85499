-- ===== src/Engine/Runner/Stop.antt =====
-- When a stop is accepted, and what a task leaves that ends.
use gravital_share.Common.{ℕ, ◌≡◌, ◌≢◌, ◌⊎◌, inl, inr, refl, ap, ◌∙◌, List, [], ◌∷◌, true}
use gravital_share.Common.Outcome.{Result, ok, err}
use gravital_share.Engine.Errors.{EngineError, invalid_transition}
use gravital_share.Engine.Session.{
  Session, SessionMode, SessionState, idle, preparing, connecting, connected, stopping,
  reconnecting, failed, StopReason, user_request, user_stop, engine_stopped, mode_or_client, Notice,
  transition, arms, dispatch,
}
use gravital_share.Engine.Session.Runs.{dispatch_err}
use gravital_share.Engine.Runner.{Engine, Done, stopping_with, stop, dispatch_ignoring, task_ends}
use gravital_share.Engine.Runner.Lifecycle.{at, tell, dispatch-at, ends-at}

-- The states in which `stop` is accepted.
abbrev pub IsRunning : SessionState → Type 0
IsRunning (connected m p) = Unit {0}
IsRunning (reconnecting m n l) = Unit {0}
IsRunning idle = ⊥
IsRunning (preparing m) = ⊥
IsRunning (connecting m n) = ⊥
IsRunning (stopping m r) = ⊥
IsRunning (failed m k b) = ⊥

-- What a stop leaves: the session stopping, the listeners told, and `true` sent to the tasks; or
-- nothing but the error.
abbrev pub Stopped : Engine → SessionState → List ℕ → Type 0
Stopped e s ls =
    (IsRunning s
      × (stop e ≡ record {
        engine = record e { session = at (stopping (mode_or_client s) user_request) ls };
        result = ok tt;
        notices = tell ls (stopping (mode_or_client s) user_request);
        flags = true ∷ [];
        spawned = [];
      }))
    ⊎ ((¬ IsRunning s)
        × (stop e ≡ record {
          engine = record e { session = at s ls };
          result = err invalid_transition;
          notices = [];
          flags = [];
          spawned = [];
        }))

stop_running :
    (e : Engine) (s t : SessionState) (ls : List ℕ)
    → IsRunning s
    → e.session ≡ at s ls
    → t ≡ stopping (mode_or_client s) user_request
    → transition s user_stop ≡ ok t
    → t ≢ s
    → Stopped e s ls
unfolding stop stopping_with
stop_running e s t ls run h q tr ne = inl (
  run,
  ap (λ s. stopping_with e (dispatch s user_stop)) h
      ∙ ap (stopping_with e) (dispatch-at s t ls user_stop tr ne)
      ∙ ap {B = Done}
          (λ (t : SessionState). record {
            engine = record e { session = at t ls };
            result = ok tt;
            notices = tell ls t;
            flags = true ∷ [];
            spawned = [];
          })
          q,
)

stop_refused :
    (e : Engine) (s : SessionState) (ls : List ℕ)
    → ¬ IsRunning s
    → e.session ≡ at s ls
    → transition s user_stop ≡ err invalid_transition
    → Stopped e s ls
unfolding stop stopping_with
stop_refused e s ls run h tr = inr (
  run,
  ap (λ s. stopping_with e (dispatch s user_stop)) h
      ∙ ap (stopping_with e) (dispatch_err (at s ls) user_stop invalid_transition tr),
)

stop_at : (e : Engine) (s : SessionState) (ls : List ℕ) → e.session ≡ at s ls → Stopped e s ls
unfolding transition arms
stop_at e idle ls h = stop_refused e idle ls (λ b. b) h refl
stop_at e (preparing m) ls h = stop_refused e (preparing m) ls (λ b. b) h refl
stop_at e (connecting m n) ls h = stop_refused e (connecting m n) ls (λ b. b) h refl
stop_at e (connected m p) ls h =
    stop_running e (connected m p) (stopping m user_request) ls tt h refl refl cc
stop_at e (reconnecting m n l) ls h =
    stop_running e (reconnecting m n l) (stopping m user_request) ls tt h refl refl cc
stop_at e (stopping m r) ls h = stop_refused e (stopping m r) ls (λ b. b) h refl
stop_at e (failed m k b) ls h = stop_refused e (failed m k b) ls (λ b. b) h refl

-- `stop` is accepted exactly when the session is connected or reconnecting: then the session is
-- stopping on the user's request, the listeners are told and the tasks are sent `true`. Otherwise,
-- while connecting for instance, it is refused, and nothing changes and nothing is sent.
pub stop-cases : (e : Engine) → Stopped e e.session.state e.session.listeners
stop-cases e = stop_at e e.session.state e.session.listeners refl

ends_refused :
    (s : SessionState) (ls : List ℕ)
    → transition s engine_stopped ≡ err invalid_transition
    → task_ends (at s ls) ≡ (at s ls, [])
unfolding task_ends dispatch_ignoring
ends_refused s ls tr =
    ap (λ (r : Session × Result EngineError (Unit {0}) × List Notice). (r.0, r.2))
      (dispatch_err (at s ls) engine_stopped invalid_transition tr)

-- What the end of a task leaves: the session idle and the listeners told, if it was stopping;
-- otherwise the session as it was, and nobody told.
abbrev pub Ended : SessionState → List ℕ → Type 0
Ended s ls =
    ((m : SessionMode) × (r : StopReason) × (s ≡ stopping m r)
      × (task_ends (at s ls) ≡ (at idle ls, tell ls idle)))
    ⊎ (((m : SessionMode) (r : StopReason) → s ≢ stopping m r)
        × (task_ends (at s ls) ≡ (at s ls, [])))

ends_at : (s : SessionState) (ls : List ℕ) → Ended s ls
unfolding transition arms
ends_at idle ls = inr (λ m r. cc, ends_refused idle ls refl)
ends_at (preparing m) ls = inr (λ m r. cc, ends_refused (preparing m) ls refl)
ends_at (connecting m n) ls = inr (λ m r. cc, ends_refused (connecting m n) ls refl)
ends_at (connected m p) ls = inr (λ m r. cc, ends_refused (connected m p) ls refl)
ends_at (reconnecting m n l) ls = inr (λ m r. cc, ends_refused (reconnecting m n l) ls refl)
ends_at (stopping m r) ls = inl (m, r, refl, ends-at m r ls)
ends_at (failed m k b) ls = inr (λ m r. cc, ends_refused (failed m k b) ls refl)

-- A task that ends while the session is stopping makes it idle, and the listeners are told. A task
-- that ends in any other state leaves the session as it is, and nobody is told: the session of a
-- server whose ports are taken, or of a client after `shutdown`, stays connected.
pub task_ends-cases : (s : Session) → Ended s.state s.listeners
task_ends-cases s = ends_at s.state s.listeners
