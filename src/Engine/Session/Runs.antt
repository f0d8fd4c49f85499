-- ===== src/Engine/Session/Runs.antt =====
-- Runs of a session: what every reachable state satisfies, and what the listeners learn.
use gravital_share.Common.{
  ℕ, List, [], ◌∷◌, ◌++◌, none, ◌≡◌, ◌≢◌, ◌⊎◌, inl, inr, refl, arith, map, ap, ◌∙◌,
}
use mathlib.Core.Logic.{if_pos, if_neg}
use gravital_share.Common.Outcome.{Result, ok, err}
use gravital_share.Engine.Errors.{EngineError}
use gravital_share.Engine.Session.{
  SessionMode, StopReason, user_request, shutdown_request, is_recoverable, SessionState, idle,
  preparing, connecting, connected, reconnecting, stopping, failed, SessionEvent, engine_stopped,
  shutdown, mode_or_client, arms, transition, SessionState-discrete, Session, Notice, new, settle,
  dispatch, force_idle, add_listener,
}
use gravital_share.Engine.Session.Automaton.{Legal, transition_iff}

-- The calls of a session, in any order.
pub data Call : Type 0 where
  event : SessionEvent → Call
  reset : Call
  listen : ℕ → Call

pub step : Session → Call → Session
step s (event e) = (dispatch s e).0
step s reset = force_idle s
step s (listen f) = add_listener s f

pub run : Session → List Call → Session
run s [] = s
run s (c ∷ cs) = run (step s c) cs

-- What the fields of a state satisfy, whatever was dispatched.
abbrev pub Sane : SessionState → Type 0
Sane idle = Unit {0}
Sane (preparing m) = Unit {0}
Sane (connecting m n) = n ≡ 1
Sane (connected m p) = Unit {0}
Sane (reconnecting m n last) = (n ≡ 1) × (last ≡ none)
Sane (stopping m r) = (r ≡ user_request) ⊎ (r ≡ shutdown_request)
Sane (failed m k b) = b ≡ is_recoverable k

Legal-Sane :
    {s : SessionState} {e : SessionEvent} {t : SessionState} → Legal s e t → Sane s → Sane t
Legal-Sane (Legal.start m q) h = rw q tt
Legal-Sane (Legal.prepared m q) h = rw q tt
Legal-Sane (Legal.ready m q) h = rw q
Legal-Sane (Legal.first_connect m n p q) h = rw q tt
Legal-Sane (Legal.first_loss m n q) h = rw q (h, refl)
Legal-Sane (Legal.first_disconnect m n e q) h = rw q (h, refl)
Legal-Sane (Legal.loss m p q) h = rw q (refl, refl)
Legal-Sane (Legal.disconnect m p e q) h = rw q (refl, refl)
Legal-Sane (Legal.stop m p q) h = rw q (inl refl)
Legal-Sane (Legal.again m n e p q) h = rw q tt
Legal-Sane (Legal.give_up m n e q) h = rw q (inl refl)
Legal-Sane (Legal.stopped m r q) h = rw q tt
Legal-Sane (Legal.acknowledged m k b q) h = rw q tt
Legal-Sane (Legal.broken s k q) h = rw q
Legal-Sane (Legal.forced s q) h = rw q (inr refl)

abbrev state_behind : Session × Result EngineError (Unit {0}) × List Notice → SessionState
state_behind r = r.0.state

-- The three outcomes of `dispatch` behind its read of `c`, told apart by the transition.
settle_err :
    (s : Session) (c : SessionState) (e : SessionEvent) (x : EngineError)
    → transition c e ≡ err x
    → settle s c e ≡ (s, err x, [])
unfolding settle
settle_err s c e x h = rw (h, settle) refl

settle_same :
    (s : Session) (c : SessionState) (e : SessionEvent) (t : SessionState)
    → transition c e ≡ ok t
    → t ≡ c
    → settle s c e ≡ (s, ok tt, [])
unfolding settle
settle_same s c e t h q = rw (h, settle) (if_pos (SessionState-discrete t c) q _ _)

settle_moves :
    (s : Session) (c : SessionState) (e : SessionEvent) (t : SessionState)
    → transition c e ≡ ok t
    → t ≢ c
    → settle s c e
      ≡ (record s { state = t }, ok tt, map (λ f. record { listener = f; told = t }) s.listeners)
unfolding settle
settle_moves s c e t h q = rw (h, settle) (if_neg (SessionState-discrete t c) q _ _)

pub dispatch_err :
    (s : Session) (e : SessionEvent) (x : EngineError)
    → transition s.state e ≡ err x
    → dispatch s e ≡ (s, err x, [])
unfolding dispatch
dispatch_err s e x h = settle_err s s.state e x h

dispatch_same :
    (s : Session) (e : SessionEvent) (t : SessionState)
    → transition s.state e ≡ ok t
    → t ≡ s.state
    → dispatch s e ≡ (s, ok tt, [])
unfolding dispatch
dispatch_same s e t h q = settle_same s s.state e t h q

pub dispatch_moves :
    (s : Session) (e : SessionEvent) (t : SessionState)
    → transition s.state e ≡ ok t
    → t ≢ s.state
    → dispatch s e
      ≡ (record s { state = t }, ok tt, map (λ f. record { listener = f; told = t }) s.listeners)
unfolding dispatch
dispatch_moves s e t h q = settle_moves s s.state e t h q

transition-cases :
    (r : Result EngineError SessionState)
    → ((x : EngineError) × (r ≡ err x)) ⊎ ((t : SessionState) × (r ≡ ok t))
transition-cases (err x) = inl (x, refl)
transition-cases (ok t) = inr (t, refl)

-- What a session has behind a write: the state before it, or the one of a legal transition from the
-- state that was read.
pub settle-state :
    (s : Session) (c : SessionState) (e : SessionEvent)
    → ((settle s c e).0.state ≡ s.state) ⊎ Legal c e (settle s c e).0.state
settle-state s c e = elim (transition-cases (transition c e)) [
  | inl (x, h) ↦ inl (ap state_behind (settle_err s c e x h))
  | inr (t, h) ↦ elim (SessionState-discrete t c) [
    | yes q ↦ inl (ap state_behind (settle_same s c e t h q))
    | no q ↦ inr (rw (ap state_behind (settle_moves s c e t h q)) ((transition_iff c e t).0 h))
  ]
]

-- With no other thread writing the state meanwhile, a dispatched event either is refused, when
-- nothing changes and nobody is told, or is a transition that `Legal` has, when the state is the
-- one that it gives, and every listener is told it once, in order, exactly if it is another state
-- than before. `Legal` has three pairs that the document does not list (`Unlisted` of Table), so
-- that a ProxyDisconnected while connecting or connected moves to Reconnecting.
pub dispatch-cases :
    (s : Session) (e : SessionEvent)
    → ((x : EngineError) × (dispatch s e ≡ (s, err x, []))
        × ((t : SessionState) → ¬ Legal s.state e t))
      ⊎ ((t : SessionState) × Legal s.state e t
          × (((t ≡ s.state) × (dispatch s e ≡ (s, ok tt, [])))
              ⊎ ((t ≢ s.state)
                  × (dispatch s e ≡ (
                    record s { state = t },
                    ok tt,
                    map (λ f. record { listener = f; told = t }) s.listeners,
                  )))))
dispatch-cases s e = elim (transition-cases (transition s.state e)) [
  | inl (x, h) ↦ inl (x, dispatch_err s e x h, λ t l. cc ((transition_iff s.state e t).1 l))
  | inr (t, h) ↦ inr (
    t,
    (transition_iff s.state e t).0 h,
    elim (SessionState-discrete t s.state) [
      | yes q ↦ inl (q, dispatch_same s e t h q)
      | no q ↦ inr (q, dispatch_moves s e t h q)
    ],
  )
]

-- `dispatch` alone changes the state, to the state of a legal transition or not at all.
dispatch-state :
    (s : Session) (e : SessionEvent)
    → ((dispatch s e).0.state ≡ s.state) ⊎ Legal s.state e (dispatch s e).0.state
unfolding dispatch
dispatch-state s e = settle-state s s.state e

step-Sane : (s : Session) (c : Call) → Sane s.state → Sane (step s c).state
unfolding step force_idle add_listener
step-Sane s (event e) h = elim (dispatch-state s e) [ inl q ↦ rw q h | inr l ↦ Legal-Sane l h ]
step-Sane s reset h = tt
step-Sane s (listen f) h = h

run-Sane_from : (cs : List Call) (s : Session) → Sane s.state → Sane (run s cs).state
unfolding run
run-Sane_from [] s h = h
run-Sane_from (c ∷ cs) s h = run-Sane_from cs (step s c) (step-Sane s c h)

-- In every state that a new session can reach by calls one after the other, a connection attempt
-- is the first one, no error is remembered for a reconnection, a stop is a user's or a shutdown,
-- and a failure is recoverable exactly if its kind is.
pub run-Sane : (cs : List Call) → Sane (run new cs).state
unfolding new
run-Sane cs = run-Sane_from cs new tt

shutdown_state :
    (s : Session)
    → ((dispatch s shutdown).1 ≡ ok tt)
      × ((dispatch s shutdown).0.state ≡ stopping (mode_or_client s.state) shutdown_request)
unfolding dispatch settle transition
shutdown_state s = ground arith

engine_stopped_state :
    (s : Session) (m : SessionMode) (r : StopReason)
    → s.state ≡ stopping m r
    → ((dispatch s engine_stopped).1 ≡ ok tt) × ((dispatch s engine_stopped).0.state ≡ idle)
unfolding dispatch settle transition arms
engine_stopped_state s m r h = ground arith

-- From every state `Shutdown` and then `EngineStopped` are accepted and lead to `Idle`.
shutdown-idle :
    (s : Session)
    → ((dispatch s shutdown).1 ≡ ok tt)
      × ((dispatch (dispatch s shutdown).0 engine_stopped).1 ≡ ok tt)
      × ((dispatch (dispatch s shutdown).0 engine_stopped).0.state ≡ idle)
shutdown-idle s =
    let (accepted, state) = shutdown_state s in
    let (again, rest) = engine_stopped_state (dispatch s shutdown).0 _ _ state in
    (accepted, again, rest)

-- The events dispatched one after the other, with every call of a listener.
dispatch_all : Session → List SessionEvent → Session × List Notice
dispatch_all s [] = (s, [])
dispatch_all s (e ∷ es) =
    let r = dispatch s e in let rest = dispatch_all r.0 es in (rest.0, r.2 ++ rest.1)

-- What an observer holds who starts from a state and takes over every state that it is told.
abbrev pub follow : SessionState → List Notice → SessionState
follow s [] = s
follow s (n ∷ ns) = follow n.told ns

follow-append :
    (s : SessionState) (xs ys : List Notice) → follow s (xs ++ ys) ≡ follow (follow s xs) ys
follow-append s [] ys = refl
follow-append s (x ∷ xs) ys = follow-append x.told xs ys

dispatch-follow :
    (s : Session) (e : SessionEvent) (f : ℕ)
    → s.listeners ≡ f ∷ []
    → (follow s.state (dispatch s e).2 ≡ (dispatch s e).0.state)
      × ((dispatch s e).0.listeners ≡ f ∷ [])
unfolding dispatch settle
dispatch-follow s e f h = ground arith

-- With the one listener that `Engine::new` registers, whatever events are dispatched, the
-- listener that takes over each state it is told holds the state of the session in the end.
dispatch_all-follow :
    (es : List SessionEvent) (s : Session) (f : ℕ)
    → s.listeners ≡ f ∷ []
    → follow s.state (dispatch_all s es).1 ≡ (dispatch_all s es).0.state
unfolding dispatch_all
dispatch_all-follow [] s f h = refl
dispatch_all-follow (e ∷ es) s f h =
    let (now, one) = dispatch-follow s e f h in
    follow-append s.state (dispatch s e).2 (dispatch_all (dispatch s e).0 es).1
    ∙ ap (λ q. follow q (dispatch_all (dispatch s e).0 es).1) now
    ∙ dispatch_all-follow es (dispatch s e).0 f one
