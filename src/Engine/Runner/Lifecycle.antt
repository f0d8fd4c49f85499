-- ===== src/Engine/Runner/Lifecycle.antt =====
-- Starting, running and stopping, with nothing else in between.
use gravital_share.Common.{
  ℕ, ◌≡◌, ◌≢◌, refl, ap, ◌∙◌, List, [], ◌∷◌, ◌++◌, Bool, true, false, map, some,
}
use mathlib.Core.Logic.{if_pos, if_neg}
use gravital_share.Common.Serve.{ServerEvent, accepted, accept_failed, changed}
use gravital_share.Common.Outcome.{Result, ok}
use gravital_share.Engine.Errors.{EngineError}
use gravital_share.Engine.Config.{ServerConfig}
use gravital_share.Engine.Session.{
  Session, SessionMode, server, SessionState, idle, preparing, connecting, connected, stopping,
  reconnecting, failed, StopReason, user_request, SessionEvent, user_start, user_stop, engine_ready,
  engine_stopped, proxy_connected, PeerInfo, SessionState-discrete, Notice, transition, arms,
  dispatch, force_idle,
}
use gravital_share.Engine.Session.Runs.{dispatch_moves}
use gravital_share.Engine.Runner.{
  server_task_of, start_server, Engine, Task, reset_session, ready, prepared, start, stopping_with,
  stop, dispatch_ignoring, server_begins, task_ends,
}
use gravital_share.Socks.Server as Socks
use gravital_share.Http.Server as Http

-- A session by its state and its listeners.
abbrev pub at : SessionState → List ℕ → Session
at s ls = record { state = s; listeners = ls }

-- Every listener told of a state.
abbrev pub tell : List ℕ → SessionState → List Notice
tell ls t = map (λ f. record { listener = f; told = t }) ls

pub dispatch-at :
    (s t : SessionState) (ls : List ℕ) (e : SessionEvent)
    → transition s e ≡ ok t
    → t ≢ s
    → dispatch (at s ls) e ≡ (at t ls, ok tt, tell ls t)
dispatch-at s t ls e = dispatch_moves (at s ls) e t

start_from :
    (e : Engine) (m : SessionMode) (task : Task) (ls : List ℕ) (flags : List Bool)
    → prepared e task flags (dispatch (at idle ls) (user_start m)) ≡ record {
      engine = record e { session = at (connecting m 1) ls };
      result = ok tt;
      notices = tell ls (preparing m) ++ tell ls (connecting m 1);
      flags = flags;
      spawned = task ∷ [];
    }
unfolding prepared ready transition arms
start_from e m task ls flags =
    ap (prepared e task flags) (dispatch-at idle (preparing m) ls (user_start m) refl cc)
    ∙ ap (ready e task (tell ls (preparing m)) flags)
        (dispatch-at (preparing m) (connecting m 1) ls engine_ready refl cc)

-- The flag that a start sends: to the tasks of a session that was not idle.
abbrev pub flags_of : SessionState → List Bool
flags_of idle = []
flags_of (preparing m) = false ∷ []
flags_of (connecting m n) = false ∷ []
flags_of (connected m p) = false ∷ []
flags_of (reconnecting m n l) = false ∷ []
flags_of (stopping m r) = false ∷ []
flags_of (failed m k b) = false ∷ []

reset_active :
    (s : SessionState) (ls : List ℕ) → s ≢ idle → reset_session (at s ls) ≡ (at idle ls, false ∷ [])
unfolding reset_session force_idle
reset_active s ls h = if_neg (SessionState-discrete s idle) h _ _

reset_at : (s : SessionState) (ls : List ℕ) → reset_session (at s ls) ≡ (at idle ls, flags_of s)
unfolding reset_session
reset_at idle ls = if_pos (SessionState-discrete idle idle) refl _ _
reset_at (preparing m) ls = reset_active (preparing m) ls cc
reset_at (connecting m n) ls = reset_active (connecting m n) ls cc
reset_at (connected m p) ls = reset_active (connected m p) ls cc
reset_at (reconnecting m n l) ls = reset_active (reconnecting m n l) ls cc
reset_at (stopping m r) ls = reset_active (stopping m r) ls cc
reset_at (failed m k b) ls = reset_active (failed m k b) ls cc

-- From every state of the session a start succeeds: the session is connecting for the first time,
-- the listeners have been told of the two steps in order and of no other, one task is
-- spawned, and the tasks of a session that was not idle are sent `false`.
pub start-connecting :
    (e : Engine) (m : SessionMode) (task : Task)
    → let ls = e.session.listeners in
      start e m task ≡ record {
        engine = record e { session = at (connecting m 1) ls };
        result = ok tt;
        notices = tell ls (preparing m) ++ tell ls (connecting m 1);
        flags = flags_of e.session.state;
        spawned = task ∷ [];
      }
unfolding start
start-connecting e m task =
    ap (λ (r : Session × List Bool). prepared e task r.1 (dispatch r.0 (user_start m)))
      (reset_at e.session.state e.session.listeners)
    ∙ start_from e m task e.session.listeners (flags_of e.session.state)

-- A server, or a client, that begins while the session is connecting.
connects-at :
    (m : SessionMode) (n : ℕ) (peer : PeerInfo) (ls : List ℕ)
    → dispatch (at (connecting m n) ls) (proxy_connected peer)
      ≡ (at (connected m peer) ls, ok tt, tell ls (connected m peer))
unfolding transition arms
connects-at m n peer ls =
    dispatch-at (connecting m n) (connected m peer) ls (proxy_connected peer) refl cc

pub ends-at :
    (m : SessionMode) (r : StopReason) (ls : List ℕ)
    → task_ends (at (stopping m r) ls) ≡ (at idle ls, tell ls idle)
unfolding task_ends dispatch_ignoring transition arms
ends-at m r ls =
    ap (λ (r : Session × Result EngineError (Unit {0}) × List Notice). (r.0, r.2))
      (dispatch-at (stopping m r) idle ls engine_stopped refl cc)

stop-at :
    (e : Engine) (m : SessionMode) (peer : PeerInfo) (ls : List ℕ)
    → e.session ≡ at (connected m peer) ls
    → stop e ≡ record {
      engine = record e { session = at (stopping m user_request) ls };
      result = ok tt;
      notices = tell ls (stopping m user_request);
      flags = true ∷ [];
      spawned = [];
    }
unfolding stop stopping_with transition arms
stop-at e m peer ls h =
    ap (λ s. stopping_with e (dispatch s user_stop)) h
    ∙ ap (stopping_with e)
        (dispatch-at (connected m peer) (stopping m user_request) ls user_stop refl cc)

socks-ends :
    (es : List ServerEvent) → (Socks.accept_loop (es ++ (changed true ∷ []))).ended ≡ some (ok tt)
unfolding Socks.accept_loop
socks-ends [] = refl
socks-ends (accepted c ∷ es) = socks-ends es
socks-ends (accept_failed e ∷ es) = socks-ends es
socks-ends (changed true ∷ es) = refl
socks-ends (changed false ∷ es) = socks-ends es

http-ends :
    (es : List ServerEvent) → (Http.accept_loop (es ++ (changed true ∷ []))).ended ≡ some (ok tt)
unfolding Http.accept_loop
http-ends [] = refl
http-ends (accepted c ∷ es) = http-ends es
http-ends (accept_failed e ∷ es) = http-ends es
http-ends (changed true ∷ es) = refl
http-ends (changed false ∷ es) = http-ends es

-- The whole life of a server whose listeners are bound, from whatever state: the start succeeds,
-- its task connects, the stop succeeds, and the flag that it sends ends both accept loops, whatever
-- connections they accepted before. Behind them the session is idle. The one listener of the engine
-- has been told of the five states in their order.
pub server_life :
    (e : Engine) (cfg : ServerConfig) (es es' : List ServerEvent)
    → e.session.listeners ≡ 0 ∷ []
    → let started = start_server e cfg in
      let running = server_begins started.engine.session cfg.socks_bind in
      let stopped = stop (record started.engine { session = running.0 }) in
      let ended = task_ends stopped.engine.session in
      (started.result ≡ ok tt)
      × (stopped.result ≡ ok tt)
      × ((Socks.run (ok tt) (es ++ map changed stopped.flags)).ended ≡ some (ok tt))
      × ((Http.run (ok tt) (es' ++ map changed stopped.flags)).ended ≡ some (ok tt))
      × (ended.0.state ≡ idle)
      × (map (λ n. n.told) (started.notices ++ (running.1 ++ (stopped.notices ++ ended.1)))
          ≡ preparing server
            ∷ connecting server 1
            ∷ connected server (record { proxy_addr = cfg.socks_bind })
            ∷ stopping server user_request
            ∷ idle
            ∷ [])
unfolding start_server server_begins Socks.run Http.run
server_life e cfg es es' h = rw (start-connecting e server (server_task_of cfg)) (
    rw (connects-at server 1 (record { proxy_addr = cfg.socks_bind }) e.session.listeners) (
      rw
        (stop-at
          (record e {
            session =
                at (connected server (record { proxy_addr = cfg.socks_bind })) e.session.listeners;
          })
          server (record { proxy_addr = cfg.socks_bind }) e.session.listeners refl)
        (rw (ends-at server user_request e.session.listeners)
          (rw h (refl, refl, socks-ends es, http-ends es', refl, refl)))))
