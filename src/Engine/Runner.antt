-- ===== src/Engine/Runner.antt =====
-- engine/crates/gravital-engine/src/runner.rs: the engine, its start and its stop. A spawned task
-- is a value; what a task does between two of its waits is a function of its own. What a call
-- does to the outside is returned: the calls of listeners, the flags sent to the tasks that watch
-- for a shutdown, and the tasks spawned.
pub mod Lifecycle
pub mod Stop
pub mod Modes
use gravital_share.Common.{
  ℕ, List, [], ◌∷◌, ◌++◌, Option, none, some, Bool, true, false, map, ltb, ◌||◌, if◌then◌else◌,
}
use mathlib.Core.Logic.{ite}
use gravital_share.Common.Addr.{SocketAddr}
use gravital_share.Common.Int.{ℤ, is_negative}
use gravital_share.Common.Io.{IoError}
use gravital_share.Common.Outcome.{Result, ok, err}
use gravital_share.Engine.Errors.{EngineError, already_initialized, not_initialized, invalid_fd, io}
use gravital_share.Engine.Config.{ClientConfig, ServerConfig}
use gravital_share.Engine.Json.{session_state_to_json}
use gravital_share.Engine.Session
use gravital_share.Engine.Session.{
  Session, SessionMode, client, server, SessionState, idle, SessionEvent, user_start, user_stop,
  engine_ready, engine_stopped, proxy_connected, fatal, tun_open_failed, PeerInfo,
  SessionState-discrete, Notice, dispatch, force_idle, add_listener,
}
use gravital_share.Engine.Tun.{EngineMetrics}
use gravital_share.Http.Server.{HttpProxyConfig}
use gravital_share.Socks.Server.{SocksConfig}

abbrev pub ffi_version : ℕ
ffi_version = 1

-- `AtomicU32` and `AtomicU64` start at 0.
abbrev pub new_metrics : EngineMetrics
new_metrics = record {
  bytes_in = 0;
  bytes_out = 0;
  packets_in = 0;
  packets_out = 0;
  active_tcp_sessions = 0;
  active_udp_assocs = 0;
  dns_queries = 0;
  dns_leaks_detected = 0;
  reconnects = 0;
  last_rtt_ms = 0;
  drops_buffer_full = 0;
  drops_parse_error = 0;
  socks_handshake_failures = 0;
}

-- The session, the metrics and the callback, by its number; the listener that `new` registers is
-- listener 0.
pub record Engine : Type 0 where
  pub session : Session
  pub metrics : EngineMetrics
  pub event_callback : Option ℕ

-- `runtime` is what the tokio builder gives.
unfoldable pub new_engine : Result IoError (Unit {0}) → Result EngineError Engine
new_engine (err e) = err (io e)
new_engine (ok _) =
    ok (record {
      session = add_listener Session.new 0;
      metrics = new_metrics;
      event_callback = none;
    })

-- The global singleton, and the new one put into it.
unfoldable pub set_instance :
    Option Engine → Result EngineError Engine → Option Engine × Result EngineError (Unit {0})
set_instance instance (err e) = (instance, err e)
set_instance (some e) (ok _) = (some e, err already_initialized)
set_instance none (ok engine) = (some engine, ok tt)

unfoldable pub init :
    Option Engine → Result IoError (Unit {0}) → Option Engine × Result EngineError (Unit {0})
unfolding set_instance new_engine
init instance runtime = set_instance instance (new_engine runtime)

unfoldable pub get : Option Engine → Result EngineError Engine
get none = err not_initialized
get (some e) = ok e

-- A task: the servers of the server mode, with the address of the peer, or the client on a TUN
-- descriptor.
pub data Task : Type 0 where
  server_task : SocketAddr → SocksConfig → HttpProxyConfig → Task
  client_task : ℤ → ClientConfig → Task

-- What a call leaves: the engine, its result, the calls of listeners, the flags sent and the tasks
-- spawned.
pub record Done : Type 0 where
  pub engine : Engine
  pub result : Result EngineError (Unit {0})
  pub notices : List Notice
  pub flags : List Bool
  pub spawned : List Task

-- `if self.session.state() != SessionState::Idle`: the session put back, and the flag sent.
pub reset_session : Session → Session × List Bool
reset_session s = ite (SessionState-discrete s.state idle) (s, []) (force_idle s, false ∷ [])

-- `EngineReady`, and the task if it is accepted.
pub ready :
    Engine
    → Task
    → List Notice
    → List Bool
    → Session × Result EngineError (Unit {0}) × List Notice
    → Done
ready e task told flags (s, err x, now) = record {
  engine = record e { session = s };
  result = err x;
  notices = told ++ now;
  flags = flags;
  spawned = [];
}
ready e task told flags (s, ok _, now) = record {
  engine = record e { session = s };
  result = ok tt;
  notices = told ++ now;
  flags = flags;
  spawned = task ∷ [];
}

-- What follows `UserStart`.
pub prepared :
    Engine → Task → List Bool → Session × Result EngineError (Unit {0}) × List Notice → Done
unfolding ready
prepared e task flags (s, err x, now) = record {
  engine = record e { session = s };
  result = err x;
  notices = now;
  flags = flags;
  spawned = [];
}
prepared e task flags (s, ok _, now) = ready e task now flags (dispatch s engine_ready)

-- The reset, the two events with their `?`, and the task.
pub start : Engine → SessionMode → Task → Done
unfolding reset_session prepared
start e m task =
    let r = reset_session e.session in prepared e task r.1 (dispatch r.0 (user_start m))

pub server_task_of : ServerConfig → Task
server_task_of cfg =
    server_task cfg.socks_bind
      (record { bind_addr = cfg.socks_bind; auth_enabled = false; handshake_timeout_secs = 30 })
      (record { bind_addr = cfg.http_bind; auth_enabled = false })

pub start_server : Engine → ServerConfig → Done
unfolding start server_task_of
start_server e cfg = start e server (server_task_of cfg)

unfoldable pub start_client : Engine → ℤ → ClientConfig → Done
unfolding start
start_client e tun_fd cfg =
    if is_negative tun_fd
    then record { engine = e; result = err invalid_fd; notices = []; flags = []; spawned = [] }
    else start e client (client_task tun_fd cfg)

-- What follows `UserStop`.
pub stopping_with : Engine → Session × Result EngineError (Unit {0}) × List Notice → Done
stopping_with e (s, err x, now) = record {
  engine = record e { session = s };
  result = err x;
  notices = now;
  flags = [];
  spawned = [];
}
stopping_with e (s, ok _, now) = record {
  engine = record e { session = s };
  result = ok tt;
  notices = now;
  flags = true ∷ [];
  spawned = [];
}

pub stop : Engine → Done
unfolding stopping_with
stop e = stopping_with e (dispatch e.session user_stop)

pub shutdown : Engine → Done
shutdown e = record { engine = e; result = ok tt; notices = []; flags = true ∷ []; spawned = [] }

unfoldable pub set_event_callback : Engine → ℕ → Engine
set_event_callback e f = record e { event_callback = some f }

-- A task's dispatch, its result ignored.
pub dispatch_ignoring : Session → SessionEvent → Session × List Notice
dispatch_ignoring s event = let r = dispatch s event in (r.0, r.2)

-- The server's task up to the join of its servers, and behind it.
pub server_begins : Session → SocketAddr → Session × List Notice
unfolding dispatch_ignoring
server_begins s socks_bind =
    dispatch_ignoring s (proxy_connected (record { proxy_addr = socks_bind }))

pub task_ends : Session → Session × List Notice
unfolding dispatch_ignoring
task_ends s = dispatch_ignoring s engine_stopped

-- The client's task up to its loop, with the TUN device and the stack that it opens; the Boolean
-- says whether it goes on.
client_begins :
    {E F A B : Type 0}
    → Session
    → ClientConfig
    → Result E A
    → Result F B
    → Session × List Notice × Bool
unfolding dispatch_ignoring
client_begins s cfg (err _) stack =
    let r = dispatch_ignoring s (fatal tun_open_failed) in (r.0, r.1, false)
client_begins s cfg (ok _) (err _) =
    let r = dispatch_ignoring s (fatal tun_open_failed) in (r.0, r.1, false)
client_begins s cfg (ok _) (ok _) =
    let r = dispatch_ignoring s (proxy_connected (record { proxy_addr = cfg.proxy_addr })) in
    (r.0, r.1, true)

-- The closure that `new` registers: each notice calls the callback with the text of the state.
unfoldable pub callback_texts : (List ℕ → List ℕ) → Option ℕ → List Notice → List (ℕ × List ℕ)
callback_texts show_v6 none ns = []
callback_texts show_v6 (some f) ns = map (λ n. (f, session_state_to_json show_v6 n.told)) ns
