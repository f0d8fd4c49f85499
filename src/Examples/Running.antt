-- ===== src/Examples/Running.antt =====
-- The engine's life, the calls of the JVM, the relays and the TUN device.
use gravital_share.Common.{
  ℕ, ◌<◌, ◌≤◌, ◌≡◌, ◌⊎◌, refl, List, [], ◌∷◌, ◌++◌, Option, none, some, Bool, true, false,
  replicate, All, map,
}
use gravital_share.Common.Addr.{SocketAddr}
use gravital_share.Common.Int.{pos}
use gravital_share.Common.Io.{unexpected_eof}
use gravital_share.Common.Outcome.{ok, err}
use gravital_share.Common.Sock.{Sock, concat, IsNonempty, sock}
use gravital_share.Common.Serve as Serving
use gravital_share.Common.Text.{codes}
use gravital_share.Http.Server as Http
use gravital_share.Socks.Server as Socks
use gravital_share.Engine.FfiCode
use gravital_share.Engine.Config.{default_server, EngineConfig}
use gravital_share.Engine.Session
use gravital_share.Engine.Session.{
  settle, PeerInfo, engine_ready, force_idle, proxy_connected, Session, server, idle, preparing,
  connecting, connected, stopping, StopReason, user_request, user_start, dispatch,
}
use gravital_share.Engine.Runner.{
  Engine, new_metrics, server_task_of, start, start_server, stop, server_begins, task_ends,
}
use gravital_share.Engine.Runner.Lifecycle.{at, tell, start-connecting, server_life}
use gravital_share.Engine.Runner.Stop.{Stopped, stop-cases, Ended, task_ends-cases}
use gravital_share.Engine.Relay.{up_to_app}
use gravital_share.Engine.Relay.Chunks.{up_to_app-concat}
use gravital_share.Tun.Errors.{packet_too_large}
use gravital_share.Tun.Device.{TunWriter, WriteEvent, write_packet, write_packet-once, Os}

-- An engine behind `init`, and one whose server runs.
abbrev engine : Engine
engine = record { session = at idle (0 ∷ []); metrics = new_metrics; event_callback = none }

abbrev proxy : SocketAddr
proxy = default_server.socks_bind

abbrev running : Engine
running = record engine { session = at (connected server (record { proxy_addr = proxy })) (0 ∷ []) }

server_life_example :
    let started = start_server running default_server in
    let begun = server_begins started.engine.session proxy in
    let stopped = stop (record started.engine { session = begun.0 }) in
    let ended = task_ends stopped.engine.session in
    (started.result ≡ ok tt)
    × (stopped.result ≡ ok tt)
    × ((Socks.run (ok tt) ((Serving.accepted 1 ∷ []) ++ map Serving.changed stopped.flags)).ended
        ≡ some (ok tt))
    × ((Http.run (ok tt) ([] ++ map Serving.changed stopped.flags)).ended ≡ some (ok tt))
    × (ended.0.state ≡ idle)
    × (map (λ n. n.told) (started.notices ++ (begun.1 ++ (stopped.notices ++ ended.1)))
        ≡ preparing server
          ∷ connecting server 1
          ∷ connected server (record { proxy_addr = proxy })
          ∷ stopping server user_request
          ∷ idle
          ∷ [])
server_life_example = server_life running default_server (Serving.accepted 1 ∷ []) [] refl

start-connecting_example : start running server (server_task_of default_server) ≡ record {
  engine = record running { session = at (connecting server 1) (0 ∷ []) };
  result = ok tt;
  notices = tell (0 ∷ []) (preparing server) ++ tell (0 ∷ []) (connecting server 1);
  flags = false ∷ [];
  spawned = server_task_of default_server ∷ [];
}
start-connecting_example = start-connecting running server (server_task_of default_server)

stop-cases_example : Stopped engine idle (0 ∷ [])
stop-cases_example = stop-cases engine

task_ends-cases_example : Ended running.session.state running.session.listeners
task_ends-cases_example = task_ends-cases running.session

-- A start, and a connection whose dispatch reads the state before another start resets it and
-- writes after it: the session is connected behind the reset.
abbrev prepared_session : Session.Session
prepared_session = (settle engine.session engine.session.state (user_start server)).0

abbrev connecting_session : Session.Session
connecting_session = (settle prepared_session prepared_session.state engine_ready).0

abbrev peer : PeerInfo
peer = record { proxy_addr = proxy }

abbrev raced_session : Session.Session
raced_session =
    (settle (force_idle connecting_session) connecting_session.state (proxy_connected peer)).0

-- Serde reads no configuration, so the default is taken.
abbrev reads_none : List ℕ → Option EngineConfig
reads_none json = none

abbrev always : ℕ → Bool
always n = true

always-true : (n : ℕ) → always n ≡ true
always-true n = refl

abbrev segments : List (List ℕ)
segments = codes "ab" ∷ codes "c" ∷ []

segments-All : All IsNonempty segments
segments-All = (cc, (cc, tt))

up_to_app-concat_example :
    (s : Sock) × (chunks : List (List ℕ)) × (up_to_app always 4 0 (sock segments none [] none)
      ≡ some (s, chunks))
    × (concat chunks ≡ codes "abc")
    × All IsNonempty chunks
up_to_app-concat_example = up_to_app-concat always segments none [] none always-true segments-All

abbrev writer : TunWriter
writer = record { fd = pos 3; mtu = 4 }

write_packet-once_example :
    ((writer.mtu < 3)
      × (write_packet writer (1 ∷ 2 ∷ 3 ∷ []) [] ≡ (some (err (packet_too_large 3 4)), [])))
    ⊎ ((3 ≤ writer.mtu)
        × (write_packet writer
              (1 ∷ 2 ∷ 3 ∷ [])
              (replicate 2 WriteEvent.would_block ++ (WriteEvent.accepted ∷ []))
            ≡ (some (ok tt), (1 ∷ 2 ∷ 3 ∷ []) ∷ [])))
write_packet-once_example = write_packet-once writer (1 ∷ 2 ∷ 3 ∷ []) 2 []

-- A system that refuses to register the descriptor.
abbrev os : Os
os = record {
  get_flags = λ fd. ok 2;
  nonblocking = λ flags. flags;
  set_flags = λ fd flags. ok tt;
  register = λ fd. err unexpected_eof;
}
