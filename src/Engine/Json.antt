-- ===== src/Engine/Json.antt =====
-- engine/crates/gravital-engine/src/runner.rs: the text of a transition for the event callback.
pub mod Reader
use gravital_share.Common.{ℕ, List, [], ◌∷◌, ◌++◌}
use gravital_share.Common.Addr.{Ipv4Addr, IpAddr, v4, v6, SocketAddr}
use gravital_share.Common.Text.{codes, show_u16}
use gravital_share.Engine.Session.{
  FailureKind, permission_denied, config_invalid, proxy_unreachable, dns_resolve_failed,
  tun_open_failed, engine_crashed, upstream_vpn_down, unknown, SessionState, idle, preparing,
  connecting, connected, reconnecting, stopping, failed,
}

-- `{}` of an IPv4 address.
show_v4 : Ipv4Addr → List ℕ
show_v4 ip =
    show_u16 ip.a
    ++ (codes "."
        ++ (show_u16 ip.b ++ (codes "." ++ (show_u16 ip.c ++ (codes "." ++ show_u16 ip.d)))))

-- `{}` of a socket address; `show_v6` is the text of an IPv6 address.
show_addr : (List ℕ → List ℕ) → SocketAddr → List ℕ
unfolding show_v4
show_addr show_v6 a = elim a.ip [
  | v4 ip ↦ show_v4 ip ++ (codes ":" ++ show_u16 a.port)
  | v6 os ↦ codes "[" ++ (show_v6 os ++ (codes "]:" ++ show_u16 a.port))
]

-- `{:?}` of a failure.
abbrev pub failure_name : FailureKind → List ℕ
failure_name permission_denied = codes "PermissionDenied"
failure_name config_invalid = codes "ConfigInvalid"
failure_name proxy_unreachable = codes "ProxyUnreachable"
failure_name dns_resolve_failed = codes "DnsResolveFailed"
failure_name tun_open_failed = codes "TunOpenFailed"
failure_name engine_crashed = codes "EngineCrashed"
failure_name upstream_vpn_down = codes "UpstreamVpnDown"
failure_name unknown = codes "Unknown"

pub session_state_to_json : (List ℕ → List ℕ) → SessionState → List ℕ
unfolding show_addr
session_state_to_json show_v6 idle = codes "{\"kind\":\"session.transition\",\"to\":\"Idle\"}"
session_state_to_json show_v6 (preparing m) =
    codes "{\"kind\":\"session.transition\",\"to\":\"Preparing\"}"
session_state_to_json show_v6 (connecting m n) =
    codes "{\"kind\":\"session.transition\",\"to\":\"Connecting\"}"
session_state_to_json show_v6 (connected m peer) =
    codes "{\"kind\":\"session.transition\",\"to\":\"Connected\",\"peer\":\""
    ++ (show_addr show_v6 peer.proxy_addr ++ codes "\"}")
session_state_to_json show_v6 (reconnecting m n last) =
    codes "{\"kind\":\"session.transition\",\"to\":\"Reconnecting\"}"
session_state_to_json show_v6 (stopping m r) =
    codes "{\"kind\":\"session.transition\",\"to\":\"Stopping\"}"
session_state_to_json show_v6 (failed m error r) =
    codes "{\"kind\":\"session.transition\",\"to\":\"Failed\",\"error\":\""
    ++ (failure_name error ++ codes "\"}")
