-- ===== src/Http/Target.antt =====
-- engine/crates/gravital-http/src/server.rs: the target of a CONNECT request.
pub mod RoundTrip
use gravital_share.Common.{
  ℕ, ◌+◌, List, [], ◌∷◌, Option, none, some, ◌==◌, if◌then◌else◌, take, drop,
}
use gravital_share.Common.Outcome.{Result, ok, err}
use gravital_share.Common.Text.{parse_u16}
use gravital_share.Http.Errors.{HttpProxyError, invalid_target}

-- `str::rfind`: the index of the last byte that is `c`.
pub rfind : ℕ → List ℕ → Option ℕ
rfind c [] = none
rfind c (x ∷ xs) = elim (rfind c xs) [
  | some i ↦ some (i + 1)
  | none ↦ if x == c then some 0 else none
]

pub port_of : List ℕ → List ℕ → Option ℕ → Result HttpProxyError (List ℕ × ℕ)
port_of target host none = err (invalid_target target)
port_of target host (some port) = ok (host, port)

pub host_port_at : List ℕ → Option ℕ → Result HttpProxyError (List ℕ × ℕ)
unfolding port_of
host_port_at target none = err (invalid_target target)
host_port_at target (some pos) =
    port_of target (take pos target) (parse_u16 (drop (pos + 1) target))

pub parse_host_port : List ℕ → Result HttpProxyError (List ℕ × ℕ)
unfolding host_port_at rfind
parse_host_port target = host_port_at target (rfind b':' target)
