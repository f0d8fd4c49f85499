-- ===== src/Engine/Relay.antt =====
-- engine/crates/gravital-engine/src/runner.rs: `relay_connection`, behind the tunnel through the
-- proxy. The messages of the application are a list; the socket to the proxy delivers segments.
pub mod Chunks
use gravital_share.Common.{
  ℕ, zero, suc, ◌+◌, List, [], ◌∷◌, ◌++◌, Option, none, some, Bool, true, false, if◌then◌else◌,
}
use gravital_share.Common.Addr.{v4, v6, SocketAddr}
use gravital_share.Common.Io.{IoError}
use gravital_share.Common.Outcome.{Result, ok, err}
use gravital_share.Common.Sock.{Sock, read}
use gravital_share.Socks.Proto.{AddrSpec, ipv4, ipv6}

-- The target that the proxy is asked for.
unfoldable pub socks_target : SocketAddr → AddrSpec × ℕ
socks_target remote = elim remote.ip [
  | v4 ip ↦ (ipv4 ip, remote.port)
  | v6 os ↦ (ipv6 os, remote.port)
]

-- `app_to_up`: each message is written whole, until a write fails.
pub app_to_up : List (List ℕ) → Sock → Sock
app_to_up [] s = s
app_to_up (data' ∷ rest) s = elim s.broken [
  | some e ↦ s
  | none ↦ app_to_up rest (record s { output = s.output ++ data' })
]

abbrev pub chunk_size : ℕ
chunk_size = 16384

-- A message before the others.
pub passed : List ℕ → Option (Sock × List (List ℕ)) → Option (Sock × List (List ℕ))
passed chunk none = none
passed chunk (some (s, chunks)) = some (s, chunk ∷ chunks)

-- What follows a read of `up_to_app`: the end, or a message, if the channel takes it.
pub sent_on :
    (Sock → Option (Sock × List (List ℕ)))
    → Bool
    → Sock × Result IoError (List ℕ)
    → Option (Sock × List (List ℕ))
unfolding passed
sent_on next taken (s, err e) = some (s, [])
sent_on next taken (s, ok []) = some (s, [])
sent_on next false (s, ok (b ∷ bs)) = some (s, [])
sent_on next true (s, ok (b ∷ bs)) = passed (b ∷ bs) (next s)

-- `up_to_app`: the messages that reach the application; `takes n` says whether the channel takes
-- message `n`. `none` is a loop that ran out of fuel.
pub up_to_app : (ℕ → Bool) → ℕ → ℕ → Sock → Option (Sock × List (List ℕ))
unfolding sent_on
up_to_app takes zero n s = none
up_to_app takes (suc fuel) n s =
    sent_on (up_to_app takes fuel (n + 1)) (takes n) (read chunk_size s)
