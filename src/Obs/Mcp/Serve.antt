-- ===== src/Obs/Mcp/Serve.antt =====
-- engine/crates/gravital-obs/src/mcp.rs: the endpoint's loop over its connections.
use gravital_share.Common.{
  ℕ, ◌≡◌, ◌⊎◌, inl, inr, refl, ap, ◌∙◌, List, [], ◌∷◌, ◌++◌, Option, none, some, Bool, true, false,
  ◌==◌, All, if◌then◌else◌,
}
use mathlib.Core.Logic.{ite}
use gravital_share.Common.Addr.{Ipv4Addr, IpAddr, v4, v6, SocketAddr}
use native.Mathlib.Omega.{arith}
use gravital_share.Common.Io.{IoError}
use gravital_share.Common.Outcome.{Result, ok, err}
use gravital_share.Common.Sock.{Sock, read, sock}
use gravital_share.Obs.Mcp.{
  mcp_port, path-discrete, Bodies, unauthorized, write_all, handle_mcp_request,
}
use gravital_share.Obs.Mcp.Token.{carries, handle_mcp_request-refuses}

abbrev pub mcp_bind : Ipv4Addr
mcp_bind = record { a = 127; b = 0; c = 0; d = 1 }

abbrev pub mcp_addr : SocketAddr
mcp_addr = record { ip = v4 mcp_bind; port = mcp_port }

abbrev localhost_v6 : List ℕ
localhost_v6 = 0 ∷ 0 ∷ 0 ∷ 0 ∷ 0 ∷ 0 ∷ 0 ∷ 0 ∷ 0 ∷ 0 ∷ 0 ∷ 0 ∷ 0 ∷ 0 ∷ 0 ∷ 1 ∷ []

-- `IpAddr::is_loopback`
abbrev pub is_loopback : IpAddr → Bool
is_loopback (v4 ip) = ip.a == 127
is_loopback (v6 octets) = ite (path-discrete octets localhost_v6) true false

-- What `select!` gives the loop: a connection with its peer, or the flag's new value. An error of
-- `accept` does not match its branch, so that turn waits for the flag alone: the error carries the
-- value that the flag then changes to.
pub data McpEvent : Type 0 where
  accepted : SocketAddr → Sock → McpEvent
  accept_failed : IoError → Bool → McpEvent
  changed : Bool → McpEvent

-- What is left of the connections, in the order in which they came, and whether the loop ended.
pub record Endpoint : Type 0 where
  pub left : List Sock
  pub ended : Bool

abbrev pub stopped : Endpoint
stopped = record { left = []; ended = true }

-- The task of a connection ignores the result of its request; a connection that is not of this
-- machine is shut down.
connection : (List ℕ → Option (List ℕ)) → Bodies → List ℕ → SocketAddr → Sock → Sock
connection from_utf8 b token peer s =
    if is_loopback peer.ip then (handle_mcp_request from_utf8 b token s).0 else s

pub accept_loop : (List ℕ → Option (List ℕ)) → Bodies → List ℕ → List McpEvent → Endpoint
unfolding connection
accept_loop from_utf8 b token [] = record { left = []; ended = false }
accept_loop from_utf8 b token (accepted peer s ∷ es) =
    let rest = accept_loop from_utf8 b token es in
    record rest { left = connection from_utf8 b token peer s ∷ rest.left }
accept_loop from_utf8 b token (accept_failed e true ∷ es) = stopped
accept_loop from_utf8 b token (accept_failed e false ∷ es) = accept_loop from_utf8 b token es
accept_loop from_utf8 b token (changed true ∷ es) = stopped
accept_loop from_utf8 b token (changed false ∷ es) = accept_loop from_utf8 b token es

-- An error of binding is only logged.
bound :
    (List ℕ → Option (List ℕ))
    → Bodies
    → List ℕ
    → List McpEvent
    → Result IoError (Unit {0})
    → Endpoint
unfolding accept_loop
bound from_utf8 b token es (err e) = stopped
bound from_utf8 b token es (ok _) = accept_loop from_utf8 b token es

-- `bind` is what binding a listener to an address gives.
pub serve :
    (List ℕ → Option (List ℕ))
    → (SocketAddr → Result IoError (Unit {0}))
    → Bodies
    → List ℕ
    → List McpEvent
    → Endpoint
unfolding bound
serve from_utf8 bind b token es = bound from_utf8 b token es (bind mcp_addr)

-- A connection that asks in vain: nothing has been written to it, and it is not of this machine or
-- its first read does not carry the bearer token.
unfoldable pub IsOutside : (List ℕ → Option (List ℕ)) → List ℕ → McpEvent → Type 0
IsOutside from_utf8 token (accepted peer s) =
    (s.output ≡ [])
    × ((is_loopback peer.ip ≡ false) ⊎ (carries from_utf8 token (read 4096 s).1 ≡ false))
IsOutside from_utf8 token (accept_failed e b) = Unit
IsOutside from_utf8 token (changed b) = Unit

-- What a peer may have been sent that asks in vain.
abbrev pub IsRefused : Sock → Type 0
IsRefused s = (s.output ≡ []) ⊎ (s.output ≡ unauthorized)

output-read : (n : ℕ) (s : Sock) → (read n s).0.output ≡ s.output
unfolding read
output-read n s = ground arith

write_all-IsRefused_at :
    (segs : List (List ℕ)) (e b : Option IoError) (o : List ℕ)
    → o ≡ []
    → IsRefused (write_all unauthorized (sock segs e o b)).0
unfolding write_all
write_all-IsRefused_at segs e (some x) o h = inl h
write_all-IsRefused_at segs e none o h = inr (ap (λ bs. bs ++ unauthorized) h)

write_all-IsRefused : (s : Sock) → s.output ≡ [] → IsRefused (write_all unauthorized s).0
write_all-IsRefused s = write_all-IsRefused_at s.segments s.ending s.broken s.output

module _ (from_utf8 : List ℕ → Option (List ℕ)) (b b' : Bodies) (token : List ℕ) where
  request-IsRefused :
      (s : Sock)
      → s.output ≡ []
      → carries from_utf8 token (read 4096 s).1 ≡ false
      → IsRefused (handle_mcp_request from_utf8 b token s).0
  request-IsRefused s h out =
      elim (handle_mcp_request-refuses from_utf8 b b' token s out).1
        as (λ _. IsRefused (handle_mcp_request from_utf8 b token s).0) [
          | inl (e, p) ↦ rw p (inl (output-read 4096 s ∙ h))
          | inr p ↦ rw p (write_all-IsRefused (read 4096 s).0 (output-read 4096 s ∙ h))
        ]

  connection-refuses :
      (peer : SocketAddr) (s : Sock)
      → IsOutside from_utf8 token (accepted peer s)
      → (connection from_utf8 b token peer s ≡ connection from_utf8 b' token peer s)
        × IsRefused (connection from_utf8 b token peer s)
  unfolding connection IsOutside
  connection-refuses peer s (h, inl far) = rw far (refl, inl h)
  connection-refuses peer s (h, inr out) =
      elim (is_loopback peer.ip)
        as (λ l.
          ((if l then (handle_mcp_request from_utf8 b token s).0 else s)
            ≡ (if l then (handle_mcp_request from_utf8 b' token s).0 else s))
          × IsRefused (if l then (handle_mcp_request from_utf8 b token s).0 else s)) [
            | true ↦ (
              ap (λ r. r.0) (handle_mcp_request-refuses from_utf8 b b' token s out).0,
              request-IsRefused s h out,
            )
            | false ↦ (refl, inl h)
          ]

  accept_loop-refuses :
      (es : List McpEvent)
      → All (IsOutside from_utf8 token) es
      → (accept_loop from_utf8 b token es ≡ accept_loop from_utf8 b' token es)
        × All IsRefused (accept_loop from_utf8 b token es).left
  unfolding accept_loop
  accept_loop-refuses [] h = (refl, tt)
  accept_loop-refuses (accepted peer s ∷ es) (h, hs) =
      let (same, refused) = connection-refuses peer s h in
      let (sames, refuseds) = accept_loop-refuses es hs in (cc, (refused, refuseds))
  accept_loop-refuses (accept_failed e true ∷ es) h = (refl, tt)
  accept_loop-refuses (accept_failed e false ∷ es) (h, hs) = accept_loop-refuses es hs
  accept_loop-refuses (changed true ∷ es) h = (refl, tt)
  accept_loop-refuses (changed false ∷ es) (h, hs) = accept_loop-refuses es hs

  bound-refuses :
      (es : List McpEvent)
      → All (IsOutside from_utf8 token) es
      → (r : Result IoError (Unit {0}))
      → (bound from_utf8 b token es r ≡ bound from_utf8 b' token es r)
        × All IsRefused (bound from_utf8 b token es r).left
  unfolding bound
  bound-refuses es h (err e) = (refl, tt)
  bound-refuses es h (ok _) = accept_loop-refuses es h

-- Whatever happens to the endpoint, when each of its connections comes from another machine or
-- does not carry the bearer token in what its first read delivers: what is left of all of them does
-- not depend on the state, the metrics and the outcome of the DNS check, and each peer has been sent
-- nothing or the 401 reply.
pub serve-refuses :
    (from_utf8 : List ℕ → Option (List ℕ)) (bind : SocketAddr → Result IoError (Unit {0}))
    (b b' : Bodies) (token : List ℕ) (es : List McpEvent)
    → All (IsOutside from_utf8 token) es
    → (serve from_utf8 bind b token es ≡ serve from_utf8 bind b' token es)
      × All IsRefused (serve from_utf8 bind b token es).left
unfolding serve
serve-refuses from_utf8 bind b b' token es h =
    bound-refuses from_utf8 b b' token es h (bind mcp_addr)
