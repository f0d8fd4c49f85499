-- ===== src/Common/Addr.antt =====
-- Socket addresses of `std::net`.
use Prim.Native.Nat.{ℕ, ◌+◌, ◌<◌}
use mathlib.Core.Path.{◌≡◌}
use mathlib.Core.List.{List}
use native.Mathlib.Decide.{ℕ_discrete}
use native.Mathlib.Omega.{arith}
use gravital_share.Common.Lists.{length}
use gravital_share.Common.Bytes.{byte, at, at_lt}
use gravital_share.Common.Outcome.{Outcome, ret, ◌>>=◌}

pub record Ipv4Addr : Type 0 where
  pub a : ℕ
  pub b : ℕ
  pub c : ℕ
  pub d : ℕ

-- `Ipv6Addr` by its sixteen octets.
pub data IpAddr : Type 0 where
  v4 : Ipv4Addr → IpAddr
  v6 : List ℕ → IpAddr

pub record SocketAddr : Type 0 where
  pub ip : IpAddr
  pub port : ℕ

pub SocketAddr-discrete : Discrete SocketAddr
SocketAddr-discrete = hlevel ℕ_discrete

-- `Ipv4Addr::new(p[i], p[i + 1], p[i + 2], p[i + 3])`
pub ipv4_at : List ℕ → ℕ → Outcome Ipv4Addr
ipv4_at p i = do
  x ← at p i
  y ← at p (i + 1)
  z ← at p (i + 2)
  w ← at p (i + 3)
  ret (record { a = x; b = y; c = z; d = w })

abbrev pub ipv4_of : List ℕ → ℕ → Ipv4Addr
ipv4_of p i = record { a = byte p i; b = byte p (i + 1); c = byte p (i + 2); d = byte p (i + 3) }

pub ipv4_at_lt : (p : List ℕ) (i : ℕ) → i + 3 < length p → ipv4_at p i ≡ ret (ipv4_of p i)
unfolding ipv4_at
ipv4_at_lt p i h = ground (arith, at_lt p i, at_lt p (i + 1), at_lt p (i + 2), at_lt p (i + 3))
