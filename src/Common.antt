-- ===== src/Common.antt =====
-- The names that every component shares: the libraries' names passed on, Boolean tests, lists
-- with native lengths, bytes, outcomes of code that may panic, addresses and maps.
mod Tests
mod Lists
pub mod Bytes
pub mod Splice
pub mod Outcome
pub mod Assoc
pub mod Keys
pub mod Backoff
pub mod Addr
pub mod Append
pub mod Io
pub mod Int
pub mod Serve
pub mod Sock
pub mod Text
pub use Tests.*
pub use Lists.*
pub use Prim.Native.Nat.{ℕ, zero, suc, ◌+◌, ◌-◌, ◌*◌, ◌/◌, ◌%◌, ◌^◌, ◌≤◌, ◌<◌, min, bit_and}
pub use mathlib.Core.Path.{◌≡◌, refl, sym, ap, ◌∙◌}
pub use mathlib.Core.Logic.{◌≢◌, ◌↔◌, ◌⊎◌, inl, inr}
pub use mathlib.Core.Bool.{Bool, true, false, ◌&&◌, ◌||◌, not}
pub use mathlib.Core.Option.{Option, none, some}
pub use mathlib.Core.List.{List, [], ◌∷◌, ◌++◌, map}
pub use native.Mathlib.Omega.{arith}
unfoldable pub use native.Mathlib.Decide.{dec_lt, ℕ_discrete}
