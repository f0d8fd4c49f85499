-- ===== src/Stack/Nat.antt =====
-- engine/crates/gravital-stack/src/nat.rs: `NatTable`. The two hash maps are association lists,
-- and a u16 wraps at 65536.
pub mod Scan
pub mod Invariant
pub mod Insert
use gravital_share.Common.{
  ℕ, zero, suc, ◌+◌, ◌-◌, ◌%◌, List, [], Option, none, some, ◌==◌, if◌then◌else◌, true, false,
  ℕ_discrete,
}
use gravital_share.Common.Addr.{SocketAddr, SocketAddr-discrete}
use gravital_share.Common.Assoc.{get, insert, remove}

-- (src, real_dst)
pub record Flow : Type 0 where
  pub src : SocketAddr
  pub real_dst : SocketAddr

pub Flow-discrete : Discrete Flow
Flow-discrete = hlevel SocketAddr-discrete

pub record NatTable : Type 0 where
  pub forward : List (Flow × ℕ)
  pub reverse : List (ℕ × Flow)
  pub next : ℕ

abbrev pub base_port : ℕ
base_port = 10000

abbrev pub port_range : ℕ
port_range = 50000

unfoldable pub new : NatTable
new = record { forward = []; reverse = []; next = base_port }

-- `BASE_PORT + (self.next - BASE_PORT + 1) % PORT_RANGE`
pub next_port : ℕ → ℕ
next_port p = (base_port + ((p + 65536 - base_port) % 65536 + 1) % 65536 % port_range) % 65536

unfoldable pub lookup_forward : NatTable → Flow → Option ℕ
lookup_forward t k = get Flow-discrete t.forward k

unfoldable pub lookup_reverse : NatTable → ℕ → Option Flow
lookup_reverse t vport = get ℕ_discrete t.reverse vport

-- The loop of `insert`, with fuel; the outer `none` means that the fuel ran out, the inner one is
-- the `None` of a full table. `next` has advanced in either case.
pub scan : ℕ → ℕ → Flow → NatTable → Option (NatTable × Option ℕ)
scan zero start key t = none
scan (suc fuel) start key t =
    let vp = t.next in
    let t' = record t { next = next_port vp } in
    elim (lookup_reverse t vp) [
      | none ↦ some (
        record t' {
          forward = insert Flow-discrete t.forward key vp;
          reverse = insert ℕ_discrete t.reverse vp key;
        },
        some vp,
      )
      | some _ ↦
          let more = scan fuel start key t' in
          if next_port vp == start then some (t', none) else more
    ]

-- One round of the loop for each port of the range.
pub insert_flow : NatTable → Flow → Option (NatTable × Option ℕ)
insert_flow t key = elim (lookup_forward t key) [
  | some vp ↦ some (t, some vp)
  | none ↦ scan port_range t.next key t
]

pub remove_by_vport : NatTable → ℕ → NatTable
remove_by_vport t vport = elim (lookup_reverse t vport) [
  | none ↦ t
  | some key ↦ record t {
    reverse = remove ℕ_discrete t.reverse vport;
    forward = remove Flow-discrete t.forward key;
  }
]
