-- ===== src/Examples/Tables.antt =====
-- The NAT table, filled with a flow.
use gravital_share.Common.{ℕ, ◌≡◌, ◌⊎◌, refl, arith, some, none}
use gravital_share.Common.Addr.{v4, SocketAddr}
use gravital_share.Common.Assoc
use gravital_share.Stack.Nat
use gravital_share.Stack.Nat.{
  NatTable, Flow, lookup_forward, lookup_reverse, insert_flow, remove_by_vport,
}
use gravital_share.Stack.Nat.Scan.{stored}
use gravital_share.Stack.Nat.Invariant.{IsNat, new-IsNat, stored-IsNat}
use gravital_share.Stack.Nat.Insert.{Inserted, Exhausted, insert_flow-returns}

abbrev pub client : SocketAddr
client = record { ip = v4 (record { a = 10; b = 0; c = 0; d = 2 }); port = 12345 }

abbrev pub remote : SocketAddr
remote = record { ip = v4 (record { a = 93; b = 184; c = 216; d = 34 }); port = 80 }

abbrev pub flow : Flow
flow = record { src = client; real_dst = remote }

insert_flow-returns_example :
    ((t' : NatTable) × (p : ℕ) × (insert_flow Nat.new flow ≡ some (t', some p))
      × Inserted Nat.new flow t' p)
    ⊎ ((n : ℕ) × (insert_flow Nat.new flow ≡ some (record Nat.new { next = n }, none))
        × IsNat (record Nat.new { next = n })
        × (lookup_forward Nat.new flow ≡ none)
        × Exhausted Nat.new)
insert_flow-returns_example = insert_flow-returns Nat.new flow new-IsNat

-- The table with the flow under the first port.
abbrev pub table : NatTable
table = stored Nat.new flow 10000 10001

flow-new : lookup_forward Nat.new flow ≡ none
unfolding lookup_forward Nat.new Assoc.get
flow-new = refl

port-free : lookup_reverse Nat.new 10000 ≡ none
unfolding lookup_reverse Nat.new Assoc.get
port-free = refl

pub table-IsNat : IsNat table
table-IsNat =
    stored-IsNat Nat.new flow 10000 10001 new-IsNat flow-new port-free
      (record { low = omega arith; high = omega arith })
      (record { low = omega arith; high = omega arith })
