-- ===== src/UdpGw/Mux.antt =====
-- engine/crates/gravital-udpgw/src/mux.rs: the table of associations. The counter is a u32, which
-- `fetch_add` wraps.
use gravital_share.Common.{
  ap, ◌∙◌, ℕ, zero, suc, ◌+◌, ◌%◌, ◌^◌, ◌≡◌, ◌≢◌, refl, arith, List, [], ◌∷◌, Option, none, some,
  ℕ_discrete, length,
}
use gravital_share.Common.Addr.{SocketAddr}
use gravital_share.Common.Assoc
use gravital_share.Common.Assoc.{get-insert_self, get-insert_ne, get-remove_self, get-remove_ne}

pub record UdpGwMux : Type 0 where
  pub next_id : ℕ
  pub associations : List (ℕ × SocketAddr)

unfoldable pub new : UdpGwMux
new = record { next_id = 1; associations = [] }

allocate_id : UdpGwMux → SocketAddr → UdpGwMux × ℕ
allocate_id m client_addr = (
  record {
    next_id = (m.next_id + 1) % 2 ^ 32;
    associations = Assoc.insert ℕ_discrete m.associations m.next_id client_addr;
  },
  m.next_id,
)

lookup : UdpGwMux → ℕ → Option SocketAddr
lookup m id = Assoc.get ℕ_discrete m.associations id

release : UdpGwMux → ℕ → UdpGwMux
release m id = record m { associations = Assoc.remove ℕ_discrete m.associations id }

-- The entries of the map; every key stands in it once.
unfoldable pub active_count : UdpGwMux → ℕ
active_count m = length m.associations

-- An allocated identifier is looked up to its client and leaves every other entry as it was; a
-- released one is looked up to nothing, and every other entry stays.
allocate-release :
    (m : UdpGwMux) (a : SocketAddr)
    → (lookup (allocate_id m a).0 (allocate_id m a).1 ≡ some a)
      × ((j : ℕ) → (allocate_id m a).1 ≢ j → lookup (allocate_id m a).0 j ≡ lookup m j)
      × ((i : ℕ) → lookup (release m i) i ≡ none)
      × ((i j : ℕ) → i ≢ j → lookup (release m i) j ≡ lookup m j)
unfolding lookup allocate_id release
allocate-release m a = (
  get-insert_self ℕ_discrete m.associations m.next_id a,
  λ j h. get-insert_ne ℕ_discrete m.associations m.next_id j a h,
  λ i. get-remove_self ℕ_discrete m.associations i,
  λ i j h. get-remove_ne ℕ_discrete m.associations i j h,
)

-- The identifiers of `n` allocations in a row.
allocate_all : UdpGwMux → List SocketAddr → UdpGwMux × List ℕ
allocate_all m [] = (m, [])
allocate_all m (a ∷ as') =
    let r = allocate_id m a in let rest = allocate_all r.0 as' in (rest.0, r.1 ∷ rest.1)

-- The `n` numbers from `from` on, as u32.
abbrev pub count_up : ℕ → ℕ → List ℕ
count_up from zero = []
count_up from (suc n) = from % 2 ^ 32 ∷ count_up (from + 1) n

allocate_all-from :
    (m : UdpGwMux) (from : ℕ) (clients : List SocketAddr)
    → m.next_id ≡ from % 2 ^ 32
    → (allocate_all m clients).1 ≡ count_up from (length clients)
unfolding allocate_all allocate_id
allocate_all-from m from [] h = refl
allocate_all-from m from (a ∷ as') h =
    let next : (m.next_id + 1) % 2 ^ 32 ≡ (from + 1) % 2 ^ 32 = omega arith in
    let rest = allocate_all-from (allocate_id m a).0 (from + 1) as' next in
    ap (λ (i : ℕ). i ∷ (allocate_all (allocate_id m a).0 as').1) h ∙ ap (◌∷◌ (from % 2 ^ 32)) rest

-- A new table gives out the identifiers 1, 2, 3 and so on, wrapping at 2 ^ 32, whatever the
-- clients.
allocate_all-new :
    (clients : List SocketAddr) → (allocate_all new clients).1 ≡ count_up 1 (length clients)
unfolding new
allocate_all-new clients = allocate_all-from new 1 clients (omega arith)
