-- ===== src/Tun/Device.antt =====
-- engine/crates/gravital-tun/src/device.rs. The system calls on the descriptor are parameters; what
-- a loop waits for is a list of events, and a loop that has used them up still waits (`none`).
use gravital_share.Common.{
  ℕ, zero, suc, ◌≤◌, ◌<◌, ◌≡◌, refl, arith, dec_lt, List, [], ◌∷◌, ◌++◌, Option, none, some, ltb,
  lt→ltb, le→ltb_false, if◌then◌else◌, length, replicate, take, ◌⊎◌, inl, inr,
}
use gravital_share.Common.Int.{ℤ, pos, negsuc}
use gravital_share.Common.Io.{IoError}
use gravital_share.Common.Outcome.{Result, ok, err}
use gravital_share.Tun.Errors.{TunError, invalid_fd, io, packet_too_large}

abbrev pub buf_size : ℕ
buf_size = 1600

-- The `AsyncFd` by the number of its descriptor.
pub record TunDevice : Type 0 where
  pub fd : ℤ
  pub mtu : ℕ

-- `fcntl` with `F_GETFL` and `F_SETFL`, the flag `O_NONBLOCK` put into the flags, and the
-- registration with the runtime.
pub record Os : Type 0 where
  pub get_flags : ℤ → Result IoError ℕ
  pub nonblocking : ℕ → ℕ
  pub set_flags : ℤ → ℕ → Result IoError (Unit {0})
  pub register : ℤ → Result IoError (Unit {0})

-- `AsyncFd::new`, which takes the file.
pub registered : ℤ → ℕ → Result IoError (Unit {0}) → Result TunError TunDevice × List ℤ
registered fd mtu (err e) = (err (io e), fd ∷ [])
registered fd mtu (ok _) = (ok (record { fd = fd; mtu = mtu }), [])

flags_set : Os → ℤ → ℕ → Result IoError (Unit {0}) → Result TunError TunDevice × List ℤ
unfolding registered
flags_set os fd mtu (err e) = (err (io e), fd ∷ [])
flags_set os fd mtu (ok _) = registered fd mtu (os.register fd)

flags_got : Os → ℤ → ℕ → Result IoError ℕ → Result TunError TunDevice × List ℤ
unfolding flags_set
flags_got os fd mtu (err e) = (err (io e), fd ∷ [])
flags_got os fd mtu (ok flags) = flags_set os fd mtu (os.set_flags fd (os.nonblocking flags))

-- The device, and the descriptors that the call closes: the `File` made of the descriptor owns
-- it, so an early return closes it.
pub from_fd : Os → ℤ → ℕ → Result TunError TunDevice × List ℤ
unfolding flags_got
from_fd os (negsuc n) mtu = (err (invalid_fd (negsuc n)), [])
from_fd os (pos n) mtu = flags_got os (pos n) mtu (os.get_flags (pos n))

-- The halves share the descriptor.
pub record TunReader : Type 0 where
  pub fd : ℤ
  pub mtu : ℕ

pub record TunWriter : Type 0 where
  pub fd : ℤ
  pub mtu : ℕ

unfoldable pub split : TunDevice → TunReader × TunWriter
split d = (record { fd = d.fd; mtu = d.mtu }, record { fd = d.fd; mtu = d.mtu })

-- A round of a loop: waiting fails, the call would block after all, it fails, or it succeeds; a
-- read with the packet that the device has.
pub data ReadEvent : Type 0 where
  wait_failed read_failed : IoError → ReadEvent
  would_block : ReadEvent
  packet : List ℕ → ReadEvent

pub data WriteEvent : Type 0 where
  wait_failed write_failed : IoError → WriteEvent
  would_block accepted : WriteEvent

-- The rounds of `read_packet`; a longer packet than the buffer is cut.
unfoldable pub read_packet : List ReadEvent → Option (Result TunError (List ℕ))
read_packet [] = none
read_packet (ReadEvent.wait_failed e ∷ es) = some (err (io e))
read_packet (ReadEvent.read_failed e ∷ es) = some (err (io e))
read_packet (ReadEvent.would_block ∷ es) = read_packet es
read_packet (ReadEvent.packet p ∷ es) = some (ok (take buf_size p))

-- The rounds of `write_packet`, with the packets that the device has taken. The source ignores the
-- count that `libc::write` returns; a write to a TUN descriptor takes the whole packet or fails.
write_rounds : List ℕ → List WriteEvent → Option (Result TunError (Unit {0})) × List (List ℕ)
write_rounds p [] = (none, [])
write_rounds p (WriteEvent.wait_failed e ∷ es) = (some (err (io e)), [])
write_rounds p (WriteEvent.write_failed e ∷ es) = (some (err (io e)), [])
write_rounds p (WriteEvent.would_block ∷ es) = write_rounds p es
write_rounds p (WriteEvent.accepted ∷ es) = (some (ok tt), p ∷ [])

pub write_packet :
    TunWriter → List ℕ → List WriteEvent → Option (Result TunError (Unit {0})) × List (List ℕ)
unfolding write_rounds
write_packet w p es =
    if ltb w.mtu (length p)
    then (some (err (packet_too_large (length p) w.mtu)), [])
    else write_rounds p es

write_rounds-blocked :
    (p : List ℕ) (n : ℕ) (es : List WriteEvent)
    → write_rounds p (replicate n WriteEvent.would_block ++ es) ≡ write_rounds p es
unfolding write_rounds
write_rounds-blocked p zero es = refl
write_rounds-blocked p (suc n) es = write_rounds-blocked p n es

-- A packet above the MTU is refused with both sizes and never reaches the device; any other is
-- taken by the device exactly once, unchanged, in the first round that does not block, however
-- many rounds block before it.
pub write_packet-once :
    (w : TunWriter) (p : List ℕ) (n : ℕ) (es : List WriteEvent)
    → ((w.mtu < length p)
        × (write_packet w p es ≡ (some (err (packet_too_large (length p) w.mtu)), [])))
      ⊎ ((length p ≤ w.mtu)
          × (write_packet w p (replicate n WriteEvent.would_block ++ (WriteEvent.accepted ∷ es))
              ≡ (some (ok tt), p ∷ [])))
unfolding write_packet
write_packet-once w p n es = elim (dec_lt w.mtu (length p)) [
  | yes big ↦ inl (big, rw (lt→ltb w.mtu (length p) big) refl)
  | no small ↦ inr (
    omega arith,
    rw (le→ltb_false w.mtu (length p) (omega arith))
        (write_rounds-blocked p n (WriteEvent.accepted ∷ es)),
  )
]

module _ (os : Os) (fd : ℤ) (mtu : ℕ) where
  -- The device, or an I/O error behind which the descriptor is closed.
  abbrev Made : Result TunError TunDevice × List ℤ → Type 0
  Made r =
      (r ≡ (ok (record { fd = fd; mtu = mtu }), [])) ⊎ ((e : IoError) × (r ≡ (err (io e), fd ∷ [])))
