-- ===== src/Tun/Platform.antt =====
-- engine/crates/gravital-tun/src/platform.rs: `open_tun` on Linux. `open` and `ioctl` are
-- parameters; a descriptor is a number, and an open that fails is the error it leaves.
use gravital_share.Common.{
  ℕ, ◌+◌, ◌-◌, ◌≡◌, ◌⊎◌, inl, inr, refl, arith, List, [], ◌∷◌, ◌++◌, Option, none, some, Bool, true,
  false, ◌==◌, ◌||◌, if◌then◌else◌, min, length, take, replicate,
}
use gravital_share.Common.Int.{negsuc}
use gravital_share.Common.Io.{IoError}
use gravital_share.Common.Outcome.{Result, ok, err}
use gravital_share.Tun.Errors.{TunError, invalid_fd, io}

-- `ifr_flags` and the name; the padding is not read.
pub record Ifreq : Type 0 where
  pub ifr_name : List ℕ
  pub ifr_flags : ℕ

-- `open` of /dev/net/tun, and `ioctl` with TUNSETIFF.
pub record Kernel : Type 0 where
  pub open_fd : Result IoError ℕ
  pub set_iff : ℕ → Ifreq → Result IoError (Unit {0})

pub has_nul : List ℕ → Bool
has_nul [] = false
has_nul (c ∷ cs) = c == 0 || has_nul cs

-- `CString::new` and `as_bytes_with_nul`: a name with a zero byte is refused.
bytes_with_nul : List ℕ → Option (List ℕ)
unfolding has_nul
bytes_with_nul name = if has_nul name then none else some (name ++ (0 ∷ []))

-- The sixteen bytes, of which at most the first fifteen are written.
unfoldable pub ifr_name_of : List ℕ → List ℕ
ifr_name_of name_bytes =
    let copy_len = min (length name_bytes) 15 in
    take copy_len name_bytes ++ replicate (16 - copy_len) 0

-- IFF_TUN | IFF_NO_PI
abbrev pub ifr_flags_of : ℕ
ifr_flags_of = 0x0001 + 0x1000

-- A result of `open_tun`, the descriptors opened and the ones closed.
pub record Opened : Type 0 where
  pub result : Result TunError ℕ
  pub opens : List ℕ
  pub closes : List ℕ

pub set : ℕ → Result IoError (Unit {0}) → Opened
set fd (err e) = record { result = err (io e); opens = fd ∷ []; closes = fd ∷ [] }
set fd (ok _) = record { result = ok fd; opens = fd ∷ []; closes = [] }

named : Kernel → ℕ → Option (List ℕ) → Opened
unfolding set
named k fd none = record { result = err (invalid_fd (negsuc 0)); opens = fd ∷ []; closes = [] }
named k fd (some bytes) =
    set fd (k.set_iff fd (record { ifr_name = ifr_name_of bytes; ifr_flags = ifr_flags_of }))

opened_device : Kernel → List ℕ → Result IoError ℕ → Opened
unfolding named
opened_device k name (err e) = record { result = err (io e); opens = []; closes = [] }
opened_device k name (ok fd) = named k fd (bytes_with_nul name)

open_tun : Kernel → List ℕ → Opened
unfolding opened_device
open_tun k name = opened_device k name k.open_fd

-- What becomes of the descriptor: it is returned, closed, or lost for the sake of the name.
abbrev pub Fate : ℕ → List ℕ → Opened → Type 0
Fate fd name r =
    ((r.result ≡ ok fd) × (r.closes ≡ []))
    ⊎ (((e : IoError) × (r.result ≡ err (io e)) × (r.closes ≡ fd ∷ []))
        ⊎ ((has_nul name ≡ true) × (r.result ≡ err (invalid_fd (negsuc 0))) × (r.closes ≡ [])))

set-Fate : (fd : ℕ) (name : List ℕ) (r : Result IoError (Unit {0})) → Fate fd name (set fd r)
unfolding set
set-Fate fd name (err e) = inr (inl (e, refl, refl))
set-Fate fd name (ok _) = inl (refl, refl)

bytes_with_nul-none : (name : List ℕ) → bytes_with_nul name ≡ none → has_nul name ≡ true
unfolding bytes_with_nul
bytes_with_nul-none name h = ground arith

named-Fate :
    (k : Kernel) (fd : ℕ) (name : List ℕ) (bytes : Option (List ℕ))
    → (bytes ≡ none → has_nul name ≡ true)
    → Fate fd name (named k fd bytes)
unfolding named
named-Fate k fd name none h = inr (inr (h refl, refl, refl))
named-Fate k fd name (some bytes) h = set-Fate fd name _

-- A descriptor that was opened is returned, or closed when `ioctl` fails, unless the name has a
-- zero byte: then it stays open and is lost.
open_tun-leak :
    (k : Kernel) (name : List ℕ) (fd : ℕ) → k.open_fd ≡ ok fd → Fate fd name (open_tun k name)
unfolding open_tun opened_device
open_tun-leak k name fd h =
    rw h (named-Fate k fd name (bytes_with_nul name) (bytes_with_nul-none name))
