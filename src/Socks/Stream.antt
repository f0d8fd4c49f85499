-- ===== src/Socks/Stream.antt =====
-- The byte stream of a TCP connection as the protocol code sees it: the bytes still to come, what
-- ends them (`unexpected_eof` is a peer that closed), the bytes written so far, and the error of
-- writing, if the peer no longer takes bytes. With the errors of
-- engine/crates/gravital-socks/src/error.rs and the state monad of the protocol functions.
use gravital_share.Common.{
  ℕ, zero, suc, List, [], ◌∷◌, ◌++◌, Option, none, some, ◌≡◌, refl, length, ap,
}
use gravital_share.Common.Bytes.{byte, be16}
use gravital_share.Common.Io.{IoError, unexpected_eof, connection_refused, timed_out, other}
use gravital_share.Common.Outcome.{Result, ok, err}

pub data SocksError : Type 0 where
  io : IoError → SocksError
  invalid_version : ℕ → SocksError
  no_acceptable_method auth_rejected host_unreachable refused : SocksError
  command_not_supported : ℕ → SocksError
  address_type_not_supported : ℕ → SocksError
  upstream : IoError → SocksError
  server_reply : ℕ → SocksError
  premature_eof timeout : SocksError

pub record Stream : Type 0 where
  pub input : List ℕ
  pub ending : IoError
  pub output : List ℕ
  pub broken : Option IoError

abbrev pub M : Type 0 → Type 0
M A = Stream → Stream × Result SocksError A

infixl 5 ◌>>=◌ ◌>>◌
abbrev pub ◌>>=◌ : {A B : Type 0} → M A → (A → M B) → M B
◌>>=◌ m f s = let r = m s in elim r.1 [ ok a ↦ f a r.0 | err e ↦ (r.0, err e) ]

-- A step that succeeds.
pub bind_ok :
    {A B : Type 0} (m : M A) (f : A → M B) {s s' : Stream} {a : A}
    → m s ≡ (s', ok a)
    → (m >>= f) s ≡ f a s'
bind_ok {A} {B} m f h =
    ap {B = Stream × Result SocksError B}
      (λ (r : Stream × Result SocksError A). elim r.1 [ ok a ↦ f a r.0 | err e ↦ (r.0, err e) ]) h

-- A step that fails.
bind_err :
    {A B : Type 0} (m : M A) (f : A → M B) {s s' : Stream} {e : SocksError}
    → m s ≡ (s', err e)
    → (m >>= f) s ≡ (s', err e)
bind_err {A} {B} m f h =
    ap {B = Stream × Result SocksError B}
      (λ (r : Stream × Result SocksError A). elim r.1 [ ok a ↦ f a r.0 | err e ↦ (r.0, err e) ]) h

abbrev pub ◌>>◌ : {B : Type 0} → M (Unit {0}) → M B → M B
m >> k = m >>= λ _. k

abbrev pub done : {A : Type 0} → A → M A
done a s = (s, ok a)

abbrev pub fail : {A : Type 0} → SocksError → M A
fail e s = (s, err e)

-- A function's result in the monad, for `?` on a pure `Result`.
abbrev pub lift : {A : Type 0} → Result SocksError A → M A
lift r s = (s, r)

map_eof : IoError → SocksError
map_eof unexpected_eof = premature_eof
map_eof connection_refused = io connection_refused
map_eof timed_out = io timed_out
map_eof (other n) = io (other n)

-- The first `n` elements and the rest, if there are so many.
abbrev pub split_at? {ℓ} : {A : Type ℓ} → ℕ → List A → Option (List A × List A)
split_at? zero xs = some ([], xs)
split_at? (suc n) [] = none
split_at? (suc n) (x ∷ xs) = elim (split_at? n xs) [
  | none ↦ none
  | some (front, back) ↦ some (x ∷ front, back)
]

pub split_at?-append {ℓ} :
    {A : Type ℓ} (xs ys : List A) → split_at? (length xs) (xs ++ ys) ≡ some (xs, ys)
split_at?-append [] ys = refl
split_at?-append (x ∷ xs) ys = rw (split_at?-append xs ys, split_at?)

-- `read_exact` into a buffer of `n` bytes, its error through `map_eof`. A short input is used up.
unfoldable pub read_exact : ℕ → M (List ℕ)
unfolding map_eof
read_exact n s = elim (split_at? n s.input) [
  | none ↦ (record s { input = [] }, err (map_eof s.ending))
  | some (front, back) ↦ (record s { input = back }, ok front)
]

-- `read_u8` and `read_u16` (big endian).
unfoldable pub read_u8 : M ℕ
read_u8 = do b ← read_exact 1; done (byte b 0)

unfoldable pub read_u16 : M ℕ
read_u16 = do b ← read_exact 2; done (be16 (byte b 0) (byte b 1))

-- `write_all`, its error as `SocksError::Io`.
unfoldable pub write_all : List ℕ → M (Unit {0})
write_all bs s = elim s.broken [
  | some e ↦ (s, err (io e))
  | none ↦ (record s { output = s.output ++ bs }, ok tt)
]
