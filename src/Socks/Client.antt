-- ===== src/Socks/Client.antt =====
-- engine/crates/gravital-socks/src/client.rs. The TCP connection to the proxy is made outside; the
-- functions here start on its stream. A delay is in milliseconds.
pub mod Handshake
pub mod Retry
use gravital_share.Common.{ℕ, zero, suc, ◌-◌, List, [], ◌∷◌, not, ◌==◌, if◌then◌else◌, min}
use gravital_share.Common.Backoff.{saturating_pow_two, saturating_mul}
use gravital_share.Common.Bytes.{byte}
use gravital_share.Common.Outcome.{Outcome, ret, panic, Result, ok, err}
use gravital_share.Common.Outcome
use gravital_share.Socks.Stream.{
  SocksError, invalid_version, auth_rejected, server_reply, M, ◌>>=◌, ◌>>◌, done, fail, read_exact,
  write_all,
}
use gravital_share.Socks.Proto.{AddrSpec, encode_address, skip_bound_address}

-- From the reply header on.
pub finish : List ℕ → M (Unit {0})
finish hdr =
    if not (byte hdr 1 == 0x00)
    then fail (server_reply (byte hdr 1))
    else skip_bound_address (byte hdr 3)

pub request : AddrSpec → ℕ → M (Unit {0})
request target port = do
  write_all (encode_address target port (0x05 ∷ 0x01 ∷ 0x00 ∷ []))
  hdr ← read_exact 4
  finish hdr

-- From the answer to the offered method on.
pub greeted : AddrSpec → ℕ → List ℕ → M (Unit {0})
greeted target port resp =
    if not (byte resp 0 == 0x05)
    then fail (invalid_version (byte resp 0))
    else if not (byte resp 1 == 0x00)
    then fail auth_rejected
    else request target port

-- `connect` on the stream to the proxy.
pub connect : AddrSpec → ℕ → M (Unit {0})
connect target port = do
  write_all (0x05 ∷ 0x01 ∷ 0x00 ∷ [])
  resp ← read_exact 2
  greeted target port resp

unfoldable pub backoff_delay : ℕ → ℕ
backoff_delay attempt = min (saturating_mul 250 (saturating_pow_two (attempt - 1))) 30000

-- The attempts from `attempt` on, `left` of them; `try` is `connect` at an attempt. The result has
-- the delays slept; without an attempt left the code is at `unreachable!()`.
pub retry_from :
    {T : Type 0} → (ℕ → Result SocksError T) → ℕ → ℕ → ℕ → Outcome (List ℕ × Result SocksError T)
retry_from try max_attempts attempt zero = panic
retry_from try max_attempts attempt (suc left) =
    let more = retry_from try max_attempts (suc attempt) left in
    elim (try attempt) [
      | ok stream ↦ ret ([], ok stream)
      | err e ↦
          if attempt == max_attempts
          then ret ([], err e)
          else Outcome.◌>>=◌ more (λ r. ret (backoff_delay attempt ∷ r.0, r.1))
    ]

pub connect_with_retry :
    {T : Type 0} → (ℕ → Result SocksError T) → ℕ → Outcome (List ℕ × Result SocksError T)
connect_with_retry try max_attempts = retry_from try max_attempts 1 max_attempts
