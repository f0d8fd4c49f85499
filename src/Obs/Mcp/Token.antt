-- ===== src/Obs/Mcp/Token.antt =====
-- What a request learns that does not carry the token.
use gravital_share.Common.{ℕ, ◌≡◌, ◌⊎◌, inl, inr, refl, List, ◌++◌, Option, Bool, false}
use gravital_share.Common.Io.{IoError}
use gravital_share.Common.Outcome.{Result, ok, err}
use gravital_share.Common.Sock.{Sock, read}
use gravital_share.Common.Text.{codes}
use gravital_share.Obs.Mcp.{
  contains, Bodies, unauthorized, write_all, text_or_empty, respond, after_read, handle_mcp_request,
}

-- Whether the bearer token is in what the first read delivers.
abbrev pub carries : (List ℕ → Option (List ℕ)) → List ℕ → Result IoError (List ℕ) → Bool
carries from_utf8 token (err e) = false
carries from_utf8 token (ok bytes) =
    contains (codes "Authorization: Bearer " ++ token) (text_or_empty (from_utf8 bytes))

after_read-refuses :
    (from_utf8 : List ℕ → Option (List ℕ)) (b b' : Bodies) (token : List ℕ)
    (r : Sock × Result IoError (List ℕ))
    → carries from_utf8 token r.1 ≡ false
    → (after_read from_utf8 b token r ≡ after_read from_utf8 b' token r)
      × (((e : IoError) × (after_read from_utf8 b token r ≡ (r.0, err e)))
          ⊎ (after_read from_utf8 b token r ≡ write_all unauthorized r.0))
unfolding after_read respond
after_read-refuses from_utf8 b b' token (s, err e) h = (refl, inl (e, refl))
after_read-refuses from_utf8 b b' token (s, ok bytes) h = rw h (refl, inr refl)

-- A request whose first 4096 bytes do not carry the bearer token, or cannot be read: whatever the
-- state, the metrics and the path are, the answer is the same: the 401 reply is written, or nothing
-- when the read failed.
pub handle_mcp_request-refuses :
    (from_utf8 : List ℕ → Option (List ℕ)) (b b' : Bodies) (token : List ℕ) (s : Sock)
    → carries from_utf8 token (read 4096 s).1 ≡ false
    → (handle_mcp_request from_utf8 b token s ≡ handle_mcp_request from_utf8 b' token s)
      × (((e : IoError) × (handle_mcp_request from_utf8 b token s ≡ ((read 4096 s).0, err e)))
          ⊎ (handle_mcp_request from_utf8 b token s ≡ write_all unauthorized (read 4096 s).0))
unfolding handle_mcp_request
handle_mcp_request-refuses from_utf8 b b' token s h =
    after_read-refuses from_utf8 b b' token (read 4096 s) h
