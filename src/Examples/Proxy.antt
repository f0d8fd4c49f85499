-- ===== src/Examples/Proxy.antt =====
-- The HTTP proxy on a request in three segments, with early bytes behind its head.
use gravital_share.Common.{
  ℕ, ◌≡◌, ◌≢◌, refl, arith, List, [], ◌∷◌, ◌++◌, none, some, ◌==◌, if◌then◌else◌, length, All,
}
use gravital_share.Common.Io.{IoError}
use gravital_share.Common.Outcome.{Result, ok, err}
use gravital_share.Common.Text.{codes, show_u16}
use gravital_share.Http.Errors.{unsupported_method}
use gravital_share.Http.Target.{parse_host_port}
use gravital_share.Http.Target.RoundTrip.{parse_host_port-show}
use gravital_share.Http.Server.{Status, complete, partial, Request, Net, handle_http_proxy}
use gravital_share.Common.Sock.{Sock, IsNonempty, sock, concat}
use gravital_share.Http.Server.Head.{Recognises}
use gravital_share.Http.Server.Tunnel.{Copies, established_reply, connect-forwards}
use gravital_share.Http.Server.Refused.{method_not_allowed, method-refused}
use gravital_share.Http.Server.Requested.{connect_request}

parse_host_port-show_example :
    parse_host_port (codes "[::1]" ++ (b':' ∷ show_u16 443)) ≡ ok (codes "[::1]", 443)
parse_host_port-show_example = parse_host_port-show (codes "[::1]") 443 (omega arith)

-- A parser of one request: it compares the buffer with the head.
matching : Request → ℕ → List ℕ → List ℕ → Result (List ℕ) (Status × Request)
matching req n [] buf = ok (complete n, req)
matching req n (c ∷ head) [] = ok (partial, record { method = none; path = none })
matching req n (c ∷ head) (x ∷ buf) =
    let rest = matching req n head buf in if x == c then rest else err (codes "token")

matching-prefix :
    (req : Request) (n : ℕ) (head a b : List ℕ)
    → a ++ b ≡ head
    → b ≢ []
    → (r : Request) × (matching req n head a ≡ ok (partial, r))
unfolding matching
matching-prefix req n [] [] b eq ne = absurd (ne eq)
matching-prefix req n [] (x ∷ a) b eq ne = cc
matching-prefix req n (c ∷ head) [] b eq ne = (_, refl)
matching-prefix req n (c ∷ head) (x ∷ a) b eq ne =
    let same : x ≡ c = cc in
    let tail : a ++ b ≡ head = cc in
    let (r, rest) = matching-prefix req n head a b tail ne in (r, ground (arith, same, rest))

matching-head :
    (req : Request) (n : ℕ) (head more : List ℕ)
    → matching req n head (head ++ more) ≡ ok (complete n, req)
unfolding matching
matching-head req n [] more = refl
matching-head req n (c ∷ head) more = ground (arith, matching-head req n head more)

matching-Recognises :
    (req : Request) (head : List ℕ) → Recognises (matching req (length head) head) head req
matching-Recognises req head = record {
  of_prefix = matching-prefix req (length head) head;
  of_head = matching-head req (length head) head;
}

-- `copy` of a reader to a writer; nothing moves to a writer that takes no bytes.
copy_all : Sock → Sock → Sock × Sock
copy_all a b = elim b.broken [
  | some e ↦ (a, b)
  | none ↦ (record a { segments = [] }, record b { output = b.output ++ concat a.segments })
]

copy_all-Copies : Copies copy_all none none
unfolding copy_all
copy_all-Copies segs segs' o o' b = refl

abbrev head : List ℕ
head = codes "CONNECT a:1 HTTP/1.1\r\n\r\n"

abbrev segments : List (List ℕ)
segments = codes "CONNECT a:" ∷ codes "1 HTTP/1.1\r\n\r\n*" ∷ codes "-" ∷ []

segments-All : All IsNonempty segments
segments-All = (cc, (cc, (cc, tt)))

abbrev upstream : Sock
upstream = sock (codes "ok" ∷ []) none [] none

-- The network of a request, with the upstream connection's result.
abbrev network : Request → Result IoError Sock → Net
network req r = record {
  parser = matching req (length head) head;
  connect = λ host port. r;
  copy = copy_all;
}

abbrev get_request : Request
get_request = record { method = some (codes "GET"); path = some (codes "/") }

connect-forwards_example :
    handle_http_proxy
      (network (connect_request (codes "a") 1) (ok upstream))
      (sock segments none [] none)
    ≡ some (record {
      client = sock [] none (established_reply ++ codes "ok") none;
      upstream = some (sock [] none (codes "*-") none);
      result = ok tt;
    })
connect-forwards_example =
    connect-forwards (network (connect_request (codes "a") 1) (ok upstream)) head (codes "*-")
      (codes "a") 1 segments (codes "ok" ∷ []) none none
      (matching-Recognises (connect_request (codes "a") 1) head) (omega arith) (omega arith)
      segments-All refl (omega arith) refl copy_all-Copies copy_all-Copies

method-refused_example :
    (left : List (List ℕ)) × (handle_http_proxy
        (network get_request (ok upstream))
        (sock segments none [] none)
      ≡ some (record {
        client = sock left none method_not_allowed none;
        upstream = none;
        result = err (unsupported_method (codes "GET"));
      }))
method-refused_example =
    method-refused (network get_request (ok upstream)) head (codes "*-") get_request segments none
      (matching-Recognises get_request head) (omega arith) (omega arith) segments-All refl cc
