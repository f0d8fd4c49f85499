-- ===== src/Http/Server/Refused.antt =====
-- Requests that are refused.
use gravital_share.Common.{
  ℕ, ◌≤◌, ◌<◌, ◌≡◌, ◌≢◌, ap, ◌∙◌, List, [], ◌++◌, Option, none, some, length, All,
}
use mathlib.Core.Logic.{if_neg}
use gravital_share.Common.Io.{IoError}
use gravital_share.Common.Outcome.{err}
use gravital_share.Common.Sock.{concat, IsNonempty, sock}
use gravital_share.Common.Text.{codes, digits}
use gravital_share.Http.Errors.{unsupported_method, upstream_failed}
use gravital_share.Http.Server.{
  write_all, complete, Request, max_header_size, send_error, refused, Net, dialled, method_or_empty,
  text-discrete, requested, handle_http_proxy,
}
use gravital_share.Http.Server.Head.{Recognises}
use gravital_share.Http.Server.Requested.{connect_request, handle-requested, requested-dialled}

-- The replies that refuse a request.
abbrev pub bad_gateway : List ℕ
bad_gateway = codes "HTTP/1.1 502 Bad Gateway\r\nContent-Length: 0\r\nConnection: close\r\n\r\n"

abbrev pub method_not_allowed : List ℕ
method_not_allowed =
    codes "HTTP/1.1 405 Method Not Allowed\r\nContent-Length: 0\r\nConnection: close\r\n\r\n"

-- However the network cuts a CONNECT request for a host and a port into segments, with a head of
-- 1 to 8192 bytes: if the upstream connection fails, the client receives the 502 reply and
-- nothing else.
connect-fails :
    (net : Net) (head body host : List ℕ) (port : ℕ) (segs : List (List ℕ)) (e : Option IoError)
    (x : IoError)
    → Recognises net.parser head (connect_request host port)
    → length head ≤ max_header_size
    → 0 < length head
    → All IsNonempty segs
    → concat segs ≡ head ++ body
    → port < 65536
    → net.connect host port ≡ err x
    → (left : List (List ℕ)) × (handle_http_proxy net (sock segs e [] none)
        ≡ some (record {
          client = sock left e bad_gateway none;
          upstream = none;
          result = err upstream_failed;
        }))
unfolding dialled refused send_error write_all digits
connect-fails net head body host port segs e x rec fits some_head whole sent lt up =
    let (m, left, rest, handled) =
      handle-requested net head body (connect_request host port) segs e rec fits some_head whole
        sent in
    (
      left,
      handled
          ∙ ap some (
              requested-dialled net (length head) (head ++ m) host port (sock left e [] none)
                (complete (length head)) lt
              ∙ ap (dialled net (length head) (head ++ m) (sock left e [] none)) up),
    )

-- However the network cuts a request with another method than CONNECT into segments, with a head of
-- 1 to 8192 bytes: the client receives the 405 reply and nothing else, and no connection is
-- made.
pub method-refused :
    (net : Net) (head body : List ℕ) (req : Request) (segs : List (List ℕ)) (e : Option IoError)
    → Recognises net.parser head req
    → length head ≤ max_header_size
    → 0 < length head
    → All IsNonempty segs
    → concat segs ≡ head ++ body
    → method_or_empty req.method ≢ codes "CONNECT"
    → (left : List (List ℕ)) × (handle_http_proxy net (sock segs e [] none)
        ≡ some (record {
          client = sock left e method_not_allowed none;
          upstream = none;
          result = err (unsupported_method (method_or_empty req.method));
        }))
unfolding requested refused send_error write_all digits
method-refused net head body req segs e rec fits some_head whole sent other =
    let (m, left, rest, handled) =
      handle-requested net head body req segs e rec fits some_head whole sent in
    (
      left,
      handled
          ∙ ap some
              (if_neg (text-discrete (method_or_empty req.method) (codes "CONNECT")) other _ _),
    )
