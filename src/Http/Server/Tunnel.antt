-- ===== src/Http/Server/Tunnel.antt =====
-- What the client and the upstream server see of a connection.
use gravital_share.Common.{
  ℕ, ◌≤◌, ◌<◌, ◌≡◌, refl, ap, ◌∙◌, arith, lt→ltb, le→ltb_false, List, [], ◌∷◌, ◌++◌, Option, none,
  some, length, length-append, drop-append, All,
}
use mathlib.Core.List.{append_assoc}
use gravital_share.Common.Io.{IoError}
use gravital_share.Common.Outcome.{Result, ok, err}
use gravital_share.Common.Sock.{Sock, concat, IsNonempty, sock}
use gravital_share.Common.Text.{codes}
use gravital_share.Http.Errors.{HttpProxyError}
use gravital_share.Http.Server.{
  write_all, complete, max_header_size, Handled, Net, relayed, relay_bidirectional, forwarded,
  established, dialled, after_head, handle_http_proxy,
}
use gravital_share.Http.Server.Head.{read_head-Ends, Recognises}
use gravital_share.Http.Server.Requested.{connect_request, handle-requested, requested-dialled}

after_head-some :
    (net : Net) (s : Sock) (x : Result HttpProxyError (ℕ × List ℕ))
    → (h : Handled) × (after_head net (some (s, x)) ≡ some h)
unfolding after_head
after_head-some net s (ok (n, buf)) = (_, refl)
after_head-some net s (err e) = (_, refl)

-- The fuel of the loop that reads the head is enough, whatever httparse says: it makes at most a
-- round for each byte of the buffer. A read that never returns is no part of it.
handle_http_proxy-returns :
    (net : Net) (s : Sock) → (h : Handled) × (handle_http_proxy net s ≡ some h)
unfolding handle_http_proxy
handle_http_proxy-returns net s =
    let (s', x, q, _) =
      read_head-Ends net.parser max_header_size [] s (omega arith) (omega arith) in
    let (h, done) = after_head-some net s' x in (h, ap (after_head net) q ∙ done)

-- `copy` writes all that a reader receives that ends with `e`, up to its end, to a writer that
-- takes bytes. For a reader that ends cleanly this is what `tokio::io::copy` documents.
abbrev pub Copies : (Sock → Sock → Sock × Sock) → Option IoError → Option IoError → Type 0
Copies copy e e' =
    (segs segs' : List (List ℕ)) (o o' : List ℕ) (b : Option IoError)
    → copy (sock segs e o b) (sock segs' e' o' none)
      ≡ (sock [] e o b, sock segs' e' (o' ++ concat segs) none)

abbrev pub established_reply : List ℕ
established_reply = codes "HTTP/1.1 200 Connection established\r\n\r\n"

module _ (net : Net) (e e' : Option IoError) (o : List ℕ) (back : List (List ℕ))
    (copies : Copies net.copy e e') (back_copies : Copies net.copy e' e) where
  relay-forwards :
      (o' : List ℕ) (left : List (List ℕ))
      → relay_bidirectional net (sock left e o none) (sock back e' o' none) ≡ record {
        client = sock [] e (o ++ concat back) none;
        upstream = some (sock [] e' (o' ++ concat left) none);
        result = ok tt;
      }
  unfolding relay_bidirectional relayed
  relay-forwards o' left =
      ap (λ (r : Sock × Sock). relayed (net.copy r.1 r.0)) (copies left back o o' none)
      ∙ ap relayed (back_copies back [] (o' ++ concat left) o none)

  established-forwards :
      (o' head m : List ℕ) (left : List (List ℕ))
      → established net (length head) (head ++ m) (sock back e' o' none) (sock left e o none, ok tt)
        ≡ record {
          client = sock [] e (o ++ concat back) none;
          upstream = some (sock [] e' (o' ++ (m ++ concat left)) none);
          result = ok tt;
        }
  unfolding established forwarded write_all
  established-forwards o' head [] left =
      rw (le→ltb_false (length head) (length (head ++ [])) (omega (arith, length-append head [])))
        (relay-forwards o' left)
  established-forwards o' head (c ∷ m) left =
      rw
        (lt→ltb (length head) (length (head ++ (c ∷ m)))
          (omega (arith, length-append head (c ∷ m))))
        (ap (λ t. relay_bidirectional net (sock left e o none) (sock back e' (o' ++ t) none))
            (drop-append head (c ∷ m))
          ∙ relay-forwards (o' ++ (c ∷ m)) left
          ∙ ap
              (λ t. record {
                client = sock [] e (o ++ concat back) none;
                upstream = some (sock [] e' t none);
                result = ok tt;
              })
              (append_assoc o' (c ∷ m) (concat left)))

-- A tunnel, however the network cuts what the client sends into segments. If httparse recognises
-- the head, of 1 to 8192 bytes, as a CONNECT request for a host and a port, the upstream
-- connection is made and takes bytes, and `copy` copies from readers that end
-- as both sockets do: the upstream server receives exactly the
-- bytes that follow the head, and the client receives the 200 reply and then exactly what the
-- upstream server sends.
pub connect-forwards :
    (net : Net) (head body host : List ℕ) (port : ℕ) (segs back : List (List ℕ))
    (e e' : Option IoError)
    → Recognises net.parser head (connect_request host port)
    → length head ≤ max_header_size
    → 0 < length head
    → All IsNonempty segs
    → concat segs ≡ head ++ body
    → port < 65536
    → net.connect host port ≡ ok (sock back e' [] none)
    → Copies net.copy e e'
    → Copies net.copy e' e
    → handle_http_proxy net (sock segs e [] none)
      ≡ some (record {
        client = sock [] e (established_reply ++ concat back) none;
        upstream = some (sock [] e' body none);
        result = ok tt;
      })
unfolding dialled write_all
connect-forwards net head body host port segs back e e' rec fits some_head whole sent lt up copies
      back_copies =
    let (m, left, rest, handled) =
      handle-requested net head body (connect_request host port) segs e rec fits some_head whole
        sent in
    handled
    ∙ ap some (
        requested-dialled net (length head) (head ++ m) host port (sock left e [] none)
          (complete (length head)) lt
        ∙ ap (dialled net (length head) (head ++ m) (sock left e [] none)) up
        ∙ established-forwards net e e' established_reply back copies back_copies [] head m left
        ∙ ap
            (λ t. record {
              client = sock [] e (established_reply ++ concat back) none;
              upstream = some (sock [] e' t none);
              result = ok tt;
            })
            rest)
