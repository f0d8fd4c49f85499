-- ===== src/Http/Server/Requested.antt =====
-- The loop that reads a head, and the match on the request behind it.
use gravital_share.Common.{
  ℕ, ◌≤◌, ◌<◌, ◌≡◌, refl, ap, ◌∙◌, arith, List, [], ◌∷◌, ◌++◌, Option, none, some, length, All,
}
use mathlib.Core.Logic.{if_pos}
use gravital_share.Common.Io.{IoError}
use gravital_share.Common.Outcome.{ok}
use gravital_share.Common.Sock.{Sock, concat, IsNonempty, sock}
use gravital_share.Common.Text.{codes, show_u16}
use gravital_share.Http.Target.RoundTrip.{parse_host_port-show}
use gravital_share.Http.Server.{
  Status, complete, Request, max_header_size, Net, dialled, connect_target, with_path,
  text-discrete, requested, after_head, handle_http_proxy,
}
use gravital_share.Http.Server.Head.{Recognises, read_head-Finds}

-- A request, and what follows its head.
module _ (net : Net) (head body : List ℕ) (req : Request) (segs : List (List ℕ))
    (e : Option IoError) (rec : Recognises net.parser head req)
    (fits : length head ≤ max_header_size) (some_head : 0 < length head)
    (whole : All IsNonempty segs) (sent : concat segs ≡ head ++ body) where
  after_head-request :
      (m : List ℕ) (left : List (List ℕ))
      → after_head net (some (sock left e [] none, ok (length head, head ++ m)))
        ≡ some (
            requested net
              (length head)
              (head ++ m)
              (sock left e [] none)
              (ok (complete (length head), req)))
  unfolding after_head
  after_head-request m left =
      ap (λ r. some (requested net (length head) (head ++ m) (sock left e [] none) r))
        (rec.of_head m)

  -- The loop has read the head; what is left of the segments still follows.
  pub handle-requested :
      (m : List ℕ) × (left : List (List ℕ)) × (m ++ concat left ≡ body)
      × (handle_http_proxy net (sock segs e [] none)
          ≡ some (
              requested net
                (length head)
                (head ++ m)
                (sock left e [] none)
                (ok (complete (length head), req))))
  unfolding handle_http_proxy
  handle-requested =
      let (m, left, found, rest) =
        read_head-Finds net.parser head req rec fits e [] none body max_header_size [] segs sent
          some_head whole (omega arith) in
      (m, left, rest, ap (after_head net) found ∙ after_head-request m left)

-- A CONNECT request for a host and a port.
abbrev pub connect_request : List ℕ → ℕ → Request
connect_request host port = record {
  method = some (codes "CONNECT");
  path = some (host ++ (b':' ∷ show_u16 port));
}

pub requested-dialled :
    (net : Net) (n : ℕ) (buf host : List ℕ) (port : ℕ) (s : Sock) (status : Status)
    → port < 65536
    → requested net n buf s (ok (status, connect_request host port))
      ≡ dialled net n buf s (net.connect host port)
unfolding requested with_path connect_target
requested-dialled net n buf host port s status lt =
    if_pos (text-discrete (codes "CONNECT") (codes "CONNECT")) refl _ _
    ∙ ap (connect_target net n buf s) (parse_host_port-show host port lt)
