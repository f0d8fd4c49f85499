-- ===== src/Http/Target/RoundTrip.antt =====
-- What the last colon of a target separates.
use gravital_share.Common.{
  ℕ, suc, ◌+◌, ◌<◌, ◌≡◌, refl, ap, ◌∙◌, arith, Option, List, [], ◌∷◌, ◌++◌, none, some, length,
  drop, All, take-append,
}
use gravital_share.Common.Outcome.{ok}
use gravital_share.Common.Text.{parse_u16, show_u16, IsDigit, digits-All, parse_u16-show_u16}
use gravital_share.Http.Target.{rfind, port_of, host_port_at, parse_host_port}

rfind-digits : (cs : List ℕ) → All IsDigit cs → rfind b':' cs ≡ none
unfolding rfind
rfind-digits [] h = refl
rfind-digits (c ∷ cs) (d, h) = rw (rfind-digits cs h) (ground arith)

rfind-append :
    (host port : List ℕ)
    → rfind b':' port ≡ none
    → rfind b':' (host ++ (b':' ∷ port)) ≡ some (length host)
unfolding rfind
rfind-append [] port h = rw h refl
rfind-append (x ∷ host) port h = rw (rfind-append host port h) (ap some (omega arith))

drop_past : (host port : List ℕ) (c : ℕ) → drop (suc (length host)) (host ++ (c ∷ port)) ≡ port
drop_past [] port c = refl
drop_past (x ∷ host) port c = drop_past host port c

drop_after :
    (host port : List ℕ) (c n : ℕ) → n ≡ suc (length host) → drop n (host ++ (c ∷ port)) ≡ port
drop_after host port c n q = rw q (drop_past host port c)

port_of-reads :
    (target : List ℕ) {h host : List ℕ} {o : Option ℕ} {port : ℕ}
    → h ≡ host
    → o ≡ some port
    → port_of target h o ≡ ok (host, port)
unfolding port_of
port_of-reads target {host} q r = cc

-- For a port below 65536, a host, a colon and the decimal text of the port are read as that host
-- and port, whatever bytes the host has: further colons and the brackets of an IPv6 address stay
-- in it.
pub parse_host_port-show :
    (host : List ℕ) (port : ℕ)
    → port < 65536
    → parse_host_port (host ++ (b':' ∷ show_u16 port)) ≡ ok (host, port)
unfolding parse_host_port host_port_at
parse_host_port-show host port h =
    rw
      (
        rfind-append host (show_u16 port)
            (rfind-digits (show_u16 port) (digits-All 4 port (omega arith))),
        host_port_at,
      )
      (port_of-reads _ (take-append host (b':' ∷ show_u16 port)) (
        ap parse_u16 (drop_after host (show_u16 port) b':' (length host + 1) (omega arith))
        ∙ parse_u16-show_u16 port h))
