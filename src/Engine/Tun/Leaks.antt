-- ===== src/Engine/Tun/Leaks.antt =====
-- What can become of a packet from the TUN device, for every packet.
use gravital_share.Common.{
  ℕ, ◌+◌, ◌≡◌, ◌≢◌, refl, ap, ◌∙◌, sym, arith, List, Bool-cases, inl, inr, ◌⊎◌, none, some, Option,
  ==→eq, true,
}
use gravital_share.Common.Bytes.{word, at_lt, u16_at_lt, slice_in}
use gravital_share.Common.Outcome.{returned, Outcome, ret, panic, ok, Result-cases}
use gravital_share.Proto.Ip
use gravital_share.Proto.Ip.{IpView, v4, v6}
use gravital_share.Proto.Ipv4
use gravital_share.Proto.Ipv6
use gravital_share.Proto.Ipv4.Safety.{parse-IsHeader, parse_iff}
use gravital_share.Proto.Dispatch.{parse-ne-panic}
use gravital_share.Proto.Ipv4.{IpProtocol, icmp, tcp, udp, ipv6_icmp, other}
use gravital_share.Stack.Rewrite.Image.{ihl_of, header_length_lt}
use gravital_share.Engine.Reply.{udp_dst_port, extract_udp_payload}
use gravital_share.Engine.Tun.{
  EngineMetrics, Action, feed, drop_counted, count_in, count_drop, is_dns_port, query_of,
  dispatch_protocol, dispatch_view, handle_packet,
}

-- The two readers return on every buffer.
udp_dst_port-ne-panic : (p : List ℕ) → udp_dst_port p ≢ panic
unfolding udp_dst_port
udp_dst_port-ne-panic p e =
    ground (arith, at_lt p 0, at_lt p 9, header_length_lt p, u16_at_lt p (ihl_of p + 2))

pub extract-ne-panic : (p : List ℕ) → extract_udp_payload p ≢ panic
unfolding extract_udp_payload
extract-ne-panic p e = ground (
  arith,
  at_lt p 0,
  at_lt p 9,
  header_length_lt p,
  u16_at_lt p (ihl_of p + 4),
  slice_in p (ihl_of p + 8) (ihl_of p + word p (ihl_of p + 4)),
)

-- The three fates of a packet after it was counted in `m`: a TCP packet is fed to the stack; a UDP
-- packet to port 53 becomes a query with its payload, or ends there if its lengths are damaged;
-- any other packet is counted as dropped.
abbrev pub Fate : EngineMetrics → List ℕ → Outcome (EngineMetrics × Action) → Type 0
Fate m p o =
    (o ≡ ret (m, feed))
    ⊎ ((udp_dst_port p ≡ ret (some 53))
        × (q : Option (List ℕ)) × (extract_udp_payload p ≡ ret q)
        × (o ≡ ret (m, query_of q)))
    ⊎ (o ≡ ret (count_drop m, drop_counted))

dns_port-53 : (port : Option ℕ) → is_dns_port port ≡ true → port ≡ some 53
unfolding is_dns_port
dns_port-53 none h = cc
dns_port-53 (some n) h = ap some (==→eq n 53 h)

query_of-ne-feed : (q : Option (List ℕ)) → query_of q ≢ feed
unfolding query_of
query_of-ne-feed none e = cc
query_of-ne-feed (some q) e = cc

abbrev at_metrics : EngineMetrics → Action → Outcome (EngineMetrics × Action)
at_metrics m a = ret (m, a)

pair_action : (m m' : EngineMetrics) (a b : Action) → ret (m, a) ≡ at_metrics m' b → a ≡ b
pair_action m m' a b e = cc

dispatch-Fate :
    (m : EngineMetrics) (p : List ℕ) (proto : IpProtocol)
    → Fate m p (dispatch_protocol m p proto)
      × (dispatch_protocol m p proto ≡ ret (m, feed) → proto ≡ tcp)
unfolding dispatch_protocol
dispatch-Fate m p tcp = (inl refl, λ e. refl)
dispatch-Fate m p icmp = (inr (inr refl), λ e. cc)
dispatch-Fate m p ipv6_icmp = (inr (inr refl), λ e. cc)
dispatch-Fate m p (other n) = (inr (inr refl), λ e. cc)
dispatch-Fate m p udp =
    let (port, ep) = returned (udp_dst_port p) (udp_dst_port-ne-panic p) in
    let (q, eq) = returned (extract_udp_payload p) (extract-ne-panic p) in
    elim (Bool-cases (is_dns_port port)) [
      | inl b ↦
          let to_dns = ep ∙ ap ret (dns_port-53 port b) in
          let run : dispatch_protocol m p udp ≡ ret (m, query_of q) =
            rw (ep, dispatch_protocol) (rw (b, eq) refl) in
          (
            inr (inl (to_dns, q, eq, run)),
            λ e. absurd (query_of-ne-feed q (pair_action m m (query_of q) feed (sym run ∙ e))),
          )
      | inr b ↦
          let run : dispatch_protocol m p udp ≡ ret (count_drop m, drop_counted) =
            rw (ep, dispatch_protocol) (rw b refl) in
          (inr (inr run), λ e. cc (pair_action (count_drop m) m drop_counted feed (sym run ∙ e)))
    ]

-- A view that `parse` returned has a protocol.
view_protocol : (p : List ℕ) (v : IpView) → Ip.parse p ≡ ret (ok v) → Ip.protocol v ≢ panic
unfolding Ip.parse Ip.protocol Ipv4.protocol Ipv6.protocol Ipv6.parse
view_protocol p (v4 v) e f =
    ground (arith, at_lt p 0, at_lt p 9, parse-IsHeader p v, (parse_iff p).0)
view_protocol p (v6 v) e f = ground (arith, at_lt p 0, at_lt p 6, (parse_iff p).0)

-- Every packet from the TUN device is handled without a panic, counted once with its length, and
-- meets one of three fates: it is fed to the stack, it becomes a DNS query (or ends there, when its
-- lengths are damaged), which happens to UDP packets to port 53 only, or it is counted as dropped.
-- What is fed to the stack has the protocol TCP.
pub handle_packet-Fate :
    (m : EngineMetrics) (p : List ℕ)
    → Fate (count_in m p) p (handle_packet m p)
      × (handle_packet m p ≡ ret (count_in m p, feed)
          → (v : IpView) × (Ip.parse p ≡ ret (ok v)) × (Ip.protocol v ≡ ret tcp))
unfolding handle_packet dispatch_view
handle_packet-Fate m p =
    let (r, er) = returned (Ip.parse p) (parse-ne-panic p) in
    elim (Result-cases r) [
      | inr (x, e) ↦
          let run : handle_packet m p ≡ ret (count_drop (count_in m p), drop_counted) =
            rw (er, handle_packet) (rw e refl) in
          (
            inr (inr run),
            λ f. absurd (
                cc (
                  pair_action (count_drop (count_in m p)) (count_in m p) drop_counted feed
                    (sym run ∙ f))),
          )
      | inl (v, e) ↦
          let parsed : Ip.parse p ≡ ret (ok v) = er ∙ ap ret e in
          let (proto, ep) = returned (Ip.protocol v) (view_protocol p v parsed) in
          let run : handle_packet m p ≡ dispatch_protocol (count_in m p) p proto =
            rw (parsed, handle_packet) (rw (ep, dispatch_view) refl) in
          let (fate, fed) = dispatch-Fate (count_in m p) p proto in
          (rw run fate, λ f. (v, parsed, ep ∙ ap ret (fed (sym run ∙ f))))
    ]
