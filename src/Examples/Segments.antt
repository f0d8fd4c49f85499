-- ===== src/Examples/Segments.antt =====
-- TCP, UDP and IPv6 views of concrete buffers.
use gravital_share.Common.{
  ℕ, ◌-◌, ◌≤◌, ◌<◌, ◌≡◌, ◌↔◌, refl, List, [], ◌∷◌, length, take, drop, min, replicate,
}
use gravital_share.Common.Bytes.{word}
use gravital_share.Common.Outcome.{ret, panic, ok}
use gravital_share.Proto.Ipv6
use gravital_share.Proto.Udp
use gravital_share.Proto.Segments.{udp_payload-cases}

abbrev segment : List ℕ
segment =
    0x30 ∷ 0x39 ∷ 0 ∷ 80 ∷ 0 ∷ 0 ∷ 0 ∷ 1 ∷ 0 ∷ 0 ∷ 0 ∷ 0 ∷ 0x50 ∷ 2 ∷ 255 ∷ 255 ∷ 0 ∷ 0 ∷ 0 ∷ 0 ∷ 7
    ∷ []

-- A UDP header with a length field of 3.
abbrev short_udp : List ℕ
short_udp = 0 ∷ 53 ∷ 0 ∷ 80 ∷ 0 ∷ 3 ∷ 0 ∷ 0 ∷ 9 ∷ []

short_udp-parses : Udp.parse short_udp ≡ ret (ok (record { bytes = short_udp }))
unfolding Udp.parse
short_udp-parses = refl

udp_payload-cases_example :
    (8 ≤ word short_udp 4
      → Udp.payload (record { bytes = short_udp })
        ≡ ret (take (min (word short_udp 4) (length short_udp) - 8) (drop 8 short_udp)))
    × ((Udp.payload (record { bytes = short_udp }) ≡ panic) ↔ (word short_udp 4 < 8))
udp_payload-cases_example =
    udp_payload-cases short_udp (record { bytes = short_udp }) short_udp-parses

abbrev ipv6_packet : List ℕ
ipv6_packet = 0x60 ∷ 0 ∷ 0 ∷ 0 ∷ 0 ∷ 2 ∷ 17 ∷ 64 ∷ replicate 33 1

ipv6_packet-parses : Ipv6.parse ipv6_packet ≡ ret (ok (record { bytes = ipv6_packet }))
unfolding Ipv6.parse
ipv6_packet-parses = refl
