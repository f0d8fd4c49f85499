-- ===== src/Engine/Tun/Answered.antt =====
-- A DNS query from the TUN device, from the packet to the reply.
use gravital_share.Common.{ℕ, ◌+◌, ◌-◌, ◌%◌, ◌≤◌, ◌<◌, ◌≡◌, ◌⊎◌, List, length, take, drop}
use gravital_share.Common.Bytes.{byte, word, IsBytes}
use gravital_share.Common.Outcome.{Result, ok, err}
use gravital_share.Proto.Ip
use gravital_share.Proto.Ipv4
use gravital_share.Proto.Ipv4.{udp}
use gravital_share.Stack.Rewrite.Image.{ihl_of}
use gravital_share.Engine.Reply.Built.{IsUdpPacket}
use gravital_share.Engine.Dns.{DnsError}

-- The payload that the length field of the UDP header announces.
abbrev pub payload_of : List ℕ → List ℕ
payload_of p = take (word p (ihl_of p + 4) - 8) (drop (ihl_of p + 8) p)

-- An IPv4/UDP packet to port 53 whose UDP length covers its header and stays within the packet.
pub record IsDnsQuery (p : List ℕ) : Type 0 where
  pub packet : IsUdpPacket p
  pub to_dns : word p (ihl_of p + 2) ≡ 53
  pub covers : 8 ≤ word p (ihl_of p + 4)
  pub within : ihl_of p + word p (ihl_of p + 4) ≤ length p
  pub short : length p ≤ 65535

-- The server's answers are bytes.
abbrev pub Answers : (List ℕ → Result DnsError (List ℕ)) → Type 0
Answers exchange = (q resp : List ℕ) → exchange q ≡ ok resp → IsBytes resp

-- A SERVFAIL to the query `q`, by RFC 1035: its identifier, the bit QR set, the RCODE 2, and all
-- that the query has behind the flags.
pub record Servfail (q resp : List ℕ) : Type 0 where
  pub size : length resp ≡ length q
  pub id : take 2 resp ≡ take 2 q
  pub qr : 128 ≤ byte resp 2
  pub rcode : byte resp 3 % 16 ≡ 2
  pub rest : drop 4 resp ≡ drop 4 q

-- What the interceptor responds: what the server did, or a SERVFAIL if the exchange failed and the
-- query has its identifier and its flags.
abbrev pub RespondsTo : (List ℕ → Result DnsError (List ℕ)) → List ℕ → List ℕ → Type 0
RespondsTo exchange q resp =
    ((x : List ℕ) × (exchange q ≡ ok x) × (resp ≡ take 4096 x))
    ⊎ ((e : DnsError) × (exchange q ≡ err e) × ((length q < 4) ⊎ Servfail q resp))
