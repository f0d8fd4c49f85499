-- ===== src/Engine/Dns.antt =====
-- engine/crates/gravital-dns: the resolver's truncation and the interceptor. The exchange with the
-- server over the protected socket, its timeout included, is the parameter `exchange`.
use gravital_share.Common.{ℕ, ◌+◌, ◌%◌, ◌^◌, List, [], ◌∷◌, take}
use gravital_share.Common.Io.{IoError}
use gravital_share.Common.Outcome.{Result, ok, err}

pub data DnsError : Type 0 where
  io : IoError → DnsError
  resolve_failed : (host reason : List ℕ) → DnsError
  leak_detected invalid_packet : DnsError
  timeout : List ℕ → DnsError

pub record DnsInterceptor : Type 0 where
  pub dns_queries : ℕ
  pub dns_failures : ℕ

unfoldable pub new : DnsInterceptor
new = record { dns_queries = 0; dns_failures = 0 }

-- The buffer holds 4096 bytes; `recv` discards the rest of a longer datagram.
unfoldable pub forward_raw : (List ℕ → Result DnsError (List ℕ)) → List ℕ → Result DnsError (List ℕ)
forward_raw exchange query = elim (exchange query) [ ok resp ↦ ok (take 4096 resp) | err e ↦ err e ]

unfoldable pub build_servfail : List ℕ → List ℕ
build_servfail [] = []
build_servfail (a ∷ []) = []
build_servfail (a ∷ b ∷ []) = a ∷ b ∷ []
build_servfail (a ∷ b ∷ c ∷ []) = a ∷ b ∷ c ∷ []
build_servfail (a ∷ b ∷ c ∷ d ∷ rest) = a ∷ b ∷ 0x81 ∷ 0x82 ∷ rest

-- The interceptor after the query, and the response; it is never an error.
unfoldable pub handle_query :
    (List ℕ → Result DnsError (List ℕ)) → DnsInterceptor → List ℕ → DnsInterceptor × List ℕ
handle_query exchange d query =
    let d' = record d { dns_queries = (d.dns_queries + 1) % 2 ^ 64 } in
    elim (forward_raw exchange query) [
      | ok resp ↦ (d', resp)
      | err _ ↦ (record d' { dns_failures = (d'.dns_failures + 1) % 2 ^ 64 }, build_servfail query)
    ]
