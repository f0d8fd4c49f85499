-- ===== src/Examples/Endpoint.antt =====
-- The diagnostic endpoint, asked without its token.
use gravital_share.Common.{◌≡◌, refl, List, [], ◌∷◌, none, some, true, false, All, inl, inr}
use gravital_share.Common.Addr.{v4, SocketAddr}
use gravital_share.Common.Io.{unexpected_eof}
use gravital_share.Common.Outcome.{ok}
use gravital_share.Common.Sock.{Sock, read, sock}
use gravital_share.Common.Text.{codes}
use gravital_share.Obs.Mcp
use gravital_share.Obs.Mcp.{Bodies, contains, unauthorized, write_all, handle_mcp_request}
use gravital_share.Obs.Mcp.Serve as Serve
use gravital_share.Obs.Mcp.Serve.{
  McpEvent, accepted, accept_failed, changed, IsOutside, IsRefused, serve, serve-refuses,
}
use gravital_share.Obs.Mcp.Token.{carries}

abbrev bodies : Bodies
bodies = record { state_json = codes "s"; metrics_json = codes "m"; dns_check_json = codes "d" }

abbrev others : Bodies
others = record { state_json = []; metrics_json = []; dns_check_json = [] }

abbrev asking : Sock
asking = sock (codes "GET /state HTTP/1.1\r\n\r\n" ∷ []) none [] none

asking-carries : carries some (codes "t") (read 4096 asking).1 ≡ false
unfolding read contains Mcp.starts_with
asking-carries = refl

-- A peer of this machine without the token, and one of another machine.
abbrev far : SocketAddr
far = record { ip = v4 (record { a = 10; b = 0; c = 0; d = 7 }); port = 4000 }

abbrev asked : List McpEvent
asked =
    accepted Serve.mcp_addr asking
    ∷ accepted far asking
    ∷ accept_failed unexpected_eof false
    ∷ changed true
    ∷ []

asked-IsOutside : All (IsOutside some (codes "t")) asked
unfolding IsOutside
asked-IsOutside = ((refl, inr asking-carries), ((refl, inl refl), (tt, (tt, tt))))

serve-refuses_example :
    (serve some (λ a. ok tt) bodies (codes "t") asked
      ≡ serve some (λ a. ok tt) others (codes "t") asked)
    × All IsRefused (serve some (λ a. ok tt) bodies (codes "t") asked).left
serve-refuses_example =
    serve-refuses some (λ a. ok tt) bodies others (codes "t") asked asked-IsOutside
