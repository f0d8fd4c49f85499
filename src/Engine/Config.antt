-- ===== src/Engine/Config.antt =====
-- engine/crates/gravital-engine/src/config.rs
use gravital_share.Common.{ℕ, Bool, true}
use gravital_share.Common.Addr.{IpAddr, v4, SocketAddr}

abbrev pub default_mtu : ℕ
default_mtu = 1280

abbrev pub default_dns : IpAddr
default_dns = v4 (record { a = 1; b = 1; c = 1; d = 1 })

pub record ClientConfig : Type 0 where
  pub proxy_addr : SocketAddr
  pub mtu : ℕ
  pub dns_server : IpAddr
  pub udp_associate_enabled : Bool

abbrev pub default_client : ClientConfig
default_client = record {
  proxy_addr = record { ip = v4 (record { a = 192; b = 168; c = 43; d = 1 }); port = 1080 };
  mtu = default_mtu;
  dns_server = default_dns;
  udp_associate_enabled = true;
}

pub record ServerConfig : Type 0 where
  pub socks_bind : SocketAddr
  pub http_bind : SocketAddr
  pub max_connections : ℕ

-- "0.0.0.0:1080" and "0.0.0.0:8080"
abbrev pub default_socks_bind : SocketAddr
default_socks_bind = record { ip = v4 (record { a = 0; b = 0; c = 0; d = 0 }); port = 1080 }

abbrev pub default_http_bind : SocketAddr
default_http_bind = record { ip = v4 (record { a = 0; b = 0; c = 0; d = 0 }); port = 8080 }

abbrev pub default_max_connections : ℕ
default_max_connections = 512

abbrev pub default_server : ServerConfig
default_server = record {
  socks_bind = default_socks_bind;
  http_bind = default_http_bind;
  max_connections = default_max_connections;
}

pub data EngineConfig : Type 0 where
  client : ClientConfig → EngineConfig
  server : ServerConfig → EngineConfig
