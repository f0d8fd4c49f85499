-- ===== src/Socks/Proto.antt =====
-- engine/crates/gravital-socks/src/proto.rs. A `String` is its UTF-8 bytes, and an `Ipv6Addr` its
-- sixteen octets. `String::from_utf8_lossy` of the standard library is the parameter `lossy`.
use gravital_share.Common.{
  ℕ, ◌+◌, ◌%◌, List, [], ◌∷◌, ◌++◌, Bool, true, false, not, ◌&&◌, ◌==◌, if◌then◌else◌, length,
}
use gravital_share.Common.Bytes.{byte, to_be16}
use gravital_share.Common.Addr.{Ipv4Addr, v4, v6, SocketAddr, ipv4_of}
use gravital_share.Common.Outcome.{Result, ok, err}
use gravital_share.Common.Io.{IoError}
use gravital_share.Socks.Stream
use gravital_share.Socks.Stream.{
  SocksError, io, invalid_version, no_acceptable_method, command_not_supported,
  address_type_not_supported, M, ◌>>=◌, ◌>>◌, done, fail, lift, read_exact, read_u8, read_u16,
  write_all,
}

pub data Cmd : Type 0 where
  connect bind udp_associate : Cmd

-- `Cmd::try_from`
unfoldable pub cmd_of : ℕ → Result SocksError Cmd
cmd_of v =
    if v == 0x01
    then ok connect
    else if v == 0x02
    then ok bind
    else if v == 0x03
    then ok udp_associate
    else err (command_not_supported v)

pub data Rep : Type 0 where
  succeeded general_failure not_allowed net_unreachable host_unreachable : Rep
  connection_refused ttl_expired rep_command_not_supported addr_type_not_supported : Rep

-- `rep as u8`
abbrev pub rep_code : Rep → ℕ
rep_code succeeded = 0x00
rep_code general_failure = 0x01
rep_code not_allowed = 0x02
rep_code net_unreachable = 0x03
rep_code host_unreachable = 0x04
rep_code connection_refused = 0x05
rep_code ttl_expired = 0x06
rep_code rep_command_not_supported = 0x07
rep_code addr_type_not_supported = 0x08

pub data AddrSpec : Type 0 where
  ipv4 : Ipv4Addr → AddrSpec
  ipv6 : List ℕ → AddrSpec
  domain : List ℕ → AddrSpec

pub record Request : Type 0 where
  pub cmd : Cmd
  pub addr : AddrSpec
  pub port : ℕ

abbrev pub octets : Ipv4Addr → List ℕ
octets ip = ip.a ∷ ip.b ∷ ip.c ∷ ip.d ∷ []

unfoldable pub encode_address : AddrSpec → ℕ → List ℕ → List ℕ
encode_address (ipv4 ip) port buf = buf ++ (0x01 ∷ octets ip ++ to_be16 port)
encode_address (ipv6 os) port buf = buf ++ (0x04 ∷ os ++ to_be16 port)
encode_address (domain d) port buf = buf ++ (0x03 ∷ length d % 256 ∷ d ++ to_be16 port)

-- `AddrSpec::to_socket_addr`, with the addresses that the resolver finds for a name and a port.
unfoldable pub to_socket_addr :
    (List ℕ → ℕ → Result IoError (List SocketAddr)) → AddrSpec → ℕ → Result SocksError SocketAddr
to_socket_addr lookup_host (ipv4 ip) port = ok (record { ip = v4 ip; port = port })
to_socket_addr lookup_host (ipv6 os) port = ok (record { ip = v6 os; port = port })
to_socket_addr lookup_host (domain d) port = elim (lookup_host d port) [
  | err e ↦ err (io e)
  | ok [] ↦ err Stream.host_unreachable
  | ok (a ∷ as') ↦ ok a
]

-- The bytes of a reply.
abbrev pub reply_bytes : Rep → SocketAddr → List ℕ
reply_bytes rep bound =
    0x05
    ∷ rep_code rep
    ∷ 0x00
    ∷ (elim bound.ip [ v4 ip ↦ 0x01 ∷ octets ip | v6 os ↦ 0x04 ∷ os ] ++ to_be16 bound.port)

unfoldable pub send_reply : Rep → SocketAddr → M (Unit {0})
send_reply rep bound = write_all (reply_bytes rep bound)

-- `methods.contains(&m)`
abbrev pub contains : List ℕ → ℕ → Bool
contains [] m = false
contains (x ∷ xs) m = if x == m then true else contains xs m

abbrev pub answer : ℕ → M ℕ
answer chosen = do write_all (0x05 ∷ chosen ∷ []); done chosen

-- The choice among the offered methods, and the answer to it.
unfoldable pub choose_method : Bool → List ℕ → M ℕ
choose_method server_auth_enabled methods =
    if contains methods 0x00
    then answer 0x00
    else if server_auth_enabled && contains methods 0x02
    then answer 0x02
    else do write_all (0x05 ∷ 0xFF ∷ []); fail no_acceptable_method

-- `negotiate_method` from the two header bytes on.
unfoldable pub methods_of : Bool → List ℕ → M ℕ
methods_of server_auth_enabled hdr =
    if not (byte hdr 0 == 0x05)
    then fail (invalid_version (byte hdr 0))
    else do methods ← read_exact (byte hdr 1); choose_method server_auth_enabled methods

unfoldable pub negotiate_method : Bool → M ℕ
unfolding methods_of
negotiate_method server_auth_enabled = do hdr ← read_exact 2; methods_of server_auth_enabled hdr

unfoldable pub skip_bound_address : ℕ → M (Unit {0})
skip_bound_address atyp =
    if atyp == 0x01
    then (read_exact (4 + 2) >>= λ _. done tt)
    else if atyp == 0x03
    then (read_u8 >>= λ len. read_exact (len + 2) >>= λ _. done tt)
    else if atyp == 0x04
    then (read_exact (16 + 2) >>= λ _. done tt)
    else done tt

pub record UdpHeader : Type 0 where
  pub frag : ℕ
  pub addr : AddrSpec
  pub port : ℕ
  pub payload_offset : ℕ

module _ (lossy : List ℕ → List ℕ) where
  -- The arms of the match on `atyp`.
  unfoldable pub read_address : ℕ → M AddrSpec
  read_address atyp =
      if atyp == 0x01
      then (read_exact 4 >>= λ ip. done (ipv4 (ipv4_of ip 0)))
      else if atyp == 0x03
      then (read_u8 >>= λ len. read_exact len >>= λ d. done (domain (lossy d)))
      else if atyp == 0x04
      then (read_exact 16 >>= λ ip. done (ipv6 ip))
      else fail (address_type_not_supported atyp)

  -- `read_request` from the four header bytes on.
  pub request_of : List ℕ → M Request
  request_of hdr = if not (byte hdr 0 == 0x05) then fail (invalid_version (byte hdr 0)) else do
    cmd ← lift (cmd_of (byte hdr 1))
    addr ← read_address (byte hdr 3)
    port ← read_u16
    done (record { cmd = cmd; addr = addr; port = port })

  unfoldable pub read_request : M Request
  unfolding request_of
  read_request = do hdr ← read_exact 4; request_of hdr
