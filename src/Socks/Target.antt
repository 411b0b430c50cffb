-- ===== src/Socks/Target.antt =====
-- Ingress and target of the SOCKS5 exchange, their validation, and the request
-- (services/strict-broker/src/socks_probe.rs).
use freedom_cloud.Common.{
  ℕ, ◌*◌, ◌%◌, Bool, false, not, ◌||◌, List, [], ◌∷◌, ◌++◌, all, any, ltb, ◌==◌,
}
use freedom_cloud.Fallible.{Result, ok, ◌>>◌, bail_if}
use freedom_cloud.Text.{
  Text, bytes, len, text_eq, is_ascii_hexdigit, is_ascii_alphanumeric, starts_with, ends_with,
  split,
}
use freedom_cloud.Bytes.{to_be}
use freedom_cloud.Net.{SocketAddr, v4, v6, port_of}

-- `Duration::from_secs(30)`, in nanoseconds.
abbrev pub max_probe_timeout : ℕ
max_probe_timeout = 30 * 1000000000

pub record Socks5ProxyIngress : Type 0 where
  pub endpoint : SocketAddr
  pub username : Text
  pub password : Text

pub data Socks5ConnectTarget : Type 0 where
  domain : Text → ℕ → Socks5ConnectTarget
  ip : SocketAddr → Socks5ConnectTarget

-- Whether the address is `Ipv4Addr::LOCALHOST`.
abbrev is_localhost : SocketAddr → Bool
is_localhost (v4 octets port) = text_eq octets (127 ∷ 0 ∷ 0 ∷ 1 ∷ [])
is_localhost (v6 octets port flowinfo scope_id) = false

unfoldable pub validate_credential : Text → Result Unit
validate_credential value =
    bail_if (not (len value == 64) || not (all is_ascii_hexdigit (bytes value)))
      "SOCKS credential is invalid"

-- `Socks5ProxyIngress::new`
unfoldable pub new_socks_ingress : SocketAddr → Text → Text → Result Socks5ProxyIngress
unfolding validate_credential
new_socks_ingress endpoint username password = do
  bail_if (not (is_localhost endpoint) || port_of endpoint == 0)
      "SOCKS ingress must be exact IPv4 loopback"
  validate_credential username
  validate_credential password
  ok (record { endpoint = endpoint; username = username; password = password })

abbrev is_bad_label : Text → Bool
is_bad_label label =
    len label == 0
    || ltb 63 (len label)
    || starts_with label (b'-' ∷ [])
    || ends_with label (b'-' ∷ [])
    || not (all (λ byte. is_ascii_alphanumeric byte || byte == b'-') (bytes label))

unfoldable pub validate_domain : Text → Result Unit
validate_domain host =
    bail_if
      (len host == 0
        || ltb 253 (len host)
        || not (all (λ c. ltb c 128) host)
        || starts_with host (b'.' ∷ [])
        || ends_with host (b'.' ∷ [])
        || any is_bad_label (split b'.' host))
      "SOCKS target domain is invalid"

-- `Socks5ConnectTarget::domain` and `Socks5ConnectTarget::ip`
unfoldable pub domain_target : Text → ℕ → Result Socks5ConnectTarget
unfolding validate_domain
domain_target host port = do
  validate_domain host
  bail_if (port == 0) "SOCKS target port is invalid"
  ok (domain host port)

unfoldable pub ip_target : SocketAddr → Result Socks5ConnectTarget
ip_target endpoint = do
  bail_if (port_of endpoint == 0) "SOCKS target port is invalid"
  ok (ip endpoint)

unfoldable pub validate_timeout : ℕ → Result Unit
validate_timeout timeout =
    bail_if (timeout == 0 || ltb max_probe_timeout timeout) "SOCKS timeout is invalid"

unfoldable pub encode_connect_request : Socks5ConnectTarget → List ℕ
encode_connect_request (domain host port) =
    0x05 ∷ 0x01 ∷ 0x00 ∷ 0x03 ∷ (len host % 256) ∷ (bytes host ++ to_be 2 port)
encode_connect_request (ip (v4 octets port)) = 0x05 ∷ 0x01 ∷ 0x00 ∷ 0x01 ∷ (octets ++ to_be 2 port)
encode_connect_request (ip (v6 octets port flowinfo scope_id)) =
    0x05 ∷ 0x01 ∷ 0x00 ∷ 0x04 ∷ (octets ++ to_be 2 port)

-- The message of the authentication by user name and password.
unfoldable pub authentication_message : Socks5ProxyIngress → List ℕ
authentication_message ingress =
    0x01
    ∷ (len ingress.username % 256)
    ∷ (bytes ingress.username ++ ((len ingress.password % 256) ∷ bytes ingress.password))
