-- ===== src/Contract/Ingress.antt =====
-- The proxy ingresses that a commit brings (services/strict-contract/src/lib.rs).
use freedom_cloud.Common.{
  ℕ, Bool, false, not, ◌&&◌, ◌||◌, Option, none, some, List, [], ◌∷◌, ltb, ◌==◌, all, any, length,
  is_empty, is_some, if◌then◌else◌,
}
use freedom_cloud.Fallible.{Result, ok, ◌>>=◌, ◌>>◌, bail_if, ok_or}
use freedom_cloud.Text.{Text, bytes, text_eq, text_lt}
use freedom_cloud.Contract.Fields.{validate_sha256, validate_target_group}

abbrev pub strict_proxy_ingress_protocol_version : ℕ
strict_proxy_ingress_protocol_version = 2

abbrev pub max_strict_target_groups : ℕ
max_strict_target_groups = 128

-- `SocketAddrV4`: four octets and a port.
pub record SocketAddrV4 : Type 0 where
  pub ip : List ℕ
  pub port : ℕ

abbrev pub localhost : List ℕ
localhost = 127 ∷ 0 ∷ 0 ∷ 1 ∷ []

abbrev pub same_endpoint : SocketAddrV4 → SocketAddrV4 → Bool
same_endpoint a b = text_eq a.ip b.ip && a.port == b.port

pub record StrictProxyIngressEntry : Type 0 where
  pub target_group : Text
  pub endpoint : SocketAddrV4
  pub username : Text
  pub password : Text

pub record StrictProxyIngressSet : Type 0 where
  pub protocol : ℕ
  pub generation : ℕ
  pub udp_endpoint : Option SocketAddrV4
  pub entries : List StrictProxyIngressEntry

abbrev pub empty : StrictProxyIngressSet
empty = record {
  protocol = strict_proxy_ingress_protocol_version;
  generation = 0;
  udp_endpoint = none;
  entries = [];
}

-- `ip() != LOCALHOST || port() == 0`
unfoldable pub not_loopback : SocketAddrV4 → Bool
not_loopback e = not (text_eq e.ip localhost) || e.port == 0

unfoldable pub validate_ingress_credential : Text → Result Unit
validate_ingress_credential value = do
  validate_sha256 value
  bail_if (all (λ byte. byte == b'0') (bytes value))
      "strict proxy ingress credential cannot be zero"

unfoldable pub validate_ingress_entry : StrictProxyIngressEntry → Result Unit
validate_ingress_entry entry = do
  validate_target_group entry.target_group
  bail_if (not_loopback entry.endpoint) "strict proxy ingress endpoint must be exact IPv4 loopback"
  validate_ingress_credential entry.username
  validate_ingress_credential entry.password

-- `previous.is_some_and(|previous| previous >= group)`
abbrev not_after : Option Text → Text → Bool
not_after none group = false
not_after (some previous) group = not (text_lt previous group)

unfoldable pub validate_ingress_entries :
    List SocketAddrV4 → Option Text → List StrictProxyIngressEntry → Result Unit
validate_ingress_entries endpoints previous [] = ok tt
validate_ingress_entries endpoints previous (entry ∷ rest) = do
  validate_ingress_entry entry
  bail_if (not_after previous entry.target_group)
      "strict proxy ingress target groups are not canonical"
  bail_if (any (λ e. same_endpoint e entry.endpoint) endpoints)
      "strict proxy ingress endpoint is duplicated"
  validate_ingress_entries (entry.endpoint ∷ endpoints) (some entry.target_group) rest

validate_nonempty : StrictProxyIngressSet → Result Unit
validate_nonempty ingress = do
  bail_if (ingress.generation == 0 || ltb max_strict_target_groups (length ingress.entries))
      "strict proxy ingress generation or entry count is invalid"
  udp_endpoint ← ok_or ingress.udp_endpoint "strict proxy UDP health endpoint is missing"
  bail_if (not_loopback udp_endpoint) "strict proxy UDP health endpoint must be exact IPv4 loopback"
  validate_ingress_entries [] none ingress.entries

validate_empty : StrictProxyIngressSet → Result Unit
validate_empty ingress =
    bail_if (not (ingress.generation == 0) || is_some ingress.udp_endpoint)
      "empty strict proxy ingress set retained active state"

-- `StrictProxyIngressSet::validate`
unfoldable pub validate_ingress : StrictProxyIngressSet → Result Unit
unfolding validate_empty validate_nonempty
validate_ingress ingress = do
  bail_if (not (ingress.protocol == strict_proxy_ingress_protocol_version))
      "unsupported strict proxy ingress protocol"
  if is_empty ingress.entries then validate_empty ingress else validate_nonempty ingress

abbrev ingress_of : ℕ → SocketAddrV4 → List StrictProxyIngressEntry → StrictProxyIngressSet
ingress_of generation udp_endpoint entries = record {
  protocol = strict_proxy_ingress_protocol_version;
  generation = generation;
  udp_endpoint = some udp_endpoint;
  entries = entries;
}

unfoldable pub new_ingress :
    ℕ → SocketAddrV4 → List StrictProxyIngressEntry → Result StrictProxyIngressSet
new_ingress generation udp_endpoint entries = do
  validate_ingress (ingress_of generation udp_endpoint entries)
  ok (ingress_of generation udp_endpoint entries)
