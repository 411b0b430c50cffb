-- ===== src/Redirect.antt =====
-- Redirect contexts (services/strict-broker/src/redirect_context.rs): the 112 bytes that the
-- kernel driver attaches to a redirected flow, read against the binding of the active lease.
pub mod Checks
pub mod Renewal
use freedom_cloud.Common.{
  ℕ, ◌+◌, ◌-◌, ◌*◌, ◌^◌, ◌%◌, Bool, true, false, not, ◌&&◌, ◌||◌, Option, none, some, List, [], ◌∷◌,
  length, take, drop, all, any, ltb, leb, ◌==◌, if◌then◌else◌,
}
use freedom_cloud.Fallible.{Result, ok, err, ◌>>=◌, ◌>>◌, bail, bail_if}
use freedom_cloud.Text.{Text, bytes, len, is_ascii_hexdigit}
use freedom_cloud.Bytes.{slice, byte_at, all_zero, hex_pairs, from_le}
use freedom_cloud.Net.{
  SocketAddr, v4, v6, ipv4_loopback, ipv4_multicast, ipv4_broadcast, ipv6_loopback, ipv6_multicast,
}
use freedom_cloud.Auth.{difference}

abbrev pub redirect_context_magic : ℕ
redirect_context_magic = 0x43584346

abbrev pub redirect_context_bytes : ℕ
redirect_context_bytes = 112

abbrev pub max_target_groups : ℕ
max_target_groups = 128

pub data StrictRedirectTransport : Type 0 where
  tcp udp : StrictRedirectTransport

abbrev pub protocol_number : StrictRedirectTransport → ℕ
protocol_number tcp = 6
protocol_number udp = 17

pub record StrictRedirectLeaseBinding : Type 0 where
  pub generation : ℕ
  pub previous_generation : Option ℕ
  pub revision : ℕ
  pub policy_digest : List ℕ
  pub nonce : List ℕ
  pub target_group_count : ℕ

pub record StrictRedirectContext : Type 0 where
  pub target_group_index : ℕ
  pub original_destination : SocketAddr
  pub transport : StrictRedirectTransport
  pub canary_process_id : ℕ

unfoldable pub decode_sha256 : Text → Result (List ℕ)
decode_sha256 value = do
  bail_if (not (len value == 64) || not (all is_ascii_hexdigit (bytes value)))
      "strict redirect policy digest is invalid"
  ok (hex_pairs (bytes value))

-- `StrictRedirectLeaseBinding::new`
unfoldable pub new_binding : ℕ → ℕ → Text → List ℕ → ℕ → Result StrictRedirectLeaseBinding
new_binding generation revision policy_digest nonce target_group_count = do
  bail_if (generation == 0 || revision == 0)
      "strict redirect lease generation and revision must be positive"
  digest ← decode_sha256 policy_digest
  bail_if (all_zero digest || all_zero nonce) "strict redirect lease identity is empty"
  bail_if (target_group_count == 0 || ltb max_target_groups target_group_count)
      "strict redirect lease target-group count is invalid"
  ok (record {
    generation = generation;
    previous_generation = none;
    revision = revision;
    policy_digest = digest;
    nonce = nonce;
    target_group_count = target_group_count % 2 ^ 16;
  })

unfoldable pub renewed : StrictRedirectLeaseBinding → ℕ → Result StrictRedirectLeaseBinding
renewed binding generation = do
  bail_if (leb generation binding.generation) "strict redirect lease generation did not advance"
  ok (record binding { generation = generation; previous_generation = some binding.generation })

-- Here the lengths may differ, and that is tested first.
unfoldable pub constant_time_eq : List ℕ → List ℕ → Bool
constant_time_eq left right =
    if not (length left == length right) then false else difference 0 left right == 0

abbrev read_integer : ℕ → List ℕ → ℕ → Result ℕ
read_integer width bytes offset =
    if leb (offset + width) (length bytes)
    then ok (from_le (slice offset (offset + width) bytes))
    else bail "strict redirect context integer is truncated"

unfoldable pub read_u16 : List ℕ → ℕ → Result ℕ
read_u16 bytes offset = read_integer 2 bytes offset

unfoldable pub read_u32 : List ℕ → ℕ → Result ℕ
read_u32 bytes offset = read_integer 4 bytes offset

unfoldable pub read_u64 : List ℕ → ℕ → Result ℕ
read_u64 bytes offset = read_integer 8 bytes offset

-- One disjunct of the condition that ends in the error below.
abbrev pub unbound_if : Bool → Result Unit
unbound_if failed = bail_if failed "strict redirect context is not bound to the active lease"

abbrev pub is_previous : Option ℕ → ℕ → Bool
is_previous none generation = false
is_previous (some previous) generation = generation == previous

-- The disjuncts on the identifier of the canary process.
abbrev pub canary_fails : ℕ → ℕ → Bool
canary_fails protocol canary =
    protocol == 1 && not (canary == 0) || protocol == 2 && (canary == 0 || ltb (2 ^ 32 - 1) canary)

-- The condition of the first `if`: its disjuncts in their order, each read when it is reached.
unfoldable pub check_bound : List ℕ → StrictRedirectLeaseBinding → Result Unit
check_bound bytes binding = do
  unbound_if (not (length bytes == redirect_context_bytes))
  magic ← read_u32 bytes 0
  unbound_if (not (magic == redirect_context_magic))
  protocol ← read_u16 bytes 4
  unbound_if (not (protocol == 1 || protocol == 2))
  size ← read_u16 bytes 6
  unbound_if (not (size == redirect_context_bytes))
  generation ← read_u64 bytes 8
  unbound_if (
      not (generation == binding.generation)
      && not (is_previous binding.previous_generation generation))
  revision ← read_u64 bytes 16
  unbound_if (not (revision == binding.revision))
  unbound_if (not (constant_time_eq (slice 24 56 bytes) binding.policy_digest))
  unbound_if (not (constant_time_eq (slice 56 72 bytes) binding.nonce))
  unbound_if (any (λ byte. not (byte == 0)) (slice 78 80 bytes))
  unbound_if (any (λ byte. not (byte == 0)) (slice 104 112 bytes))
  canary ← read_u64 bytes 96
  unbound_if (canary_fails protocol canary)

abbrev unsafe_ipv4 : List ℕ → Bool
unsafe_ipv4 address =
    all_zero address || ipv4_loopback address || ipv4_multicast address || ipv4_broadcast address

abbrev unsafe_ipv6 : List ℕ → Bool
unsafe_ipv6 address = all_zero address || ipv6_loopback address || ipv6_multicast address

-- `match bytes[74]`, and the socket address of what it gives.
unfoldable pub read_destination : List ℕ → ℕ → Result SocketAddr
read_destination bytes port =
    if byte_at 74 bytes == 4
    then (do
      bail_if (any (λ byte. not (byte == 0)) (slice 84 96 bytes))
          "strict IPv4 redirect context has nonzero tail bytes"
      bail_if (unsafe_ipv4 (slice 80 84 bytes)) "strict IPv4 redirect destination is unsafe"
      ok (v4 (slice 80 84 bytes) port))
    else if byte_at 74 bytes == 6
    then (do
      bail_if (unsafe_ipv6 (slice 80 96 bytes)) "strict IPv6 redirect destination is unsafe"
      ok (v6 (slice 80 96 bytes) port 0 0))
    else bail "strict redirect context address family is invalid"

unfoldable pub parse_strict_redirect_context :
    List ℕ → StrictRedirectLeaseBinding → StrictRedirectTransport → Result StrictRedirectContext
parse_strict_redirect_context bytes binding expected_transport = do
  check_bound bytes binding
  target_group_index ← read_u16 bytes 72
  bail_if (leb binding.target_group_count target_group_index)
      "strict redirect context target group is out of range"
  bail_if (not (byte_at 75 bytes == protocol_number expected_transport))
      "strict redirect context transport does not match the listener"
  port ← read_u16 bytes 76
  bail_if (port == 0) "strict redirect context destination port is invalid"
  original_destination ← read_destination bytes port
  canary ← read_u64 bytes 96
  ok (record {
    target_group_index = target_group_index;
    original_destination = original_destination;
    transport = expected_transport;
    canary_process_id = canary % 2 ^ 32;
  })
