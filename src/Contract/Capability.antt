-- ===== src/Contract/Capability.antt =====
-- Capabilities, states and the intent of a strict policy (services/strict-contract/src/lib.rs).
use freedom_cloud.Common.{ℕ, Bool, true, false, not, ◌&&◌, ◌||◌, List, [], ◌∷◌, ◌==◌, all}
use freedom_cloud.Text.{Text, len, bytes, is_ascii_hexdigit}

abbrev pub strict_protocol_version : ℕ
strict_protocol_version = 2

abbrev pub max_strict_applications : ℕ
max_strict_applications = 128

pub data StrictState : Type 0 where
  disabled preparing blocking armed recovering : StrictState

pub data StrictReason : Type 0 where
  none_reason preparing guard_not_installed missing_capability core_unavailable : StrictReason
  relay_unavailable dns_unavailable backend_unavailable cleanup_pending : StrictReason

pub data StrictCapability : Type 0 where
  driver_signed identity_verified tcp4_redirect tcp6_redirect : StrictCapability
  udp4_redirect udp6_redirect dns_captured quic_captured : StrictCapability
  redirect_loop_protected persistent_fail_closed recovery_verified : StrictCapability

-- `BTreeSet<StrictCapability>`
abbrev pub Capabilities : Type 0
Capabilities = StrictCapability → Bool

abbrev pub every_capability : List StrictCapability
every_capability =
    driver_signed ∷ identity_verified ∷ tcp4_redirect ∷ tcp6_redirect ∷ udp4_redirect
    ∷ udp6_redirect ∷ dns_captured ∷ quic_captured ∷ redirect_loop_protected
    ∷ persistent_fail_closed ∷ recovery_verified ∷ []

abbrev pub no_capabilities : Capabilities
no_capabilities c = false

abbrev pub intersection : Capabilities → Capabilities → Capabilities
intersection a b c = a c && b c

abbrev pub is_subset : Capabilities → Capabilities → Bool
is_subset a b = all (λ c. not (a c) || b c) every_capability

abbrev pub is_empty_set : Capabilities → Bool
is_empty_set a = all (λ c. not (a c)) every_capability

unfoldable pub required_for_block_only : Capabilities
required_for_block_only driver_signed = true
required_for_block_only identity_verified = true
required_for_block_only persistent_fail_closed = true
required_for_block_only recovery_verified = true
required_for_block_only _ = false

unfoldable pub required_for_proxy : Capabilities
required_for_proxy driver_signed = true
required_for_proxy identity_verified = true
required_for_proxy tcp4_redirect = true
required_for_proxy tcp6_redirect = true
required_for_proxy udp4_redirect = true
required_for_proxy udp6_redirect = true
required_for_proxy dns_captured = true
required_for_proxy quic_captured = true
required_for_proxy redirect_loop_protected = true
required_for_proxy persistent_fail_closed = true
required_for_proxy recovery_verified = true

unfoldable pub is_sha256 : Text → Bool
is_sha256 value = len value == 64 && all is_ascii_hexdigit (bytes value)

pub record StrictIntent : Type 0 where
  pub revision : ℕ
  pub policy_digest : Text
  pub proxy_application_count : ℕ
  pub blocked_application_count : ℕ
  pub required_capabilities : Capabilities

pub record BrokerProof : Type 0 where
  pub revision : ℕ
  pub policy_digest : Text
  pub filter_generation : ℕ
  pub capabilities : Capabilities
  pub guard_filters_installed : Bool
  pub recovery_marker_present : Bool
  pub core_healthy : Bool
  pub relay_healthy : Bool
  pub dns_healthy : Bool
