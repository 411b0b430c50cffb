-- ===== src/Broker/Marker.antt =====
-- Phases, recovery markers, snapshots and health (services/strict-broker/src/lib.rs).
pub mod Laws
use freedom_cloud.Common.{
  ℕ, Bool, true, false, not, ◌&&◌, ◌||◌, Option, none, some, List, [], ◌∷◌, ◌==◌, any,
  if◌then◌else◌,
}
use freedom_cloud.Fallible.{Result, ok, err, ◌>>=◌, ◌>>◌, bail_if}
use freedom_cloud.Text.{Text, eq_ignore_ascii_case}
use freedom_cloud.Contract.Capability.{
  Capabilities, BrokerProof, no_capabilities, is_subset, required_for_block_only,
  required_for_proxy, strict_protocol_version,
}
use freedom_cloud.Contract.Policy.{
  StrictPolicyBundle, StrictPolicyEntry, StrictAction, proxy, block,
}
use freedom_cloud.Contract.Codec.{Codec}
use freedom_cloud.Contract.Validate.{validate, canonical_digest}

pub data BrokerPhase : Type 0 where
  disabled preparing blocking armed recovering disabling : BrokerPhase

abbrev pub is_disabled : BrokerPhase → Bool
is_disabled disabled = true
is_disabled _ = false

abbrev pub is_blocking : BrokerPhase → Bool
is_blocking blocking = true
is_blocking _ = false

abbrev pub is_armed : BrokerPhase → Bool
is_armed armed = true
is_armed _ = false

abbrev pub is_disabling : BrokerPhase → Bool
is_disabling disabling = true
is_disabling _ = false

pub record RecoveryMarker : Type 0 where
  pub protocol : ℕ
  pub revision : ℕ
  pub policy_digest : Text
  pub filter_generation : ℕ
  pub phase : BrokerPhase
  pub policy : StrictPolicyBundle

-- `RecoveryMarker::preparing`
abbrev pub preparing_marker : StrictPolicyBundle → Text → RecoveryMarker
preparing_marker policy policy_digest = record {
  protocol = strict_protocol_version;
  revision = policy.revision;
  policy_digest = policy_digest;
  filter_generation = 0;
  phase = preparing;
  policy = policy;
}

abbrev pub with_phase : RecoveryMarker → BrokerPhase → ℕ → RecoveryMarker
with_phase marker phase filter_generation = record marker {
  phase = phase;
  filter_generation = filter_generation;
}

-- `RecoveryMarker::validate`
unfoldable pub validate_marker : Codec → RecoveryMarker → Result Unit
validate_marker codec marker = do
  bail_if (not (marker.protocol == strict_protocol_version)) "unsupported strict recovery protocol"
  bail_if (is_disabled marker.phase) "a disabled strict policy cannot have a recovery marker"
  validate codec marker.policy
  bail_if (not (marker.policy.revision == marker.revision))
      "strict recovery revision does not match its policy"
  digest ← canonical_digest codec marker.policy
  bail_if (not (eq_ignore_ascii_case digest marker.policy_digest))
      "strict recovery digest does not match its policy"

pub record RecoveryRecord : Type 0 where
  pub high_watermark : ℕ
  pub marker : Option RecoveryMarker

pub record BackendSnapshot : Type 0 where
  pub revision : Option ℕ
  pub policy_digest : Option Text
  pub filter_generation : ℕ
  pub guard_filters_installed : Bool
  pub data_plane_filters_installed : Bool
  pub capabilities : Capabilities

pub record ForwardingHealth : Type 0 where
  pub core_healthy : Bool
  pub relay_healthy : Bool
  pub dns_healthy : Bool
  pub capabilities : Capabilities

-- `ForwardingHealth::default()`
abbrev pub no_health : ForwardingHealth
no_health = record {
  core_healthy = false;
  relay_healthy = false;
  dns_healthy = false;
  capabilities = no_capabilities;
}

is_proxy_entry : StrictPolicyEntry → Bool
is_proxy_entry entry = elim entry.action [ proxy ↦ true | block ↦ false ]

unfoldable pub has_proxy_entries : StrictPolicyBundle → Bool
unfolding is_proxy_entry
has_proxy_entries policy = any is_proxy_entry policy.entries

unfoldable pub required_capabilities : StrictPolicyBundle → Capabilities
required_capabilities policy =
    if has_proxy_entries policy then required_for_proxy else required_for_block_only

-- `ForwardingHealth::is_complete_for`
unfoldable pub is_complete_for : ForwardingHealth → StrictPolicyBundle → Bool
is_complete_for health policy =
    health.core_healthy
    && health.relay_healthy
    && health.dns_healthy
    && is_subset (required_capabilities policy) health.capabilities

pub record BrokerStatus : Type 0 where
  pub phase : BrokerPhase
  pub proof : BrokerProof

abbrev pub same_revision : Option ℕ → ℕ → Bool
same_revision none revision = false
same_revision (some r) revision = r == revision

abbrev pub same_digest : Option Text → Text → Bool
same_digest none digest = false
same_digest (some d) digest = eq_ignore_ascii_case d digest

abbrev pub same_flag : Bool → Bool → Bool
same_flag true b = b
same_flag false b = not b

unfoldable pub validate_snapshot : BackendSnapshot → RecoveryMarker → Bool → Bool → Result Unit
validate_snapshot snapshot marker expect_guards expect_redirects = do
  bail_if
      (not (same_revision snapshot.revision marker.revision)
        || not (same_digest snapshot.policy_digest marker.policy_digest))
      "strict backend snapshot does not match the recovery marker"
  bail_if (not (same_flag snapshot.guard_filters_installed expect_guards))
      "strict backend guard state does not match the requested phase"
  bail_if (not (same_flag snapshot.data_plane_filters_installed expect_redirects))
      "strict backend redirect state does not match the requested phase"

-- `if has_proxy_entries(policy) { Blocking } else { Armed }`
abbrev pub guarded_phase : StrictPolicyBundle → BrokerPhase
guarded_phase policy = if has_proxy_entries policy then blocking else armed
