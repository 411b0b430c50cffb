-- ===== src/Broker/Engine/Status.antt =====
-- `status_from_snapshot`, `status` and `match_current`.
use freedom_cloud.Common.{ℕ, not, ◌&&◌, ◌||◌, Option, none, some, ◌==◌, if◌then◌else◌, is_some}
use freedom_cloud.Action.{pure, gets, ◌>>=◌, ◌>>◌}
use freedom_cloud.Text.{Text, eq_ignore_ascii_case}
use freedom_cloud.Contract.Capability.{intersection, required_for_block_only}
use freedom_cloud.Contract.Frames.{zero_digest}
use freedom_cloud.Broker.Marker.{RecoveryMarker, BackendSnapshot, BrokerStatus, is_armed}
use freedom_cloud.Broker.Host.{Host}
use freedom_cloud.Broker.Engine.State.{Engine, Act, fail_if, require, snapshot}

marker_revision : Option RecoveryMarker → Option ℕ → ℕ
marker_revision (some m) _ = m.revision
marker_revision none (some r) = r
marker_revision none none = 0

marker_digest : Option RecoveryMarker → Option Text → Text
marker_digest (some m) _ = m.policy_digest
marker_digest none (some d) = d
marker_digest none none = zero_digest

module _ (h : Host) where
  unfoldable pub status_of : Engine h → BackendSnapshot → BrokerStatus
  unfolding marker_revision marker_digest
  status_of e s = record {
    phase = e.phase;
    proof = record {
      revision = marker_revision e.current_marker s.revision;
      policy_digest = marker_digest e.current_marker s.policy_digest;
      filter_generation = s.filter_generation;
      capabilities =
          if is_armed e.phase && s.data_plane_filters_installed
          then intersection s.capabilities e.forwarding_health.capabilities
          else intersection s.capabilities required_for_block_only;
      guard_filters_installed = s.guard_filters_installed;
      recovery_marker_present = is_some e.current_marker;
      core_healthy = is_armed e.phase && e.forwarding_health.core_healthy;
      relay_healthy = is_armed e.phase && e.forwarding_health.relay_healthy;
      dns_healthy = is_armed e.phase && e.forwarding_health.dns_healthy;
    };
  }

  abbrev pub status_from_snapshot : BackendSnapshot → Act h BrokerStatus
  status_from_snapshot s = gets (λ e. status_of e s)

  -- `BrokerEngine::status`
  unfoldable pub status : Act h BrokerStatus
  status = do s ← snapshot h; status_from_snapshot s

  unfoldable pub match_current : ℕ → Text → Act h RecoveryMarker
  match_current revision policy_digest = do
    current ← gets (λ e. e.current_marker)
    marker ← require h current "strict policy is not prepared"
    fail_if h
        (not (marker.revision == revision)
          || not (eq_ignore_ascii_case marker.policy_digest policy_digest))
        "strict commit does not match the prepared policy"
    pure marker
