-- ===== src/Wfp/Inventory.antt =====
-- What the control plane enumerates, and the checks of it against a plan
-- (services/strict-broker/src/planned_wfp_backend.rs).
use freedom_cloud.Common.{
  ℕ, Bool, true, false, not, ◌||◌, ◌&&◌, Option, none, some, List, [], map, is_empty, ◌==◌,
  if◌then◌else◌,
}
use freedom_cloud.Fallible.{Result, ok, ◌>>=◌, ◌>>◌, bail_if}
use freedom_cloud.Text.{Text, eq_ignore_ascii_case}
use freedom_cloud.Contract.Capability.{Capabilities, no_capabilities}
use freedom_cloud.Contract.Policy.{StrictPolicyBundle}
use freedom_cloud.Contract.Codec.{Codec}
use freedom_cloud.Broker.AppIds.{VerifiedPolicyAppIds}
use freedom_cloud.Broker.Marker.{same_flag}
use freedom_cloud.Wfp.Keys.{WfpObjectKey, same_keys}
use freedom_cloud.Wfp.Plan.{WfpFilterSpec, WfpPolicyPlan, new_plan}

pub record WfpControlSnapshot : Type 0 where
  pub revision : Option ℕ
  pub policy_digest : Option Text
  pub filter_generation : ℕ
  pub driver_snapshot_loaded : Bool
  pub guard_filter_keys : List WfpObjectKey
  pub data_plane_filter_keys : List WfpObjectKey
  pub datagram_path_active : Bool
  pub capabilities : Capabilities

abbrev pub is_revision : Option ℕ → ℕ → Bool
is_revision none revision = false
is_revision (some r) revision = r == revision

abbrev pub is_digest : Option Text → Text → Bool
is_digest none digest = false
is_digest (some d) digest = eq_ignore_ascii_case d digest

unfoldable pub validate_plan_metadata : WfpControlSnapshot → WfpPolicyPlan → Result Unit
validate_plan_metadata snapshot plan =
    bail_if
      (not snapshot.driver_snapshot_loaded
        || not (is_revision snapshot.revision plan.revision)
        || not (is_digest snapshot.policy_digest plan.policy_digest))
      "WFP control-plane snapshot does not match the strict policy plan"

abbrev filter_key : WfpFilterSpec → WfpObjectKey
filter_key f = f.key

unfoldable pub expected_keys : List WfpFilterSpec → Bool → List WfpObjectKey
expected_keys filters true = map filter_key filters
expected_keys filters false = []

unfoldable pub validate_inventory :
    WfpControlSnapshot → WfpPolicyPlan → Bool → Bool → Bool → Result Unit
unfolding validate_plan_metadata
validate_inventory snapshot plan expect_guards expect_redirects expect_datagram_active = do
  validate_plan_metadata snapshot plan
  bail_if
      (not (same_keys snapshot.guard_filter_keys (expected_keys plan.guard_filters expect_guards))
        || not (
            same_keys snapshot.data_plane_filter_keys
              (expected_keys plan.data_plane_filters expect_redirects))
        || not (same_flag snapshot.datagram_path_active expect_datagram_active))
      "enumerated WFP filters do not exactly match the strict policy plan"

abbrev pub nothing_enumerated : WfpControlSnapshot → Bool
nothing_enumerated snapshot =
    is_empty snapshot.guard_filter_keys && is_empty snapshot.data_plane_filter_keys

-- `validate_present_inventory`, after its first test.
unfoldable pub validate_enumerated : WfpControlSnapshot → WfpPolicyPlan → Result Unit
unfolding validate_plan_metadata
validate_enumerated snapshot plan = do
  validate_plan_metadata snapshot plan
  bail_if
      (not (same_keys snapshot.guard_filter_keys (expected_keys plan.guard_filters true))
        || not (is_empty snapshot.data_plane_filter_keys)
          && not (
              same_keys snapshot.data_plane_filter_keys
                (expected_keys plan.data_plane_filters true))
        || same_flag snapshot.datagram_path_active (is_empty snapshot.data_plane_filter_keys))
      "enumerated WFP filters contain missing or unknown strict objects"

unfoldable pub validate_present_inventory : WfpControlSnapshot → WfpPolicyPlan → Result Unit
unfolding validate_enumerated
validate_present_inventory snapshot plan =
    if nothing_enumerated snapshot
    then bail_if snapshot.datagram_path_active "strict datagram path is active without filters"
    else validate_enumerated snapshot plan

-- The capabilities that a snapshot reports: none but those of an active plan.
unfoldable pub reported_capabilities :
    WfpControlSnapshot → Option WfpPolicyPlan → Result Capabilities
reported_capabilities snapshot none = ok no_capabilities
reported_capabilities snapshot (some plan) = do
  validate_present_inventory snapshot plan
  ok snapshot.capabilities

unfoldable pub checked_plan :
    Codec → StrictPolicyBundle → VerifiedPolicyAppIds → Text → Result WfpPolicyPlan
checked_plan codec policy verified_app_ids digest = do
  plan ← new_plan codec policy verified_app_ids
  bail_if (not (eq_ignore_ascii_case plan.policy_digest digest))
      "strict WFP plan digest does not match the Broker transaction"
  ok plan
