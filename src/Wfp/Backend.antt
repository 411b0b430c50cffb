-- ===== src/Wfp/Backend.antt =====
-- `PlannedWfpBackend` (services/strict-broker/src/planned_wfp_backend.rs): the engine's
-- `FilterBackend` over a control plane, which is a parameter.
pub mod Attest
pub mod Laws
pub mod Coverage
pub mod Removal
use freedom_cloud.Common.{String, Bool, true, false, not, Option, none, some, List, is_empty}
use freedom_cloud.Fallible.{Error, Result, ok, err, context, joined, bail_if, with_context}
use freedom_cloud.Action.{Action, pure, raise, lift, gets, attempt, modify, ◌>>=◌, ◌>>◌}
use freedom_cloud.Text.{Text}
use freedom_cloud.Contract.Policy.{StrictPolicyBundle}
use freedom_cloud.Contract.Codec.{Codec}
use freedom_cloud.Broker.AppIds.{VerifiedPolicyAppIds}
use freedom_cloud.Broker.Marker.{BackendSnapshot}
use freedom_cloud.Broker.Host.{FilterBackend}
use freedom_cloud.Wfp.Plan.{WfpFilterSpec, WfpPolicyPlan}
use freedom_cloud.Wfp.Inventory.{
  WfpControlSnapshot, validate_inventory, reported_capabilities, checked_plan,
}

pub record WfpControlPlane (C : Type 0) : Type 0 where
  pub upload_immutable_snapshot : WfpPolicyPlan → C → Result Unit × C
  pub unload_immutable_snapshot : C → Result Unit × C
  pub replace_guard_filters : List WfpFilterSpec → C → Result Unit × C
  pub replace_data_plane_filters : List WfpFilterSpec → C → Result Unit × C
  pub activate_datagram_path : C → Result Unit × C
  pub deactivate_datagram_path : C → Result Unit × C
  pub remove_data_plane_filters : C → Result Unit × C
  pub remove_guard_filters : C → Result Unit × C
  pub snapshot : C → Result WfpControlSnapshot × C

pub record PlannedWfpBackend (C : Type 0) : Type 0 where
  pub control : C
  pub active_plan : Option WfpPolicyPlan

-- `PlannedWfpBackend::new`
abbrev pub new_backend : {C : Type 0} → C → PlannedWfpBackend C
new_backend control = record { control = control; active_plan = none }

unfoldable pub on_control : {C A : Type 0} → Action C A → Action (PlannedWfpBackend C) A
on_control call s = let (r, c) = call s.control in (r, record s { control = c })

-- `.context(..)` on the result of a call.
abbrev pub in_context : {S A : Type 0} → String → Action S A → Action S A
in_context note call s = let (r, s') = call s in (with_context note r, s')

module _ {C : Type 0} (codec : Codec) (control : WfpControlPlane C) where
  -- The error of a guard transaction, once the snapshot that it leaves unused was unloaded.
  unfoldable pub after_failed_guards : Error → Result Unit → Result Unit
  after_failed_guards e (ok _) = err (context "replace strict guard filters transactionally" e)
  after_failed_guards e (err unload_error) =
      err (joined "atomic strict guard transaction failed" e unload_error)

  unfoldable pub undo_upload : Result Unit → Action (PlannedWfpBackend C) Unit
  undo_upload (ok _) = pure tt
  undo_upload (err e) = do
    unloaded ← attempt (on_control control.unload_immutable_snapshot)
    lift (after_failed_guards e unloaded)

  unfoldable pub replace_guards : WfpPolicyPlan → Action (PlannedWfpBackend C) Unit
  replace_guards plan = do
    replaced ← attempt (on_control (control.replace_guard_filters plan.guard_filters))
    undo_upload replaced

  unfoldable pub attest : WfpPolicyPlan → Bool → Bool → Bool → Action (PlannedWfpBackend C) Unit
  attest plan expect_guards expect_redirects expect_datagram_active = do
    snapshot ← on_control control.snapshot
    lift (validate_inventory snapshot plan expect_guards expect_redirects expect_datagram_active)

  unfoldable pub install_guards :
      StrictPolicyBundle → VerifiedPolicyAppIds → Text → Action (PlannedWfpBackend C) Unit
  install_guards policy verified_app_ids digest = do
    plan ← lift (checked_plan codec policy verified_app_ids digest)
    in_context "upload strict driver policy snapshot"
        (on_control (control.upload_immutable_snapshot plan))
    replace_guards plan
    modify (λ s. record s { active_plan = some plan })
    attest plan true false false

  unfoldable pub cleanup_failed_datagram_activation : Action (PlannedWfpBackend C) Unit
  cleanup_failed_datagram_activation = do
    in_context "deactivate uncertain datagram path" (on_control control.deactivate_datagram_path)
    in_context "remove filters after datagram activation"
        (on_control control.remove_data_plane_filters)

  -- The error of a step that is undone, and how undoing it went.
  unfoldable pub after_cleanup : String → String → Error → Result Unit → Result Unit
  after_cleanup note failed_note e (ok _) = err (context note e)
  after_cleanup note failed_note e (err cleanup_error) = err (joined failed_note e cleanup_error)

  unfoldable pub undo_data_plane : String → String → Result Unit → Action (PlannedWfpBackend C) Unit
  undo_data_plane note failed_note (ok _) = pure tt
  undo_data_plane note failed_note (err e) = do
    cleaned ← attempt cleanup_failed_datagram_activation
    lift (after_cleanup note failed_note e cleaned)

  -- `if let Err(error) = step { .. cleanup .. }`
  unfoldable pub or_clean_up :
      String → String → Action (PlannedWfpBackend C) Unit → Action (PlannedWfpBackend C) Unit
  or_clean_up note failed_note step = do
    stepped ← attempt step
    undo_data_plane note failed_note stepped

  unfoldable pub install_data_plane :
      StrictPolicyBundle → VerifiedPolicyAppIds → Text → Action (PlannedWfpBackend C) Unit
  install_data_plane policy verified_app_ids digest = do
    plan ← lift (checked_plan codec policy verified_app_ids digest)
    attest plan true false false
    in_context "replace strict data-plane filters transactionally"
        (on_control (control.replace_data_plane_filters plan.data_plane_filters))
    modify (λ s. record s { active_plan = some plan })
    attest plan true true false
    or_clean_up "activate strict datagram path" "activate strict datagram path failed"
        (on_control control.activate_datagram_path)
    or_clean_up "attest active strict datagram path" "attest active strict datagram path failed"
        (attest plan true true true)

  unfoldable pub remove_data_plane : Action (PlannedWfpBackend C) Unit
  remove_data_plane = do
    in_context "deactivate strict datagram path before filter removal"
        (on_control control.deactivate_datagram_path)
    inactive ← on_control control.snapshot
    lift (
        bail_if inactive.datagram_path_active
          "strict datagram path remains active before filter removal")
    in_context "remove strict data-plane filters transactionally"
        (on_control control.remove_data_plane_filters)
    snapshot ← on_control control.snapshot
    lift (
        bail_if (not (is_empty snapshot.data_plane_filter_keys))
          "strict data-plane filters remain after transactional removal")

  unfoldable pub remove_guards : Action (PlannedWfpBackend C) Unit
  remove_guards = do
    before ← on_control control.snapshot
    lift (
        bail_if (not (is_empty before.data_plane_filter_keys))
          "strict guards cannot be removed while data-plane filters remain")
    in_context "remove strict guard filters transactionally"
        (on_control control.remove_guard_filters)
    without_guards ← on_control control.snapshot
    lift (
        bail_if (not (is_empty without_guards.guard_filter_keys))
          "strict guard filters remain after transactional removal")
    in_context "unload inactive strict driver policy snapshot"
        (on_control control.unload_immutable_snapshot)
    unloaded ← on_control control.snapshot
    lift (
        bail_if unloaded.driver_snapshot_loaded
          "strict driver policy snapshot remains after guard cleanup")
    modify (λ s. record s { active_plan = none })

  unfoldable pub snapshot : Action (PlannedWfpBackend C) BackendSnapshot
  snapshot = do
    seen ← on_control control.snapshot
    active ← gets (λ s. s.active_plan)
    capabilities ← lift (reported_capabilities seen active)
    pure (record {
      revision = seen.revision;
      policy_digest = seen.policy_digest;
      filter_generation = seen.filter_generation;
      guard_filters_installed = not (is_empty seen.guard_filter_keys);
      data_plane_filters_installed = not (is_empty seen.data_plane_filter_keys);
      capabilities = capabilities;
    })

  abbrev pub planned_backend : FilterBackend (PlannedWfpBackend C)
  planned_backend = record {
    install_guards = install_guards;
    install_data_plane = install_data_plane;
    remove_data_plane = remove_data_plane;
    remove_guards = remove_guards;
    snapshot = snapshot;
  }
