-- ===== src/Tests/Filters.antt =====
-- The filter plan of one policy, and a control plane in memory that carries it out.
use mathlib.Core.List.{Memᴰ}
use mathlib.Core.List.Memᴰ.{head}
use freedom_cloud.Common.{◌≡◌, refl, true, false, none, some, [], ◌∷◌, map}
use freedom_cloud.Fallible.{Result, ok, err}
use freedom_cloud.Action.{Post, ◌>>=◌}
use freedom_cloud.Text.{text_eq, eq_ignore_ascii_case, to_lower}
use freedom_cloud.Contract.Canonical.{canonical_bytes_unchecked, to_hex, sort_by, insert_sorted}
use freedom_cloud.Contract.Capability.{is_sha256}
use freedom_cloud.Contract.Fields.{
  validate_sha256, is_uuid, validate_windows_executable_path, validate_target_group,
}
use freedom_cloud.Contract.Validate.{
  validate, validate_entries, validate_entry, validate_identity, contains, insert_children,
  canonical_digest, canonical_bytes,
}
use freedom_cloud.Broker.AppIds.{VerifiedApplicationAppIds, VerifiedPolicyAppIds}
use freedom_cloud.Wfp.Keys.{
  auth_connect_v4, auth_connect_v6, has_key, same_keys, derived_filter_key,
}
use freedom_cloud.Wfp.Plan.{
  WfpFilterSpec, WfpPolicyPlan, new_plan, collect_rules, find_target, collect_targets,
  binary_search, family_rules, all_guards, rule_guards, filter, datagram_filters,
  conditional_datagram_filter, has_proxy, sort_rules,
}
use freedom_cloud.Wfp.Plan.Filters.{
  Guarded, IsExpected, IsRedirect, new_plan-guards, new_plan-IsExpected,
}
use freedom_cloud.Wfp.Inventory.{
  WfpControlSnapshot, checked_plan, validate_inventory, validate_plan_metadata, expected_keys,
}
use freedom_cloud.Wfp.Backend.{
  WfpControlPlane, PlannedWfpBackend, new_backend, install_guards, install_data_plane,
  remove_data_plane, remove_guards, snapshot, replace_guards, undo_upload, attest, on_control,
}
use freedom_cloud.Wfp.Backend.Laws.{
  LastSeen, Planned, Installed, install_guards-Post, install_data_plane-Post,
}
use freedom_cloud.Wfp.Backend.Coverage.{Enumerated, Reports, install_guards-covers, snapshot-Post}
use freedom_cloud.Wfp.Backend.Removal.{
  DataPlaneRemoved, GuardsRemoved, remove_data_plane-Post, remove_guards-Post,
}
use freedom_cloud.Tests.Host.{
  toy_codec, browser_policy, ones_digest, browser, application_of, all_capabilities,
}

abbrev pub plane : WfpControlPlane WfpControlSnapshot
plane = record {
  upload_immutable_snapshot = λ plan c. (
    ok tt,
    record c {
      driver_snapshot_loaded = true;
      revision = some plan.revision;
      policy_digest = some plan.policy_digest;
    },
  );
  unload_immutable_snapshot = λ c. (ok tt, record c { driver_snapshot_loaded = false });
  replace_guard_filters = λ filters c.
      (ok tt, record c { guard_filter_keys = map (λ (f : WfpFilterSpec). f.key) filters });
  replace_data_plane_filters = λ filters c.
      (ok tt, record c { data_plane_filter_keys = map (λ (f : WfpFilterSpec). f.key) filters });
  activate_datagram_path = λ c. (ok tt, record c { datagram_path_active = true });
  deactivate_datagram_path = λ c. (ok tt, record c { datagram_path_active = false });
  remove_data_plane_filters = λ c. (ok tt, record c { data_plane_filter_keys = [] });
  remove_guard_filters = λ c. (ok tt, record c { guard_filter_keys = [] });
  snapshot = λ c. (ok c, c);
}

abbrev pub no_objects : WfpControlSnapshot
no_objects = record {
  revision = none;
  policy_digest = none;
  filter_generation = 0;
  driver_snapshot_loaded = false;
  guard_filter_keys = [];
  data_plane_filter_keys = [];
  datagram_path_active = false;
  capabilities = all_capabilities;
}

abbrev pub app_ids : VerifiedPolicyAppIds
app_ids = record { applications = map application_of (browser_policy 1).entries; app_id_count = 1 }

abbrev pub browser_ids : VerifiedApplicationAppIds
browser_ids = record { identity_id = browser.identity_id; app_ids = (1 ∷ []) ∷ [] }

abbrev pub idle : PlannedWfpBackend WfpControlSnapshot
idle = new_backend no_objects

abbrev pub guarded : Result Unit × PlannedWfpBackend WfpControlSnapshot
guarded = install_guards toy_codec plane (browser_policy 1) app_ids ones_digest idle

abbrev redirected : Result Unit × PlannedWfpBackend WfpControlSnapshot
redirected = install_data_plane toy_codec plane (browser_policy 1) app_ids ones_digest guarded.1

abbrev plan_or : WfpPolicyPlan → Result WfpPolicyPlan → WfpPolicyPlan
plan_or other (ok plan) = plan
plan_or other (err e) = other

abbrev no_plan : WfpPolicyPlan
no_plan = record {
  revision = 0;
  policy_digest = [];
  rules = [];
  target_groups = [];
  guard_filters = [];
  data_plane_filters = [];
  install_steps = [];
  remove_steps = [];
}

abbrev plan : WfpPolicyPlan
plan = plan_or no_plan (new_plan toy_codec (browser_policy 1) app_ids)

plan_made : new_plan toy_codec (browser_policy 1) app_ids ≡ ok plan
unfolding new_plan validate validate_entries validate_entry validate_identity is_uuid
    validate_windows_executable_path validate_sha256 is_sha256 validate_target_group contains
    insert_children canonical_bytes_unchecked canonical_digest canonical_bytes collect_rules
    find_target collect_targets binary_search family_rules text_eq
plan_made = refl

guarded_ok : guarded.0 ≡ ok tt
unfolding install_guards ◌>>=◌ checked_plan new_plan validate validate_entries validate_entry
    validate_identity is_uuid validate_windows_executable_path validate_sha256 is_sha256
    validate_target_group contains insert_children canonical_bytes_unchecked canonical_digest
    canonical_bytes collect_rules find_target collect_targets binary_search family_rules text_eq
    eq_ignore_ascii_case to_hex to_lower replace_guards undo_upload attest on_control
    validate_inventory validate_plan_metadata expected_keys has_key same_keys all_guards rule_guards
    filter derived_filter_key datagram_filters conditional_datagram_filter has_proxy sort_rules
    sort_by insert_sorted
guarded_ok = refl

install_guards-Post_example :
    Post
      (λ _. Planned toy_codec plane (browser_policy 1) app_ids ones_digest none)
      (λ _. Installed toy_codec plane (browser_policy 1) app_ids ones_digest false)
      guarded
install_guards-Post_example =
    install_guards-Post toy_codec plane (browser_policy 1) app_ids ones_digest idle

install_data_plane-Post_example :
    Post
      (λ _. Planned toy_codec plane (browser_policy 1) app_ids ones_digest guarded.1.active_plan)
      (λ _. Installed toy_codec plane (browser_policy 1) app_ids ones_digest true)
      redirected
install_data_plane-Post_example =
    install_data_plane-Post toy_codec plane (browser_policy 1) app_ids ones_digest guarded.1

new_plan-guards_example :
    Guarded toy_codec auth_connect_v4 (1 ∷ []) plan.guard_filters
    × Guarded toy_codec auth_connect_v6 (1 ∷ []) plan.guard_filters
new_plan-guards_example =
    new_plan-guards toy_codec (browser_policy 1) app_ids plan plan_made browser_ids (1 ∷ [])
      (head refl) (head refl)

new_plan-IsExpected_example :
    ((f : WfpFilterSpec) → Memᴰ f plan.guard_filters → IsExpected toy_codec f)
    × ((f : WfpFilterSpec) → Memᴰ f plan.data_plane_filters → IsRedirect toy_codec plan.rules f)
new_plan-IsExpected_example =
    new_plan-IsExpected toy_codec (browser_policy 1) app_ids plan plan_made

install_guards-covers_example : LastSeen toy_codec plane (Enumerated toy_codec (1 ∷ [])) guarded.1
install_guards-covers_example =
    install_guards-covers toy_codec plane (browser_policy 1) app_ids ones_digest idle guarded_ok
      browser_ids (1 ∷ []) (head refl) (head refl)

snapshot-Post_example :
    Post
      (λ _ s'. s'.active_plan ≡ guarded.1.active_plan)
      (λ b s'.
        (s'.active_plan ≡ guarded.1.active_plan)
        × LastSeen toy_codec plane (Reports toy_codec plane b guarded.1.active_plan) s')
      (snapshot toy_codec plane guarded.1)
snapshot-Post_example = snapshot-Post toy_codec plane guarded.1

remove_data_plane-Post_example :
    Post
      (λ _ s'. s'.active_plan ≡ guarded.1.active_plan)
      (λ _ s'. DataPlaneRemoved plane guarded.1 s')
      (remove_data_plane toy_codec plane guarded.1)
remove_data_plane-Post_example = remove_data_plane-Post toy_codec plane guarded.1

remove_guards-Post_example :
    Post
      (λ _ s'. s'.active_plan ≡ guarded.1.active_plan)
      (λ _ s'. GuardsRemoved plane guarded.1 s')
      (remove_guards toy_codec plane guarded.1)
remove_guards-Post_example = remove_guards-Post toy_codec plane guarded.1
