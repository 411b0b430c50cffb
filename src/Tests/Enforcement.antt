-- ===== src/Tests/Enforcement.antt =====
-- The engine over the planned backend, with the control plane in memory.

use freedom_cloud.Common.{◌≡◌, refl, true, false, none, []}
use freedom_cloud.Fallible.{Result, ok, err}
use freedom_cloud.Action.{◌>>=◌, branch}
use freedom_cloud.Text.{text_eq, eq_ignore_ascii_case, to_lower}
use freedom_cloud.Contract.Canonical.{canonical_bytes_unchecked, to_hex, sort_by, insert_sorted}
use freedom_cloud.Contract.Capability.{is_sha256, no_capabilities}
use freedom_cloud.Contract.Fields.{
  validate_sha256, is_uuid, validate_windows_executable_path, validate_target_group,
}
use freedom_cloud.Contract.Validate.{
  validate, validate_entries, validate_entry, validate_identity, contains, insert_children,
  canonical_digest, canonical_bytes,
}
use freedom_cloud.Broker.Marker.{BrokerStatus, disabled, no_health, validate_snapshot}
use freedom_cloud.Broker.Host.{Host}
use freedom_cloud.Broker.Engine.{Engine, prepare, prepare_new, prepare_over, load_store_once}
use freedom_cloud.Wfp.Keys.{has_key, same_keys, derived_filter_key}
use freedom_cloud.Wfp.Plan.{
  new_plan, collect_rules, find_target, collect_targets, binary_search, family_rules, all_guards,
  rule_guards, filter, datagram_filters, conditional_datagram_filter, has_proxy, sort_rules,
}
use freedom_cloud.Wfp.Inventory.{
  checked_plan, validate_inventory, validate_plan_metadata, expected_keys, reported_capabilities,
  validate_present_inventory, validate_enumerated,
}
use freedom_cloud.Wfp.Backend.{
  install_guards, snapshot, replace_guards, undo_upload, attest, on_control,
}
use freedom_cloud.Wfp.Enforcement.{planned_host, Enforced, prepare-Enforced}
use freedom_cloud.Tests.Host.{toy_codec, browser_policy, memory_host}
use freedom_cloud.Tests.Filters.{plane, idle}

abbrev filtered_host : Host
filtered_host = planned_host toy_codec plane memory_host

abbrev idle_engine : Engine filtered_host
idle_engine = record {
  backend = idle;
  store = record { high_watermark = 0; marker = none };
  verifier = tt;
  current_marker = none;
  high_watermark = 0;
  store_loaded = true;
  phase = disabled;
  forwarding_health = no_health;
  verification_lease = none;
}

abbrev prepared : Result BrokerStatus × Engine filtered_host
prepared = prepare toy_codec filtered_host (browser_policy 1) idle_engine

abbrev status_or : BrokerStatus → Result BrokerStatus → BrokerStatus
status_or other (ok status) = status
status_or other (err e) = other

abbrev no_status : BrokerStatus
no_status = record {
  phase = disabled;
  proof = record {
    revision = 0;
    policy_digest = [];
    filter_generation = 0;
    capabilities = no_capabilities;
    guard_filters_installed = false;
    recovery_marker_present = false;
    core_healthy = false;
    relay_healthy = false;
    dns_healthy = false;
  };
}

prepared_ok : prepared.0 ≡ ok (status_or no_status prepared.0)
unfolding ◌>>=◌ branch prepare prepare_new prepare_over load_store_once validate_snapshot snapshot
    reported_capabilities validate_present_inventory validate_enumerated install_guards checked_plan
    new_plan validate validate_entries validate_entry validate_identity is_uuid
    validate_windows_executable_path validate_sha256 is_sha256 validate_target_group contains
    insert_children canonical_bytes_unchecked canonical_digest canonical_bytes collect_rules
    find_target collect_targets binary_search family_rules text_eq eq_ignore_ascii_case to_hex
    to_lower replace_guards undo_upload attest on_control validate_inventory validate_plan_metadata
    expected_keys has_key same_keys all_guards rule_guards filter derived_filter_key
    datagram_filters conditional_datagram_filter has_proxy sort_rules sort_by insert_sorted
prepared_ok = refl

prepare-Enforced_example : Enforced toy_codec plane memory_host (browser_policy 1) prepared.1
prepare-Enforced_example =
    prepare-Enforced toy_codec plane memory_host (browser_policy 1) idle_engine
      (status_or no_status prepared.0) refl refl prepared_ok
