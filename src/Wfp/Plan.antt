-- ===== src/Wfp/Plan.antt =====
-- `WfpPolicyPlan` (services/strict-broker/src/wfp_plan.rs): the filters of a policy.
pub mod Rules
pub mod Filters
use mathlib.Core.Option
use freedom_cloud.Common.{
  ℕ, zero, suc, ◌+◌, ◌%◌, ◌^◌, Bool, true, false, not, Option, none, some, List, [], ◌∷◌, ◌++◌, map,
  any, length, ◌==◌, if◌then◌else◌,
}
use freedom_cloud.Fallible.{Result, ok, err, ◌>>=◌, ◌>>◌, bail, bail_if}
use freedom_cloud.Text.{Text, text_eq, text_lt}
use freedom_cloud.Contract.Policy.{
  StrictAction, proxy, block, StrictPolicyEntry, StrictPolicyBundle,
}
use freedom_cloud.Contract.Codec.{Codec}
use freedom_cloud.Contract.Canonical.{sort_by}
use freedom_cloud.Contract.Validate.{validate, canonical_digest}
use freedom_cloud.Broker.AppIds.{VerifiedApplicationAppIds, VerifiedPolicyAppIds}
use freedom_cloud.Wfp.Keys.{
  WfpObjectKey, WfpLayer, auth_connect_v4, auth_connect_v6, connect_redirect_v4,
  connect_redirect_v6, flow_established_v4, flow_established_v6, datagram_data_v4, datagram_data_v6,
  WfpCallout, fail_closed_guard_v4, fail_closed_guard_v6, redirect_v4, redirect_v6, flow_v4,
  flow_v6, datagram_v4, datagram_v6, WfpFilterLifetime, persistent, dynamic, WfpFilterAction,
  terminating, flow_tracking, conditional_capture, guard_v4_callout_key, guard_v6_callout_key,
  redirect_v4_callout_key, redirect_v6_callout_key, flow_v4_callout_key, flow_v6_callout_key,
  datagram_v4_callout_key, datagram_v6_callout_key, derived_filter_key,
}

pub record WfpFilterSpec : Type 0 where
  pub key : WfpObjectKey
  pub layer : WfpLayer
  pub callout : WfpCallout
  pub callout_key : WfpObjectKey
  pub lifetime : WfpFilterLifetime
  pub identity_id : Text
  pub app_id : List ℕ
  pub action : StrictAction
  pub indexed : Bool
  pub clear_action_right : Bool
  pub callout_action : WfpFilterAction
  pub permit_if_callout_unregistered : Bool

pub record DriverIdentityRule : Type 0 where
  pub identity_id : Text
  pub family_index : ℕ
  pub member_index : ℕ
  pub app_id : List ℕ
  pub action : StrictAction
  pub target_group_index : Option ℕ

pub data PlanInstallStep : Type 0 where
  upload_immutable_snapshot install_persistent_guards install_dynamic_data_plane : PlanInstallStep

pub data PlanRemoveStep : Type 0 where
  remove_dynamic_data_plane remove_persistent_guards unload_immutable_snapshot : PlanRemoveStep

pub record WfpPolicyPlan : Type 0 where
  pub revision : ℕ
  pub policy_digest : Text
  pub rules : List DriverIdentityRule
  pub target_groups : List Text
  pub guard_filters : List WfpFilterSpec
  pub data_plane_filters : List WfpFilterSpec
  pub install_steps : List PlanInstallStep
  pub remove_steps : List PlanRemoveStep

abbrev pub is_proxy : StrictAction → Bool
is_proxy proxy = true
is_proxy block = false

-- `collect::<BTreeSet<_>>()`: sorted, and each once.
insert_once : Text → List Text → List Text
insert_once t [] = t ∷ []
insert_once t (u ∷ us) = elim (text_eq t u) [
  | true ↦ u ∷ us
  | false ↦ if text_lt t u then t ∷ u ∷ us else u ∷ insert_once t us
]

unfoldable pub collect_targets : List StrictPolicyEntry → List Text
unfolding insert_once
collect_targets [] = []
collect_targets (entry ∷ rest) = elim entry.target_group [
  | none ↦ collect_targets rest
  | some target ↦ insert_once target (collect_targets rest)
]

-- `binary_search` on the sorted groups, which finds the one place of a group.
unfoldable pub binary_search : List Text → Text → Option ℕ
binary_search [] target = none
binary_search (t ∷ ts) target =
    let rest = binary_search ts target in
    if text_eq t target then some 0 else Option.map (λ i. suc i) rest

-- `.map(..).transpose().map_err(..)?`
unfoldable pub find_target : List Text → Option Text → Result (Option ℕ)
unfolding binary_search
find_target target_groups none = ok none
find_target target_groups (some target) = elim (binary_search target_groups target) [
  | none ↦ bail "strict target group is missing from its plan"
  | some i ↦ ok (some (i % 2 ^ 16))
]

-- The inner loop: a rule for each member of a family, from its first member on.
unfoldable pub family_rules :
    StrictPolicyEntry → Option ℕ → ℕ → ℕ → List (List ℕ) → List DriverIdentityRule
family_rules entry target_group_index family_index member_index [] = []
family_rules entry target_group_index family_index member_index (app_id ∷ rest) =
    record {
      identity_id = entry.identity.identity_id;
      family_index = family_index % 2 ^ 16;
      member_index = member_index % 2 ^ 8;
      app_id = app_id;
      action = entry.action;
      target_group_index = target_group_index;
    }
    ∷ family_rules entry target_group_index family_index (suc member_index) rest

-- The outer loop over the entries zipped with the verified families.
unfoldable pub collect_rules :
    List Text
    → ℕ
    → List StrictPolicyEntry
    → List VerifiedApplicationAppIds
    → Result (List DriverIdentityRule)
collect_rules target_groups family_index (entry ∷ es) (family ∷ fs) = do
  bail_if (not (text_eq entry.identity.identity_id family.identity_id))
      "verified WFP application family does not match the policy plan"
  target_group_index ← find_target target_groups entry.target_group
  rest ← collect_rules target_groups (suc family_index) es fs
  ok (family_rules entry target_group_index family_index 0 family.app_ids ++ rest)
collect_rules target_groups family_index _ _ = ok []

unfoldable pub sort_rules : List DriverIdentityRule → List DriverIdentityRule
sort_rules rules = sort_by (λ left right. text_lt left.app_id right.app_id) rules

unfoldable pub has_proxy : List StrictPolicyEntry → Bool
has_proxy entries = any (λ entry. is_proxy entry.action) entries

-- Both lists of steps.
unfoldable pub install_steps_for : Bool → List PlanInstallStep
install_steps_for true =
    upload_immutable_snapshot ∷ install_persistent_guards ∷ install_dynamic_data_plane ∷ []
install_steps_for false = upload_immutable_snapshot ∷ install_persistent_guards ∷ []

unfoldable pub remove_steps_for : Bool → List PlanRemoveStep
remove_steps_for true =
    remove_dynamic_data_plane ∷ remove_persistent_guards ∷ unload_immutable_snapshot ∷ []
remove_steps_for false = remove_persistent_guards ∷ unload_immutable_snapshot ∷ []

module _ (codec : Codec) where
  unfoldable pub filter :
      DriverIdentityRule
      → ℕ
      → WfpLayer
      → WfpCallout
      → WfpObjectKey
      → WfpFilterLifetime
      → WfpFilterSpec
  filter rule key_namespace layer callout callout_key lifetime = record {
    key = derived_filter_key codec.sha256 key_namespace rule.app_id;
    layer = layer;
    callout = callout;
    callout_key = callout_key;
    lifetime = lifetime;
    identity_id = rule.identity_id;
    app_id = rule.app_id;
    action = rule.action;
    indexed = true;
    clear_action_right = true;
    callout_action = terminating;
    permit_if_callout_unregistered = false;
  }

  unfoldable pub conditional_datagram_filter :
      ℕ → WfpLayer → WfpCallout → WfpObjectKey → WfpFilterSpec
  conditional_datagram_filter key_namespace layer callout callout_key = record {
    key = derived_filter_key codec.sha256 key_namespace [];
    layer = layer;
    callout = callout;
    callout_key = callout_key;
    lifetime = persistent;
    identity_id = [];
    app_id = [];
    action = proxy;
    indexed = false;
    clear_action_right = false;
    callout_action = conditional_capture;
    permit_if_callout_unregistered = true;
  }

  unfoldable pub flow_tracking_filter :
      DriverIdentityRule
      → ℕ
      → WfpLayer
      → WfpCallout
      → WfpObjectKey
      → WfpFilterLifetime
      → WfpFilterSpec
  unfolding filter
  flow_tracking_filter rule key_namespace layer callout callout_key lifetime =
      record (filter rule key_namespace layer callout callout_key lifetime) {
        callout_action = flow_tracking;
        clear_action_right = false;
      }

  unfoldable pub rule_guards : DriverIdentityRule → List WfpFilterSpec
  rule_guards rule =
      filter rule 0x11 auth_connect_v4 fail_closed_guard_v4 guard_v4_callout_key persistent
      ∷ filter rule 0x12 auth_connect_v6 fail_closed_guard_v6 guard_v6_callout_key persistent
      ∷ []

  unfoldable pub rule_redirects : DriverIdentityRule → List WfpFilterSpec
  rule_redirects rule =
      filter rule 0x21 connect_redirect_v4 redirect_v4 redirect_v4_callout_key dynamic
      ∷ filter rule 0x22 connect_redirect_v6 redirect_v6 redirect_v6_callout_key dynamic
      ∷ flow_tracking_filter rule 0x31 flow_established_v4 flow_v4 flow_v4_callout_key dynamic
      ∷ flow_tracking_filter rule 0x32 flow_established_v6 flow_v6 flow_v6_callout_key dynamic
      ∷ []

  -- What the loop over the rules adds to each of the two lists.
  unfoldable pub all_guards : List DriverIdentityRule → List WfpFilterSpec
  all_guards [] = []
  all_guards (rule ∷ rules) = rule_guards rule ++ all_guards rules

  unfoldable pub all_redirects : List DriverIdentityRule → List WfpFilterSpec
  all_redirects [] = []
  all_redirects (rule ∷ rules) = elim rule.action [
    | proxy ↦ rule_redirects rule ++ all_redirects rules
    | block ↦ all_redirects rules
  ]

  unfoldable pub datagram_filters : Bool → List WfpFilterSpec
  datagram_filters true =
      conditional_datagram_filter 0x41 datagram_data_v4 datagram_v4 datagram_v4_callout_key
      ∷ conditional_datagram_filter 0x42 datagram_data_v6 datagram_v6 datagram_v6_callout_key
      ∷ []
  datagram_filters false = []

  -- `WfpPolicyPlan::new`
  unfoldable pub new_plan : StrictPolicyBundle → VerifiedPolicyAppIds → Result WfpPolicyPlan
  new_plan policy verified = do
    validate codec policy
    bail_if (not (length verified.applications == length policy.entries))
        "verified WFP application identities do not match the policy plan"
    let target_groups = collect_targets policy.entries
    collected ← collect_rules target_groups 0 policy.entries verified.applications
    let rules = sort_rules collected
    let proxied = has_proxy policy.entries
    policy_digest ← canonical_digest codec policy
    ok (record {
      revision = policy.revision;
      policy_digest = policy_digest;
      rules = rules;
      target_groups = target_groups;
      guard_filters = all_guards rules ++ datagram_filters proxied;
      data_plane_filters = all_redirects rules;
      install_steps = install_steps_for proxied;
      remove_steps = remove_steps_for proxied;
    })

unfoldable pub owns_filter_key : WfpPolicyPlan → WfpObjectKey → Bool
owns_filter_key plan key =
    any (λ f. text_eq f.key key) (plan.guard_filters ++ plan.data_plane_filters)
