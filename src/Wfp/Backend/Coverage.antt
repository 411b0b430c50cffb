-- ===== src/Wfp/Backend/Coverage.antt =====
-- What a successful installation and a reported snapshot mean for the verified applications.
use mathlib.Core.List.{Memᴰ}
use freedom_cloud.Common.{
  ℕ, ◌≡◌, refl, ap, ◌∙◌, sym, Bool, true, false, not, ◌&&◌, Option, none, some, List, is_empty,
  if◌then◌else◌, not-eq_false, or-eq_false,
}
use freedom_cloud.Fallible.{ok, >>-eq-ok, >>=-eq-ok, bail_if, bail_if-eq-ok, ok-injective}
use freedom_cloud.Action.{Post, Post-ok, Post-pure, lift-Post, call-Post, gets-Post}
use freedom_cloud.Text.{Text, eq_ignore_ascii_case}
use freedom_cloud.Contract.Policy.{StrictPolicyBundle}
use freedom_cloud.Contract.Capability.{Capabilities, no_capabilities}
use freedom_cloud.Contract.Codec.{Codec}
use freedom_cloud.Broker.AppIds.{VerifiedApplicationAppIds, VerifiedPolicyAppIds}
use freedom_cloud.Broker.Marker.{BackendSnapshot, same_flag}
use freedom_cloud.Wfp.Keys.{
  WfpObjectKey, WfpLayer, auth_connect_v4, auth_connect_v6, has_key, same_keys, expected_filter_key,
}
use freedom_cloud.Wfp.Plan.{WfpPolicyPlan, new_plan}
use freedom_cloud.Wfp.Plan.Filters.{Guarded, new_plan-guards}
use freedom_cloud.Wfp.Inventory.{
  WfpControlSnapshot, validate_plan_metadata, validate_enumerated, validate_present_inventory,
  reported_capabilities, checked_plan, expected_keys,
}
use freedom_cloud.Wfp.Backend.{WfpControlPlane, PlannedWfpBackend, install_guards, snapshot}
use freedom_cloud.Wfp.Backend.Attest.{expected_keys-has, same_keys→same}
use freedom_cloud.Wfp.Backend.Laws.{LastSeen, install_guards-Post, on_control-Post}

pub checked_plan→new_plan :
    (codec : Codec) (policy : StrictPolicyBundle) (verified : VerifiedPolicyAppIds) (digest : Text)
    (plan : WfpPolicyPlan)
    → checked_plan codec policy verified digest ≡ ok plan
    → new_plan codec policy verified ≡ ok plan
unfolding checked_plan
checked_plan→new_plan codec policy verified digest plan h =
    let (p, made, h1) = >>=-eq-ok (new_plan codec policy verified) _ h in
    let (_, h2) = >>-eq-ok (bail_if (not (eq_ignore_ascii_case p.policy_digest digest)) _) _ h1 in
    made ∙ h2

-- The guards of an application identity are enumerated, on IPv4 and on IPv6.
abbrev pub Enumerated : Codec → List ℕ → WfpControlSnapshot → Type 0
Enumerated codec app_id seen =
    (has_key seen.guard_filter_keys (expected_filter_key codec.sha256 auth_connect_v4 app_id)
      ≡ true)
    × (has_key seen.guard_filter_keys (expected_filter_key codec.sha256 auth_connect_v6 app_id)
        ≡ true)

module _ {C : Type 0} (codec : Codec) (control : WfpControlPlane C) where
  -- Where exactly a checked plan's guards are enumerated, those of each verified identity are.
  pub exact-Enumerated :
      (policy : StrictPolicyBundle) (verified : VerifiedPolicyAppIds) (digest : Text)
      (plan : WfpPolicyPlan) (seen : WfpControlSnapshot)
      → checked_plan codec policy verified digest ≡ ok plan
      → ((k : WfpObjectKey)
          → has_key seen.guard_filter_keys k ≡ has_key (expected_keys plan.guard_filters true) k)
      → (family : VerifiedApplicationAppIds) (app_id : List ℕ) → Memᴰ family verified.applications
      → Memᴰ app_id family.app_ids
      → Enumerated codec app_id seen
  exact-Enumerated policy verified digest plan seen checked exact family app_id m k =
      let made = checked_plan→new_plan codec policy verified digest plan checked in
      let (g4, g6) = new_plan-guards codec policy verified plan made family app_id m k in
      (enumerated auth_connect_v4 g4, enumerated auth_connect_v6 g6)
    where
      enumerated :
          (layer : WfpLayer)
          → Guarded codec layer app_id plan.guard_filters
          → has_key seen.guard_filter_keys (expected_filter_key codec.sha256 layer app_id) ≡ true
      enumerated layer (f, listed, guard) =
          exact _
          ∙ ap (has_key (expected_keys plan.guard_filters true)) (sym guard.same_key)
          ∙ expected_keys-has f plan.guard_filters listed

  -- After `install_guards` has succeeded, the control plane's last answer contains the guards of
  -- every verified application identity of every family of the policy, on IPv4 and on IPv6, under the keys that
  -- the engine expects.
  pub install_guards-covers :
      (policy : StrictPolicyBundle) (verified : VerifiedPolicyAppIds) (digest : Text)
      (s : PlannedWfpBackend C)
      → (install_guards codec control policy verified digest s).0 ≡ ok tt
      → (family : VerifiedApplicationAppIds) (app_id : List ℕ) → Memᴰ family verified.applications
      → Memᴰ app_id family.app_ids
      → LastSeen codec control
          (Enumerated codec app_id)
          (install_guards codec control policy verified digest s).1
  install_guards-covers policy verified digest s h family app_id m k =
      let i = Post-ok (install_guards-Post codec control policy verified digest s) tt h in
      let l = i.attested in
      record {
        before = l.before;
        seen = l.seen;
        answered = l.answered;
        holds =
            exact-Enumerated policy verified digest i.plan l.seen i.checked l.holds.exact_guards
              family app_id m k;
      }

  -- What a reported snapshot says of the enumerated one, under the active plan.
  pub record Reports (b : BackendSnapshot) (plan : Option WfpPolicyPlan) (seen : WfpControlSnapshot)
      : Type 0 where
    pub says_guards : b.guard_filters_installed ≡ not (is_empty seen.guard_filter_keys)
    pub says_redirects : b.data_plane_filters_installed ≡ not (is_empty seen.data_plane_filter_keys)
    pub says_revision : b.revision ≡ seen.revision
    pub exact :
        (p : WfpPolicyPlan)
        → plan ≡ some p
        → b.guard_filters_installed ≡ true
        → (k : _)
        → has_key seen.guard_filter_keys k ≡ has_key (expected_keys p.guard_filters true) k
    pub silent : plan ≡ none → b.capabilities ≡ no_capabilities

  validate_present_inventory-exact :
      (seen : WfpControlSnapshot) (plan : WfpPolicyPlan)
      → validate_present_inventory seen plan ≡ ok tt
      → not (is_empty seen.guard_filter_keys) ≡ true
      → (k : _)
      → has_key seen.guard_filter_keys k ≡ has_key (expected_keys plan.guard_filters true) k
  unfolding validate_present_inventory validate_enumerated
  validate_present_inventory-exact seen plan h some_guards =
      by_guards (is_empty seen.guard_filter_keys) some_guards h
    where
      enumerated :
          validate_enumerated seen plan ≡ ok tt
          → (k : _)
          → has_key seen.guard_filter_keys k ≡ has_key (expected_keys plan.guard_filters true) k
      enumerated h =
          let (_, h1) = >>-eq-ok (validate_plan_metadata seen plan) _ h in
          let (h2, _) =
            or-eq_false _
              (same_flag seen.datagram_path_active (is_empty seen.data_plane_filter_keys))
              (bail_if-eq-ok _ _ h1) in
          let (h3, _) =
            or-eq_false
              (not (same_keys seen.guard_filter_keys (expected_keys plan.guard_filters true))) _
              h2 in
          same_keys→same _ _ (not-eq_false _ h3)

      by_guards :
          (b : Bool)
          → not b ≡ true
          → (if b && is_empty seen.data_plane_filter_keys
              then bail_if seen.datagram_path_active
                  "strict datagram path is active without filters"
              else validate_enumerated seen plan)
            ≡ ok tt
          → (k : _)
          → has_key seen.guard_filter_keys k ≡ has_key (expected_keys plan.guard_filters true) k
      by_guards true n h = cc
      by_guards false n h = enumerated h

  reported-valid :
      (seen : WfpControlSnapshot) (o : Option WfpPolicyPlan) (p : WfpPolicyPlan) (c : Capabilities)
      → o ≡ some p
      → reported_capabilities seen o ≡ ok c
      → validate_present_inventory seen p ≡ ok tt
  unfolding reported_capabilities
  reported-valid seen none p c e h = cc
  reported-valid seen (some q) p c e h =
      let (valid, _) = >>-eq-ok (validate_present_inventory seen q) _ h in
      rw (some_injective q p e) at valid
    where
      some_injective : (a b : WfpPolicyPlan) → some a ≡ some b → a ≡ b
      some_injective a b e = cc

  reported-silent :
      (seen : WfpControlSnapshot) (o : Option WfpPolicyPlan) (c : Capabilities)
      → o ≡ none
      → reported_capabilities seen o ≡ ok c
      → c ≡ no_capabilities
  unfolding reported_capabilities
  reported-silent seen none c e h = sym (ok-injective _ c h)
  reported-silent seen (some q) c e h = cc

  -- A `snapshot` that reports guards while a plan is active was taken of a control plane that enumerates
  -- exactly the guards of that plan, and without an active plan it reports no capability. Either
  -- way the active plan stays.
  pub snapshot-Post :
      (s : PlannedWfpBackend C)
      → Post
          (λ _ s'. s'.active_plan ≡ s.active_plan)
          (λ b s'.
            (s'.active_plan ≡ s.active_plan) × LastSeen codec control (Reports b s.active_plan) s')
          (snapshot codec control s)
  unfolding snapshot
  snapshot-Post s =
      call-Post _ _ s (on_control-Post codec control control.snapshot s s.active_plan refl)
        (λ _ _ k. k)
        λ seen s1 (k1, (c, answered)). gets-Post _ _ s1 (
          lift-Post _ _ s1 (λ _ _. k1)
            λ capabilities found. Post-pure _ s1 (
              k1,
              record {
                before = c;
                seen = seen;
                answered = answered;
                holds = record {
                  says_guards = refl;
                  says_redirects = refl;
                  says_revision = refl;
                  exact = λ p active installed.
                      validate_present_inventory-exact seen p
                        (reported-valid seen _ p capabilities (k1 ∙ active) found) installed;
                  silent = λ idle. reported-silent seen _ capabilities (k1 ∙ idle) found;
                };
              },
            ))
