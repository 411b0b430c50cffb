-- ===== src/Wfp/Plan/Filters.antt =====
-- The filters of a plan: every verified identity is guarded, and every filter is one that the
-- engine expects.
use mathlib.Core.List.{Memᴰ}
use mathlib.Core.List.Memᴰ
use mathlib.Core.List.Memᴰ.{head, tail}
use freedom_cloud.Common.{
  ℕ, ◌≡◌, refl, ap, ◌∙◌, sym, Bool, true, false, not, ◌==◌, ==_iff, ◌⊎◌, inl, inr, List, [], ◌∷◌,
  ◌++◌, length, not-eq_false,
}
use freedom_cloud.Fallible.{ok, >>=-eq-ok, >>-eq-ok, bail_if->>-eq-ok, ok-injective}
use freedom_cloud.Contract.Policy.{StrictAction, proxy, block, StrictPolicyBundle}
use freedom_cloud.Contract.Codec.{Codec}
use freedom_cloud.Contract.Validate.{validate, canonical_digest}
use freedom_cloud.Broker.AppIds.{VerifiedApplicationAppIds, VerifiedPolicyAppIds}
use freedom_cloud.Wfp.Keys.{
  fail_closed_guard_v4, fail_closed_guard_v6, guard_v4_callout_key, guard_v6_callout_key, WfpLayer,
  auth_connect_v4, auth_connect_v6, persistent, dynamic, terminating, conditional_capture,
  expected_callout_key, expected_filter_key,
}
use freedom_cloud.Wfp.Plan.{
  WfpFilterSpec, DriverIdentityRule, WfpPolicyPlan, collect_targets, collect_rules, sort_rules,
  has_proxy, filter, conditional_datagram_filter, flow_tracking_filter, rule_guards, rule_redirects,
  all_guards, all_redirects, datagram_filters, new_plan,
}
use freedom_cloud.Wfp.Plan.Rules.{sort_rules-keeps, collect_rules-covers}

module _ (codec : Codec) where
  -- What a plan was made of.
  record Planned (policy : StrictPolicyBundle) (verified : VerifiedPolicyAppIds)
      (plan : WfpPolicyPlan) : Type 0 where
    sized : length verified.applications ≡ length policy.entries
    digest : canonical_digest codec policy ≡ ok plan.policy_digest
    same_revision : plan.revision ≡ policy.revision
    collected : List DriverIdentityRule
    collects :
        collect_rules (collect_targets policy.entries) 0 policy.entries verified.applications
        ≡ ok collected
    rules : plan.rules ≡ sort_rules collected
    guards :
        plan.guard_filters
        ≡ all_guards codec plan.rules ++ datagram_filters codec (has_proxy policy.entries)
    redirects : plan.data_plane_filters ≡ all_redirects codec plan.rules

  new_plan-Planned :
      (policy : StrictPolicyBundle) (verified : VerifiedPolicyAppIds) (plan : WfpPolicyPlan)
      → new_plan codec policy verified ≡ ok plan
      → Planned policy verified plan
  unfolding new_plan
  new_plan-Planned policy verified plan h =
      let (_, h1) = >>-eq-ok (validate codec policy) _ h in
      let (sized, h2) =
        bail_if->>-eq-ok (not (length verified.applications == length policy.entries)) _ _ h1 in
      let (collected, collects, h3) =
        >>=-eq-ok
          (collect_rules (collect_targets policy.entries) 0 policy.entries verified.applications) _
          h2 in
      let (digest, digested, h4) = >>=-eq-ok (canonical_digest codec policy) _ h3 in
      let made = ok-injective _ plan h4 in
      record {
        sized = (==_iff _ _).0 (not-eq_false _ sized);
        digest = digested ∙ ap (λ p. ok p.policy_digest) made;
        same_revision = ap (λ p. p.revision) (sym made);
        collected = collected;
        collects = collects;
        rules = ap (λ p. p.rules) (sym made);
        guards = rw (sym made) refl;
        redirects = rw (sym made) refl;
      }

  -- A filter that fails closed for one application identity.
  pub record IsGuard (layer : WfpLayer) (app_id : List ℕ) (f : WfpFilterSpec) : Type 0 where
    pub at_layer : f.layer ≡ layer
    pub same_app_id : f.app_id ≡ app_id
    pub outlives : f.lifetime ≡ persistent
    pub terminates : f.callout_action ≡ terminating
    pub fails_closed : f.permit_if_callout_unregistered ≡ false
    pub clears : f.clear_action_right ≡ true
    pub same_key : f.key ≡ expected_filter_key codec.sha256 layer app_id
    pub same_callout_key : f.callout_key ≡ expected_callout_key layer

  abbrev pub Guarded : WfpLayer → List ℕ → List WfpFilterSpec → Type 0
  Guarded layer app_id filters = (f : WfpFilterSpec) × Memᴰ f filters × IsGuard layer app_id f

  rule_guards-guard :
      (rule : DriverIdentityRule)
      → Guarded auth_connect_v4 rule.app_id (rule_guards codec rule)
        × Guarded auth_connect_v6 rule.app_id (rule_guards codec rule)
  unfolding rule_guards filter expected_filter_key expected_callout_key
  rule_guards-guard rule = (
    (
      filter codec rule 0x11 auth_connect_v4 fail_closed_guard_v4 guard_v4_callout_key persistent,
      head refl,
      record {
        at_layer = refl;
        same_app_id = refl;
        outlives = refl;
        terminates = refl;
        fails_closed = refl;
        clears = refl;
        same_key = refl;
        same_callout_key = refl;
      },
    ),
    (
      filter codec rule 0x12 auth_connect_v6 fail_closed_guard_v6 guard_v6_callout_key persistent,
      tail (head refl),
      record {
        at_layer = refl;
        same_app_id = refl;
        outlives = refl;
        terminates = refl;
        fails_closed = refl;
        clears = refl;
        same_key = refl;
        same_callout_key = refl;
      },
    ),
  )

  within_filters :
      {layer : WfpLayer} {app_id : List ℕ} {fs gs : List WfpFilterSpec}
      → ((f : WfpFilterSpec) → Memᴰ f fs → Memᴰ f gs)
      → Guarded layer app_id fs
      → Guarded layer app_id gs
  within_filters into (f, m, g) = (f, into f m, g)

  all_guards-guard :
      (rule : DriverIdentityRule) (rules : List DriverIdentityRule)
      → Memᴰ rule rules
      → Guarded auth_connect_v4 rule.app_id (all_guards codec rules)
        × Guarded auth_connect_v6 rule.app_id (all_guards codec rules)
  unfolding all_guards
  all_guards-guard rule [] m = absurd (Memᴰ.not-nil m)
  all_guards-guard rule (r ∷ rules) (head e) =
      let (g4, g6) = rule_guards-guard r in
      rw e
        (within_filters (λ f. Memᴰ.append_left _) g4, within_filters (λ f. Memᴰ.append_left _) g6)
  all_guards-guard rule (r ∷ rules) (tail m) =
      let (g4, g6) = all_guards-guard rule rules m in
      (within_filters (λ f. Memᴰ.append_right _) g4, within_filters (λ f. Memᴰ.append_right _) g6)

  -- Every verified application identity of every family of a policy that has a plan is guarded on IPv4 and
  -- on IPv6: by a filter for exactly that identity, which outlives the process, terminates, keeps lower filters from permitting, blocks
  -- while its callout is not registered, and has the key and the callout key that the engine expects.
  pub new_plan-guards :
      (policy : StrictPolicyBundle) (verified : VerifiedPolicyAppIds) (plan : WfpPolicyPlan)
      → new_plan codec policy verified ≡ ok plan
      → (family : VerifiedApplicationAppIds) (app_id : List ℕ) → Memᴰ family verified.applications
      → Memᴰ app_id family.app_ids
      → Guarded auth_connect_v4 app_id plan.guard_filters
        × Guarded auth_connect_v6 app_id plan.guard_filters
  new_plan-guards policy verified plan h family app_id m k =
      let p = new_plan-Planned policy verified plan h in
      let (_, _, _, r) =
        collect_rules-covers (collect_targets policy.entries) 0 policy.entries verified.applications
          p.collected p.collects p.sized family app_id m k in
      let listed : Memᴰ r.rule plan.rules =
        rw p.rules (sort_rules-keeps r.rule p.collected r.listed) in
      let (g4, g6) = all_guards-guard r.rule plan.rules listed in
      rw (p.guards, sym r.same_app_id)
        (within_filters (λ f. Memᴰ.append_left _) g4, within_filters (λ f. Memᴰ.append_left _) g6)

  -- A filter with the keys that the engine expects at its layer. Only a filter that captures
  -- datagrams of marked flows, and has no identity, lets traffic pass while its callout is not registered.
  pub record IsExpected (f : WfpFilterSpec) : Type 0 where
    pub same_key : f.key ≡ expected_filter_key codec.sha256 f.layer f.app_id
    pub same_callout_key : f.callout_key ≡ expected_callout_key f.layer
    pub closed_or_capture :
        (f.permit_if_callout_unregistered ≡ false)
        ⊎ (f.callout_action ≡ conditional_capture)
          × (f.app_id ≡ [])
          × (f.clear_action_right ≡ false)

  abbrev AllExpected : List WfpFilterSpec → Type 0
  AllExpected fs = (f : WfpFilterSpec) → Memᴰ f fs → IsExpected f

  append-AllExpected :
      (fs gs : List WfpFilterSpec) → AllExpected fs → AllExpected gs → AllExpected (fs ++ gs)
  append-AllExpected fs gs p q f m = elim (Memᴰ.append_cases fs m) [ inl k ↦ p f k | inr k ↦ q f k ]

  rule_guards-expected : (rule : DriverIdentityRule) → AllExpected (rule_guards codec rule)
  unfolding rule_guards filter expected_filter_key expected_callout_key
  rule_guards-expected rule f (head e) =
      rw e (record { same_key = refl; same_callout_key = refl; closed_or_capture = inl refl })
  rule_guards-expected rule f (tail (head e)) =
      rw e (record { same_key = refl; same_callout_key = refl; closed_or_capture = inl refl })
  rule_guards-expected rule f (tail (tail m)) = absurd (Memᴰ.not-nil m)

  -- A filter of the data plane goes with the process, and belongs to a proxied identity.
  pub record IsRedirect (rules : List DriverIdentityRule) (f : WfpFilterSpec) : Type 0 where
    pub expected : IsExpected f
    pub goes : f.lifetime ≡ dynamic
    pub fails_closed : f.permit_if_callout_unregistered ≡ false
    pub rule : DriverIdentityRule
    pub listed : Memᴰ rule rules
    pub proxied : rule.action ≡ proxy
    pub same_app_id : f.app_id ≡ rule.app_id

  rule_redirects-IsRedirect :
      (rule : DriverIdentityRule) (rules : List DriverIdentityRule)
      → Memᴰ rule rules
      → rule.action ≡ proxy
      → (f : WfpFilterSpec) → Memᴰ f (rule_redirects codec rule)
      → IsRedirect rules f
  unfolding rule_redirects filter flow_tracking_filter expected_filter_key expected_callout_key
  rule_redirects-IsRedirect rule rules m p f k = by_place k
    where
      known :
          (g : WfpFilterSpec)
          → f ≡ g
          → IsExpected g
          → g.lifetime ≡ dynamic
          → g.permit_if_callout_unregistered ≡ false
          → g.app_id ≡ rule.app_id
          → IsRedirect rules f
      known g e x d c a = rw e (record {
        expected = x;
        goes = d;
        fails_closed = c;
        rule = rule;
        listed = m;
        proxied = p;
        same_app_id = a;
      })

      by_place : (Memᴰ f (rule_redirects codec rule)) → IsRedirect rules f
      by_place (head e) =
          known _ e
            (record { same_key = refl; same_callout_key = refl; closed_or_capture = inl refl }) refl
            refl refl
      by_place (tail (head e)) =
          known _ e
            (record { same_key = refl; same_callout_key = refl; closed_or_capture = inl refl }) refl
            refl refl
      by_place (tail (tail (head e))) =
          known _ e
            (record { same_key = refl; same_callout_key = refl; closed_or_capture = inl refl }) refl
            refl refl
      by_place (tail (tail (tail (head e)))) =
          known _ e
            (record { same_key = refl; same_callout_key = refl; closed_or_capture = inl refl }) refl
            refl refl
      by_place (tail (tail (tail (tail m)))) = absurd (Memᴰ.not-nil m)

  from_later :
      {r : DriverIdentityRule} {rules : List DriverIdentityRule} {f : WfpFilterSpec}
      → IsRedirect rules f
      → IsRedirect (r ∷ rules) f
  from_later x = record {
    expected = x.expected;
    goes = x.goes;
    fails_closed = x.fails_closed;
    rule = x.rule;
    listed = tail x.listed;
    proxied = x.proxied;
    same_app_id = x.same_app_id;
  }

  all_redirects-IsRedirect :
      (rules : List DriverIdentityRule) (f : WfpFilterSpec)
      → Memᴰ f (all_redirects codec rules)
      → IsRedirect rules f
  unfolding all_redirects
  all_redirects-IsRedirect [] f m = absurd (Memᴰ.not-nil m)
  all_redirects-IsRedirect (r ∷ rules) f m =
      by_action (λ k. all_redirects-IsRedirect rules f k) r.action refl m
    where
      by_action :
          (Memᴰ f (all_redirects codec rules) → IsRedirect rules f)
          → (a : StrictAction) → r.action ≡ a
          → Memᴰ f (elim a [
            | proxy ↦ rule_redirects codec r ++ all_redirects codec rules
            | block ↦ all_redirects codec rules
          ])
          → IsRedirect (r ∷ rules) f
      by_action later proxy e m = elim (Memᴰ.append_cases (rule_redirects codec r) m) [
        | inl k ↦ rule_redirects-IsRedirect r (r ∷ rules) (head refl) e f k
        | inr k ↦ from_later (later k)
      ]
      by_action later block e m = from_later (later m)

  datagram_filters-expected : (b : Bool) → AllExpected (datagram_filters codec b)
  unfolding datagram_filters conditional_datagram_filter expected_filter_key expected_callout_key
  datagram_filters-expected true f (head e) = rw e (record {
    same_key = refl;
    same_callout_key = refl;
    closed_or_capture = inr (refl, refl, refl);
  })
  datagram_filters-expected true f (tail (head e)) = rw e (record {
    same_key = refl;
    same_callout_key = refl;
    closed_or_capture = inr (refl, refl, refl);
  })
  datagram_filters-expected true f (tail (tail m)) = absurd (Memᴰ.not-nil m)
  datagram_filters-expected false f m = absurd (Memᴰ.not-nil m)

  all_guards-expected : (rules : List DriverIdentityRule) → AllExpected (all_guards codec rules)
  unfolding all_guards
  all_guards-expected [] f m = absurd (Memᴰ.not-nil m)
  all_guards-expected (r ∷ rules) f m =
      append-AllExpected (rule_guards codec r) _ (rule_guards-expected r)
        (all_guards-expected rules) f m

  -- Every filter of a plan has the keys that the engine expects at its layer, and blocks while its callout is not
  -- registered unless it only captures datagrams. Every filter of the data plane goes with the process, blocks
  -- while its callout is not registered, and is for the identity of a proxied rule: no blocked application is
  -- redirected.
  pub new_plan-IsExpected :
      (policy : StrictPolicyBundle) (verified : VerifiedPolicyAppIds) (plan : WfpPolicyPlan)
      → new_plan codec policy verified ≡ ok plan
      → ((f : WfpFilterSpec) → Memᴰ f plan.guard_filters → IsExpected f)
        × ((f : WfpFilterSpec) → Memᴰ f plan.data_plane_filters → IsRedirect plan.rules f)
  new_plan-IsExpected policy verified plan h =
      let p = new_plan-Planned policy verified plan h in
      (
        rw p.guards (
            append-AllExpected (all_guards codec plan.rules) _ (all_guards-expected plan.rules)
              (datagram_filters-expected (has_proxy policy.entries))),
        rw p.redirects (all_redirects-IsRedirect plan.rules),
      )

  -- The plan is for the policy's revision and digest.
  pub new_plan-identity :
      (policy : StrictPolicyBundle) (verified : VerifiedPolicyAppIds) (plan : WfpPolicyPlan)
      → new_plan codec policy verified ≡ ok plan
      → (plan.revision ≡ policy.revision) × (canonical_digest codec policy ≡ ok plan.policy_digest)
  new_plan-identity policy verified plan h =
      let p = new_plan-Planned policy verified plan h in (p.same_revision, p.digest)
