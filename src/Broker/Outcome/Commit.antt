-- ===== src/Broker/Outcome/Commit.antt =====
-- `commit`: what a success proves, and what every failure leaves.
use mathlib.Core.Option
use freedom_cloud.Common.{ℕ, ◌≡◌, refl, true, Option, some, arith, ◌⊎◌, inl, inr, if◌then◌else◌}
use freedom_cloud.Fallible.{ok, err, message}
use freedom_cloud.Action.{
  Post, Post-state, modify-Post, gets-Post, lift-Post, bail_if-Post, ok_or-Post,
}
use freedom_cloud.Text.{Text}
use freedom_cloud.Contract.Capability.{is_subset, required_for_proxy}
use freedom_cloud.Contract.Policy.{StrictPolicyBundle}
use freedom_cloud.Broker.Marker.{
  ForwardingHealth, RecoveryMarker, BackendSnapshot, BrokerStatus, with_phase, armed, blocking,
  has_proxy_entries, is_complete_for, no_health, validate_snapshot, required_capabilities,
}
use freedom_cloud.Broker.Marker.Laws.{
  validate_snapshot-Shows, is_complete_for-IsComplete, is_subset-intersection, capable_snapshot,
}
use freedom_cloud.Broker.Host.{Host}
use freedom_cloud.Broker.Engine.{Engine, status_of, rollback_redirects, arm, commit}
use freedom_cloud.Broker.Engine.Rules.{
  on_backend-Post, on_store-Post, attempt_backend-Post, attempt_store-Post,
}
use freedom_cloud.Broker.Safety.{match_current-Post, or_rollback-Post}

-- The policy that an engine enforces.
abbrev pub policy_of : {h : Host} → Engine h → Option StrictPolicyBundle
policy_of e = Option.map (λ m. m.policy) e.current_marker

-- The engine has fallen back to blocking, under the policy `p`.
abbrev pub FellBack : {h : Host} → Option StrictPolicyBundle → Engine h → Type 0
FellBack p e = (e.phase ≡ blocking) × (e.forwarding_health ≡ no_health) × (policy_of e ≡ p)

-- A failure leaves phase, health and policy as they were, or falls back to blocking.
abbrev pub StaysClosed : {h : Host} → Engine h → Engine h → Type 0
StaysClosed e e' =
    ((e'.phase ≡ e.phase)
      × (e'.forwarding_health ≡ e.forwarding_health)
      × (policy_of e' ≡ policy_of e))
    ⊎ FellBack (policy_of e) e'

module _ (h : Host) where
  rollback-FellBack :
      (marker : RecoveryMarker) (e : Engine h)
      → e.current_marker ≡ some marker
      → FellBack (policy_of e) (rollback_redirects h marker e).1
  unfolding rollback_redirects
  rollback-FellBack marker e found =
      Post-state {P = FellBack (policy_of e)} (rollback_redirects h marker e) (
        modify-Post _ _ _ (
          attempt_backend-Post h.backend.remove_data_plane _ _ λ r b _.
            lift-Post _ _ _ (λ x _. (refl, refl, refl))
              λ _ _.
                on_backend-Post h.backend.snapshot _ _ (λ x b' _. (refl, refl, refl))
                  λ s b' _.
                    lift-Post _ _ _ (λ x _. (refl, refl, refl))
                      λ _ _.
                        on_store-Post (h.store.persist _) _ _ (λ x b' _. (refl, refl, refl))
                          λ _ s' _. record { at = (refl, refl, ground arith) }))

  -- What the status of a successful commit claims.
  pub record Proves (revision : ℕ) (health : ForwardingHealth) (st : BrokerStatus) (e : Engine h)
      : Type 0 where
    pub armed_now : e.phase ≡ armed
    pub reported : st.phase ≡ armed
    pub healthy : e.forwarding_health ≡ health
    pub guarded : st.proof.guard_filters_installed ≡ true
    pub marked : st.proof.recovery_marker_present ≡ true
    pub at_revision : st.proof.revision ≡ revision
    pub core : st.proof.core_healthy ≡ true
    pub relay : st.proof.relay_healthy ≡ true
    pub dns : st.proof.dns_healthy ≡ true
    pub capable : is_subset required_for_proxy st.proof.capabilities ≡ true

  arm-Proves :
      (marker : RecoveryMarker) (revision : ℕ) (health : ForwardingHealth) (e : Engine h)
      (s : BackendSnapshot)
      → marker.revision ≡ revision
      → has_proxy_entries marker.policy ≡ true
      → is_complete_for health marker.policy ≡ true
      → validate_snapshot s marker true true ≡ ok tt
      → (if is_subset (required_capabilities marker.policy) s.capabilities
          then ok tt
          else err (message "strict backend capability proof is incomplete"))
        ≡ ok tt
      → e.phase ≡ armed
      → e.forwarding_health ≡ health
      → e.current_marker ≡ some (with_phase marker armed s.filter_generation)
      → Proves revision health (status_of h e s) e
  unfolding status_of
  arm-Proves marker revision health e s at proxied complete valid capable p q r =
      let shown = validate_snapshot-Shows s marker true true valid in
      let c = is_complete_for-IsComplete health marker.policy proxied complete in
      record {
        armed_now = p;
        reported = p;
        healthy = q;
        guarded = shown.guards_shown;
        marked = rw r refl;
        at_revision = rw (r, status_of) at;
        core = rw (p, q) c.core;
        relay = rw (p, q) c.relay;
        dns = rw (p, q) c.dns;
        capable =
            rw (p, q, shown.redirects_shown)
              (is_subset-intersection required_for_proxy s.capabilities health.capabilities
                (capable_snapshot s marker.policy _ proxied capable) c.capable);
      }

  arm-Post :
      (marker : RecoveryMarker) (revision : ℕ) (health : ForwardingHealth) (e : Engine h)
      → marker.revision ≡ revision
      → e.current_marker ≡ some marker
      → has_proxy_entries marker.policy ≡ true
      → is_complete_for health marker.policy ≡ true
      → Post (λ _ e'. StaysClosed e e') (Proves revision health) (arm h marker health e)
  unfolding arm
  arm-Post marker revision health e at found proxied complete =
      on_backend-Post h.backend.snapshot _ _ (λ _ _ _. inl (refl, refl, refl))
        λ s b _.
          or_rollback-Post h marker _ _ _ _ _ (λ _ _ _. inr (rollback-FellBack marker _ found))
            λ _ valid.
              or_rollback-Post h marker _ _ _ _ _ (λ _ _ _. inr (rollback-FellBack marker _ found))
                λ _ capable. attempt_store-Post (h.store.persist _) _ _ λ _ _ _.
                  or_rollback-Post h marker _ _ _ _ _
                    (λ _ _ _. inr (rollback-FellBack marker _ found))
                    λ _ _. modify-Post _ _ _ (record {
                      at =
                          arm-Proves marker revision health _ s at proxied complete valid capable
                            refl refl refl;
                    })

  -- A commit that succeeds arms the engine, and its status proves forwarding: guards installed,
  -- marker present, all three health bits and every capability that proxying requires. One that
  -- fails changes neither phase, health nor policy, or falls back to blocking under that policy.
  pub commit-Post :
      (revision : ℕ) (digest : Text) (health : ForwardingHealth) (e : Engine h)
      → Post (λ _ e'. StaysClosed e e') (Proves revision health) (commit h revision digest health e)
  unfolding commit
  commit-Post revision digest health e =
      match_current-Post h revision digest _ e (λ _. inl (refl, refl, refl))
        λ marker found at _.
          bail_if-Post _ _ _ _ (λ _. inl (refl, refl, refl))
            λ proxied. gets-Post _ _ _ (
              bail_if-Post _ _ _ _ (λ _. inl (refl, refl, refl))
                λ _.
                  bail_if-Post _ _ _ _ (λ _. inl (refl, refl, refl))
                    λ complete. gets-Post _ _ _ (
                      ok_or-Post _ _ _ _ (λ _. inl (refl, refl, refl))
                        λ verification held.
                          attempt_backend-Post (h.backend.install_data_plane _ _ _) _ _ λ _ _ _.
                            or_rollback-Post h marker _ _ _ _ _
                              (λ _ _ _. inr (rollback-FellBack marker _ found))
                              λ _ _.
                                arm-Post marker revision health _ at found (ground arith)
                                  (ground arith)))
