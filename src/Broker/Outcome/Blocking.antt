-- ===== src/Broker/Outcome/Blocking.antt =====
-- `disable`: what a success leaves, and what a failure does; and the status under guards.
use freedom_cloud.Common.{ℕ, ◌≡◌, refl, true, false, none, some, arith, ◌⊎◌, inl, inr}
use freedom_cloud.Action.{
  Post, Post-weaken, modify-Post, gets-Post, lift-Post, bail_if-Post, ok_or-Post, call-Post,
  branch-Post,
}
use freedom_cloud.Broker.Marker.{
  RecoveryMarker, BackendSnapshot, BrokerStatus, with_phase, guarded_phase, disabled, disabling,
  recovering, no_health,
}
use freedom_cloud.Broker.Host.{Host}
use freedom_cloud.Broker.Engine.{Engine, status_of, drop_guards, complete_disable, disable}
use freedom_cloud.Broker.Engine.Rules.{on_backend-Post, on_backend-last, on_store-Post}

-- The status of an engine that enforces nothing.
pub record Idle {h : Host} (st : BrokerStatus) (e : Engine h) : Type 0 where
  pub phase_disabled : e.phase ≡ disabled
  pub no_marker : e.current_marker ≡ none
  pub reported : st.phase ≡ disabled
  pub unguarded : st.proof.guard_filters_installed ≡ false
  pub unmarked : st.proof.recovery_marker_present ≡ false
  pub unhealthy :
      (st.proof.core_healthy ≡ false)
      × (st.proof.relay_healthy ≡ false)
      × (st.proof.dns_healthy ≡ false)

-- The status of an engine whose guards hold under the marker `m`, with all earlier health proof
-- dropped: it blocks if the policy of `m` has proxy entries, and is armed if it only blocks.
pub record Guarded {h : Host} (m : RecoveryMarker) (st : BrokerStatus) (e : Engine h) : Type 0 where
  pub marked : e.current_marker ≡ some m
  pub in_phase : e.phase ≡ guarded_phase m.policy
  pub no_proof : e.forwarding_health ≡ no_health
  pub reported : st.phase ≡ guarded_phase m.policy
  pub guarded : st.proof.guard_filters_installed ≡ true

module _ (h : Host) where
  pub status_of-Idle :
      (e : Engine h) (s : BackendSnapshot)
      → e.phase ≡ disabled
      → e.current_marker ≡ none
      → s.guard_filters_installed ≡ false
      → Idle (status_of h e s) e
  unfolding status_of
  status_of-Idle e s p q r = record {
    phase_disabled = p;
    no_marker = q;
    reported = p;
    unguarded = r;
    unmarked = rw q refl;
    unhealthy = (rw p refl, rw p refl, rw p refl);
  }

  pub status_of-Guarded :
      (m : RecoveryMarker) (e : Engine h) (s : BackendSnapshot)
      → e.current_marker ≡ some m
      → e.phase ≡ guarded_phase m.policy
      → e.forwarding_health ≡ no_health
      → s.guard_filters_installed ≡ true
      → Guarded m (status_of h e s) e
  unfolding status_of
  status_of-Guarded m e s p q r v = record {
    marked = p;
    in_phase = q;
    no_proof = r;
    reported = q;
    guarded = v;
  }

  -- A failed disable stays in recovery with its marker on the way out, and proves no health.
  abbrev pub Stuck : RecoveryMarker → Engine h → Type 0
  Stuck marker e =
      (e.phase ≡ recovering) × (e.current_marker ≡ some marker) × (e.forwarding_health ≡ no_health)

  drop_guards-Post :
      (marker m : RecoveryMarker) (s : BackendSnapshot) (e : Engine h)
      → Stuck m e
      → Post (λ _ e'. Stuck m e') (λ _ e'. Stuck m e') (drop_guards h marker s e)
  unfolding drop_guards
  drop_guards-Post marker m s e v =
      branch-Post _ _ _ _
        (λ _.
          lift-Post _ _ _ (λ _ _. v)
            λ _ _.
              on_backend-Post h.backend.remove_guards _ _ (λ _ _ _. v)
                λ _ _ _. on_backend-last h.backend.snapshot _ (λ _ _ _. v) (λ _ _ _. v))
        (λ _. record { at = v })

  pub complete_disable-Post :
      (marker m : RecoveryMarker) (e : Engine h)
      → Stuck m e
      → Post (λ _ e'. Stuck m e') Idle (complete_disable h marker e)
  unfolding complete_disable
  complete_disable-Post marker m e v =
      on_backend-Post h.backend.remove_data_plane _ _ (λ _ _ _. v)
        λ _ _ _.
          on_backend-Post h.backend.snapshot _ _ (λ _ _ _. v)
            λ s _ _.
              bail_if-Post _ _ _ _ (λ _. v)
                λ _.
                  call-Post _ _ _ (drop_guards-Post marker m s _ v) (λ _ _ w. w)
                    λ s' _ w.
                      bail_if-Post _ _ _ _ (λ _. w)
                        λ gone.
                          on_store-Post h.store.clear_marker _ _ (λ _ _ _. w)
                            λ _ _ _.
                              modify-Post _ _ _
                                (record { at = status_of-Idle _ s' refl refl (ground arith) })

  -- A disable that succeeds leaves no marker, no guards and no health. One that fails has changed
  -- neither phase nor marker, or is stuck in recovery under a marker in the disabling phase.
  pub disable-Post :
      (revision : ℕ) (e : Engine h)
      → Post
          (λ _ e'.
            ((e'.phase ≡ e.phase) × (e'.current_marker ≡ e.current_marker))
            ⊎ ((m : RecoveryMarker) × (e.current_marker ≡ some m)
                × (m.revision ≡ revision)
                × Stuck (with_phase m disabling m.filter_generation) e'))
          Idle
          (disable h revision e)
  unfolding disable
  disable-Post revision e = gets-Post _ _ _ (
      ok_or-Post _ _ _ _ (λ _. inl (refl, refl))
        λ m found.
          bail_if-Post _ _ _ _ (λ _. inl (refl, refl))
            λ at.
              on_store-Post (h.store.persist _) _ _ (λ _ _ _. inl (refl, refl))
                λ _ _ _. modify-Post _ _ _ (
                  Post-weaken (complete_disable-Post _ _ _ (refl, refl, refl))
                    (λ _ w. inr (m, found, ground arith, w)) (λ _ w. w)))

  -- A failed call has moved nothing that the engine claims.
  abbrev pub Kept : Engine h → Engine h → Type 0
  Kept e e' =
      (e'.phase ≡ e.phase)
      × (e'.current_marker ≡ e.current_marker)
      × (e'.forwarding_health ≡ e.forwarding_health)
