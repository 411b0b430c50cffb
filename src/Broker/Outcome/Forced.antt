-- ===== src/Broker/Outcome/Forced.antt =====
-- `force_blocking`: what a success leaves, and what a failure does.
use freedom_cloud.Common.{
  ℕ, ◌≡◌, refl, ap, ◌∙◌, Bool, not, ◌&&◌, ◌==◌, ==_iff, not-eq_false, true, false, some, ◌⊎◌, inl,
  inr,
}
use freedom_cloud.Fallible.{ok}
use freedom_cloud.Text.{Text, eq_ignore_ascii_case}
use freedom_cloud.Action.{Post, modify-Post, gets-Post, lift-Post, bail_if-Post, ok_or-Post}
use freedom_cloud.Broker.Marker.{
  is_armed, RecoveryMarker, BackendSnapshot, BrokerStatus, with_phase, guarded_phase, no_health,
}
use freedom_cloud.Broker.Marker.Laws.{Shows, validate_snapshot-Shows, validate_snapshot-digest}
use freedom_cloud.Broker.Host.{Host}
use freedom_cloud.Broker.Engine.{Engine, status_of, force_blocking}
use freedom_cloud.Broker.Engine.Rules.{on_backend-Post, on_store-Post}
use freedom_cloud.Broker.Outcome.Blocking.{Guarded, Kept, status_of-Guarded}

module _ (h : Host) where
  -- The status names the active marker.
  status_of-names :
      (m : RecoveryMarker) (e : Engine h) (s : BackendSnapshot)
      → e.current_marker ≡ some m
      → ((status_of h e s).proof.revision ≡ m.revision)
        × ((status_of h e s).proof.policy_digest ≡ m.policy_digest)
  unfolding status_of
  status_of-names m e s p = (rw p refl, rw p refl)

  -- Without a proof of health the status reports none, whatever the phase.
  abbrev pub Unhealthy : BrokerStatus → Type 0
  Unhealthy st =
      (st.proof.core_healthy ≡ false)
      × (st.proof.relay_healthy ≡ false)
      × (st.proof.dns_healthy ≡ false)

  status_of-Unhealthy :
      (e : Engine h) (s : BackendSnapshot)
      → e.forwarding_health ≡ no_health
      → Unhealthy (status_of h e s)
  unfolding status_of
  status_of-Unhealthy e s p =
      rw p (dropped (is_armed e.phase), dropped (is_armed e.phase), dropped (is_armed e.phase))
    where
      dropped : (b : Bool) → (b && false) ≡ false
      dropped true = refl
      dropped false = refl

  -- A forced block that fails keeps the marker; phase and health are kept too, or they are already
  -- those of the block.
  abbrev pub Retreats : Engine h → Engine h → Type 0
  Retreats e e' =
      Kept h e e'
      ⊎ ((m : RecoveryMarker) × (e.current_marker ≡ some m)
          × (e'.current_marker ≡ some m)
          × (e'.phase ≡ guarded_phase m.policy)
          × (e'.forwarding_health ≡ no_health))

  -- A forced block of the engine `e`, of which `st` reports: what the backend and the store were asked and answered, and the
  -- engine that it left. The backend's last answer, after it removed the data plane, was the snapshot `seen`.
  pub record Blocked (revision : ℕ) (e : Engine h) (st : BrokerStatus) (e' : Engine h)
      : Type 0 where
    pub marker : RecoveryMarker
    pub seen : BackendSnapshot
    pub was_active : e.current_marker ≡ some marker
    pub at_revision : marker.revision ≡ revision
    pub removed : (h.backend.remove_data_plane e.backend).0 ≡ ok tt
    pub answered :
        h.backend.snapshot (h.backend.remove_data_plane e.backend).1 ≡ (ok seen, e'.backend)
    pub shows : Shows seen marker true false
    pub shows_digest :
        (digest : Text) × (seen.policy_digest ≡ some digest)
        × (eq_ignore_ascii_case digest marker.policy_digest ≡ true)
    pub persisted :
        h.store.persist
          (with_phase marker (guarded_phase marker.policy) seen.filter_generation)
          e.store
        ≡ (ok tt, e'.store)
    pub left :
        Guarded (with_phase marker (guarded_phase marker.policy) seen.filter_generation) st e'
    pub reported_revision : st.proof.revision ≡ revision
    pub reported_digest : st.proof.policy_digest ≡ marker.policy_digest
    pub unhealthy : Unhealthy st

  -- A forced block that succeeds is of the active marker, at the given revision. The backend has removed the data plane
  -- and then shown the marker's revision and digest with guards and without data plane; that marker, in the phase of its
  -- policy and at the generation shown, is what the store has persisted and the engine holds, and the status reports it without any
  -- proof of health. One that fails keeps the marker, and either phase and health too, or drops all proof of health.
  pub force_blocking-Post :
      (revision : ℕ) (e : Engine h)
      → Post
          (λ _ e'. Retreats e e')
          (λ st e'. Blocked revision e st e')
          (force_blocking h revision e)
  unfolding force_blocking
  force_blocking-Post revision e = gets-Post _ _ _ (
      ok_or-Post _ _ _ _ (λ _. inl (refl, refl, refl))
        λ m found.
          bail_if-Post _ _ _ _ (λ _. inl (refl, refl, refl))
            λ at.
              on_backend-Post h.backend.remove_data_plane _ _ (λ _ _ _. inl (refl, refl, refl))
                λ _ b removes.
                  on_backend-Post h.backend.snapshot _ _ (λ _ _ _. inl (refl, refl, refl))
                    λ s b' answers.
                      lift-Post _ _ _ (λ _ _. inl (refl, refl, refl))
                        λ _ v. modify-Post _ _ _ (
                          on_store-Post (h.store.persist _) _ _
                            (λ _ _ _. inr (m, found, found, refl, refl))
                            λ _ stored keeps. modify-Post _ _ _ (record {
                              at = record {
                                marker = m;
                                seen = s;
                                was_active = found;
                                at_revision = at_revision m at;
                                removed = ap (λ r. r.0) removes;
                                answered = rw removes answers;
                                shows = validate_snapshot-Shows s m true false v;
                                shows_digest = validate_snapshot-digest s m true false v;
                                persisted = keeps;
                                left =
                                    status_of-Guarded h _ _ s refl refl refl
                                      (validate_snapshot-Shows s m true false v).guards_shown;
                                reported_revision =
                                    (status_of-names _ _ s refl).0 ∙ at_revision m at;
                                reported_digest = (status_of-names _ _ s refl).1;
                                unhealthy = status_of-Unhealthy _ s refl;
                              };
                            })))
    where
      at_revision :
          (m : RecoveryMarker) → not (m.revision == revision) ≡ false → m.revision ≡ revision
      at_revision m at = (==_iff m.revision revision).0 (not-eq_false _ at)
