-- ===== src/Broker/Outcome/Prepare.antt =====
-- `prepare` on an engine that enforces nothing: the revision is new and is used up.
use freedom_cloud.Common.{◌≡◌, refl, ◌<◌, true, false, none, some, arith, ◌⊎◌, inl, inr}
use freedom_cloud.Fallible.{ok}
use freedom_cloud.Action.{Post, modify-Post, gets-Post, lift-Post, bail_if-Post, ◌>>=◌, branch}
use freedom_cloud.Contract.Codec.{Codec}
use freedom_cloud.Contract.Policy.{StrictPolicyBundle}
use freedom_cloud.Contract.Validate.{validate}
use freedom_cloud.Broker.Marker.{
  RecoveryMarker, BrokerStatus, with_phase, guarded_phase, preparing_marker, no_health,
}
use freedom_cloud.Broker.Marker.Laws.{validate_snapshot-Shows}
use freedom_cloud.Broker.Host.{Host}
use freedom_cloud.Broker.Engine.{Engine, load_store_once, prepare_new, prepare_over, prepare}
use freedom_cloud.Broker.Engine.Rules.{
  on_backend-Post, on_store-Post, on_verifier-Post, attempt_backend-Post,
}
use freedom_cloud.Broker.Outcome.Blocking.{Guarded, Kept, status_of-Guarded}

module _ (codec : Codec) (h : Host) (policy : StrictPolicyBundle) where
  -- The policy was valid and its revision is above all that were used.
  pub record IsNew (e : Engine h) : Type 0 where
    pub valid : validate codec policy ≡ ok tt
    pub above : e.high_watermark < policy.revision

  -- A failed prepare has claimed nothing, its revision included; or the revision is used up and
  -- its marker stands, without proof of health.
  abbrev pub Unprepared : Engine h → Engine h → Type 0
  Unprepared e e' =
      (Kept h e e' × (e'.high_watermark ≡ e.high_watermark))
      ⊎ (IsNew e
          × (e'.high_watermark ≡ policy.revision)
          × (e'.forwarding_health ≡ no_health)
          × ((m : RecoveryMarker) × (e'.current_marker ≡ some m) × (m.policy ≡ policy)))

  abbrev pub Prepared : Engine h → BrokerStatus → Engine h → Type 0
  Prepared e st e' =
      IsNew e
      × (e'.high_watermark ≡ policy.revision)
      × ((m : RecoveryMarker) × (m.policy ≡ policy)
          × (m.revision ≡ policy.revision)
          × Guarded m st e')

  prepare_new-Post :
      (e : Engine h) → Post (λ _ e'. Unprepared e e') (Prepared e) (prepare_new codec h policy e)
  unfolding prepare_new
  prepare_new-Post e =
      lift-Post _ _ _ (λ _ _. inl ((refl, refl, refl), refl))
        λ _ valid.
          bail_if-Post _ _ _ _ (λ _. inl ((refl, refl, refl), refl))
            λ _. gets-Post _ _ _ (
              bail_if-Post _ _ _ _ (λ _. inl ((refl, refl, refl), refl))
                λ fresh.
                  on_verifier-Post (h.verifier.verify _) _ _
                    (λ _ _ _. inl ((refl, refl, refl), refl))
                    λ verification _ _.
                      lift-Post _ _ _ (λ _ _. inl ((refl, refl, refl), refl))
                        λ digest _.
                          on_store-Post (h.store.persist _) _ _
                            (λ _ _ _. inl ((refl, refl, refl), refl))
                            λ _ _ _.
                              let is_new : IsNew e = record {
                                valid = valid;
                                above = ground arith;
                              } in
                              modify-Post _ _ _ (
                                attempt_backend-Post (h.backend.install_guards _ _ _) _ _ λ _ _ _.
                                  lift-Post _ _ _
                                    (λ _ _. inr (
                                      is_new,
                                      refl,
                                      refl,
                                      (preparing_marker policy digest, refl, refl),
                                    ))
                                    λ _ _.
                                      on_backend-Post h.backend.snapshot _ _
                                        (λ _ _ _. inr (
                                          is_new,
                                          refl,
                                          refl,
                                          (preparing_marker policy digest, refl, refl),
                                        ))
                                        λ s _ _.
                                          lift-Post _ _ _
                                            (λ _ _. inr (
                                              is_new,
                                              refl,
                                              refl,
                                              (preparing_marker policy digest, refl, refl),
                                            ))
                                            λ _ shown. modify-Post _ _ _ (
                                              on_store-Post (h.store.persist _) _ _
                                                (λ _ _ _. inr (
                                                  is_new,
                                                  refl,
                                                  refl,
                                                  (
                                                    with_phase (preparing_marker policy digest)
                                                        (guarded_phase policy) s.filter_generation,
                                                    refl,
                                                    refl,
                                                  ),
                                                ))
                                                λ _ _ _. record {
                                                  at = (
                                                    is_new,
                                                    refl,
                                                    (
                                                      with_phase (preparing_marker policy digest)
                                                          (guarded_phase policy)
                                                          s.filter_generation,
                                                      refl,
                                                      refl,
                                                      status_of-Guarded h _ _ s refl refl refl
                                                          (validate_snapshot-Shows s _ true false
                                                            shown).guards_shown,
                                                    ),
                                                  );
                                                })))

  pub prepare-idle :
      (e : Engine h)
      → e.store_loaded ≡ true
      → e.current_marker ≡ none
      → prepare codec h policy e ≡ prepare_new codec h policy e
  unfolding prepare load_store_once prepare_over ◌>>=◌ branch
  prepare-idle e loaded idle = simp (loaded, idle) refl

  -- On an engine that has loaded its store and enforces nothing, a prepare that succeeds had a
  -- valid policy above every used revision, uses its revision up, and leaves its guards. One that
  -- fails claims nothing, or has used the revision up under a marker of the policy.
  pub prepare-Post :
      (e : Engine h)
      → e.store_loaded ≡ true
      → e.current_marker ≡ none
      → Post (λ _ e'. Unprepared e e') (Prepared e) (prepare codec h policy e)
  prepare-Post e loaded idle = rw (prepare-idle e loaded idle) (prepare_new-Post e)
