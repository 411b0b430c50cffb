-- ===== src/Broker/Safety/Prepare.antt =====
-- `prepare` and `migrate_identity` keep the invariant.
use freedom_cloud.Common.{ℕ, refl, Option, none, some}
use freedom_cloud.Action.{
  modify-Post, gets-Post, lift-Post, bail_if-Post, ok_or-Post, branch-Post, call-Post,
}
use freedom_cloud.Contract.Codec.{Codec}
use freedom_cloud.Broker.Marker.{
  preparing_marker, RecoveryMarker, BackendSnapshot, with_phase, guarded_phase,
}
use freedom_cloud.Broker.Host.{Host, IdentityVerification}
use freedom_cloud.Broker.Engine.{
  Engine, prepare_new, install_migrated, migrate_identity, prepare_over, prepare, load_record,
  load_store_once,
}
use freedom_cloud.Broker.Engine.Rules.{
  on_backend-Post, on_store-Post, on_verifier-Post, attempt_backend-Post,
}
use freedom_cloud.Broker.Safety.Invariant.{Safe, EndsSafe, between-IsSafe, guarded-IsSafe}
use freedom_cloud.Contract.Policy.{StrictPolicyBundle}
use freedom_cloud.Text.{Text}
use freedom_cloud.Broker.Safety.Recovery.{force_blocking-EndsSafe}
use freedom_cloud.Broker.Safety.Recover.{recover-EndsSafe}

abbrev prepared : StrictPolicyBundle → Text → BackendSnapshot → RecoveryMarker
prepared policy digest s =
    with_phase (preparing_marker policy digest) (guarded_phase policy) s.filter_generation

module _ (codec : Codec) (h : Host) where
  load_record-EndsSafe :
      (o : Option RecoveryMarker) (high_watermark : ℕ) (e : Engine h)
      → Safe h e
      → EndsSafe h (load_record h o high_watermark e)
  unfolding load_record
  load_record-EndsSafe none high_watermark e v = record { at = v }
  load_record-EndsSafe (some m) high_watermark e v = record { at = v }

  load_store_once-EndsSafe : (e : Engine h) → Safe h e → EndsSafe h (load_store_once h e)
  unfolding load_store_once
  load_store_once-EndsSafe e v = gets-Post _ _ _ (
      branch-Post _ _ _ _ (λ _. record { at = v })
        (λ _.
          on_store-Post h.store.load _ _ (λ _ _ _. v)
            λ r _ _. load_record-EndsSafe r.marker r.high_watermark _ v))

  prepare_new-EndsSafe :
      (policy : StrictPolicyBundle) (e : Engine h)
      → Safe h e
      → EndsSafe h (prepare_new codec h policy e)
  unfolding prepare_new
  prepare_new-EndsSafe policy e v =
      lift-Post _ _ _ (λ _ _. v)
        λ _ _.
          bail_if-Post _ _ _ _ (λ _. v)
            λ _. gets-Post _ _ _ (
              bail_if-Post _ _ _ _ (λ _. v)
                λ _.
                  on_verifier-Post (h.verifier.verify _) _ _ (λ _ _ _. v)
                    λ _ _ _.
                      lift-Post _ _ _ (λ _ _. v)
                        λ digest _.
                          on_store-Post (h.store.persist _) _ _ (λ _ _ _. v)
                            λ _ _ _. modify-Post _ _ _ (
                              attempt_backend-Post (h.backend.install_guards _ _ _) _ _ λ _ _ _.
                                lift-Post _ _ _ (λ _ _. between-IsSafe refl (λ p. cc))
                                  λ _ _.
                                    on_backend-Post h.backend.snapshot _ _
                                      (λ _ _ _. between-IsSafe refl (λ p. cc))
                                      λ s _ _.
                                        lift-Post _ _ _ (λ _ _. between-IsSafe refl (λ p. cc))
                                          λ _ _. modify-Post _ _ _ (
                                            on_store-Post (h.store.persist _) _ _
                                              (λ _ _ _.
                                                guarded-IsSafe (prepared policy digest s) refl)
                                              λ _ _ _. record {
                                                at = guarded-IsSafe (prepared policy digest s) refl;
                                              })))

  install_migrated-EndsSafe :
      (marker : RecoveryMarker) (verification : IdentityVerification h.Lease) (e : Engine h)
      → Safe h e
      → EndsSafe h (install_migrated codec h marker verification e)
  unfolding install_migrated
  install_migrated-EndsSafe marker verification e v =
      on_store-Post (h.store.persist _) _ _ (λ _ _ _. v)
        λ _ _ _. modify-Post _ _ _ (
          on_backend-Post (h.backend.install_guards _ _ _) _ _
            (λ _ _ _. between-IsSafe refl (λ p. cc))
            λ _ _ _.
              on_backend-Post h.backend.snapshot _ _ (λ _ _ _. between-IsSafe refl (λ p. cc))
                λ s _ _.
                  lift-Post _ _ _ (λ _ _. between-IsSafe refl (λ p. cc))
                    λ _ _.
                      on_store-Post (h.store.persist _) _ _ (λ _ _ _. between-IsSafe refl (λ p. cc))
                        λ _ _ _. modify-Post _ _ _ (record {
                          at = guarded-IsSafe (with_phase marker _ s.filter_generation) refl;
                        }))

  migrate_identity-EndsSafe :
      (policy : StrictPolicyBundle) (e : Engine h)
      → Safe h e
      → EndsSafe h (migrate_identity codec h policy e)
  unfolding migrate_identity
  migrate_identity-EndsSafe policy e v =
      lift-Post _ _ _ (λ _ _. v)
        λ _ _. gets-Post _ _ _ (
          ok_or-Post _ _ _ _ (λ _. v)
            λ old _. gets-Post _ _ _ (
              bail_if-Post _ _ _ _ (λ _. v)
                λ _.
                  lift-Post _ _ _ (λ _ _. v)
                    λ _ _.
                      on_verifier-Post (h.verifier.verify _) _ _ (λ _ _ _. v)
                        λ verification _ _.
                          lift-Post _ _ _ (λ _ _. v)
                            λ digest _.
                              call-Post _ _ _ (force_blocking-EndsSafe h old.revision _ v)
                                (λ _ _ w. w)
                                λ _ e' w. install_migrated-EndsSafe _ verification e' w))

  prepare_over-EndsSafe :
      (o : Option RecoveryMarker) (policy : StrictPolicyBundle) (e : Engine h)
      → Safe h e
      → EndsSafe h (prepare_over codec h o policy e)
  unfolding prepare_over
  prepare_over-EndsSafe none policy e v = prepare_new-EndsSafe policy e v
  prepare_over-EndsSafe (some m) policy e v =
      branch-Post _ _ _ _ (λ _. recover-EndsSafe codec h e v)
        (λ _. migrate_identity-EndsSafe policy e v)

  pub prepare-EndsSafe :
      (policy : StrictPolicyBundle) (e : Engine h)
      → Safe h e
      → EndsSafe h (prepare codec h policy e)
  unfolding prepare
  prepare-EndsSafe policy e v =
      call-Post _ _ _ (load_store_once-EndsSafe e v) (λ _ _ w. w)
        λ _ e' w. gets-Post _ _ _ (prepare_over-EndsSafe e'.current_marker policy e' w)
