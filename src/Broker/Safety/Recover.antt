-- ===== src/Broker/Safety/Recover.antt =====
-- Recovery keeps the invariant.
use freedom_cloud.Common.{ℕ, ◌≡◌, refl, ◌≢◌, true, Option, none, some}
use freedom_cloud.Action.{modify-Post, lift-Post, bail_if-Post, branch-Post, call-Post}
use freedom_cloud.Contract.Codec.{Codec}
use freedom_cloud.Broker.Marker.{RecoveryMarker, BackendSnapshot, with_phase}
use freedom_cloud.Broker.Host.{Host}
use freedom_cloud.Broker.Engine.{
  Engine, reinstall, recover_nothing, recover_marker, recover_record, recover,
}
use freedom_cloud.Broker.Engine.Rules.{on_backend-Post, on_store-Post, on_verifier-Post}
use freedom_cloud.Broker.Safety.Invariant.{
  Safe, EndsSafe, between-IsSafe, is_between, guarded-IsSafe, disabled-IsSafe,
}
use freedom_cloud.Broker.Safety.Recovery.{complete_disable-EndsSafe, drop_data_plane-EndsSafe}

module _ (h : Host) where
  -- Recovery runs in a phase that is neither disabled nor armed.
  reinstall-EndsSafe :
      (marker : RecoveryMarker) (s : BackendSnapshot) (e : Engine h)
      → is_between e.phase ≡ true
      → e.current_marker ≢ none
      → EndsSafe h (reinstall h marker s e)
  unfolding reinstall
  reinstall-EndsSafe marker s e b n =
      on_verifier-Post (h.verifier.verify _) _ _ (λ _ _ _. between-IsSafe b n)
        λ verification _ _. modify-Post _ _ _ (
          call-Post _ _ _ (drop_data_plane-EndsSafe h s _ (between-IsSafe b n)) (λ _ _ w. w)
            λ _ _ w.
              on_backend-Post (h.backend.install_guards _ _ _) _ _ (λ _ _ _. w)
                λ _ _ _.
                  on_backend-Post h.backend.snapshot _ _ (λ _ _ _. w)
                    λ s' _ _.
                      lift-Post _ _ _ (λ _ _. w)
                        λ _ _.
                          on_store-Post (h.store.persist _) _ _ (λ _ _ _. w)
                            λ _ _ _. modify-Post _ _ _ (record {
                              at = guarded-IsSafe (with_phase marker _ s'.filter_generation) refl;
                            }))

  recover_nothing-EndsSafe :
      (s : BackendSnapshot) (e : Engine h) → Safe h e → EndsSafe h (recover_nothing h s e)
  unfolding recover_nothing
  recover_nothing-EndsSafe s e v =
      bail_if-Post _ _ _ _ (λ _. v) λ _. modify-Post _ _ _ (record { at = disabled-IsSafe })

module _ (codec : Codec) (h : Host) where
  recover_marker-EndsSafe :
      (high_watermark : ℕ) (marker : RecoveryMarker) (s : BackendSnapshot) (e : Engine h)
      → Safe h e
      → EndsSafe h (recover_marker codec h high_watermark marker s e)
  unfolding recover_marker
  recover_marker-EndsSafe high_watermark marker s e v =
      lift-Post _ _ _ (λ _ _. v)
        λ _ _.
          bail_if-Post _ _ _ _ (λ _. v)
            λ _. modify-Post _ _ _ (
              branch-Post _ _ _ _
                (λ _. complete_disable-EndsSafe h marker _ (between-IsSafe refl (λ p. cc)))
                (λ _. reinstall-EndsSafe h marker s _ refl (λ p. cc)))

  recover_record-EndsSafe :
      (high_watermark : ℕ) (o : Option RecoveryMarker) (s : BackendSnapshot) (e : Engine h)
      → Safe h e
      → EndsSafe h (recover_record codec h high_watermark o s e)
  unfolding recover_record
  recover_record-EndsSafe high_watermark none s e v = recover_nothing-EndsSafe h s e v
  recover_record-EndsSafe high_watermark (some marker) s e v =
      recover_marker-EndsSafe high_watermark marker s e v

  pub recover-EndsSafe : (e : Engine h) → Safe h e → EndsSafe h (recover codec h e)
  unfolding recover
  recover-EndsSafe e v =
      on_store-Post h.store.load _ _ (λ _ _ _. v)
        λ r _ _. modify-Post _ _ _ (
          on_backend-Post h.backend.snapshot _ _ (λ _ _ _. v)
            λ s _ _. recover_record-EndsSafe r.high_watermark r.marker s _ v)
