-- ===== src/Broker/Safety/Recovery.antt =====
-- Rollback, disable, forced blocking and recovery keep the invariant.
use freedom_cloud.Common.{ℕ, refl, ◌≢◌, Option, none, some}
use freedom_cloud.Action.{
  Post-state, modify-Post, gets-Post, lift-Post, bail_if-Post, ok_or-Post, branch-Post, call-Post,
  Post-lift,
}
use freedom_cloud.Broker.Marker.{RecoveryMarker, BackendSnapshot, with_phase}
use freedom_cloud.Broker.Host.{Host}
use freedom_cloud.Broker.Engine.{
  Engine, status, rollback_redirects, complete_disable, drop_guards, drop_data_plane,
  force_blocking, force_blocking_if_active, force_blocking_marker,
}
use freedom_cloud.Broker.Engine.Rules.{
  on_backend-Post, on_store-Post, attempt_backend-Post, on_backend-last,
}
use freedom_cloud.Broker.Safety.Invariant.{
  Safe, EndsSafe, between-IsSafe, guarded-IsSafe, disabled-IsSafe,
}

module _ (h : Host) where
  rollback_redirects-EndsSafe :
      (marker : RecoveryMarker) (e : Engine h)
      → e.current_marker ≢ none
      → EndsSafe h (rollback_redirects h marker e)
  unfolding rollback_redirects
  rollback_redirects-EndsSafe marker e n = modify-Post _ _ _ (
      attempt_backend-Post h.backend.remove_data_plane _ _ λ r b _.
        lift-Post _ _ _ (λ x _. between-IsSafe refl n)
          λ _ _.
            on_backend-Post h.backend.snapshot _ _ (λ x b' _. between-IsSafe refl n)
              λ s b' _.
                lift-Post _ _ _ (λ x _. between-IsSafe refl n)
                  λ _ _.
                    on_store-Post (h.store.persist _) _ _ (λ x b' _. between-IsSafe refl n)
                      λ _ s' _. record { at = between-IsSafe refl (λ p. cc) })

  pub rollback-Safe :
      (marker : RecoveryMarker) (e : Engine h)
      → e.current_marker ≢ none
      → Safe h (rollback_redirects h marker e).1
  rollback-Safe marker e n =
      Post-state (rollback_redirects h marker e) (rollback_redirects-EndsSafe marker e n)

  pub force_blocking-EndsSafe :
      (revision : ℕ) (e : Engine h) → Safe h e → EndsSafe h (force_blocking h revision e)
  unfolding force_blocking
  force_blocking-EndsSafe revision e v = gets-Post _ _ _ (
      ok_or-Post _ _ _ _ (λ _. v)
        λ marker found.
          bail_if-Post _ _ _ _ (λ _. v)
            λ _.
              on_backend-Post h.backend.remove_data_plane _ _ (λ _ _ _. v)
                λ _ _ _.
                  on_backend-Post h.backend.snapshot _ _ (λ _ _ _. v)
                    λ s _ _.
                      lift-Post _ _ _ (λ _ _. v)
                        λ _ _. modify-Post _ _ _ (
                          on_store-Post (h.store.persist _) _ _
                            (λ _ _ _. guarded-IsSafe marker found)
                            λ _ _ _. modify-Post _ _ _ (record {
                              at = guarded-IsSafe (with_phase marker _ s.filter_generation) refl;
                            })))

  pub status-EndsSafe : (e : Engine h) → Safe h e → EndsSafe h (status h e)
  unfolding status
  status-EndsSafe e v =
      on_backend-Post h.backend.snapshot _ _ (λ _ _ _. v) λ s _ _. record { at = v }

  force_blocking_marker-EndsSafe :
      (o : Option RecoveryMarker) (e : Engine h)
      → Safe h e
      → EndsSafe h (force_blocking_marker h o e)
  unfolding force_blocking_marker
  force_blocking_marker-EndsSafe none e v = status-EndsSafe e v
  force_blocking_marker-EndsSafe (some m) e v = force_blocking-EndsSafe m.revision e v

  pub force_blocking_if_active-EndsSafe :
      (e : Engine h) → Safe h e → EndsSafe h (force_blocking_if_active h e)
  unfolding force_blocking_if_active
  force_blocking_if_active-EndsSafe e v =
      gets-Post _ _ _ (force_blocking_marker-EndsSafe e.current_marker e v)

  drop_guards-EndsSafe :
      (marker : RecoveryMarker) (s : BackendSnapshot) (e : Engine h)
      → Safe h e
      → EndsSafe h (drop_guards h marker s e)
  unfolding drop_guards
  drop_guards-EndsSafe marker s e v =
      branch-Post _ _ _ _
        (λ _.
          lift-Post _ _ _ (λ _ _. v)
            λ _ _.
              on_backend-Post h.backend.remove_guards _ _ (λ _ _ _. v)
                λ _ _ _. on_backend-last h.backend.snapshot _ (λ _ _ _. v) (λ _ _ _. v))
        (λ _. record { at = v })

  pub complete_disable-EndsSafe :
      (marker : RecoveryMarker) (e : Engine h) → Safe h e → EndsSafe h (complete_disable h marker e)
  unfolding complete_disable
  complete_disable-EndsSafe marker e v =
      on_backend-Post h.backend.remove_data_plane _ _ (λ _ _ _. v)
        λ _ _ _.
          on_backend-Post h.backend.snapshot _ _ (λ _ _ _. v)
            λ s _ _.
              bail_if-Post _ _ _ _ (λ _. v)
                λ _.
                  call-Post _ _ _ (drop_guards-EndsSafe marker s _ v) (λ _ _ w. w)
                    λ _ _ w.
                      bail_if-Post _ _ _ _ (λ _. w)
                        λ _.
                          on_store-Post h.store.clear_marker _ _ (λ _ _ _. w)
                            λ _ _ _. modify-Post _ _ _ (record { at = disabled-IsSafe })

  pub drop_data_plane-EndsSafe :
      (s : BackendSnapshot) (e : Engine h) → Safe h e → EndsSafe h (drop_data_plane h s e)
  unfolding drop_data_plane
  drop_data_plane-EndsSafe s e v =
      branch-Post _ _ _ _
        (λ _.
          on_backend-Post h.backend.remove_data_plane _ _ (λ _ _ _. v)
            λ _ _ _.
              on_backend-Post h.backend.snapshot _ _ (λ _ _ _. v)
                λ _ _ _. Post-lift _ _ (λ _ _. v) (λ _ _. v))
        (λ _. record { at = v })
