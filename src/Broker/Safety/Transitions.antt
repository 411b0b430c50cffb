-- ===== src/Broker/Safety/Transitions.antt =====
-- `commit` and `disable` keep the invariant.
use freedom_cloud.Common.{String, ℕ, ◌≡◌, refl, ◌≢◌, true, none, some, arith, is_some}
use freedom_cloud.Fallible.{Error, Result, ok, err}
use freedom_cloud.Action.{Post, ◌>>=◌, modify-Post, gets-Post, bail_if-Post, ok_or-Post, call-Post}
use freedom_cloud.Broker.Marker.{ForwardingHealth, is_complete_for, RecoveryMarker, with_phase}
use freedom_cloud.Broker.Host.{Host}
use freedom_cloud.Broker.Engine.{
  Engine, match_current, rollback_redirects, or_rollback, disable, arm, commit,
}
use freedom_cloud.Broker.Engine.Rules.{
  on_backend-Post, on_store-Post, attempt_backend-Post, attempt_store-Post,
}
use freedom_cloud.Broker.Safety.Invariant.{Safe, EndsSafe, between-IsSafe, armed-IsSafe}
use freedom_cloud.Text.{Text, eq_ignore_ascii_case}
use mathlib.Core.Path.{subst}
use freedom_cloud.Broker.Safety.Recovery.{rollback-Safe, complete_disable-EndsSafe}

module _ (h : Host) where
  -- `match_current` keeps the state, and finds the engine's marker.
  pub match_current-Post :
      {B : Type 0} {E : Error → Engine h → Type 0} {Q : B → Engine h → Type 0} (revision : ℕ)
      (digest : Text) (f : RecoveryMarker → Engine h → Result B × Engine h) (e : Engine h)
      → ((x : Error) → E x e)
      → ((m : RecoveryMarker)
          → e.current_marker ≡ some m
          → m.revision ≡ revision
          → eq_ignore_ascii_case m.policy_digest digest ≡ true
          → Post E Q (f m e))
      → Post E Q ((match_current h revision digest >>= f) e)
  unfolding match_current
  match_current-Post {E} {Q} revision digest f e fail next =
      call-Post _ _ _ found (λ x s p. subst (E x) p (fail x))
        (λ m s r. subst (λ s. Post E Q (f m s)) r.0 (next m r.1 r.2 r.3))
    where
      found :
          Post
            (λ _ s. e ≡ s)
            (λ m s.
              (e ≡ s)
              × (e.current_marker ≡ some m)
              × (m.revision ≡ revision)
              × (eq_ignore_ascii_case m.policy_digest digest ≡ true))
            (match_current h revision digest e)
      found = gets-Post _ _ _ (
          ok_or-Post _ _ _ _ (λ _. refl)
            λ m p.
              bail_if-Post _ _ _ _ (λ _. refl)
                λ q. record { at = (refl, p, ground arith, ground arith) })

  -- A failed step of a commit ends in a rollback.
  pub or_rollback-Post :
      {A B : Type 0} {E : Error → Engine h → Type 0} {Q : B → Engine h → Type 0}
      (marker : RecoveryMarker) (note : String) (wrap : Error → Error) (r : Result A)
      (f : A → Engine h → Result B × Engine h) (e : Engine h)
      → ((x y : Error) → r ≡ err x → E y (rollback_redirects h marker e).1)
      → ((a : A) → r ≡ ok a → Post E Q (f a e))
      → Post E Q ((or_rollback h marker note wrap r >>= f) e)
  unfolding or_rollback ◌>>=◌
  or_rollback-Post marker note wrap (ok a) f e fail next = next a refl
  or_rollback-Post marker note wrap (err x) f e fail next = record { at = fail x _ refl }

  pub disable-EndsSafe :
      (revision : ℕ) (e : Engine h) → Safe h e → EndsSafe h (disable h revision e)
  unfolding disable
  disable-EndsSafe revision e v = gets-Post _ _ _ (
      ok_or-Post _ _ _ _ (λ _. v)
        λ marker _.
          bail_if-Post _ _ _ _ (λ _. v)
            λ _.
              on_store-Post (h.store.persist _) _ _ (λ _ _ _. v)
                λ _ _ _.
                  modify-Post _ _ _
                    (complete_disable-EndsSafe h _ _ (between-IsSafe refl (λ p. cc))))

  -- Arming is safe once the health proof is complete and the lease is held.
  arm-EndsSafe :
      (marker : RecoveryMarker) (health : ForwardingHealth) (e : Engine h)
      → Safe h e
      → e.current_marker ≢ none
      → is_complete_for health marker.policy ≡ true
      → is_some e.verification_lease ≡ true
      → EndsSafe h (arm h marker health e)
  unfolding arm
  arm-EndsSafe marker health e v n c l =
      on_backend-Post h.backend.snapshot _ _ (λ _ _ _. v)
        λ s _ _.
          or_rollback-Post marker _ _ _ _ _ (λ _ _ _. rollback-Safe h marker _ n)
            λ _ _.
              or_rollback-Post marker _ _ _ _ _ (λ _ _ _. rollback-Safe h marker _ n)
                λ _ _. attempt_store-Post (h.store.persist _) _ _ λ _ _ _.
                  or_rollback-Post marker _ _ _ _ _ (λ _ _ _. rollback-Safe h marker _ n)
                    λ _ _. modify-Post _ _ _ (record {
                      at = armed-IsSafe (with_phase marker _ s.filter_generation) refl c l;
                    })

  pub commit-EndsSafe :
      (revision : ℕ) (digest : Text) (health : ForwardingHealth) (e : Engine h)
      → Safe h e
      → EndsSafe h (commit h revision digest health e)
  unfolding commit
  commit-EndsSafe revision digest health e v =
      match_current-Post revision digest _ e (λ _. v)
        λ marker found _ _.
          bail_if-Post _ _ _ _ (λ _. v)
            λ _. gets-Post _ _ _ (
              bail_if-Post _ _ _ _ (λ _. v)
                λ _.
                  bail_if-Post _ _ _ _ (λ _. v)
                    λ complete. gets-Post _ _ _ (
                      ok_or-Post _ _ _ _ (λ _. v)
                        λ verification held.
                          attempt_backend-Post (h.backend.install_data_plane _ _ _) _ _ λ _ _ _.
                            or_rollback-Post marker _ _ _ _ _
                              (λ _ _ _. rollback-Safe h marker _ (λ p. cc))
                              λ _ _.
                                arm-EndsSafe marker health _ v (λ p. cc) (ground arith)
                                  (ground arith)))
