-- ===== src/Dispatch/Laws.antt =====
-- How a commit command ends (`dispatch`, services/strict-broker/src/dispatch.rs).
use mathlib.Core.Path.{subst}
use freedom_cloud.Common.{ℕ, ◌≡◌, refl}
use freedom_cloud.Fallible.{Error, Result, ok, err, context}
use freedom_cloud.Action.{Post, Post-pure, attempt-Post}
use freedom_cloud.Text.{Text}
use freedom_cloud.Contract.Codec.{Codec}
use freedom_cloud.Contract.Ingress.{StrictProxyIngressSet}
use freedom_cloud.Contract.Frames.{BrokerErrorCode, commit_policy, invalid_request, internal}
use freedom_cloud.Broker.Marker.{ForwardingHealth, BrokerStatus}
use freedom_cloud.Broker.Host.{Host}
use freedom_cloud.Broker.Engine.{Engine, validate_forwarding_ingress, commit}
use freedom_cloud.Dispatch.{
  ForwardingHealthProbe, BrokerDispatcher, run_command, commit_validated, commit_measured,
  revoke_on_failure, forwarding_error_code, fail_after_deactivation,
}

module _ (codec : Codec) (h : Host) {P : Type 0} (probe : ForwardingHealthProbe P) where
  module _ (revision : ℕ) (policy_digest : Text) (ingress : StrictProxyIngressSet)
      (d : BrokerDispatcher h P) where
    -- The engine has taken the ingresses, the probe has answered `r` and is in the state `p`.
    pub record Measured (r : Result ForwardingHealth) (p : P) : Type 0 where
      pub taken : (validate_forwarding_ingress h revision policy_digest ingress d.engine).0 ≡ ok tt
      pub measured : probe.measure revision policy_digest ingress d.health_probe ≡ (r, p)

    -- The engine after it took the ingresses.
    abbrev pub before_commit : Engine h
    before_commit = (validate_forwarding_ingress h revision policy_digest ingress d.engine).1

    -- How a commit ends. The engine refuses the ingresses, and the probe is not called; the measurement fails, the engine does not
    -- commit, and the probe is deactivated after it; the commit fails, and the probe is deactivated after the measurement; or the
    -- commit succeeds with the health that was measured, and the probe stays as it was then.
    pub data CommitEnds
        : Result BrokerStatus × BrokerErrorCode → BrokerDispatcher h P → Type 0 where
      refused :
          (x : Error) (d' : BrokerDispatcher h P)
          → (validate_forwarding_ingress h revision policy_digest ingress d.engine).0 ≡ err x
          → d'.engine ≡ before_commit
          → d'.health_probe ≡ d.health_probe
          → CommitEnds (err x, invalid_request) d'
      unmeasured :
          (x : Error) (p : P) (d' : BrokerDispatcher h P)
          → Measured (err x) p
          → d'.engine ≡ before_commit
          → d'.health_probe ≡ (probe.deactivate p).1
          → CommitEnds
              (
                fail_after_deactivation
                    (context "strict forwarding health measurement failed" x)
                    (probe.deactivate p).0,
                forwarding_error_code x,
              )
              d'
      uncommitted :
          (health : ForwardingHealth) (x : Error) (p : P) (d' : BrokerDispatcher h P)
          → Measured (ok health) p
          → commit h revision policy_digest health before_commit ≡ (err x, d'.engine)
          → d'.health_probe ≡ (probe.deactivate p).1
          → CommitEnds (fail_after_deactivation x (probe.deactivate p).0, internal) d'
      committed :
          (health : ForwardingHealth) (st : BrokerStatus) (code : BrokerErrorCode)
          (d' : BrokerDispatcher h P)
          → Measured (ok health) d'.health_probe
          → commit h revision policy_digest health before_commit ≡ (ok st, d'.engine)
          → CommitEnds (ok st, code) d'

    -- The dispatcher after the resources of `p` were revoked.
    abbrev revoked_at : Engine h → P → BrokerDispatcher h P
    revoked_at e p = record { engine = e; health_probe = (probe.deactivate p).1 }

    revoke_on_failure-CommitEnds :
        (health : ForwardingHealth) (p : P) (r : Result BrokerStatus)
        → Measured (ok health) p
        → (commit h revision policy_digest health before_commit).0 ≡ r
        → Post
            (λ _ _. ⊥)
            CommitEnds
            (revoke_on_failure codec h probe r internal (record {
              engine = (commit h revision policy_digest health before_commit).1;
              health_probe = p;
            }))
    unfolding revoke_on_failure
    revoke_on_failure-CommitEnds health p (ok st) m e = Post-pure _ _ (
        committed health st internal _ m
          (λ i. (e i, (commit h revision policy_digest health before_commit).1)))
    revoke_on_failure-CommitEnds health p (err x) m e = attempt-Post _ _ _ λ cleanup answer.
        Post-pure _ _ (
          subst
            (λ c.
              CommitEnds (fail_after_deactivation x c, internal)
                (revoked_at (commit h revision policy_digest health before_commit).1 p))
            answer
            (uncommitted health x p _ m
              (λ i. (e i, (commit h revision policy_digest health before_commit).1)) refl))

    commit_measured-CommitEnds :
        (r : Result ForwardingHealth) (p : P)
        → Measured r p
        → Post
            (λ _ _. ⊥)
            CommitEnds
            (commit_measured codec h probe revision policy_digest r
              (record { engine = before_commit; health_probe = p }))
    unfolding commit_measured revoke_on_failure
    commit_measured-CommitEnds (ok health) p m =
        attempt-Post _ _ _ λ r e. revoke_on_failure-CommitEnds health p r m e
    commit_measured-CommitEnds (err x) p m = attempt-Post _ _ _ λ cleanup answer. Post-pure _ _ (
        subst
          (λ c.
            CommitEnds
              (
                fail_after_deactivation (context "strict forwarding health measurement failed" x) c,
                forwarding_error_code x,
              )
              (revoked_at before_commit p))
          answer (unmeasured x p _ m refl refl))

    commit_validated-CommitEnds :
        (r : Result Unit)
        → (validate_forwarding_ingress h revision policy_digest ingress d.engine).0 ≡ r
        → Post
            (λ _ _. ⊥)
            CommitEnds
            (commit_validated codec h probe revision policy_digest ingress r
              (record d { engine = before_commit }))
    unfolding commit_validated
    commit_validated-CommitEnds (ok _) e = attempt-Post _ _ _ λ r answer.
        commit_measured-CommitEnds r _ (record {
          taken = e;
          measured =
              λ i. (answer i, (probe.measure revision policy_digest ingress d.health_probe).1);
        })
    commit_validated-CommitEnds (err x) e = Post-pure _ _ (refused x _ e refl refl)

    -- A commit command ends in one of four ways, never without an answer: the engine refused its ingresses and the
    -- probe was not called; the measurement failed, the engine did not commit and the probe was
    -- deactivated after it; the commit failed and the probe was deactivated after the measurement;
    -- or the engine committed with the health that was measured and the probe stays. Each has its
    -- error code and its error.
    pub run_command-commit-Post :
        Post
          (λ _ _. ⊥)
          CommitEnds
          (run_command codec h probe (commit_policy revision policy_digest ingress) d)
    unfolding run_command
    run_command-commit-Post = attempt-Post _ _ d λ r e. commit_validated-CommitEnds r e
