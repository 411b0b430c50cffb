-- ===== src/Dispatch/Answers.antt =====
-- What an answer with a status proves (`dispatch`, services/strict-broker/src/dispatch.rs).
use mathlib.Core.Path.{subst}
use freedom_cloud.Common.{ℕ, ◌≡◌, refl, ◌∙◌, sym, ap}
use freedom_cloud.Fallible.{Error, Result, ok, err, >>-eq-ok, ok-injective}
use freedom_cloud.Action.{Post, Post-ok}
use freedom_cloud.Text.{Text}
use freedom_cloud.Contract.Capability.{BrokerProof}
use freedom_cloud.Contract.Codec.{Codec}
use freedom_cloud.Contract.Ingress.{StrictProxyIngressSet}
use freedom_cloud.Contract.Frames.{
  BrokerRequest, BrokerResponse, BrokerResponseBody, BrokerErrorCode, commit_policy, response_of,
  validate_response, checked_response,
}
use freedom_cloud.Broker.Marker.{ForwardingHealth, BrokerStatus}
use freedom_cloud.Broker.Host.{Host}
use freedom_cloud.Broker.Outcome.{Proves, commit-Post}
use freedom_cloud.Dispatch.Laws.{
  Measured, before_commit, CommitEnds, refused, unmeasured, uncommitted, committed,
  run_command-commit-Post,
}
use freedom_cloud.Dispatch.{
  ForwardingHealthProbe, BrokerDispatcher, response_body, or_internal, response_for_result, answer,
  dispatch, run_command, fail_after_deactivation,
}

-- A response with a status was made of a result with that status.
or_internal-status :
    (request_id : Text) (r : Result BrokerResponse) (proof : BrokerProof)
    → (or_internal request_id r).body ≡ BrokerResponseBody.status proof
    → (a : BrokerResponse) × (r ≡ ok a) × (a.body ≡ BrokerResponseBody.status proof)
unfolding or_internal
or_internal-status request_id (ok a) proof e = (a, refl, e)
or_internal-status request_id (err x) proof e = cc

response_body-status :
    (r : Result BrokerStatus) (code : BrokerErrorCode) (proof : BrokerProof)
    → response_body r code ≡ BrokerResponseBody.status proof
    → (st : BrokerStatus) × (r ≡ ok st) × (st.proof ≡ proof)
unfolding response_body
response_body-status (ok st) code proof e = (st, refl, cc)
response_body-status (err x) code proof e = cc

response_for_result-status :
    (request_id : Text) (r : Result BrokerStatus) (code : BrokerErrorCode) (proof : BrokerProof)
    → (response_for_result request_id r code).body ≡ BrokerResponseBody.status proof
    → (st : BrokerStatus) × (r ≡ ok st) × (st.proof ≡ proof)
unfolding response_for_result checked_response
response_for_result-status request_id r code proof e =
    let response = response_of request_id (response_body r code) in
    let (a, checked, shown) = or_internal-status request_id _ proof e in
    let (_, same) = >>-eq-ok (validate_response response) (ok response) checked in
    response_body-status r code proof (ap (λ x. x.body) (ok-injective response a same) ∙ shown)

fail_after_deactivation-fails :
    {A : Type 0} (x : Error) (cleanup : Result Unit) (a : A)
    → fail_after_deactivation x cleanup ≡ ok a
    → ⊥
unfolding fail_after_deactivation
fail_after_deactivation-fails x (ok _) a e = cc
fail_after_deactivation-fails x (err y) a e = cc

module _ (codec : Codec) (h : Host) {P : Type 0} (probe : ForwardingHealthProbe P) where
  module _ (revision : ℕ) (policy_digest : Text) (ingress : StrictProxyIngressSet)
      (d : BrokerDispatcher h P) where
    -- A commit that ends with a status has measured the health that its engine is armed with.
    pub record Forwards (st : BrokerStatus) (d' : BrokerDispatcher h P) : Type 0 where
      pub health : ForwardingHealth
      pub was_measured :
          Measured codec h probe revision policy_digest ingress d (ok health) d'.health_probe
      pub proves : Proves h revision health st d'.engine

    CommitEnds-Forwards :
        (r : Result BrokerStatus × BrokerErrorCode) (d' : BrokerDispatcher h P) (st : BrokerStatus)
        → CommitEnds codec h probe revision policy_digest ingress d r d'
        → r.0 ≡ ok st
        → Forwards st d'
    CommitEnds-Forwards r d' st (refused x _ _ _ _) e = cc
    CommitEnds-Forwards r d' st (unmeasured x p _ _ _ _) e =
        absurd (fail_after_deactivation-fails _ _ st e)
    CommitEnds-Forwards r d' st (uncommitted health x p _ _ _ _) e =
        absurd (fail_after_deactivation-fails _ _ st e)
    CommitEnds-Forwards r d' st (committed health st' code _ m done) e = record {
      health = health;
      was_measured = m;
      proves = subst (Proves h revision health st) (ap (λ x. x.1) done) (
          Post-ok
            (commit-Post h revision policy_digest health
              (before_commit codec h probe revision policy_digest ingress d))
            st (ap (λ x. x.0) done ∙ e));
    }

    answer-Forwards :
        (request_id : Text) (r : Result (Result BrokerStatus × BrokerErrorCode))
        (d' : BrokerDispatcher h P) (proof : BrokerProof)
        → Post (λ _ _. ⊥) (CommitEnds codec h probe revision policy_digest ingress d) (r, d')
        → (answer codec h probe request_id (r, d')).0.body ≡ BrokerResponseBody.status proof
        → (st : BrokerStatus) × (st.proof ≡ proof)
          × Forwards st (answer codec h probe request_id (r, d')).1
    unfolding answer
    answer-Forwards request_id (err x) d' proof ends e = cc
    answer-Forwards request_id (ok (result, code)) d' proof ends e =
        let (st, succeeded, same) = response_for_result-status request_id result code proof e in
        (
          st,
          same,
          CommitEnds-Forwards (result, code) d' st (Post-ok ends (result, code) refl) succeeded,
        )

  -- When a commit request is answered with a status, the engine had taken its ingresses, the probe had measured the health and
  -- kept its resources, and the engine is armed with that health: the proof in the answer has the request's revision, all health
  -- bits and every capability of a proxying policy.
  pub dispatch-commit-Forwards :
      (request : BrokerRequest) (revision : ℕ) (policy_digest : Text)
      (ingress : StrictProxyIngressSet) (d : BrokerDispatcher h P) (proof : BrokerProof)
      → request.command ≡ commit_policy revision policy_digest ingress
      → (dispatch codec h probe request d).0.body ≡ BrokerResponseBody.status proof
      → (st : BrokerStatus) × (st.proof ≡ proof)
        × Forwards revision policy_digest ingress d st (dispatch codec h probe request d).1
  unfolding dispatch
  dispatch-commit-Forwards request revision policy_digest ingress d proof commits e =
      subst
        (λ c.
          (answer codec h probe request.request_id (run_command codec h probe c d)).0.body
            ≡ BrokerResponseBody.status proof
          → (st : BrokerStatus) × (st.proof ≡ proof)
            × Forwards revision policy_digest ingress d st
                (answer codec h probe request.request_id (run_command codec h probe c d)).1)
        (sym commits)
        (answer-Forwards revision policy_digest ingress d request.request_id _ _ proof
          (run_command-commit-Post codec h probe revision policy_digest ingress d))
        e
