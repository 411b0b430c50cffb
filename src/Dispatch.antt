-- ===== src/Dispatch.antt =====
-- `BrokerDispatcher` (services/strict-broker/src/dispatch.rs): one request on the engine and on
-- the probe that owns the forwarding resources.
pub mod Laws
pub mod Answers
use freedom_cloud.Common.{String, ℕ, Bool, true, false, Option, none, some}
use freedom_cloud.Fallible.{Error, CanaryFailure, Result, ok, err, message, context, joined, canary}
use freedom_cloud.Fallible
use freedom_cloud.Action.{Action, pure, attempt, ◌>>=◌, ◌>>◌}
use freedom_cloud.Text.{Text}
use freedom_cloud.Contract.Codec.{Codec}
use freedom_cloud.Contract.Policy.{StrictPolicyBundle}
use freedom_cloud.Contract.Ingress.{StrictProxyIngressSet}
use freedom_cloud.Contract.Frames.{
  BrokerCommand, BrokerRequest, BrokerResponse, BrokerResponseBody, BrokerErrorCode, prepare_policy,
  commit_policy, force_blocking, disable_policy, diagnostics, backend_unavailable, invalid_request,
  internal, forwarding_dns_mapping, forwarding_dns_restoration, forwarding_canary,
  forwarding_timeout, checked_response, response_of,
}
use freedom_cloud.Broker.Marker.{ForwardingHealth, BrokerStatus}
use freedom_cloud.Broker.Host.{Host}
use freedom_cloud.Broker.Engine
use freedom_cloud.Broker.Engine.{Engine, Act}

-- `trait ForwardingHealthProbe`
pub record ForwardingHealthProbe (P : Type 0) : Type 0 where
  pub measure : ℕ → Text → StrictProxyIngressSet → P → Result ForwardingHealth × P
  pub verify_active : P → Result Unit × P
  pub prepare_deactivation : P → Result Unit × P
  pub deactivate : P → Result Unit × P

pub record BrokerDispatcher (h : Host) (P : Type 0) : Type 0 where
  pub engine : Engine h
  pub health_probe : P

-- The error codes of a canary that failed, in the production build on Windows.
canary_code : CanaryFailure → BrokerErrorCode
canary_code CanaryFailure.dns_mapping = forwarding_dns_mapping
canary_code CanaryFailure.dns_restoration = forwarding_dns_restoration
canary_code CanaryFailure.network = forwarding_canary
canary_code CanaryFailure.timeout = forwarding_timeout

unfoldable pub forwarding_error_code : Error → BrokerErrorCode
unfolding canary_code
forwarding_error_code (canary failure) = canary_code failure
forwarding_error_code (context note error) = forwarding_error_code error
forwarding_error_code _ = backend_unavailable

unfoldable pub fail_after_deactivation : {A : Type 0} → Error → Result Unit → Result A
fail_after_deactivation failure (ok _) = err failure
fail_after_deactivation failure (err cleanup) =
    err (joined "strict forwarding transition failed; deactivation failed" failure cleanup)

unfoldable pub combine_deactivation_with_transition :
    {A : Type 0} → Result Unit → Result A → Result A
combine_deactivation_with_transition (ok _) (ok value) = ok value
combine_deactivation_with_transition (ok _) (err transition) = err transition
combine_deactivation_with_transition (err deactivate) (ok _) = err deactivate
combine_deactivation_with_transition (err deactivate) (err transition) =
    err (
      joined "strict forwarding deactivation failed; state transition failed" deactivate transition)

-- `Ok(status)` becomes a status, every error the code of the command.
response_body : Result BrokerStatus → BrokerErrorCode → BrokerResponseBody
response_body (ok status) failure_code = BrokerResponseBody.status status.proof
response_body (err _) failure_code = BrokerResponseBody.error failure_code

or_internal : Text → Result BrokerResponse → BrokerResponse
or_internal request_id (ok response) = response
or_internal request_id (err _) = response_of request_id (BrokerResponseBody.error internal)

unfoldable pub response_for_result : Text → Result BrokerStatus → BrokerErrorCode → BrokerResponse
unfolding response_body or_internal
response_for_result request_id result failure_code =
    or_internal request_id (checked_response request_id (response_body result failure_code))

module _ (codec : Codec) (h : Host) {P : Type 0} (probe : ForwardingHealthProbe P) where
  abbrev pub Run : Type 0 → Type 0
  Run A = Action (BrokerDispatcher h P) A

  abbrev pub on_engine : {A : Type 0} → Act h A → Run A
  on_engine call d = let (r, e) = call d.engine in (r, record d { engine = e })

  abbrev pub on_probe : {A : Type 0} → (P → Result A × P) → Run A
  on_probe call d = let (r, p) = call d.health_probe in (r, record d { health_probe = p })

  -- A failed step of a commit revokes the forwarding resources.
  unfoldable pub revoke_on_failure :
      Result BrokerStatus → BrokerErrorCode → Run (Result BrokerStatus × BrokerErrorCode)
  revoke_on_failure (ok status) code = pure (ok status, code)
  revoke_on_failure (err error) code = do
    cleanup ← attempt (on_probe probe.deactivate)
    pure (fail_after_deactivation error cleanup, code)

  commit_measured : ℕ → Text → Result ForwardingHealth → Run (Result BrokerStatus × BrokerErrorCode)
  commit_measured revision policy_digest (ok health) = do
    committed ← attempt (on_engine (Engine.commit h revision policy_digest health))
    revoke_on_failure committed internal
  commit_measured revision policy_digest (err error) =
      revoke_on_failure (err (context "strict forwarding health measurement failed" error))
        (forwarding_error_code error)

  commit_validated :
      ℕ → Text → StrictProxyIngressSet → Result Unit → Run (Result BrokerStatus × BrokerErrorCode)
  unfolding commit_measured
  commit_validated revision policy_digest ingress (err error) = pure (err error, invalid_request)
  commit_validated revision policy_digest ingress (ok _) = do
    measured ← attempt (on_probe (probe.measure revision policy_digest ingress))
    commit_measured revision policy_digest measured

  -- Forwarding resources are revoked before guards are rebound.
  unfoldable pub prepare_after_revocation : StrictPolicyBundle → Run BrokerStatus
  prepare_after_revocation policy = do
    on_probe probe.deactivate
    on_engine (Engine.prepare codec h policy)

  unfoldable pub run_command : BrokerCommand → Run (Result BrokerStatus × BrokerErrorCode)
  unfolding commit_validated
  run_command BrokerCommand.status = do
    r ← attempt (on_engine (Engine.status h))
    pure (r, backend_unavailable)
  run_command diagnostics = do
    r ← attempt (on_engine (Engine.status h))
    pure (r, backend_unavailable)
  run_command (prepare_policy policy) = do
    r ← attempt (prepare_after_revocation policy)
    pure (r, internal)
  run_command (commit_policy revision policy_digest ingress) = do
    valid ←
        attempt (on_engine (Engine.validate_forwarding_ingress h revision policy_digest ingress))
    commit_validated revision policy_digest ingress valid
  run_command (force_blocking revision) = do
    deactivate ← attempt (on_probe probe.deactivate)
    block ← attempt (on_engine (Engine.force_blocking h revision))
    pure (combine_deactivation_with_transition deactivate block, internal)
  run_command (disable_policy revision) = do
    deactivate ← attempt (on_probe probe.deactivate)
    disable ← attempt (on_engine (Engine.disable h revision))
    pure (combine_deactivation_with_transition deactivate disable, internal)

  answer :
      Text
      → Result (Result BrokerStatus × BrokerErrorCode) × BrokerDispatcher h P
      → BrokerResponse × BrokerDispatcher h P
  answer request_id (ok (result, code), d) = (response_for_result request_id result code, d)
  answer request_id (err _, d) = (response_of request_id (BrokerResponseBody.error internal), d)

  -- `dispatch`, on the request that an `AuthorizedBrokerRequest` holds.
  unfoldable pub dispatch :
      BrokerRequest → BrokerDispatcher h P → BrokerResponse × BrokerDispatcher h P
  unfolding answer
  dispatch request d = answer request.request_id (run_command request.command d)
