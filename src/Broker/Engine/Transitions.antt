-- ===== src/Broker/Engine/Transitions.antt =====
-- `prepare`, `migrate_identity`, `commit` and `disable`.
use freedom_cloud.Common.{
  ℕ, Bool, true, false, not, ◌&&◌, ◌||◌, Option, none, some, ltb, leb, ◌==◌, length, ite,
  if◌then◌else◌,
}
use freedom_cloud.Fallible.{ok, err, context, message, with_context}
use freedom_cloud.Action.{pure, raise, lift, gets, attempt, branch, modify, ◌>>=◌, ◌>>◌}
use freedom_cloud.Text.{Text}
use freedom_cloud.Contract.Capability.{is_subset, max_strict_applications}
use freedom_cloud.Contract.Policy.{StrictPolicyBundle, StrictPolicyBundle-discrete}
use freedom_cloud.Contract.Codec.{Codec}
use freedom_cloud.Contract.Validate.{validate, canonical_digest}
use freedom_cloud.Contract.Migration.{validate_identity_migration}
use freedom_cloud.Broker.Marker.{
  preparing, armed, recovering, disabling, RecoveryMarker, BrokerStatus, ForwardingHealth,
  preparing_marker, with_phase, guarded_phase, no_health, validate_snapshot, is_disabling,
  is_blocking, has_proxy_entries, required_capabilities, is_complete_for,
}
use freedom_cloud.Broker.Host.{Host, IdentityVerification}
use freedom_cloud.Broker.Engine.State.{
  Act, fail_if, require, snapshot, install_guards, install_data_plane, persist, load, verify,
}
use freedom_cloud.Broker.Engine.Status.{status_from_snapshot, match_current}
use freedom_cloud.Broker.Engine.Recovery.{complete_disable, force_blocking, recover, or_rollback}

-- `marker.policy == policy`
unfoldable pub same_policy : StrictPolicyBundle → StrictPolicyBundle → Bool
unfolding StrictPolicyBundle-discrete
same_policy a b = ite (StrictPolicyBundle-discrete a b) true false

module _ (h : Host) where
  unfoldable pub load_record : Option RecoveryMarker → ℕ → Act h Unit
  load_record (some marker) high_watermark =
      raise (message "strict recovery marker must be recovered before prepare")
  load_record none high_watermark =
      modify (λ e. record e { high_watermark = high_watermark; store_loaded = true })

  unfoldable pub load_store_once : Act h Unit
  unfolding load_record
  load_store_once = do
    loaded ← gets (λ e. e.store_loaded)
    branch loaded (pure tt) (do r ← load h; load_record r.marker r.high_watermark)

  -- `disable`
  unfoldable pub disable : ℕ → Act h BrokerStatus
  disable revision = do
    current ← gets (λ e. e.current_marker)
    marker ← require h current "strict policy is not active"
    fail_if h (not (marker.revision == revision))
        "strict disable revision does not match the active policy"
    let marker' = with_phase marker disabling marker.filter_generation
    persist h marker'
    modify (λ e. record e {
      current_marker = some marker';
      phase = recovering;
      forwarding_health = no_health;
    })
    complete_disable h marker'

  -- The end of `commit`, once the redirects are installed.
  unfoldable pub arm : RecoveryMarker → ForwardingHealth → Act h BrokerStatus
  arm marker health = do
    s ← snapshot h
    or_rollback h marker "strict redirect verification failed" (λ e. e)
        (validate_snapshot s marker true true)
    or_rollback h marker "strict backend capability proof is incomplete" (λ e. e)
        (if is_subset (required_capabilities marker.policy) s.capabilities
          then ok tt
          else err (message "strict backend capability proof is incomplete"))
    let marker' = with_phase marker armed s.filter_generation
    persisted ← attempt (persist h marker')
    or_rollback h marker "persist armed strict recovery marker failed"
        (context "persist armed strict recovery marker") persisted
    modify
        (λ e. record e { current_marker = some marker'; phase = armed; forwarding_health = health })
    status_from_snapshot h s

  unfoldable pub commit : ℕ → Text → ForwardingHealth → Act h BrokerStatus
  commit revision policy_digest health = do
    marker ← match_current h revision policy_digest
    fail_if h (not (has_proxy_entries marker.policy))
        "a block-only strict policy does not require a forwarding commit"
    phase ← gets (λ e. e.phase)
    fail_if h (not (is_blocking phase)) "strict policy is not in the blocking commit phase"
    fail_if h (not (is_complete_for health marker.policy))
        "strict forwarding capability proof is incomplete"
    lease ← gets (λ e. e.verification_lease)
    verification ← require h lease "strict identity verification lease is missing"
    installed ←
        attempt (install_data_plane h marker.policy verification.app_ids marker.policy_digest)
    or_rollback h marker "install strict redirect filters failed"
        (context "install strict redirect filters") installed
    arm marker health

module _ (codec : Codec) (h : Host) where
  unfoldable pub prepare_new : StrictPolicyBundle → Act h BrokerStatus
  prepare_new policy = do
    lift (validate codec policy)
    fail_if h (ltb max_strict_applications (length policy.entries))
        "strict policy application limit exceeded"
    high_watermark ← gets (λ e. e.high_watermark)
    fail_if h (leb policy.revision high_watermark) "strict policy revision was already used"
    verification ← verify h policy
    digest ← lift (canonical_digest codec policy)
    let marker = preparing_marker policy digest
    persist h marker
    modify (λ e. record e {
      verification_lease = some verification;
      high_watermark = marker.revision;
      current_marker = some marker;
      phase = preparing;
      forwarding_health = no_health;
    })
    installed ← attempt (install_guards h marker.policy verification.app_ids marker.policy_digest)
    lift (with_context "install strict guard filters" installed)
    s ← snapshot h
    lift (validate_snapshot s marker true false)
    let marker' = with_phase marker (guarded_phase marker.policy) s.filter_generation
    modify (λ e. record e { current_marker = some marker'; phase = guarded_phase marker.policy })
    persist h marker'
    status_from_snapshot h s

  -- The replacement of a prepared marker by that of a migrated policy.
  unfoldable pub install_migrated :
      RecoveryMarker → IdentityVerification h.Lease → Act h BrokerStatus
  install_migrated marker verification = do
    persist h marker
    modify (λ e. record e {
      high_watermark = marker.revision;
      current_marker = some marker;
      phase = preparing;
      verification_lease = some verification;
    })
    install_guards h marker.policy verification.app_ids marker.policy_digest
    s ← snapshot h
    lift (validate_snapshot s marker true false)
    let marker' = with_phase marker (guarded_phase marker.policy) s.filter_generation
    persist h marker'
    modify (λ e. record e { current_marker = some marker'; phase = guarded_phase marker.policy })
    status_from_snapshot h s

  unfoldable pub migrate_identity : StrictPolicyBundle → Act h BrokerStatus
  migrate_identity policy = do
    lift (validate codec policy)
    current ← gets (λ e. e.current_marker)
    old ← require h current "strict migration has no source policy"
    high_watermark ← gets (λ e. e.high_watermark)
    fail_if h
        (is_disabling old.phase
          || leb policy.revision high_watermark
          || not (length old.policy.entries == length policy.entries))
        "strict migration revision or source phase is invalid"
    lift (validate_identity_migration codec old.policy policy)
    verification ← verify h policy
    digest ← lift (canonical_digest codec policy)
    blocked ← force_blocking h old.revision
    install_migrated (preparing_marker policy digest) verification

  unfoldable pub prepare_over : Option RecoveryMarker → StrictPolicyBundle → Act h BrokerStatus
  prepare_over none policy = prepare_new policy
  prepare_over (some marker) policy =
      branch (same_policy marker.policy policy && not (is_disabling marker.phase)) (recover codec h)
        (migrate_identity policy)

  -- `BrokerEngine::prepare`
  unfoldable pub prepare : StrictPolicyBundle → Act h BrokerStatus
  unfolding prepare_over
  prepare policy = do
    load_store_once h
    current ← gets (λ e. e.current_marker)
    prepare_over current policy
