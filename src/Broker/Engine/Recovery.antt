-- ===== src/Broker/Engine/Recovery.antt =====
-- Rollback, the end of a disable, forced blocking and recovery.
use freedom_cloud.Common.{ℕ, String, true, false, not, ◌||◌, Option, none, some, ltb, ◌==◌, is_some}
use freedom_cloud.Fallible.{Error, Result, ok, err, joined, with_context}
use freedom_cloud.Action.{pure, raise, lift, gets, attempt, branch, modify, ◌>>=◌, ◌>>◌}
use freedom_cloud.Contract.Codec.{Codec}
use freedom_cloud.Broker.Marker.{
  disabled, blocking, recovering, RecoveryMarker, BackendSnapshot, BrokerStatus, with_phase,
  guarded_phase, no_health, validate_marker, validate_snapshot, is_disabling,
}
use freedom_cloud.Broker.Host.{Host}
use freedom_cloud.Broker.Engine.State.{
  Act, fail_if, require, snapshot, install_guards, remove_data_plane, remove_guards, persist, load,
  clear_marker, verify,
}
use freedom_cloud.Broker.Engine.Status.{status, status_from_snapshot}

module _ (h : Host) where
  unfoldable pub rollback_redirects : RecoveryMarker → Act h Unit
  rollback_redirects marker = do
    modify (λ e. record e { phase = blocking; forwarding_health = no_health })
    removed ← attempt (remove_data_plane h)
    lift (with_context "remove redirects during fail-closed rollback" removed)
    s ← snapshot h
    lift (validate_snapshot s marker true false)
    let marker' = with_phase marker blocking s.filter_generation
    persist h marker'
    modify (λ e. record e { current_marker = some marker' })

  -- `if let Err(error) = r { if let Err(rollback_error) = rollback .. { bail!(..) } return Err(..) }`
  rollback_error : String → (Error → Error) → Error → Result Unit → Error
  rollback_error note wrap error (ok _) = wrap error
  rollback_error note wrap error (err rollback) = joined note error rollback

  unfoldable pub or_rollback :
      {A : Type 0} → RecoveryMarker → String → (Error → Error) → Result A → Act h A
  unfolding rollback_error
  or_rollback marker note wrap (ok a) = pure a
  or_rollback marker note wrap (err error) = do
    rollback ← attempt (rollback_redirects marker)
    raise (rollback_error note wrap error rollback)

  -- The guards are removed if they are there, after a check that they are this marker's.
  unfoldable pub drop_guards : RecoveryMarker → BackendSnapshot → Act h BackendSnapshot
  drop_guards marker s =
      branch s.guard_filters_installed
        (do lift (validate_snapshot s marker true false); remove_guards h; snapshot h) (pure s)

  unfoldable pub complete_disable : RecoveryMarker → Act h BrokerStatus
  complete_disable marker = do
    remove_data_plane h
    s ← snapshot h
    fail_if h s.data_plane_filters_installed "strict data-plane filters remain during disable"
    s' ← drop_guards marker s
    fail_if h (s'.guard_filters_installed || s'.data_plane_filters_installed)
        "strict filters remain after disable"
    clear_marker h
    modify (λ e. record e {
      current_marker = none;
      verification_lease = none;
      phase = disabled;
      forwarding_health = no_health;
    })
    status_from_snapshot h s'

  unfoldable pub force_blocking : ℕ → Act h BrokerStatus
  force_blocking revision = do
    current ← gets (λ e. e.current_marker)
    marker ← require h current "strict policy is not active"
    fail_if h (not (marker.revision == revision))
        "strict force-blocking revision does not match the active policy"
    remove_data_plane h
    s ← snapshot h
    lift (validate_snapshot s marker true false)
    let next_phase = guarded_phase marker.policy
    modify (λ e. record e { phase = next_phase; forwarding_health = no_health })
    let marker' = with_phase marker next_phase s.filter_generation
    persist h marker'
    modify (λ e. record e { current_marker = some marker' })
    status_from_snapshot h s

  unfoldable pub force_blocking_marker : Option RecoveryMarker → Act h BrokerStatus
  force_blocking_marker none = status h
  force_blocking_marker (some marker) = force_blocking marker.revision

  unfoldable pub force_blocking_if_active : Act h BrokerStatus
  unfolding force_blocking_marker
  force_blocking_if_active = do
    current ← gets (λ e. e.current_marker)
    force_blocking_marker current

  -- The data plane is removed if it is there, and must then be gone.
  unfoldable pub drop_data_plane : BackendSnapshot → Act h Unit
  drop_data_plane s =
      branch s.data_plane_filters_installed
        (do
          remove_data_plane h
          s' ← snapshot h
          fail_if h s'.data_plane_filters_installed
              "strict data-plane filters survived recovery removal")
        (pure tt)

  -- The rest of `recover` for a marker that is not being disabled.
  unfoldable pub reinstall : RecoveryMarker → BackendSnapshot → Act h BrokerStatus
  reinstall marker s = do
    verification ← verify h marker.policy
    modify (λ e. record e { verification_lease = some verification })
    drop_data_plane s
    install_guards h marker.policy verification.app_ids marker.policy_digest
    s' ← snapshot h
    lift (validate_snapshot s' marker true false)
    let marker' = with_phase marker (guarded_phase marker.policy) s'.filter_generation
    persist h marker'
    modify (λ e. record e { current_marker = some marker'; phase = guarded_phase marker.policy })
    status_from_snapshot h s'

  unfoldable pub recover_nothing : BackendSnapshot → Act h BrokerStatus
  recover_nothing s = do
    fail_if h
        (s.guard_filters_installed
          || s.data_plane_filters_installed
          || is_some s.revision
          || is_some s.policy_digest)
        "orphaned strict backend state requires operator recovery"
    modify (λ e. record e { current_marker = none; phase = disabled })
    status_from_snapshot h s

module _ (codec : Codec) (h : Host) where
  unfoldable pub recover_marker : ℕ → RecoveryMarker → BackendSnapshot → Act h BrokerStatus
  recover_marker high_watermark marker s = do
    lift (validate_marker codec marker)
    fail_if h (ltb high_watermark marker.revision) "strict recovery high watermark is inconsistent"
    modify (λ e. record e {
      current_marker = some marker;
      phase = recovering;
      forwarding_health = no_health;
    })
    branch (is_disabling marker.phase) (complete_disable h marker) (reinstall h marker s)

  unfoldable pub recover_record : ℕ → Option RecoveryMarker → BackendSnapshot → Act h BrokerStatus
  recover_record high_watermark none s = recover_nothing h s
  recover_record high_watermark (some marker) s = recover_marker high_watermark marker s

  unfoldable pub recover : Act h BrokerStatus
  unfolding recover_record
  recover = do
    r ← load h
    modify (λ e. record e { store_loaded = true; high_watermark = r.high_watermark })
    s ← snapshot h
    recover_record r.high_watermark r.marker s
