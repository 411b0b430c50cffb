-- ===== src/Broker/Outcome/Progress.antt =====
-- On a host that works, an engine that is asked to prepare and then to commit forwards.
use freedom_cloud.Common.{◌≡◌, true, false, some}
use freedom_cloud.Fallible.{ok}
use freedom_cloud.Text.{Text}
use freedom_cloud.Contract.Capability.{is_subset, required_for_proxy}
use freedom_cloud.Contract.Codec.{Codec}
use freedom_cloud.Contract.Policy.{StrictPolicyBundle}
use freedom_cloud.Broker.AppIds.{VerifiedPolicyAppIds}
use freedom_cloud.Broker.Marker.{
  ForwardingHealth, RecoveryMarker, BackendSnapshot, preparing_marker, with_phase, armed, no_health,
  guarded_phase,
}
use freedom_cloud.Broker.Host.{Host, IdentityVerification}
use freedom_cloud.Broker.Engine.{Engine}

-- A host that works: the verifier verifies, the store persists, the backend installs, and a
-- snapshot shows the guards and for whom they are, and after that the data plane beside them, with
-- every capability that proxying requires.
pub record Works (h : Host) : Type 0 where
  pub verified : StrictPolicyBundle → h.Verifier → IdentityVerification h.Lease × h.Verifier
  pub stored : RecoveryMarker → h.Store → h.Store
  pub with_guards : StrictPolicyBundle → VerifiedPolicyAppIds → Text → h.Backend → h.Backend
  pub with_redirects : StrictPolicyBundle → VerifiedPolicyAppIds → Text → h.Backend → h.Backend
  pub view : h.Backend → BackendSnapshot
  pub verifies :
      (p : StrictPolicyBundle) (v : h.Verifier)
      → h.verifier.verify p v ≡ (ok (verified p v).0, (verified p v).1)
  pub persists : (m : RecoveryMarker) (s : h.Store) → h.store.persist m s ≡ (ok tt, stored m s)
  pub installs_guards :
      (p : StrictPolicyBundle) (ids : VerifiedPolicyAppIds) (d : Text) (b : h.Backend)
      → h.backend.install_guards p ids d b ≡ (ok tt, with_guards p ids d b)
  pub installs_redirects :
      (p : StrictPolicyBundle) (ids : VerifiedPolicyAppIds) (d : Text) (b : h.Backend)
      → h.backend.install_data_plane p ids d b ≡ (ok tt, with_redirects p ids d b)
  pub views : (b : h.Backend) → h.backend.snapshot b ≡ (ok (view b), b)
  pub guards_shown :
      (p : StrictPolicyBundle) (ids : VerifiedPolicyAppIds) (d : Text) (b : h.Backend)
      → ((view (with_guards p ids d b)).revision ≡ some p.revision)
        × ((view (with_guards p ids d b)).policy_digest ≡ some d)
        × ((view (with_guards p ids d b)).guard_filters_installed ≡ true)
        × ((view (with_guards p ids d b)).data_plane_filters_installed ≡ false)
  pub redirects_shown :
      (p : StrictPolicyBundle) (ids : VerifiedPolicyAppIds) (d : Text) (b : h.Backend)
      → ((view (with_redirects p ids d b)).revision ≡ (view b).revision)
        × ((view (with_redirects p ids d b)).policy_digest ≡ (view b).policy_digest)
        × ((view (with_redirects p ids d b)).guard_filters_installed
            ≡ (view b).guard_filters_installed)
        × ((view (with_redirects p ids d b)).data_plane_filters_installed ≡ true)
        × (is_subset required_for_proxy (view (with_redirects p ids d b)).capabilities ≡ true)

module _ (h : Host) (works : Works h) (m : RecoveryMarker) (v : IdentityVerification h.Lease)
    (e : Engine h) (health : ForwardingHealth) where
  abbrev redirects : h.Backend
  redirects = works.with_redirects m.policy v.app_ids m.policy_digest e.backend

  abbrev armed_engine : Engine h
  armed_engine = record e {
    backend = redirects;
    store = works.stored (with_phase m armed (works.view redirects).filter_generation) e.store;
    current_marker = some (with_phase m armed (works.view redirects).filter_generation);
    phase = armed;
    forwarding_health = health;
  }

module _ (h : Host) (works : Works h) (policy : StrictPolicyBundle) (digest : Text)
    (e : Engine h) where
  abbrev verification : IdentityVerification h.Lease
  verification = (works.verified policy e.verifier).0

  abbrev marker : RecoveryMarker
  marker = preparing_marker policy digest

  abbrev guarded : h.Backend
  guarded = works.with_guards policy verification.app_ids digest e.backend

  abbrev redirected : h.Backend
  redirected = works.with_redirects policy verification.app_ids digest guarded

  abbrev prepared_marker : RecoveryMarker
  prepared_marker = with_phase marker (guarded_phase policy) (works.view guarded).filter_generation

  abbrev prepared : Engine h
  prepared = record {
    backend = guarded;
    store = works.stored prepared_marker (works.stored marker e.store);
    verifier = (works.verified policy e.verifier).1;
    current_marker = some prepared_marker;
    high_watermark = policy.revision;
    store_loaded = e.store_loaded;
    phase = guarded_phase policy;
    forwarding_health = no_health;
    verification_lease = some verification;
  }
