-- ===== src/Broker/Engine/State.antt =====
-- The engine's record, and its calls of backend, store and verifier.
use freedom_cloud.Common.{ℕ, String, Bool, false, Option, none}
use freedom_cloud.Fallible.{Result, bail_if, ok_or}
use freedom_cloud.Action.{Action, lift}
use freedom_cloud.Text.{Text}
use freedom_cloud.Contract.Policy.{StrictPolicyBundle}
use freedom_cloud.Broker.AppIds.{VerifiedPolicyAppIds}
use freedom_cloud.Broker.Marker.{
  BrokerPhase, disabled, RecoveryMarker, RecoveryRecord, BackendSnapshot, ForwardingHealth,
  no_health,
}
use freedom_cloud.Broker.Host.{Host, IdentityVerification}

pub record Engine (h : Host) : Type 0 where
  pub backend : h.Backend
  pub store : h.Store
  pub verifier : h.Verifier
  pub current_marker : Option RecoveryMarker
  pub high_watermark : ℕ
  pub store_loaded : Bool
  pub phase : BrokerPhase
  pub forwarding_health : ForwardingHealth
  pub verification_lease : Option (IdentityVerification h.Lease)

module _ (h : Host) where
  abbrev pub Act : Type 0 → Type 0
  Act A = Action (Engine h) A

  -- `BrokerEngine::new`
  unfoldable pub new : h.Backend → h.Store → h.Verifier → Engine h
  new backend store verifier = record {
    backend = backend;
    store = store;
    verifier = verifier;
    current_marker = none;
    high_watermark = 0;
    store_loaded = false;
    phase = disabled;
    forwarding_health = no_health;
    verification_lease = none;
  }

  abbrev pub on_backend : {A : Type 0} → (h.Backend → Result A × h.Backend) → Act A
  on_backend call e = let (r, b) = call e.backend in (r, record e { backend = b })

  abbrev pub on_store : {A : Type 0} → (h.Store → Result A × h.Store) → Act A
  on_store call e = let (r, s) = call e.store in (r, record e { store = s })

  abbrev pub on_verifier : {A : Type 0} → (h.Verifier → Result A × h.Verifier) → Act A
  on_verifier call e = let (r, v) = call e.verifier in (r, record e { verifier = v })

  abbrev pub install_guards : StrictPolicyBundle → VerifiedPolicyAppIds → Text → Act Unit
  install_guards policy ids digest = on_backend (h.backend.install_guards policy ids digest)

  abbrev pub install_data_plane : StrictPolicyBundle → VerifiedPolicyAppIds → Text → Act Unit
  install_data_plane policy ids digest = on_backend (h.backend.install_data_plane policy ids digest)

  abbrev pub remove_data_plane : Act Unit
  remove_data_plane = on_backend h.backend.remove_data_plane

  abbrev pub remove_guards : Act Unit
  remove_guards = on_backend h.backend.remove_guards

  abbrev pub snapshot : Act BackendSnapshot
  snapshot = on_backend h.backend.snapshot

  abbrev pub persist : RecoveryMarker → Act Unit
  persist marker = on_store (h.store.persist marker)

  abbrev pub load : Act RecoveryRecord
  load = on_store h.store.load

  abbrev pub clear_marker : Act Unit
  clear_marker = on_store h.store.clear_marker

  abbrev pub verify : StrictPolicyBundle → Act (IdentityVerification h.Lease)
  verify policy = on_verifier (h.verifier.verify policy)

  -- `bail_if` and `ok_or` inside a method.
  abbrev pub fail_if : Bool → String → Act Unit
  fail_if b s = lift (bail_if b s)

  abbrev pub require : {A : Type 0} → Option A → String → Act A
  require o s = lift (ok_or o s)
