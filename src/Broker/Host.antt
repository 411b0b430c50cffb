-- ===== src/Broker/Host.antt =====
-- The traits that the engine is generic over (services/strict-broker/src/lib.rs): `FilterBackend`,
-- `RecoveryStore` and `IdentityVerifier`. Each keeps a state of its own, and a call returns it with
-- its result.

use freedom_cloud.Fallible.{Result}
use freedom_cloud.Text.{Text}
use freedom_cloud.Contract.Policy.{StrictPolicyBundle}
use freedom_cloud.Broker.AppIds.{VerifiedPolicyAppIds}
use freedom_cloud.Broker.Marker.{RecoveryMarker, RecoveryRecord, BackendSnapshot}

pub record IdentityVerification (L : Type 0) : Type 0 where
  pub app_ids : VerifiedPolicyAppIds
  pub lease : L

pub record FilterBackend (B : Type 0) : Type 0 where
  pub install_guards : StrictPolicyBundle → VerifiedPolicyAppIds → Text → B → Result Unit × B
  pub install_data_plane : StrictPolicyBundle → VerifiedPolicyAppIds → Text → B → Result Unit × B
  pub remove_data_plane : B → Result Unit × B
  pub remove_guards : B → Result Unit × B
  pub snapshot : B → Result BackendSnapshot × B

pub record RecoveryStore (S : Type 0) : Type 0 where
  pub load : S → Result RecoveryRecord × S
  pub persist : RecoveryMarker → S → Result Unit × S
  pub clear_marker : S → Result Unit × S

pub record IdentityVerifier (V L : Type 0) : Type 0 where
  pub verify : StrictPolicyBundle → V → Result (IdentityVerification L) × V

pub record Host : Type 1 where
  pub Backend : Type 0
  pub Store : Type 0
  pub Verifier : Type 0
  pub Lease : Type 0
  pub backend : FilterBackend Backend
  pub store : RecoveryStore Store
  pub verifier : IdentityVerifier Verifier Lease
