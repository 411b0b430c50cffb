-- ===== src/Broker/Safety/Invariant.antt =====
-- The invariant, over the fields that it reads, and its rules.
use freedom_cloud.Common.{
  ◌≡◌, refl, ◌↔◌, ◌≢◌, Bool, true, false, Option, none, some, arith, is_some,
}
use freedom_cloud.Fallible.{Result}
use freedom_cloud.Action.{Post}
use freedom_cloud.Broker.Marker.{
  BrokerPhase, disabled, preparing, blocking, armed, recovering, disabling, RecoveryMarker,
  ForwardingHealth, has_proxy_entries, is_complete_for, guarded_phase,
}
use freedom_cloud.Broker.Host.{Host, IdentityVerification}
use freedom_cloud.Broker.Engine.{Engine}

-- An engine is disabled exactly when it has no marker; and it is armed for a policy with proxy
-- entries only under a complete health proof, with the verified executables still held.
pub record IsSafe {L : Type 0} (phase : BrokerPhase) (marker : Option RecoveryMarker)
    (health : ForwardingHealth) (lease : Option (IdentityVerification L)) : Type 0 where
  pub disabled_iff : (phase ≡ disabled) ↔ (marker ≡ none)
  pub armed_complete :
      (m : RecoveryMarker)
      → phase ≡ armed
      → marker ≡ some m
      → has_proxy_entries m.policy ≡ true
      → (is_complete_for health m.policy ≡ true) × (is_some lease ≡ true)

abbrev pub Safe : (h : Host) → Engine h → Type 0
Safe h e = IsSafe e.phase e.current_marker e.forwarding_health e.verification_lease

-- The invariant holds after a call, whether it failed or not.
abbrev pub EndsSafe : (h : Host) {A : Type 0} → Result A × Engine h → Type 0
EndsSafe h r = Post (λ _ e. Safe h e) (λ _ e. Safe h e) r

-- A phase that is neither disabled nor armed is safe as soon as there is a marker.
abbrev pub is_between : BrokerPhase → Bool
is_between preparing = true
is_between blocking = true
is_between recovering = true
is_between disabling = true
is_between disabled = false
is_between armed = false

module _ {L : Type 0} {health : ForwardingHealth} {lease : Option (IdentityVerification L)} where
  pub between-IsSafe :
      {phase : BrokerPhase} {marker : Option RecoveryMarker}
      → is_between phase ≡ true
      → marker ≢ none
      → IsSafe phase marker health lease
  between-IsSafe b n = record {
    disabled_iff = (λ p. ground arith, λ q. absurd (n q));
    armed_complete = λ m p q r. ground arith;
  }

  pub guarded-IsSafe :
      {marker : Option RecoveryMarker} (m : RecoveryMarker)
      → marker ≡ some m
      → IsSafe (guarded_phase m.policy) marker health lease
  guarded-IsSafe m e = record {
    disabled_iff = (λ p. ground arith, λ q. cc);
    armed_complete = λ m' p q r. ground arith;
  }

  pub disabled-IsSafe : IsSafe disabled none health lease
  disabled-IsSafe = record { disabled_iff = (λ p. refl, λ q. refl); armed_complete = λ m p q r. cc }

  pub armed-IsSafe :
      {marker : Option RecoveryMarker} (m : RecoveryMarker)
      → marker ≡ some m
      → is_complete_for health m.policy ≡ true
      → is_some lease ≡ true
      → IsSafe armed marker health lease
  armed-IsSafe m e c l = record {
    disabled_iff = (λ p. ground arith, λ q. cc);
    armed_complete = λ m' p q r. ground arith;
  }
