-- ===== src/Broker/Marker/Laws.antt =====
-- What the checks on snapshots and on health amount to.
use freedom_cloud.Common.{
  String, ◌≡◌, refl, Bool, true, false, not, or-eq_false, not-eq_false, Option, none, ◌&&◌, ◌||◌,
  some, List, [], ◌∷◌, arith, all, if◌then◌else◌,
}
use freedom_cloud.Fallible.{ok, err, message, bail_if->>-eq-ok}
use freedom_cloud.Contract.Capability.{
  StrictCapability, Capabilities, every_capability, intersection, is_subset, required_for_proxy,
}
use freedom_cloud.Contract.Policy.{StrictPolicyBundle}
use freedom_cloud.Text.{Text, eq_ignore_ascii_case}
use freedom_cloud.Broker.Marker.{
  same_revision, same_digest, BackendSnapshot, RecoveryMarker, ForwardingHealth, validate_snapshot,
  required_capabilities, has_proxy_entries, is_complete_for,
}

-- A valid snapshot shows the revision, and the filters that were expected.
pub record Shows (s : BackendSnapshot) (marker : RecoveryMarker) (guards redirects : Bool)
    : Type 0 where
  pub revision_shown : s.revision ≡ some marker.revision
  pub guards_shown : s.guard_filters_installed ≡ guards
  pub redirects_shown : s.data_plane_filters_installed ≡ redirects

pub validate_snapshot-Shows :
    (s : BackendSnapshot) (marker : RecoveryMarker) (guards redirects : Bool)
    → validate_snapshot s marker guards redirects ≡ ok tt
    → Shows s marker guards redirects
unfolding validate_snapshot
validate_snapshot-Shows s marker guards redirects h = ground arith

matching_digest :
    (d : Option Text) (digest : Text)
    → same_digest d digest ≡ true
    → (shown : Text) × (d ≡ some shown) × (eq_ignore_ascii_case shown digest ≡ true)
matching_digest none digest e = cc
matching_digest (some shown) digest e = (shown, refl, e)

-- It also shows the policy's digest, up to the case of its letters.
pub validate_snapshot-digest :
    (s : BackendSnapshot) (marker : RecoveryMarker) (guards redirects : Bool)
    → validate_snapshot s marker guards redirects ≡ ok tt
    → (digest : Text) × (s.policy_digest ≡ some digest)
      × (eq_ignore_ascii_case digest marker.policy_digest ≡ true)
unfolding validate_snapshot
validate_snapshot-digest s marker guards redirects h =
    let (matched, _) = bail_if->>-eq-ok _ _ _ h in
    let (_, digest) = or-eq_false (not (same_revision s.revision marker.revision)) _ matched in
    matching_digest s.policy_digest marker.policy_digest (not-eq_false _ digest)

subset_of_both :
    (r a b : Capabilities) (cs : List StrictCapability)
    → all (λ c. not (r c) || a c) cs ≡ true
    → all (λ c. not (r c) || b c) cs ≡ true
    → all (λ c. not (r c) || (a c && b c)) cs ≡ true
subset_of_both r a b [] p q = refl
subset_of_both r a b (c ∷ cs) p q = ground (arith, subset_of_both r a b cs)

pub is_subset-intersection :
    (r a b : Capabilities)
    → is_subset r a ≡ true
    → is_subset r b ≡ true
    → is_subset r (intersection a b) ≡ true
is_subset-intersection r a b p q = subset_of_both r a b every_capability p q

pub required_capabilities-proxy :
    (policy : StrictPolicyBundle)
    → has_proxy_entries policy ≡ true
    → required_capabilities policy ≡ required_for_proxy
unfolding required_capabilities
required_capabilities-proxy policy h = rw h

-- A complete health proof for a policy with proxy entries, taken apart.
pub record IsComplete (health : ForwardingHealth) : Type 0 where
  pub core : health.core_healthy ≡ true
  pub relay : health.relay_healthy ≡ true
  pub dns : health.dns_healthy ≡ true
  pub capable : is_subset required_for_proxy health.capabilities ≡ true

is_subset-proxy :
    (policy : StrictPolicyBundle) (c : Capabilities)
    → has_proxy_entries policy ≡ true
    → is_subset (required_capabilities policy) c ≡ true
    → is_subset required_for_proxy c ≡ true
is_subset-proxy policy c p q = rw (required_capabilities-proxy policy p) at q

split_health :
    (a b c d : Bool) → (a && b && c && d) ≡ true → (a ≡ true) × (b ≡ true) × (c ≡ true) × (d ≡ true)
split_health a b c d h = ground arith

pub is_complete_for-IsComplete :
    (health : ForwardingHealth) (policy : StrictPolicyBundle)
    → has_proxy_entries policy ≡ true
    → is_complete_for health policy ≡ true
    → IsComplete health
unfolding is_complete_for
is_complete_for-IsComplete health policy p q =
    let parts = split_health health.core_healthy health.relay_healthy health.dns_healthy _ q in
    record {
      core = parts.0;
      relay = parts.1;
      dns = parts.2;
      capable = is_subset-proxy policy health.capabilities p parts.3;
    }

-- The test of `commit` on the backend's capabilities.
pub capable_snapshot :
    (s : BackendSnapshot) (policy : StrictPolicyBundle) (x : String)
    → has_proxy_entries policy ≡ true
    → (if is_subset (required_capabilities policy) s.capabilities then ok tt else err (message x))
      ≡ ok tt
    → is_subset required_for_proxy s.capabilities ≡ true
capable_snapshot s policy x p q = is_subset-proxy policy s.capabilities p (tested _ q)
  where
    tested : (b : Bool) → (if b then ok tt else err (message x)) ≡ ok tt → b ≡ true
    tested true r = refl
    tested false r = cc
