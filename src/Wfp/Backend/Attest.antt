-- ===== src/Wfp/Backend/Attest.antt =====
-- What the checks of an enumerated inventory have established.
use mathlib.Core.List.{Memᴰ}
use mathlib.Core.List.Memᴰ
use mathlib.Core.List.Memᴰ.{head, tail}
use freedom_cloud.Common.{
  ℕ, ◌≡◌, refl, ap, sym, Bool, true, false, not, ==_iff, Option, none, some, List, [], ◌∷◌, all,
  and-eq_true, or-eq_false, or_true, not-eq_false, Bool-cases, inl, inr,
}
use freedom_cloud.Fallible.{ok, >>-eq-ok, bail_if-eq-ok}
use freedom_cloud.Text.{text_eq, text_eq→eq, text_eq_refl}
use freedom_cloud.Broker.Marker.{same_flag}
use freedom_cloud.Wfp.Keys.{WfpObjectKey, has_key, same_keys}
use freedom_cloud.Wfp.Plan.{WfpFilterSpec, WfpPolicyPlan}
use freedom_cloud.Wfp.Inventory.{
  WfpControlSnapshot, is_revision, is_digest, validate_plan_metadata, expected_keys,
  validate_inventory,
}

has_key-subset :
    (a b : List WfpObjectKey)
    → all (has_key b) a ≡ true
    → (k : WfpObjectKey) → has_key a k ≡ true
    → has_key b k ≡ true
unfolding has_key
has_key-subset [] b p k h = cc
has_key-subset (x ∷ a) b p k h =
    let (first, others) = and-eq_true (has_key b x) (all (has_key b) a) p in
    elim (Bool-cases (text_eq x k)) [
      | inl same ↦ rw (sym (text_eq→eq x k same)) first
      | inr other ↦ has_key-subset a b others k (rw other at h)
    ]

-- Two sets that pass the comparison have the same elements.
pub same_keys→same :
    (a b : List WfpObjectKey)
    → same_keys a b ≡ true
    → (k : WfpObjectKey) → has_key a k ≡ has_key b k
unfolding same_keys
same_keys→same a b p k =
    let (ab, ba) = and-eq_true (all (has_key b) a) (all (has_key a) b) p in
    both (has_key a k) (has_key b k) (has_key-subset a b ab k) (has_key-subset b a ba k)
  where
    both : (x y : Bool) → (x ≡ true → y ≡ true) → (y ≡ true → x ≡ true) → x ≡ y
    both true y f g = sym (f refl)
    both false true f g = g refl
    both false false f g = refl

pub expected_keys-has :
    (f : WfpFilterSpec) (filters : List WfpFilterSpec)
    → Memᴰ f filters
    → has_key (expected_keys filters true) f.key ≡ true
unfolding has_key expected_keys
expected_keys-has f [] m = absurd (Memᴰ.not-nil m)
expected_keys-has f (g ∷ filters) (head e) = rw (e, text_eq_refl g.key) refl
expected_keys-has f (g ∷ filters) (tail m) =
    rw (expected_keys-has f filters m) (or_true (text_eq g.key f.key))

-- What is enumerated is what the plan has, at the plan's revision and digest.
pub record Matches (snapshot : WfpControlSnapshot) (plan : WfpPolicyPlan)
    (guards redirects active : Bool) : Type 0 where
  pub loaded : snapshot.driver_snapshot_loaded ≡ true
  pub same_revision : snapshot.revision ≡ some plan.revision
  pub same_digest : is_digest snapshot.policy_digest plan.policy_digest ≡ true
  pub exact_guards :
      (k : WfpObjectKey)
      → has_key snapshot.guard_filter_keys k ≡ has_key (expected_keys plan.guard_filters guards) k
  pub exact_redirects :
      (k : WfpObjectKey)
      → has_key snapshot.data_plane_filter_keys k
        ≡ has_key (expected_keys plan.data_plane_filters redirects) k
  pub same_activity : snapshot.datagram_path_active ≡ active

is_revision→eq : (o : Option ℕ) (n : ℕ) → is_revision o n ≡ true → o ≡ some n
is_revision→eq none n e = cc
is_revision→eq (some m) n e = ap some ((==_iff m n).0 e)

same_flag→eq : (a b : Bool) → same_flag a b ≡ true → a ≡ b
same_flag→eq true b e = sym e
same_flag→eq false true e = cc
same_flag→eq false false e = refl

pub validate_inventory→Matches :
    (snapshot : WfpControlSnapshot) (plan : WfpPolicyPlan) (guards redirects active : Bool)
    → validate_inventory snapshot plan guards redirects active ≡ ok tt
    → Matches snapshot plan guards redirects active
unfolding validate_inventory validate_plan_metadata
validate_inventory→Matches snapshot plan guards redirects active h =
    let (metadata, inventory) = >>-eq-ok (validate_plan_metadata snapshot plan) _ h in
    let (m1, digest) =
      or-eq_false _ (not (is_digest snapshot.policy_digest plan.policy_digest))
        (bail_if-eq-ok _ _ metadata) in
    let (loaded, revision) =
      or-eq_false (not snapshot.driver_snapshot_loaded)
        (not (is_revision snapshot.revision plan.revision)) m1 in
    let (i1, activity) =
      or-eq_false _ (not (same_flag snapshot.datagram_path_active active))
        (bail_if-eq-ok _ _ inventory) in
    let (g, r) =
      or-eq_false
        (not (same_keys snapshot.guard_filter_keys (expected_keys plan.guard_filters guards)))
        (not (
          same_keys snapshot.data_plane_filter_keys
            (expected_keys plan.data_plane_filters redirects)))
        i1 in
    record {
      loaded = not-eq_false _ loaded;
      same_revision = is_revision→eq _ _ (not-eq_false _ revision);
      same_digest = not-eq_false _ digest;
      exact_guards = same_keys→same _ _ (not-eq_false _ g);
      exact_redirects = same_keys→same _ _ (not-eq_false _ r);
      same_activity = same_flag→eq _ _ (not-eq_false _ activity);
    }
