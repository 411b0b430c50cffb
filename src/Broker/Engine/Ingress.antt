-- ===== src/Broker/Engine/Ingress.antt =====
-- `validate_forwarding_ingress`: the ingresses of a commit are those of the prepared policy.
use freedom_cloud.Common.{
  ℕ, Bool, false, not, ◌||◌, Option, some, List, [], ◌∷◌, ◌==◌, length, if◌then◌else◌,
}
use freedom_cloud.Action.{lift, gets, ◌>>=◌, ◌>>◌}
use freedom_cloud.Text.{Text, text_eq, text_lt}
use freedom_cloud.Contract.Policy.{StrictPolicyEntry, StrictAction, proxy}
use freedom_cloud.Contract.Ingress.{
  StrictProxyIngressSet, StrictProxyIngressEntry, validate_ingress,
}
use freedom_cloud.Broker.Marker.{is_blocking}
use freedom_cloud.Broker.Host.{Host}
use freedom_cloud.Broker.Engine.State.{Act, fail_if}
use freedom_cloud.Broker.Engine.Status.{match_current}

-- `BTreeSet<&str>` in its order.
unfoldable pub insert_group : Text → List Text → List Text
insert_group t [] = t ∷ []
insert_group t (s ∷ ss) =
    if text_lt s t then s ∷ insert_group t ss else if text_eq s t then s ∷ ss else t ∷ s ∷ ss

add_group : StrictAction → Option Text → List Text → List Text
add_group proxy (some group) groups = insert_group group groups
add_group _ _ groups = groups

unfoldable pub expected_groups : List StrictPolicyEntry → List Text
unfolding add_group
expected_groups [] = []
expected_groups (entry ∷ rest) = add_group entry.action entry.target_group (expected_groups rest)

-- `expected_groups.iter().zip(&ingress.entries).any(|(expected, actual)| ..)`
unfoldable pub any_mismatch : List Text → List StrictProxyIngressEntry → Bool
any_mismatch [] actual = false
any_mismatch (group ∷ groups) [] = false
any_mismatch (group ∷ groups) (entry ∷ entries) =
    not (text_eq group entry.target_group) || any_mismatch groups entries

module _ (h : Host) where
  unfoldable pub validate_forwarding_ingress : ℕ → Text → StrictProxyIngressSet → Act h Unit
  validate_forwarding_ingress revision policy_digest ingress = do
    marker ← match_current h revision policy_digest
    phase ← gets (λ e. e.phase)
    fail_if h (not (is_blocking phase)) "strict policy is not accepting a forwarding commit"
    lift (validate_ingress ingress)
    let groups = expected_groups marker.policy.entries
    fail_if h (not (length groups == length ingress.entries) || any_mismatch groups ingress.entries)
        "strict proxy ingresses do not match the prepared policy target groups"
