-- ===== src/Broker/AppIds.antt =====
-- The verified WFP application identities of a policy (services/strict-broker/src/lib.rs).
use freedom_cloud.Common.{
  ℕ, suc, Bool, false, not, ◌||◌, List, [], ◌∷◌, ◌++◌, ltb, ◌==◌, any, length, is_empty,
}
use freedom_cloud.Fallible.{Result, ok, ◌>>=◌, ◌>>◌, bail_if, ok_or}
use freedom_cloud.Text.{Text, len, text_eq, text_lt}
use freedom_cloud.Contract.Policy.{StrictPolicyEntry, StrictPolicyBundle}
use freedom_cloud.Contract.Codec.{Codec}
use freedom_cloud.Contract.Canonical.{sort_by}
use freedom_cloud.Contract.Validate.{validate}
use freedom_cloud.Contract.Intent.{checked_add}

abbrev pub max_verified_app_id_bytes : ℕ
max_verified_app_id_bytes = 4096

abbrev pub max_verified_policy_app_id_bytes : ℕ
max_verified_policy_app_id_bytes = 2097152

pub record VerifiedApplicationAppIds : Type 0 where
  pub identity_id : Text
  pub app_ids : List (List ℕ)

-- `VerifiedApplicationAppIds::new`
unfoldable pub new_application : Text → List (List ℕ) → Result VerifiedApplicationAppIds
new_application identity_id app_ids = do
  bail_if (len identity_id == 0 || ltb 64 (len identity_id))
      "verified application identity ID is invalid"
  bail_if
      (is_empty app_ids
        || any (λ value. is_empty value || ltb max_verified_app_id_bytes (length value)) app_ids)
      "verified WFP application identity is empty or oversized"
  ok (record { identity_id = identity_id; app_ids = app_ids })

pub record VerifiedPolicyAppIds : Type 0 where
  pub applications : List VerifiedApplicationAppIds
  pub app_id_count : ℕ

unfoldable pub add_bytes : ℕ → List (List ℕ) → Result ℕ
add_bytes total [] = ok total
add_bytes total (app_id ∷ rest) = do
  total' ← ok_or (checked_add total (length app_id)) "verified application identity size overflow"
  add_bytes total' rest

-- The loop over the policy's entries zipped with the verified applications: the count of
-- identities and their bytes.
unfoldable pub count_app_ids :
    ℕ → ℕ → List StrictPolicyEntry → List VerifiedApplicationAppIds → Result (ℕ × ℕ)
count_app_ids count total [] verified = ok (count, total)
count_app_ids count total (expected ∷ es) [] = ok (count, total)
count_app_ids count total (expected ∷ es) (verified ∷ vs) = do
  bail_if
      (not (text_eq verified.identity_id expected.identity.identity_id)
        || not (length verified.app_ids == suc (length expected.identity.verified_children)))
      "verified application identities do not match the strict policy"
  count' ←
      ok_or (checked_add count (length verified.app_ids))
        "verified application identity count overflow"
  total' ← add_bytes total verified.app_ids
  count_app_ids count' total' es vs

unfoldable pub all_app_ids : List VerifiedApplicationAppIds → List (List ℕ)
all_app_ids [] = []
all_app_ids (v ∷ vs) = v.app_ids ++ all_app_ids vs

-- `windows(2).any(|pair| pair[0] == pair[1])`
unfoldable pub adjacent_equal : List (List ℕ) → Bool
adjacent_equal [] = false
adjacent_equal (a ∷ []) = false
adjacent_equal (a ∷ b ∷ rest) = text_eq a b || adjacent_equal (b ∷ rest)

-- `VerifiedPolicyAppIds::new`
unfoldable pub new_policy_app_ids :
    Codec → StrictPolicyBundle → List VerifiedApplicationAppIds → Result VerifiedPolicyAppIds
new_policy_app_ids codec policy applications = do
  validate codec policy
  bail_if (not (length applications == length policy.entries))
      "verified application identities do not cover the strict policy"
  sums ← count_app_ids 0 0 policy.entries applications
  bail_if (ltb max_verified_policy_app_id_bytes sums.1)
      "verified WFP application identities exceed their total size limit"
  bail_if (adjacent_equal (sort_by text_lt (all_app_ids applications)))
      "verified WFP application identity is assigned more than once"
  ok (record { applications = applications; app_id_count = sums.0 })
