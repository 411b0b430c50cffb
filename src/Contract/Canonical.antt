-- ===== src/Contract/Canonical.antt =====
-- The canonical form of a policy and its digest (`canonical_bytes_unchecked`).
use freedom_cloud.Common.{
  ℕ, ◌+◌, ◌-◌, ◌/◌, ◌%◌, Bool, ◌&&◌, ◌||◌, List, [], ◌∷◌, ltb, if◌then◌else◌, map,
}
use freedom_cloud.Fallible.{Result}
use freedom_cloud.Text.{Text, to_ascii_lowercase, text_lt, text_eq}
use freedom_cloud.Contract.Policy.{StrictChildIdentity, StrictPolicyEntry, StrictPolicyBundle}
use freedom_cloud.Contract.Codec.{Codec}

module _ {ℓ} {A : Type ℓ} (lt : A → A → Bool) where
  -- `slice::sort_by`, which is stable; `lt` is the comparator's answer `Less`.
  unfoldable pub insert_sorted : A → List A → List A
  insert_sorted x [] = x ∷ []
  insert_sorted x (y ∷ ys) = if lt y x then y ∷ insert_sorted x ys else x ∷ y ∷ ys

  unfoldable pub sort_by : List A → List A
  unfolding insert_sorted
  sort_by [] = []
  sort_by (x ∷ xs) = insert_sorted x (sort_by xs)

unfoldable pub child_lt : StrictChildIdentity → StrictChildIdentity → Bool
unfolding to_ascii_lowercase text_lt text_eq
child_lt left right =
    let a = to_ascii_lowercase left.wfp_app_id_sha256 in
    let b = to_ascii_lowercase right.wfp_app_id_sha256 in
    text_lt a b
    || (text_eq a b
        && text_lt (to_ascii_lowercase left.canonical_path)
            (to_ascii_lowercase right.canonical_path))

unfoldable pub entry_lt : StrictPolicyEntry → StrictPolicyEntry → Bool
unfolding to_ascii_lowercase text_lt
entry_lt left right =
    text_lt (to_ascii_lowercase left.identity.identity_id)
      (to_ascii_lowercase right.identity.identity_id)

unfoldable pub sort_children : StrictPolicyEntry → StrictPolicyEntry
unfolding sort_by child_lt
sort_children entry = record entry {
  identity = record entry.identity {
    verified_children = sort_by child_lt entry.identity.verified_children;
  };
}

unfoldable pub normalized : StrictPolicyBundle → StrictPolicyBundle
unfolding sort_by entry_lt sort_children
normalized bundle = record bundle { entries = map sort_children (sort_by entry_lt bundle.entries) }

unfoldable pub canonical_bytes_unchecked : Codec → StrictPolicyBundle → Result (List ℕ)
unfolding normalized
canonical_bytes_unchecked codec bundle = codec.policy_to_vec (normalized bundle)

abbrev pub hex_digit : ℕ → ℕ
hex_digit n = if ltb n 10 then b'0' + n else b'a' + (n - 10)

-- `format!("{:x}", digest)`
unfoldable pub to_hex : List ℕ → Text
to_hex [] = []
to_hex (b ∷ bs) = hex_digit (b / 16) ∷ hex_digit (b % 16) ∷ to_hex bs
