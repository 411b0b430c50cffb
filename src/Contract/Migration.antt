-- ===== src/Contract/Migration.antt =====
-- `validate_identity_migration` (services/strict-contract/src/lib.rs).
pub mod Laws
use freedom_cloud.Common.{
  Bool, true, false, not, ◌&&◌, ◌||◌, Option, none, some, List, [], ◌∷◌, leb, ◌==◌, any, length,
  if◌then◌else◌,
}
use freedom_cloud.Fallible.{Result, ok, ◌>>=◌, ◌>>◌, bail_if, ok_or}
use freedom_cloud.Text.{Text, text_eq, eq_ignore_ascii_case}
use freedom_cloud.Contract.Policy.{
  StrictChildIdentity, StrictIdentity, StrictAction, proxy, block, StrictPolicyEntry,
  StrictPolicyBundle,
}
use freedom_cloud.Contract.Codec.{Codec}
use freedom_cloud.Contract.Validate.{validate}

abbrev pub same_action : StrictAction → StrictAction → Bool
same_action proxy proxy = true
same_action block block = true
same_action _ _ = false

abbrev pub same_target : Option Text → Option Text → Bool
same_target none none = true
same_target (some s) (some t) = text_eq s t
same_target _ _ = false

-- `entries.iter().find(|entry| entry.identity.identity_id == id)`
unfoldable pub find_identity : Text → List StrictPolicyEntry → Option StrictPolicyEntry
find_identity id [] = none
find_identity id (entry ∷ rest) =
    if text_eq entry.identity.identity_id id then some entry else find_identity id rest

unfoldable pub child_is : Text → Text → Text → StrictChildIdentity → Bool
child_is path app_id publisher child =
    eq_ignore_ascii_case child.canonical_path path
    && eq_ignore_ascii_case child.wfp_app_id_sha256 app_id
    && eq_ignore_ascii_case child.publisher_certificate_sha256 publisher

-- The closure `contains`: the new identity, or one of its children, is the old executable.
unfoldable pub family_contains : StrictIdentity → Text → Text → Text → Bool
unfolding child_is
family_contains next path app_id publisher =
    (eq_ignore_ascii_case next.canonical_path path
      && eq_ignore_ascii_case next.wfp_app_id_sha256 app_id
      && eq_ignore_ascii_case next.publisher_certificate_sha256 publisher)
    || any (child_is path app_id publisher) next.verified_children

unfoldable pub retains_child : StrictIdentity → StrictChildIdentity → Bool
retains_child next child =
    family_contains next child.canonical_path child.wfp_app_id_sha256
      child.publisher_certificate_sha256

-- One round of the loop over the old entries.
unfoldable pub migrate_entry : List StrictPolicyEntry → StrictPolicyEntry → Result Unit
migrate_entry entries previous = do
  next ←
      ok_or (find_identity previous.identity.identity_id entries)
        "strict migration cannot remove an application"
  bail_if
      (not (same_action next.action previous.action)
        || not (same_target next.target_group previous.target_group)
        || not (
            eq_ignore_ascii_case next.identity.publisher_certificate_sha256
              previous.identity.publisher_certificate_sha256))
      "strict migration cannot change action, target or publisher"
  bail_if
      (not (
          family_contains next.identity previous.identity.canonical_path
            previous.identity.wfp_app_id_sha256 previous.identity.publisher_certificate_sha256)
        || any (λ child. not (retains_child next.identity child))
            previous.identity.verified_children)
      "strict migration must retain every previously guarded identity"

unfoldable pub migrate_entries : List StrictPolicyEntry → List StrictPolicyEntry → Result Unit
migrate_entries entries [] = ok tt
migrate_entries entries (previous ∷ rest) = do
  migrate_entry entries previous
  migrate_entries entries rest

unfoldable pub validate_identity_migration :
    Codec → StrictPolicyBundle → StrictPolicyBundle → Result Unit
validate_identity_migration codec old policy = do
  validate codec old
  validate codec policy
  bail_if (leb policy.revision old.revision || not (length policy.entries == length old.entries))
      "strict migration must advance revision and retain application count"
  migrate_entries policy.entries old.entries
