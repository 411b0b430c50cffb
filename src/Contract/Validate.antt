-- ===== src/Contract/Validate.antt =====
-- Validation of identities, entries and bundles (services/strict-contract/src/lib.rs).
pub mod Laws
use freedom_cloud.Common.{
  ℕ, String, Bool, not, ◌||◌, Option, none, some, List, [], ◌∷◌, ltb, ◌==◌, any, length, is_empty,
}
use freedom_cloud.Fallible.{Result, ok, ◌>>=◌, ◌>>◌, bail, bail_if}
use freedom_cloud.Text.{Text, to_ascii_lowercase, text_eq, eq_ignore_ascii_case}
use freedom_cloud.Contract.Capability.{strict_protocol_version, max_strict_applications}
use freedom_cloud.Contract.Policy.{
  StrictChildIdentity, StrictIdentity, StrictAction, proxy, block, StrictPolicyEntry,
  StrictPolicyBundle,
}
use freedom_cloud.Contract.Codec.{Codec}
use freedom_cloud.Contract.Fields.{
  is_uuid, validate_sha256, validate_windows_executable_path, validate_target_group,
}
use freedom_cloud.Contract.Canonical.{canonical_bytes_unchecked, to_hex}

abbrev pub max_strict_children : ℕ
max_strict_children = 32

abbrev pub max_broker_frame_bytes : ℕ
max_broker_frame_bytes = 1048576

-- `BTreeSet<String>`: its elements, and `insert` that fails with `message` on a duplicate.
unfoldable pub contains : List Text → Text → Bool
unfolding text_eq
contains seen t = any (λ s. text_eq s t) seen

abbrev pub insert_new : List Text → Text → String → Result (List Text)
insert_new seen t message = do bail_if (contains seen t) message; ok (t ∷ seen)

unfoldable pub validate_children :
    StrictIdentity → List Text → List StrictChildIdentity → Result Unit
validate_children identity seen [] = ok tt
validate_children identity seen (child ∷ rest) = do
  validate_windows_executable_path child.canonical_path
  validate_sha256 child.wfp_app_id_sha256
  validate_sha256 child.publisher_certificate_sha256
  bail_if
      (not (
        eq_ignore_ascii_case child.publisher_certificate_sha256
          identity.publisher_certificate_sha256))
      "strict child publisher does not match its primary identity"
  seen' ←
      insert_new seen (to_ascii_lowercase child.wfp_app_id_sha256)
        "strict application family contains a duplicate child identity"
  validate_children identity seen' rest

unfoldable pub validate_identity : StrictIdentity → Result Unit
unfolding validate_children
validate_identity identity = do
  bail_if (not (is_uuid identity.identity_id)) "strict identity ID must be a canonical UUID"
  validate_windows_executable_path identity.canonical_path
  validate_sha256 identity.wfp_app_id_sha256
  validate_sha256 identity.publisher_certificate_sha256
  bail_if (ltb max_strict_children (length identity.verified_children))
      "strict application family exceeds its children"
  validate_children identity [] identity.verified_children

unfoldable pub validate_target : StrictAction → Option Text → Result Unit
validate_target proxy (some target) = validate_target_group target
validate_target block none = ok tt
validate_target proxy none = bail "strict proxy action requires a target group"
validate_target block (some target) = bail "strict block action cannot have a target group"

unfoldable pub validate_entry : StrictPolicyEntry → Result Unit
unfolding validate_target
validate_entry entry = do
  validate_identity entry.identity
  validate_target entry.action entry.target_group

unfoldable pub insert_children : List Text → List StrictChildIdentity → Result (List Text)
insert_children app_ids [] = ok app_ids
insert_children app_ids (child ∷ rest) = do
  app_ids' ←
      insert_new app_ids (to_ascii_lowercase child.wfp_app_id_sha256)
        "strict policy contains an ambiguous child WFP application identity"
  insert_children app_ids' rest

-- The loop over the entries, with the two sets that it fills.
unfoldable pub validate_entries : List Text → List Text → List StrictPolicyEntry → Result Unit
validate_entries identities app_ids [] = ok tt
validate_entries identities app_ids (entry ∷ rest) = do
  validate_entry entry
  identities' ←
      insert_new identities (to_ascii_lowercase entry.identity.identity_id)
        "strict policy contains a duplicate identity ID"
  app_ids' ←
      insert_new app_ids (to_ascii_lowercase entry.identity.wfp_app_id_sha256)
        "strict policy contains an ambiguous WFP application identity"
  app_ids'' ← insert_children app_ids' entry.identity.verified_children
  validate_entries identities' app_ids'' rest

abbrev bundle_of : ℕ → List StrictPolicyEntry → StrictPolicyBundle
bundle_of revision entries = record {
  protocol = strict_protocol_version;
  revision = revision;
  entries = entries;
}

module _ (codec : Codec) where
  -- `StrictPolicyBundle::validate`
  unfoldable pub validate : StrictPolicyBundle → Result Unit
  validate bundle = do
    bail_if (not (bundle.protocol == strict_protocol_version)) "unsupported strict policy protocol"
    bail_if (bundle.revision == 0) "strict policy revision must be positive"
    bail_if (is_empty bundle.entries || ltb max_strict_applications (length bundle.entries))
        "strict policy must contain between 1 and 128 apps"
    validate_entries [] [] bundle.entries
    encoded ← canonical_bytes_unchecked codec bundle
    bail_if (ltb max_broker_frame_bytes (length encoded))
        "strict policy exceeds the Broker frame limit"

  unfoldable pub canonical_bytes : StrictPolicyBundle → Result (List ℕ)
  canonical_bytes bundle = do validate bundle; canonical_bytes_unchecked codec bundle

  unfoldable pub canonical_digest : StrictPolicyBundle → Result Text
  canonical_digest bundle = do encoded ← canonical_bytes bundle; ok (to_hex (codec.sha256 encoded))

  unfoldable pub new_bundle : ℕ → List StrictPolicyEntry → Result StrictPolicyBundle
  new_bundle revision entries = do
    validate (bundle_of revision entries)
    ok (bundle_of revision entries)
