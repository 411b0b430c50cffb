-- ===== src/Package.antt =====
-- The manifest of the signed package (services/strict-broker/src/package_manifest.rs). `serde_json`
-- is a parameter.
pub mod Checks
use freedom_cloud.Common.{ℕ, ◌*◌, String, Bool, not, ◌||◌, List, length, all, ltb, ◌==◌}
use freedom_cloud.Fallible.{Result, ok, ◌>>=◌, ◌>>◌, bail_if, with_context}
use freedom_cloud.Text.{Text, bytes, len, is_ascii_hexdigit, is_ascii_alphanumeric}

abbrev package_manifest_protocol : ℕ
package_manifest_protocol = 2

abbrev pub max_package_manifest_bytes : ℕ
max_package_manifest_bytes = 16 * 1024

pub record StrictPackageManifest : Type 0 where
  pub protocol : ℕ
  pub package_version : Text
  pub driver_build_id : Text
  pub driver_file_sha256 : Text
  pub driver_publisher_certificate_sha256 : Text
  pub agent_file_sha256 : Text
  pub agent_publisher_certificate_sha256 : Text
  pub core_file_sha256 : Text
  pub core_publisher_certificate_sha256 : Text

-- The label comes with the words around it.
unfoldable pub validate_hex : Text → ℕ → String → Result Unit
validate_hex value length label =
    bail_if
      (not (len value == length)
        || not (all is_ascii_hexdigit (bytes value))
        || all (λ byte. byte == b'0') (bytes value))
      label

abbrev is_version_byte : ℕ → Bool
is_version_byte byte = is_ascii_alphanumeric byte || byte == b'.' || byte == b'+' || byte == b'-'

-- `StrictPackageManifest::validate`
unfoldable pub validate_manifest : StrictPackageManifest → Result Unit
validate_manifest manifest = do
  bail_if (not (manifest.protocol == package_manifest_protocol))
      "unsupported strict package manifest protocol"
  bail_if
      (len manifest.package_version == 0
        || ltb 64 (len manifest.package_version)
        || not (all (λ c. ltb c 128) manifest.package_version)
        || not (all is_version_byte (bytes manifest.package_version)))
      "strict package version is invalid"
  validate_hex manifest.driver_build_id 32 "strict package driver build ID is invalid"
  validate_hex manifest.driver_file_sha256 64 "strict package driver file digest is invalid"
  validate_hex manifest.driver_publisher_certificate_sha256 64
      "strict package driver publisher certificate digest is invalid"
  validate_hex manifest.agent_file_sha256 64 "strict package Agent file digest is invalid"
  validate_hex manifest.agent_publisher_certificate_sha256 64
      "strict package Agent publisher certificate digest is invalid"
  validate_hex manifest.core_file_sha256 64 "strict package Core file digest is invalid"
  validate_hex manifest.core_publisher_certificate_sha256 64
      "strict package Core publisher certificate digest is invalid"
  ok tt

-- `StrictPackageManifest::parse`
unfoldable pub parse_manifest :
    (List ℕ → Result StrictPackageManifest) → List ℕ → Result StrictPackageManifest
parse_manifest from_slice bytes = do
  bail_if (length bytes == 0 || ltb max_package_manifest_bytes (length bytes))
      "strict package manifest size is invalid"
  manifest ← with_context "parse embedded strict package manifest" (from_slice bytes)
  validate_manifest manifest
  ok manifest
