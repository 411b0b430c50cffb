-- ===== src/Tests/Package.antt =====
-- A package manifest.
use freedom_cloud.Common.{ℕ, ◌≡◌, ◌≤◌, refl, List, [], ◌∷◌, length, replicate}
use freedom_cloud.Fallible.{Result, ok, bail}
use freedom_cloud.Package.{
  StrictPackageManifest, validate_hex, validate_manifest, parse_manifest,
  max_package_manifest_bytes,
}
use freedom_cloud.Package.Checks.{IsPackage, parse_manifest-IsPackage}

abbrev released : StrictPackageManifest
released = record {
  protocol = 2;
  package_version = b'1' ∷ b'.' ∷ b'2' ∷ b'-' ∷ b'm' ∷ b'3' ∷ [];
  driver_build_id = replicate 32 b'1';
  driver_file_sha256 = replicate 64 b'2';
  driver_publisher_certificate_sha256 = replicate 64 b'3';
  agent_file_sha256 = replicate 64 b'4';
  agent_publisher_certificate_sha256 = replicate 64 b'a';
  core_file_sha256 = replicate 64 b'B';
  core_publisher_certificate_sha256 = replicate 64 b'f';
}

abbrev embedded : List ℕ
embedded = b'{' ∷ b'}' ∷ []

-- A reader that knows one text.
abbrev one_text : List ℕ → Result StrictPackageManifest
one_text [] = bail "expected value"
one_text (_ ∷ rest) = ok released

parse_manifest-IsPackage_example :
    (one_text embedded ≡ ok released)
    × (1 ≤ length embedded)
    × (length embedded ≤ max_package_manifest_bytes)
    × IsPackage released
unfolding parse_manifest validate_manifest validate_hex
parse_manifest-IsPackage_example = parse_manifest-IsPackage one_text embedded released refl
