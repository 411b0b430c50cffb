-- ===== src/Package/Checks.antt =====
-- What a manifest that parses has passed.
use mathlib.Core.Path.{subst}
use freedom_cloud.Common.{
  ℕ, String, ◌≡◌, ◌≤◌, ap, ◌∙◌, true, false, List, length, all, ◌==◌, ==_iff, or-eq_false,
  not-eq_false, ltb-eq_false, ==_zero-eq_false,
}
use freedom_cloud.Fallible.{
  Result, ok, ◌>>=◌, ◌>>◌, with_context, with_context-eq-ok, >>-eq-ok, >>=-eq-ok, bail_if-eq-ok,
  bail_if->>-eq-ok, ok-injective,
}
use freedom_cloud.Text.{Text, bytes, len, is_ascii_hexdigit}
use freedom_cloud.Package.{
  StrictPackageManifest, validate_hex, validate_manifest, parse_manifest,
  max_package_manifest_bytes,
}

-- Hexadecimal digits of the given number, not all of them zero.
pub record IsHex (value : Text) (n : ℕ) : Type 0 where
  pub hex_length : len value ≡ n
  pub hex_digits : all is_ascii_hexdigit (bytes value) ≡ true
  pub hex_nonzero : all (λ byte. byte == b'0') (bytes value) ≡ false

pub record IsPackage (m : StrictPackageManifest) : Type 0 where
  pub of_protocol : m.protocol ≡ 2
  pub version_given : 1 ≤ len m.package_version
  pub version_short : len m.package_version ≤ 64
  pub of_driver_build_id : IsHex m.driver_build_id 32
  pub of_driver_file : IsHex m.driver_file_sha256 64
  pub of_driver_publisher : IsHex m.driver_publisher_certificate_sha256 64
  pub of_agent_file : IsHex m.agent_file_sha256 64
  pub of_agent_publisher : IsHex m.agent_publisher_certificate_sha256 64
  pub of_core_file : IsHex m.core_file_sha256 64
  pub of_core_publisher : IsHex m.core_publisher_certificate_sha256 64

validate_hex-IsHex :
    (value : Text) (n : ℕ) (label : String) → validate_hex value n label ≡ ok tt → IsHex value n
unfolding validate_hex
validate_hex-IsHex value n label h =
    let chain = bail_if-eq-ok _ label h in
    let (shape, nonzero) = or-eq_false _ _ chain in
    let (sized, digits) = or-eq_false _ _ shape in
    record {
      hex_length = (==_iff _ n).0 (not-eq_false _ sized);
      hex_digits = not-eq_false _ digits;
      hex_nonzero = nonzero;
    }

validate_manifest-IsPackage :
    (m : StrictPackageManifest) → validate_manifest m ≡ ok tt → IsPackage m
unfolding validate_manifest
validate_manifest-IsPackage m h =
    let (p, h1) = bail_if->>-eq-ok _ _ _ h in
    let (v, h2) = bail_if->>-eq-ok _ _ _ h1 in
    let (a, h3) = >>-eq-ok _ _ h2 in
    let (b, h4) = >>-eq-ok _ _ h3 in
    let (c, h5) = >>-eq-ok _ _ h4 in
    let (d, h6) = >>-eq-ok _ _ h5 in
    let (e, h7) = >>-eq-ok _ _ h6 in
    let (f, h8) = >>-eq-ok _ _ h7 in
    let (g, h9) = >>-eq-ok _ _ h8 in
    let v1 = (or-eq_false _ _ (or-eq_false _ _ v).0).0 in
    record {
      of_protocol = (==_iff _ 2).0 (not-eq_false _ p);
      version_given = ==_zero-eq_false _ (or-eq_false _ _ v1).0;
      version_short = ltb-eq_false 64 _ (or-eq_false _ _ v1).1;
      of_driver_build_id = validate_hex-IsHex _ _ _ a;
      of_driver_file = validate_hex-IsHex _ _ _ b;
      of_driver_publisher = validate_hex-IsHex _ _ _ c;
      of_agent_file = validate_hex-IsHex _ _ _ d;
      of_agent_publisher = validate_hex-IsHex _ _ _ e;
      of_core_file = validate_hex-IsHex _ _ _ f;
      of_core_publisher = validate_hex-IsHex _ _ _ g;
    }

abbrev source : (List ℕ → Result StrictPackageManifest) → List ℕ → Result StrictPackageManifest
source from_slice bytes = with_context "parse embedded strict package manifest" (from_slice bytes)

abbrev checked : StrictPackageManifest → Result StrictPackageManifest
checked m = validate_manifest m >> ok m

-- A manifest that parses was read from 1 to 16384 bytes; its protocol is 2, its version has 1 to 64 characters, and its build
-- id and its six digests are hexadecimal of their length and not zero.
pub parse_manifest-IsPackage :
    (from_slice : List ℕ → Result StrictPackageManifest) (bytes : List ℕ)
    (m : StrictPackageManifest)
    → parse_manifest from_slice bytes ≡ ok m
    → (from_slice bytes ≡ ok m)
      × (1 ≤ length bytes)
      × (length bytes ≤ max_package_manifest_bytes)
      × IsPackage m
unfolding parse_manifest
parse_manifest-IsPackage from_slice bytes m h =
    let (size, h1) = bail_if->>-eq-ok _ _ (source from_slice bytes >>= checked) h in
    let (m', read, h2) = >>=-eq-ok (source from_slice bytes) checked h1 in
    let (valid, h3) = >>-eq-ok (validate_manifest m') (ok m') h2 in
    let same = ok-injective m' m h3 in
    let (given, short) = or-eq_false _ _ size in
    (
      with_context-eq-ok _ _ m (read ∙ ap ok same),
      ==_zero-eq_false _ given,
      ltb-eq_false max_package_manifest_bytes _ short,
      subst IsPackage same (validate_manifest-IsPackage m' valid),
    )
