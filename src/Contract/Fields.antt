-- ===== src/Contract/Fields.antt =====
-- The checks of single fields (services/strict-contract/src/lib.rs).
use freedom_cloud.Common.{
  ℕ, suc, Bool, true, false, not, ◌&&◌, ◌||◌, none, some, List, [], ◌∷◌, ltb, leb, ◌==◌, any,
  get_elem?, length, if◌then◌else◌,
}
use freedom_cloud.Fallible.{Result, ◌>>◌, bail_if}
use freedom_cloud.Text.{
  Text, codes, len, bytes, is_ascii_hexdigit, is_ascii_uppercase, to_ascii_lowercase, text_eq,
  starts_with, ends_with, contains_any, split, trim,
}
use freedom_cloud.Contract.Capability.{is_sha256}

-- The hyphens of a UUID stand at four places, all other bytes are hexadecimal.
uuid_byte : ℕ → ℕ → Bool
uuid_byte index byte =
    if index == 8 || index == 13 || index == 18 || index == 23
    then byte == b'-'
    else is_ascii_hexdigit byte

uuid_bytes : ℕ → List ℕ → Bool
unfolding uuid_byte
uuid_bytes index [] = true
uuid_bytes index (byte ∷ rest) = uuid_byte index byte && uuid_bytes (suc index) rest

unfoldable pub is_uuid : Text → Bool
unfolding uuid_bytes
is_uuid value = len value == 36 && uuid_bytes 0 (bytes value)

unfoldable pub validate_sha256 : Text → Result Unit
validate_sha256 value =
    bail_if (not (is_sha256 value)) "a digest must be a 64-character SHA-256 value"

abbrev byte_is : List ℕ → ℕ → (ℕ → Bool) → Bool
byte_is bs i p = elim (get_elem? bs i) [ none ↦ false | some b ↦ p b ]

unfoldable pub drive_absolute : Text → Bool
drive_absolute path =
    leb 3 (length (bytes path))
    && byte_is (bytes path) 0 is_ascii_uppercase
    && byte_is (bytes path) 1 (λ b. b == b':')
    && byte_is (bytes path) 2 (λ b. b == 92)

unfoldable pub unc_absolute : Text → Bool
unfolding starts_with
unc_absolute path =
    starts_with path (92 ∷ 92 ∷ []) && not (starts_with path (92 ∷ 92 ∷ b'.' ∷ 92 ∷ []))

unfoldable pub noncanonical_component : Text → Bool
unfolding text_eq ends_with
noncanonical_component part =
    text_eq part (b'.' ∷ [])
    || text_eq part (b'.' ∷ b'.' ∷ [])
    || ends_with part (b' ' ∷ [])
    || ends_with part (b'.' ∷ [])

unfoldable pub validate_windows_executable_path : Text → Result Unit
unfolding drive_absolute unc_absolute noncanonical_component contains_any to_ascii_lowercase
    ends_with split
validate_windows_executable_path path = do
  bail_if
      (ltb (len path) 3
        || ltb 1024 (len path)
        || contains_any path (0 ∷ 13 ∷ 10 ∷ b'/' ∷ [])
        || not (ends_with (to_ascii_lowercase path) (codes ".exe")))
      "strict executable path is not canonical"
  bail_if (not (drive_absolute path) && not (unc_absolute path))
      "strict executable path must be an absolute Windows path"
  bail_if (any noncanonical_component (split 92 path))
      "strict executable path contains a non-canonical component"

unfoldable pub validate_target_group : Text → Result Unit
unfolding text_eq trim contains_any
validate_target_group target =
    bail_if
      (len target == 0
        || ltb 256 (len target)
        || not (text_eq (trim target) target)
        || contains_any target (0 ∷ 13 ∷ 10 ∷ []))
      "strict proxy target group is invalid"
