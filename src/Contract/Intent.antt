-- ===== src/Contract/Intent.antt =====
-- `StrictIntent::new` (services/strict-contract/src/lib.rs).
use freedom_cloud.Common.{ℕ, ◌+◌, ◌^◌, Option, none, some, not, ◌||◌, ltb, ◌==◌, if◌then◌else◌}
use freedom_cloud.Fallible.{Result, ok, ◌>>=◌, ◌>>◌, bail_if, ok_or}
use freedom_cloud.Text.{Text, to_ascii_lowercase}
use freedom_cloud.Contract.Capability.{
  StrictIntent, is_sha256, max_strict_applications, required_for_block_only, required_for_proxy,
}

-- `usize::checked_add` on a 64-bit target.
abbrev pub checked_add : ℕ → ℕ → Option ℕ
checked_add a b = if ltb (a + b) (2 ^ 64) then some (a + b) else none

unfoldable pub new_intent : ℕ → Text → ℕ → ℕ → Result StrictIntent
new_intent revision policy_digest proxy_application_count blocked_application_count = do
  application_count ←
      ok_or (checked_add proxy_application_count blocked_application_count)
        "strict application count overflow"
  bail_if (revision == 0) "strict policy revision must be positive"
  bail_if (not (is_sha256 policy_digest))
      "strict policy digest must be a 64-character SHA-256 value"
  bail_if (application_count == 0 || ltb max_strict_applications application_count)
      "strict policy must contain between 1 and 128 apps"
  ok (record {
    revision = revision;
    policy_digest = to_ascii_lowercase policy_digest;
    proxy_application_count = proxy_application_count;
    blocked_application_count = blocked_application_count;
    required_capabilities =
        if proxy_application_count == 0 then required_for_block_only else required_for_proxy;
  })
