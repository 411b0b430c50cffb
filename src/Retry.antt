-- ===== src/Retry.antt =====
-- `StrictRecoveryRetry` (services/agent/src/strict_retry.rs): the bounded backoff of recovery.
-- A `Duration` is its number of nanoseconds.
pub mod Laws
use Prim.Native.Nat.{min}
use freedom_cloud.Common.{
  ℕ, zero, suc, ◌+◌, ◌-◌, ◌*◌, ◌^◌, Bool, true, false, ◌||◌, Option, none, some, List, [], ◌∷◌, ltb,
  leb, ◌==◌, if◌then◌else◌,
}

pub record StrictRetryDecision : Type 0 where
  pub attempt : ℕ
  pub delay : ℕ

pub record StrictRecoveryDiagnostics : Type 0 where
  pub attempts : ℕ
  pub exhausted : Bool
  pub next_delay : Option ℕ

pub record StrictRecoveryRetry : Type 0 where
  pub attempts : ℕ
  pub max_attempts : ℕ
  pub base_delay : ℕ
  pub max_delay : ℕ
  pub next_delay : Option ℕ

-- The nanoseconds of 2 ^ 64 seconds, which no duration reaches.
abbrev pub duration_limit : ℕ
duration_limit = 2 ^ 64 * 1_000_000_000

-- `base_delay.checked_mul(multiplier).unwrap_or(max_delay)`
unfoldable pub scaled_or : ℕ → ℕ → ℕ → ℕ
scaled_or base_delay multiplier max_delay =
    if ltb (base_delay * multiplier) duration_limit then base_delay * multiplier else max_delay

abbrev pub new_retry : ℕ → ℕ → ℕ → StrictRecoveryRetry
new_retry max_attempts base_delay max_delay = record {
  attempts = 0;
  max_attempts = max_attempts;
  base_delay = base_delay;
  max_delay = max_delay;
  next_delay = none;
}

-- `StrictRecoveryRetry::default()`
abbrev pub default_retry : StrictRecoveryRetry
default_retry = new_retry 5 1_000_000_000 16_000_000_000

-- The delay of the attempt that follows `attempts` earlier ones.
unfoldable pub delay_after : StrictRecoveryRetry → ℕ → ℕ
unfolding scaled_or
delay_after r attempts = min (scaled_or r.base_delay (2 ^ min attempts 31) r.max_delay) r.max_delay

unfoldable pub schedule_failure :
    StrictRecoveryRetry → Option StrictRetryDecision × StrictRecoveryRetry
unfolding delay_after
schedule_failure r =
    if leb r.max_attempts r.attempts || r.max_attempts == 0
    then (none, record r { next_delay = none })
    else (
      some (record { attempt = suc r.attempts; delay = delay_after r r.attempts }),
      record r { attempts = suc r.attempts; next_delay = some (delay_after r r.attempts) },
    )

unfoldable pub started : StrictRecoveryRetry → StrictRecoveryRetry
started r = record r { next_delay = none }

unfoldable pub reset : StrictRecoveryRetry → StrictRecoveryRetry
reset r = record r { attempts = 0; next_delay = none }

unfoldable pub retry_diagnostics : StrictRecoveryRetry → StrictRecoveryDiagnostics
retry_diagnostics r = record {
  attempts = r.attempts;
  exhausted = leb r.max_attempts r.attempts;
  next_delay = r.next_delay;
}
