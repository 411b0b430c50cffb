-- ===== src/Retry/Laws.antt =====
-- Any number of failures is granted exactly the bounded exponential backoff.
use Prim.Native.Nat.{min}
use freedom_cloud.Common.{
  ℕ, zero, suc, ◌-◌, ◌*◌, ◌^◌, ◌<◌, ◌≡◌, refl, ap, ◌∙◌, arith, true, false, ◌||◌, Option, none,
  some, List, [], ◌∷◌, ltb, leb, ◌==◌, if◌then◌else◌, Bool-cases, inl, inr,
}
use freedom_cloud.Retry.{
  StrictRetryDecision, StrictRecoveryRetry, duration_limit, scaled_or, delay_after,
  schedule_failure,
}

prepend : Option StrictRetryDecision → List StrictRetryDecision → List StrictRetryDecision
prepend none rest = rest
prepend (some decision) rest = decision ∷ rest

-- The retries that are granted over a number of failures in a row.
unfoldable pub granted : ℕ → StrictRecoveryRetry → List StrictRetryDecision
unfolding prepend
granted zero r = []
granted (suc failures) r = prepend (schedule_failure r).0 (granted failures (schedule_failure r).1)

-- The specification: from `attempts` earlier ones on, each delay doubles up to `max_delay`.
abbrev pub backoff : ℕ → ℕ → ℕ → ℕ → List StrictRetryDecision
backoff base_delay max_delay attempts zero = []
backoff base_delay max_delay attempts (suc count) =
    record { attempt = suc attempts; delay = min (base_delay * 2 ^ min attempts 31) max_delay }
    ∷ backoff base_delay max_delay (suc attempts) count

delay_after-min :
    (r : StrictRecoveryRetry) (attempts : ℕ)
    → r.max_delay < duration_limit
    → delay_after r attempts ≡ min (r.base_delay * 2 ^ min attempts 31) r.max_delay
unfolding delay_after scaled_or
delay_after-min r attempts p = capped (r.base_delay * 2 ^ min attempts 31) r.max_delay p
  where
    capped :
        (x m : ℕ) → m < duration_limit → min (if ltb x duration_limit then x else m) m ≡ min x m
    capped x m q = ground arith

granted-exhausted :
    (failures : ℕ) (r : StrictRecoveryRetry)
    → (leb r.max_attempts r.attempts || r.max_attempts == 0) ≡ true
    → granted failures r ≡ []
unfolding granted schedule_failure prepend
granted-exhausted zero r p = refl
granted-exhausted (suc failures) r p =
    rw p (granted-exhausted failures (record r { next_delay = none }) p)

-- With a max delay that is a duration, however many failures follow each other, what is granted is
-- the exponential backoff, its exponent at most 31, up to that delay, cut to the attempts that are left.
pub granted-backoff :
    (failures : ℕ) (r : StrictRecoveryRetry)
    → r.max_delay < duration_limit
    → granted failures r
      ≡ backoff r.base_delay r.max_delay r.attempts (min failures (r.max_attempts - r.attempts))
unfolding granted schedule_failure prepend
granted-backoff zero r p = ap (λ n. backoff r.base_delay r.max_delay r.attempts n) zero_min
  where
    zero_min : 0 ≡ min 0 (r.max_attempts - r.attempts)
    zero_min = omega arith
granted-backoff (suc failures) r p =
    elim (Bool-cases (leb r.max_attempts r.attempts || r.max_attempts == 0)) [
      | inl over ↦
          granted-exhausted (suc failures) r over
          ∙ ap (λ n. backoff r.base_delay r.max_delay r.attempts n) (none_left over)
      | inr left ↦ rw left (
          ap (λ d. record { attempt = suc r.attempts; delay = d } ∷ granted failures (next r))
            (delay_after-min r r.attempts p)
          ∙ ap (λ rest. first ∷ rest) (granted-backoff failures (next r) p)
          ∙ ap (λ n. backoff r.base_delay r.max_delay r.attempts n) (one_less left))
    ]
  where
    next : StrictRecoveryRetry → StrictRecoveryRetry
    next r = record r { attempts = suc r.attempts; next_delay = some (delay_after r r.attempts) }

    first : StrictRetryDecision
    first = record {
      attempt = suc r.attempts;
      delay = min (r.base_delay * 2 ^ min r.attempts 31) r.max_delay;
    }

    none_left :
        (leb r.max_attempts r.attempts || r.max_attempts == 0) ≡ true
        → 0 ≡ min (suc failures) (r.max_attempts - r.attempts)
    none_left over = ground arith

    one_less :
        (leb r.max_attempts r.attempts || r.max_attempts == 0) ≡ false
        → suc (min failures (r.max_attempts - suc r.attempts))
          ≡ min (suc failures) (r.max_attempts - r.attempts)
    one_less left = ground arith
