-- ===== src/Fallible.antt =====
-- `anyhow::Result` and `anyhow::Error`. An error keeps its message, the context that was put
-- around it, and the typed cause that `downcast_ref` can find again.
use freedom_cloud.Common.{String, ◌≡◌, refl, Bool, true, false, Option, none, some}

-- `enum CanaryFailure` (services/strict-broker/src/windows_canary.rs)
pub data CanaryFailure : Type 0 where
  network timeout dns_mapping dns_restoration : CanaryFailure

pub data Error : Type 0 where
  message : String → Error
  canary : CanaryFailure → Error
  context : String → Error → Error
  -- a new message that prints two errors, neither of which can be downcast any more
  joined : String → Error → Error → Error

pub data Result (A : Type 0) : Type 0 where
  ok : A → Result A
  err : Error → Result A

-- The operator `?` and the rest of the block after it.
infixl 5 ◌>>=◌ ◌>>◌
abbrev pub ◌>>=◌ : {A B : Type 0} → Result A → (A → Result B) → Result B
err failure >>= rest = err failure
ok value >>= rest = rest value

abbrev pub ◌>>◌ : {B : Type 0} → Result Unit → Result B → Result B
check >> rest = check >>= λ _. rest

abbrev pub bail : {A : Type 0} → String → Result A
bail s = err (message s)

-- `if failed { bail!(s) }`
abbrev pub bail_if : Bool → String → Result Unit
bail_if true s = bail s
bail_if false s = ok tt

-- `.ok_or_else(|| anyhow!(s))?`
abbrev pub ok_or : {A : Type 0} → Option A → String → Result A
ok_or none s = bail s
ok_or (some a) s = ok a

abbrev pub with_context : {A : Type 0} → String → Result A → Result A
with_context s (ok a) = ok a
with_context s (err e) = err (context s e)

abbrev pub is_ok : {A : Type 0} → Result A → Bool
is_ok (ok _) = true
is_ok (err _) = false

-- What a block that ended with `Ok` has gone through.
pub >>=-eq-ok :
    {A B : Type 0} (step : Result A) (rest : A → Result B) {last : B}
    → (step >>= rest) ≡ ok last
    → (value : A) × (step ≡ ok value) × (rest value ≡ ok last)
>>=-eq-ok (err failure) rest p = cc
>>=-eq-ok (ok value) rest p = (value, refl, p)

pub >>-eq-ok :
    {B : Type 0} (check : Result Unit) (rest : Result B) {last : B}
    → (check >> rest) ≡ ok last
    → (check ≡ ok tt) × (rest ≡ ok last)
>>-eq-ok (err failure) rest p = cc
>>-eq-ok (ok _) rest p = (refl, p)

pub bail_if-eq-ok : (b : Bool) (s : String) → bail_if b s ≡ ok tt → b ≡ false
bail_if-eq-ok true s h = cc
bail_if-eq-ok false s h = refl

pub with_context-eq-ok :
    {A : Type 0} (note : String) (r : Result A) (a : A) → with_context note r ≡ ok a → r ≡ ok a
with_context-eq-ok note (ok x) a e = e
with_context-eq-ok note (err x) a e = cc

pub ok-injective : {A : Type 0} (a b : A) → ok a ≡ ok b → a ≡ b
ok-injective a b e = cc

-- The same for a test at the front of the block.
pub bail_if->>-eq-ok :
    {B : Type 0} (b : Bool) (s : String) (rest : Result B) {last : B}
    → (bail_if b s >> rest) ≡ ok last
    → (b ≡ false) × (rest ≡ ok last)
bail_if->>-eq-ok true s rest p = cc
bail_if->>-eq-ok false s rest p = (refl, p)
