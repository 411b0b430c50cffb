-- ===== src/Bits.antt =====
-- The binary digits of a number, and what `&`, `|` and `^` do to each of them. The native
-- operations have no laws at variables but their definition by digits.
pub mod Shift
use Prim.Native.Nat.{
  min, max, pred, differ, bit_and, bit_or, bit_xor, digits, bit_and-bitwise, bit_or-bitwise,
  bit_xor-bitwise,
}
use freedom_cloud.Common.{
  ℕ, zero, suc, ◌+◌, ◌-◌, ◌*◌, ◌/◌, ◌%◌, ◌^◌, ◌≤◌, ◌<◌, ◌≡◌, ◌≢◌, refl, ap, ◌∙◌, sym, arith, ◌⊎◌,
  inl, inr,
}

-- The digit of weight 2 ^ k.
abbrev pub digit : ℕ → ℕ → ℕ
digit n zero = n % 2
digit n (suc k) = digit (n / 2) k

module _ (over_zero : ℕ → ℕ) (op : ℕ → ℕ → ℕ) where
  -- Once there is a unit of fuel for each unit of the first number, one more changes nothing.
  spare_unit : (a n b : ℕ) → a ≤ n → digits over_zero op (suc n) a b ≡ digits over_zero op n a b
  spare_unit a zero b enough = rw (none_left a enough) refl
    where
      none_left : (k : ℕ) → k ≤ 0 → k ≡ 0
      none_left k p = omega arith
  spare_unit zero (suc n) b enough = refl
  spare_unit (suc a) (suc n) b enough =
      ap (λ high. high * 2 + op (suc a % 2) (b % 2))
        (spare_unit (suc a / 2) n (b / 2) (omega arith))

  spare :
      (extra n m a b : ℕ)
      → a ≤ n
      → m ≡ extra + n
      → digits over_zero op m a b ≡ digits over_zero op n a b
  spare zero n m a b enough at = ap (λ fuel. digits over_zero op fuel a b) (omega arith)
  spare (suc extra) n zero a b enough at = absurd (omega arith)
  spare (suc extra) n (suc m) a b enough at =
      spare_unit a m b (omega arith) ∙ spare extra n m a b enough (omega arith)

  half_fuel : (n a b : ℕ) → a ≤ n → digits over_zero op n a b ≡ digits over_zero op a a b
  half_fuel n a b enough = spare (n - a) a n a b (omega arith) (omega arith)

  digits_step :
      ((b : ℕ) → over_zero b ≡ over_zero (b / 2) * 2 + op 0 (b % 2))
      → (a b : ℕ)
      → digits over_zero op a a b
        ≡ digits over_zero op (a / 2) (a / 2) (b / 2) * 2 + op (a % 2) (b % 2)
  digits_step base zero b = base b
  digits_step base (suc a) b =
      ap (λ high. high * 2 + op (suc a % 2) (b % 2)) (half_fuel a (suc a / 2) (b / 2) (omega arith))

pub bit_and_step : (a b : ℕ) → bit_and a b ≡ bit_and (a / 2) (b / 2) * 2 + min (a % 2) (b % 2)
bit_and_step a b = omega (
  arith,
  bit_and-bitwise a b,
  bit_and-bitwise (a / 2) (b / 2),
  digits_step (λ _. 0) min (λ b. omega arith) a b,
)

pub bit_or_step : (a b : ℕ) → bit_or a b ≡ bit_or (a / 2) (b / 2) * 2 + max (a % 2) (b % 2)
bit_or_step a b = omega (
  arith,
  bit_or-bitwise a b,
  bit_or-bitwise (a / 2) (b / 2),
  digits_step (λ b. b) max (λ b. omega arith) a b,
)

pub bit_xor_step : (a b : ℕ) → bit_xor a b ≡ bit_xor (a / 2) (b / 2) * 2 + differ (a % 2) (b % 2)
bit_xor_step a b = omega (
  arith,
  bit_xor-bitwise a b,
  bit_xor-bitwise (a / 2) (b / 2),
  digits_step (λ b. b) differ (λ b. omega arith) a b,
)

pub digit-le : (n k : ℕ) → digit n k ≤ 1
digit-le n zero = omega arith
digit-le n (suc k) = digit-le (n / 2) k

pub digit-bit_and : (a b k : ℕ) → digit (bit_and a b) k ≡ min (digit a k) (digit b k)
digit-bit_and a b zero = omega (arith, bit_and_step a b)
digit-bit_and a b (suc k) = ap (λ t. digit t k) (half a b) ∙ digit-bit_and (a / 2) (b / 2) k
  where
    half : (a b : ℕ) → bit_and a b / 2 ≡ bit_and (a / 2) (b / 2)
    half a b = omega (arith, bit_and_step a b)

pub digit-bit_or : (a b k : ℕ) → digit (bit_or a b) k ≡ max (digit a k) (digit b k)
digit-bit_or a b zero = omega (arith, bit_or_step a b)
digit-bit_or a b (suc k) = ap (λ t. digit t k) (half a b) ∙ digit-bit_or (a / 2) (b / 2) k
  where
    half : (a b : ℕ) → bit_or a b / 2 ≡ bit_or (a / 2) (b / 2)
    half a b = omega (arith, bit_or_step a b)

differ-le : (x y : ℕ) → x ≤ 1 → y ≤ 1 → differ x y ≤ 1
differ-le zero y p q = q
differ-le (suc x) zero p q = p
differ-le (suc zero) (suc zero) p q = omega arith
differ-le (suc zero) (suc (suc y)) p q = absurd (omega arith)
differ-le (suc (suc x)) (suc y) p q = absurd (omega arith)

differ-zero : (x y : ℕ) → x ≤ 1 → y ≤ 1 → differ x y ≡ 0 → x ≡ y
differ-zero zero y p q e = sym e
differ-zero (suc x) zero p q e = e
differ-zero (suc zero) (suc zero) p q e = refl
differ-zero (suc zero) (suc (suc y)) p q e = absurd (omega arith)
differ-zero (suc (suc x)) (suc y) p q e = absurd (omega arith)

-- Numbers with the same digits are equal, and only 0 has no digit but 0.
eq_of_digits_fuel : (n a b : ℕ) → a ≤ n → b ≤ n → ((k : ℕ) → digit a k ≡ digit b k) → a ≡ b
eq_of_digits_fuel zero a b p q e = omega arith
eq_of_digits_fuel (suc n) a b p q e =
    omega
      (arith, e 0, eq_of_digits_fuel n (a / 2) (b / 2) (omega arith) (omega arith) (λ k. e (suc k)))

pub eq_of_digits : (a b : ℕ) → ((k : ℕ) → digit a k ≡ digit b k) → a ≡ b
eq_of_digits a b e = eq_of_digits_fuel (a + b) a b (omega arith) (omega arith) e

pub digit-zero : (k : ℕ) → digit 0 k ≡ 0
digit-zero zero = refl
digit-zero (suc k) = digit-zero k

pub bit_or-eq_zero : (a b : ℕ) → bit_or a b ≡ 0 → (a ≡ 0) × (b ≡ 0)
bit_or-eq_zero a b e = (
  eq_of_digits a 0 (λ k. omega (arith, at k, digit-bit_or a b k, digit-zero k)),
  eq_of_digits b 0 (λ k. omega (arith, at k, digit-bit_or a b k, digit-zero k)),
)
  where
    at : (k : ℕ) → digit (bit_or a b) k ≡ 0
    at k = ap (λ t. digit t k) e ∙ digit-zero k

bit_xor-eq_zero_fuel : (n a b : ℕ) → a ≤ n → b ≤ n → bit_xor a b ≡ 0 → a ≡ b
bit_xor-eq_zero_fuel zero a b p q e = omega arith
bit_xor-eq_zero_fuel (suc n) a b p q e = omega (
  arith,
  differ-zero (a % 2) (b % 2) (omega arith) (omega arith) (omega (arith, bit_xor_step a b)),
  bit_xor-eq_zero_fuel n (a / 2) (b / 2) (omega arith) (omega arith)
      (omega (arith, bit_xor_step a b)),
)

pub bit_xor-eq_zero : (a b : ℕ) → bit_xor a b ≡ 0 → a ≡ b
bit_xor-eq_zero a b e = bit_xor-eq_zero_fuel (a + b) a b (omega arith) (omega arith) e

differ_self : (x : ℕ) → differ x x ≡ 0
differ_self zero = refl
differ_self (suc x) = differ_self x

bit_xor_self_fuel : (n a : ℕ) → a ≤ n → bit_xor a a ≡ 0
bit_xor_self_fuel n zero p = refl
bit_xor_self_fuel zero (suc a) p = absurd (omega arith)
bit_xor_self_fuel (suc n) (suc a) p = omega (
  arith,
  bit_xor_step (suc a) (suc a),
  differ_self (suc a % 2),
  bit_xor_self_fuel n (suc a / 2) (omega arith),
)

pub bit_xor_self : (a : ℕ) → bit_xor a a ≡ 0
bit_xor_self a = bit_xor_self_fuel a a (omega arith)
