-- ===== src/Bits/Shift.antt =====
-- The digits of a power of two, of a shifted number and of a remainder by a power of two.
use Prim.Native.Nat.{bit_and}
use native.Mathlib.Nat.{
  two-pow-succ, div-add-mod', mod-lt, mod-eq_of_lt, add-mul-mod_self_right, one-le-pow,
}
use freedom_cloud.Common.{
  ℕ, zero, suc, ◌+◌, ◌*◌, ◌/◌, ◌%◌, ◌^◌, ◌<◌, ◌≡◌, ◌≢◌, ◌↔◌, refl, ap, ◌∙◌, sym, arith,
}
use freedom_cloud.Bits.{digit, digit-zero, digit-bit_and, digit-le, eq_of_digits}
use native.Mathlib.Decide.{ℕ_discrete}

half_pow : (k : ℕ) → 2 ^ suc k / 2 ≡ 2 ^ k
half_pow k = omega (arith, two-pow-succ k)

pub digit-pow_self : (k : ℕ) → digit (2 ^ k) k ≡ 1
digit-pow_self zero = refl
digit-pow_self (suc k) = ap (λ t. digit t k) (half_pow k) ∙ digit-pow_self k

pub digit-pow_ne : (j k : ℕ) → j ≢ k → digit (2 ^ j) k ≡ 0
digit-pow_ne zero zero n = absurd (n refl)
digit-pow_ne zero (suc k) n = digit-zero k
digit-pow_ne (suc j) zero n = omega (arith, two-pow-succ j)
digit-pow_ne (suc j) (suc k) n =
    ap (λ t. digit t k) (half_pow j) ∙ digit-pow_ne j k (λ e. n (ap suc e))

-- A mask of one digit tests that digit.
pub bit_and-pow_iff : (a k : ℕ) → (bit_and a (2 ^ k) ≡ 0) ↔ (digit a k ≡ 0)
bit_and-pow_iff a k = (
  λ e. omega (
    arith,
    ap (λ t. digit t k) e,
    digit-bit_and a (2 ^ k) k,
    digit-pow_self k,
    digit-zero k,
    digit-le a k,
  ),
  λ e. eq_of_digits (bit_and a (2 ^ k)) 0 (λ j. elim (ℕ_discrete k j) [
    | yes p ↦ omega (arith, digit-bit_and a (2 ^ k) j, digit-zero j, ap (λ t. digit a t) p, e)
    | no p ↦ omega (arith, digit-bit_and a (2 ^ k) j, digit-zero j, digit-pow_ne k j p)
  ]),
)

half_shl : (x s : ℕ) → x * 2 ^ suc s / 2 ≡ x * 2 ^ s
half_shl x s = omega (arith, ap (λ t. x * t) (two-pow-succ s))

pub digit-shl_low : (x s k : ℕ) → k < s → digit (x * 2 ^ s) k ≡ 0
digit-shl_low x zero k p = absurd (omega arith)
digit-shl_low x (suc s) zero p = omega (arith, ap (λ t. x * t) (two-pow-succ s))
digit-shl_low x (suc s) (suc k) p =
    ap (λ t. digit t k) (half_shl x s) ∙ digit-shl_low x s k (omega arith)

pub digit-shl_high : (x s k : ℕ) → digit (x * 2 ^ s) (s + k) ≡ digit x k
digit-shl_high x zero k = ap (λ t. digit t (0 + k)) one ∙ ap (λ t. digit x t) at
  where
    one : x * 2 ^ 0 ≡ x
    one = omega arith

    at : 0 + k ≡ k
    at = omega arith
digit-shl_high x (suc s) k =
    ap (λ t. digit (x * 2 ^ suc s) t) at
    ∙ ap (λ t. digit t (s + k)) (half_shl x s)
    ∙ digit-shl_high x s k
  where
    at : suc s + k ≡ suc (s + k)
    at = omega arith

module _ (x n : ℕ) where
  two_parts : x / (2 ^ n + 2 ^ n) * (2 ^ n + 2 ^ n) + x % (2 ^ n + 2 ^ n) ≡ x
  two_parts = div-add-mod' x (2 ^ n + 2 ^ n)

  mod_pow_odd : x % 2 ^ suc n % 2 ≡ x % 2
  mod_pow_odd = ap (λ t. x % t % 2) (two-pow-succ n) ∙ omega (arith, two_parts)

  mod_pow_half : x % 2 ^ suc n / 2 ≡ x / 2 % 2 ^ n
  mod_pow_half = ap (λ t. x % t / 2) (two-pow-succ n) ∙ sym halves
    where
      m : ℕ
      m = 2 ^ n

      r : ℕ
      r = x % (2 ^ n + 2 ^ n)

      pos : 0 < 2 ^ n
      pos = one-le-pow n 2 (omega arith)

      split : x / 2 ≡ r / 2 + x / (2 ^ n + 2 ^ n) * 2 ^ n
      split = omega (arith, two_parts)

      small : r / 2 < 2 ^ n
      small = omega (arith, mod-lt x {m = 2 ^ n + 2 ^ n} (omega (arith, pos)))

      halves : x / 2 % 2 ^ n ≡ r / 2
      halves =
          ap (λ t. t % 2 ^ n) split
          ∙ add-mul-mod_self_right (r / 2) (x / (2 ^ n + 2 ^ n)) (2 ^ n)
          ∙ mod-eq_of_lt small

pub digit-mod : (x n k : ℕ) → k < n → digit (x % 2 ^ n) k ≡ digit x k
digit-mod x zero k p = absurd (omega arith)
digit-mod x (suc n) zero p = mod_pow_odd x n
digit-mod x (suc n) (suc k) p =
    ap (λ t. digit t k) (mod_pow_half x n) ∙ digit-mod (x / 2) n k (omega arith)
