-- ===== src/Bytes/Laws.antt =====
-- Integers are read back as they were written, and ranges of an appended string are found.
use native.Mathlib.Numerals.{towards_suc}
use freedom_cloud.Common.{
  ℕ, zero, suc, ◌+◌, ◌-◌, ◌*◌, ◌/◌, ◌^◌, ◌≤◌, ◌<◌, ◌≡◌, refl, ap, ◌∙◌, sym, arith, List, [], ◌∷◌,
  ◌++◌, take, drop, length, true, and-eq_true, ltb,
}
use freedom_cloud.Bytes.{are_bytes, to_le, from_le, to_be, from_be}

pub length-to_le : (width n : ℕ) → length (to_le width n) ≡ width
unfolding to_le
length-to_le zero n = refl
length-to_le (suc width) n = omega (arith, length-to_le width (n / 256))

pub length-to_be : (width n : ℕ) → length (to_be width n) ≡ width
unfolding to_be
length-to_be zero n = refl
length-to_be (suc width) n = omega (arith, length-to_be width n)

pub from_le-to_le : (width n : ℕ) → n < 256 ^ width → from_le (to_le width n) ≡ n
unfolding from_le to_le
from_le-to_le zero n p = omega arith
from_le-to_le (suc width) n p = omega (arith, from_le-to_le width (n / 256) fits)
  where
    fits : n / 256 < 256 ^ width
    fits = grind (arith, towards_suc)

pub from_le-bound : (bs : List ℕ) → are_bytes bs ≡ true → from_le bs < 256 ^ length bs
unfolding from_le
from_le-bound [] p = omega arith
from_le-bound (b ∷ bs) p =
    let (small, others) = and-eq_true (ltb b 256) (are_bytes bs) p in
    room b (from_le bs) (length bs) small (from_le-bound bs others)
  where
    room : (b x k : ℕ) → ltb b 256 ≡ true → x < 256 ^ k → b + 256 * x < 256 ^ suc k
    room b x k p q = grind (arith, towards_suc)

pub from_be-to_be_two : (n : ℕ) → n < 2 ^ 16 → from_be (to_be 2 n) ≡ n
unfolding from_be to_be
from_be-to_be_two n p = omega arith

pub from_be-to_be_eight : (n : ℕ) → n < 2 ^ 64 → from_be (to_be 8 n) ≡ n
unfolding from_be to_be
from_be-to_be_eight n p = omega arith

module _ {ℓ} {A : Type ℓ} where
  -- A range behind the first string, and one that is the first string.
  pub drop-append_past :
      (xs ys : List A) (a n : ℕ) → length xs ≡ n → n ≤ a → drop a (xs ++ ys) ≡ drop (a - n) ys
  drop-append_past [] ys a n e p = ap (λ k. drop k ys) (omega arith)
  drop-append_past (x ∷ xs) ys zero n e p = absurd (omega arith)
  drop-append_past (x ∷ xs) ys (suc a) n e p =
      drop-append_past xs ys a (n - 1) (omega arith) (omega arith)
      ∙ ap (λ k. drop k ys) (omega arith)

  pub take-append_whole : (xs ys : List A) (n : ℕ) → length xs ≡ n → take n (xs ++ ys) ≡ xs
  take-append_whole [] ys n e = ap (λ k. take k ys) (sym e)
  take-append_whole (x ∷ xs) ys zero e = absurd (omega arith)
  take-append_whole (x ∷ xs) ys (suc n) e =
      ap (λ t. x ∷ t) (take-append_whole xs ys n (omega arith))

  pub drop-append_whole : (xs ys : List A) (n : ℕ) → length xs ≡ n → drop n (xs ++ ys) ≡ ys
  drop-append_whole [] ys n e = ap (λ k. drop k ys) (sym e)
  drop-append_whole (x ∷ xs) ys zero e = absurd (omega arith)
  drop-append_whole (x ∷ xs) ys (suc n) e = drop-append_whole xs ys n (omega arith)

  -- A range within the first string.
  pub take-append_within : (xs ys : List A) (n : ℕ) → n ≤ length xs → take n (xs ++ ys) ≡ take n xs
  take-append_within [] ys zero p = refl
  take-append_within [] ys (suc n) p = absurd (omega arith)
  take-append_within (x ∷ xs) ys zero p = refl
  take-append_within (x ∷ xs) ys (suc n) p =
      ap (λ t. x ∷ t) (take-append_within xs ys n (omega arith))

  pub drop-append_within :
      (xs ys : List A) (n : ℕ) → n ≤ length xs → drop n (xs ++ ys) ≡ drop n xs ++ ys
  drop-append_within xs ys zero p = refl
  drop-append_within [] ys (suc n) p = absurd (omega arith)
  drop-append_within (x ∷ xs) ys (suc n) p = drop-append_within xs ys n (omega arith)

  pub length-drop : (xs : List A) (n : ℕ) → length (drop n xs) ≡ length xs - n
  length-drop xs zero = omega arith
  length-drop [] (suc n) = omega arith
  length-drop (x ∷ xs) (suc n) = omega (arith, length-drop xs n)

  pub length-take : (xs : List A) (n : ℕ) → n ≤ length xs → length (take n xs) ≡ n
  length-take xs zero p = refl
  length-take [] (suc n) p = absurd (omega arith)
  length-take (x ∷ xs) (suc n) p = omega (arith, length-take xs n)
