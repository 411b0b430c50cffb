-- ===== src/Auth/Hex.antt =====
-- Capabilities written in hexadecimal and read again.
use Prim.Native.Nat.{bit_or}
use freedom_cloud.Common.{
  ℕ, zero, suc, ◌*◌, ◌/◌, ◌%◌, ◌<◌, ◌≡◌, refl, ap, arith, Bool, true, ◌&&◌, List, [], ◌∷◌, all,
  length, ltb, ◌==◌, ==_iff, and-eq_true, ℕ_discrete,
}
use freedom_cloud.Fallible.{Result, ok, err}
use freedom_cloud.Text.{Text, bytes}
use freedom_cloud.Contract.Canonical.{hex_digit, to_hex}
use freedom_cloud.Auth.{decode_hex_digit, decode_pairs, decode_sha256}

holds_below : ℕ → (ℕ → Bool) → Bool
holds_below zero p = true
holds_below (suc n) p = p n && holds_below n p

holds_below-at : (n : ℕ) (p : ℕ → Bool) → holds_below n p ≡ true → (x : ℕ) → x < n → p x ≡ true
unfolding holds_below
holds_below-at zero p h x below = absurd (omega arith)
holds_below-at (suc n) p h x below =
    let (here, lower) = and-eq_true (p n) (holds_below n p) h in
    elim (ℕ_discrete x n) [
      | yes same ↦ rw same here
      | no other ↦ holds_below-at n p lower x (omega arith)
    ]

-- The value of a hexadecimal digit that was read, 16 for none.
abbrev digit_value : Result ℕ → ℕ
digit_value (ok n) = n
digit_value (err e) = 16

digit_table : holds_below 16 (λ n. digit_value (decode_hex_digit (hex_digit n)) == n) ≡ true
unfolding holds_below decode_hex_digit
digit_table = refl

ascii_table : holds_below 16 (λ n. ltb (hex_digit n) 128) ≡ true
unfolding holds_below
ascii_table = refl

joined_table : holds_below 256 (λ n. bit_or (n / 16 * 16) (n % 16) == n) ≡ true
unfolding holds_below
joined_table = refl

value_of : (r : Result ℕ) (n : ℕ) → n < 16 → digit_value r ≡ n → r ≡ ok n
value_of (ok m) n p q = ap ok q
value_of (err e) n p q = absurd (omega arith)

pub decode_hex_digit-hex_digit : (n : ℕ) → n < 16 → decode_hex_digit (hex_digit n) ≡ ok n
decode_hex_digit-hex_digit n p =
    value_of (decode_hex_digit (hex_digit n)) n p
      ((==_iff _ n).0 (holds_below-at 16 _ digit_table n p))

joined_byte : (b : ℕ) → b < 256 → bit_or (b / 16 * 16) (b % 16) ≡ b
joined_byte b p = (==_iff _ b).0 (holds_below-at 256 _ joined_table b p)

abbrev pub are_bytes : List ℕ → Bool
are_bytes bs = all (λ b. ltb b 256) bs

abbrev pub are_ascii : Text → Bool
are_ascii t = all (λ c. ltb c 128) t

bytes-ascii : (t : Text) → are_ascii t ≡ true → bytes t ≡ t
bytes-ascii [] p = refl
bytes-ascii (c ∷ rest) p =
    let (single, others) = and-eq_true (ltb c 128) (are_ascii rest) p in
    rw single (ap (λ t. c ∷ t) (bytes-ascii rest others))

hex_digit-is_ascii : (n : ℕ) → n < 16 → ltb (hex_digit n) 128 ≡ true
hex_digit-is_ascii n p = holds_below-at 16 (λ k. ltb (hex_digit k) 128) ascii_table n p

to_hex-are_ascii : (bs : List ℕ) → are_bytes bs ≡ true → are_ascii (to_hex bs) ≡ true
unfolding to_hex
to_hex-are_ascii [] p = refl
to_hex-are_ascii (b ∷ bs) p =
    let (small, others) = and-eq_true (ltb b 256) (are_bytes bs) p in
    rw (hex_digit-is_ascii (b / 16) (high b small), hex_digit-is_ascii (b % 16) (omega arith))
      (to_hex-are_ascii bs others)
  where
    high : (b : ℕ) → ltb b 256 ≡ true → b / 16 < 16
    high b q = ground arith

to_hex-length : (bs : List ℕ) → length (to_hex bs) ≡ length bs * 2
unfolding to_hex
to_hex-length [] = refl
to_hex-length (b ∷ bs) = omega (arith, to_hex-length bs)

decode_pairs-to_hex : (bs : List ℕ) → are_bytes bs ≡ true → decode_pairs (to_hex bs) ≡ ok bs
unfolding to_hex decode_pairs
decode_pairs-to_hex [] p = refl
decode_pairs-to_hex (b ∷ bs) p =
    let (small, others) = and-eq_true (ltb b 256) (are_bytes bs) p in
    rw
      (
        decode_hex_digit-hex_digit (b / 16) (high b small),
        decode_hex_digit-hex_digit (b % 16) (omega arith),
        decode_pairs-to_hex bs others,
        joined_byte b (below b small),
      )
      refl
  where
    high : (b : ℕ) → ltb b 256 ≡ true → b / 16 < 16
    high b q = ground arith

    below : (b : ℕ) → ltb b 256 ≡ true → b < 256
    below b q = ground arith

-- The hexadecimal text that the contract makes of 32 bytes is read back as those bytes.
pub decode_sha256-to_hex :
    (bs : List ℕ) → length bs ≡ 32 → are_bytes bs ≡ true → decode_sha256 (to_hex bs) ≡ ok bs
unfolding decode_sha256
decode_sha256-to_hex bs sized p =
    rw (bytes-ascii (to_hex bs) (to_hex-are_ascii bs p), (==_iff (length (to_hex bs)) 64).1 long)
      (decode_pairs-to_hex bs p)
  where
    long : length (to_hex bs) ≡ 64
    long = omega (arith, to_hex-length bs)
