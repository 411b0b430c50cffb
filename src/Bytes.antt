-- ===== src/Bytes.antt =====
-- Byte strings: the ranges `x[a..b]` of a slice, and integers in both byte orders. A range is
-- only taken of a string that was seen to be long enough; there is no model of the panic.
pub mod Laws
use freedom_cloud.Common.{
  ℕ, zero, suc, ◌+◌, ◌-◌, ◌*◌, ◌/◌, ◌%◌, ◌^◌, Bool, List, [], ◌∷◌, ◌++◌, take, drop, all, ltb, leb,
  ◌==◌, if◌then◌else◌,
}

-- `x[a..b]`
abbrev pub slice : ℕ → ℕ → List ℕ → List ℕ
slice a b xs = take (b - a) (drop a xs)

abbrev pub head_or_zero : List ℕ → ℕ
head_or_zero [] = 0
head_or_zero (x ∷ xs) = x

-- `x[i]`
abbrev pub byte_at : ℕ → List ℕ → ℕ
byte_at i xs = head_or_zero (drop i xs)

abbrev pub are_bytes : List ℕ → Bool
are_bytes xs = all (λ b. ltb b 256) xs

abbrev pub all_zero : List ℕ → Bool
all_zero xs = all (λ b. b == 0) xs

-- `u8::from_str_radix(pair, 16)` on two hexadecimal digits, for each pair of them.
abbrev hex_value : ℕ → ℕ
hex_value c = if leb c b'9' then c - b'0' else if leb c b'F' then c - b'A' + 10 else c - b'a' + 10

abbrev pub hex_pairs : List ℕ → List ℕ
hex_pairs (a ∷ b ∷ rest) = (hex_value a * 16 + hex_value b) ∷ hex_pairs rest
hex_pairs _ = []

-- `to_le_bytes` and `to_be_bytes` of an integer of so many bytes, and the way back.
unfoldable pub to_le : ℕ → ℕ → List ℕ
to_le zero n = []
to_le (suc width) n = n % 256 ∷ to_le width (n / 256)

unfoldable pub from_le : List ℕ → ℕ
from_le [] = 0
from_le (b ∷ bs) = b + 256 * from_le bs

unfoldable pub to_be : ℕ → ℕ → List ℕ
to_be zero n = []
to_be (suc width) n = n / 256 ^ width % 256 ∷ to_be width n

from_be_onto : ℕ → List ℕ → ℕ
from_be_onto acc [] = acc
from_be_onto acc (b ∷ bs) = from_be_onto (acc * 256 + b) bs

unfoldable pub from_be : List ℕ → ℕ
unfolding from_be_onto
from_be bs = from_be_onto 0 bs
