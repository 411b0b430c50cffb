-- ===== src/Udp/Replay/Laws.antt =====
-- The replay window decides by the set of the numbers accepted before, for any such history.
use Prim.Native.Nat.{max, bit_and, bit_or}
use native.Mathlib.Decide.{dec_lt, ℕ_discrete}
use freedom_cloud.Common.{
  ℕ, zero, suc, ◌+◌, ◌-◌, ◌*◌, ◌%◌, ◌^◌, ◌≤◌, ◌<◌, ◌≡◌, ◌≢◌, refl, ap, ◌∙◌, sym, arith, Bool, true,
  false, not, ◌&&◌, List, [], ◌∷◌, ltb, leb, ◌==◌, if◌then◌else◌, any, inl, inr, Bool-cases,
}
use freedom_cloud.Bits.{digit, digit-zero, digit-bit_or, digit-le}
use freedom_cloud.Bits.Shift.{
  digit-pow_self, digit-pow_ne, bit_and-pow_iff, digit-shl_low, digit-shl_high, digit-mod,
}
use freedom_cloud.Udp.Replay.{StrictUdpReplayWindow, window_bits, advance, accept_behind, accept}

abbrev pub member : ℕ → List ℕ → Bool
member s history = any (λ t. t == s) history

abbrev pub highest_of : List ℕ → ℕ
highest_of [] = 0
highest_of (s ∷ history) = max s (highest_of history)

-- The specification: a number is accepted if it is not 0, not more than 63 below the highest, and
-- was not accepted before.
abbrev pub is_fresh : List ℕ → ℕ → Bool
is_fresh history s =
    not (s == 0) && ltb (highest_of history) (s + window_bits) && not (member s history)

abbrev pub as_digit : Bool → ℕ
as_digit true = 1
as_digit false = 0

-- The window holds the highest number of the history, and below it a digit for each of 64 numbers.
pub record Represents (w : StrictUdpReplayWindow) (history : List ℕ) : Type 0 where
  pub top : w.highest ≡ highest_of history
  pub bits :
      (k : ℕ)
      → k < window_bits
      → k < w.highest
      → digit w.bitmap k ≡ as_digit (member (w.highest - k) history)

member_above : (s : ℕ) (history : List ℕ) → highest_of history < s → member s history ≡ false
member_above s [] p = refl
member_above s (t ∷ history) p = ground (arith, member_above s history)

-- The digits of the advanced bitmap: 1 at the new number, 0 at those that were skipped, and
-- behind them the old ones.
advance-zero : (b d : ℕ) → digit (advance b d) 0 ≡ 1
unfolding advance
advance-zero b d = elim (Bool-cases (leb window_bits d)) [
  | inl far ↦ rw far refl
  | inr near ↦ rw near (omega (arith, digit-bit_or (b * 2 ^ d % 2 ^ 64) 1 0))
]

advance-suc :
    (b d k : ℕ)
    → d < window_bits
    → suc k < window_bits
    → digit (advance b d) (suc k) ≡ digit (b * 2 ^ d) (suc k)
unfolding advance
advance-suc b d k p q =
    let near : leb window_bits d ≡ false = ground arith in
    rw near (
      omega (
        arith,
        digit-bit_or (b * 2 ^ d % 2 ^ 64) 1 (suc k),
        digit-mod (b * 2 ^ d) 64 (suc k) q,
        digit-zero k,
      ))

advance-skipped : (b d k : ℕ) → suc k < d → suc k < window_bits → digit (advance b d) (suc k) ≡ 0
unfolding advance
advance-skipped b d k p q = elim (Bool-cases (leb window_bits d)) [
  | inl far ↦ rw far (digit-zero k)
  | inr near ↦ advance-suc b d k (ground arith) q ∙ digit-shl_low b d (suc k) p
]

advance-kept :
    (b d k : ℕ)
    → d ≤ suc k
    → suc k < window_bits
    → digit (advance b d) (suc k) ≡ digit b (suc k - d)
advance-kept b d k p q =
    advance-suc b d k (omega arith) q
    ∙ ap (λ t. digit (b * 2 ^ d) t) at
    ∙ digit-shl_high b d (suc k - d)
  where
    at : suc k ≡ d + (suc k - d)
    at = omega arith

member-head_ne : (s t : ℕ) (history : List ℕ) → s ≢ t → member s (t ∷ history) ≡ member s history
member-head_ne s t history n = ground arith

-- A number above the highest.
module _ (w : StrictUdpReplayWindow) (history : List ℕ) (s : ℕ) where
  advance-bits :
      (k : ℕ)
      → Represents w history
      → w.highest < s
      → k < window_bits
      → k < s
      → digit (advance w.bitmap (s - w.highest)) k ≡ as_digit (member (s - k) (s ∷ history))
  advance-bits zero v p q r = rw (advance-zero w.bitmap (s - w.highest)) (ground arith)
  advance-bits (suc k) v p q r = elim (dec_lt (suc k) (s - w.highest)) [
    | yes skipped ↦
        advance-skipped w.bitmap (s - w.highest) k skipped q
        ∙ ap as_digit (sym (head ∙ member_above (s - suc k) history (omega (arith, v.top))))
    | no kept ↦
        advance-kept w.bitmap (s - w.highest) k (omega arith) q
        ∙ v.bits (suc k - (s - w.highest)) (omega arith) (omega arith)
        ∙ ap as_digit (ap (λ t. member t history) (at (omega arith)) ∙ sym head)
  ]
    where
      head : member (s - suc k) (s ∷ history) ≡ member (s - suc k) history
      head = member-head_ne (s - suc k) s history (omega arith)

      at : s - w.highest ≤ suc k → w.highest - (suc k - (s - w.highest)) ≡ s - suc k
      at kept = omega arith

-- What one call must do: answer as the specification does, and record what was accepted.
pub record Refines (w : StrictUdpReplayWindow) (history : List ℕ) (s : ℕ)
    (r : Bool × StrictUdpReplayWindow) : Type 0 where
  pub answer : r.0 ≡ is_fresh history s
  pub after : Represents r.1 (if is_fresh history s then s ∷ history else history)

module _ (w : StrictUdpReplayWindow) (history : List ℕ) (s : ℕ) (v : Represents w history) where
  refuse : is_fresh history s ≡ false → Refines w history s (false, w)
  refuse e = record { answer = sym e; after = rw e v }

  admit :
      (w' : StrictUdpReplayWindow)
      → is_fresh history s ≡ true
      → Represents w' (s ∷ history)
      → Refines w history s (true, w')
  admit w' e v' = record { answer = sym e; after = rw e v' }

  -- The digit of a number within the window says whether it was accepted.
  digit-member :
      0 < s
      → s ≤ w.highest
      → w.highest - s < window_bits
      → digit w.bitmap (w.highest - s) ≡ as_digit (member s history)
  digit-member p q r =
      v.bits (w.highest - s) r (omega arith) ∙ ap (λ t. as_digit (member t history)) at
    where
      at : w.highest - (w.highest - s) ≡ s
      at = omega arith

  -- Setting the digit of a number within the window records it.
  set-Represents :
      0 < s
      → s ≤ w.highest
      → Represents (record w { bitmap = bit_or w.bitmap (2 ^ (w.highest - s)) }) (s ∷ history)
  set-Represents p q = record {
    top = omega (arith, v.top);
    bits = λ k r t. elim (ℕ_discrete (w.highest - s) k) [
      | yes e ↦ set_digit k e (omega arith)
      | no n ↦
          omega
            (arith, digit-bit_or w.bitmap (2 ^ (w.highest - s)) k, digit-pow_ne (w.highest - s) k n)
          ∙ v.bits k r t
          ∙ ap as_digit (sym (member-head_ne (w.highest - k) s history (omega arith)))
    ];
  }
    where
      set_digit :
          (k : ℕ)
          → w.highest - s ≡ k
          → w.highest - k ≡ s
          → digit (bit_or w.bitmap (2 ^ (w.highest - s))) k
            ≡ as_digit (member (w.highest - k) (s ∷ history))
      set_digit k e f =
          omega (
            arith,
            digit-bit_or w.bitmap (2 ^ (w.highest - s)) k,
            ap (λ t. digit (2 ^ t) k) e,
            digit-pow_self k,
            digit-le w.bitmap k,
          )
          ∙ ap as_digit (sym (head f))
        where
          head : w.highest - k ≡ s → member (w.highest - k) (s ∷ history) ≡ true
          head g = ground arith

  member-test :
      0 < s
      → s ≤ w.highest
      → w.highest - s < window_bits
      → member s history ≡ not (bit_and w.bitmap (2 ^ (w.highest - s)) == 0)
  member-test p q r =
      let (zero_digit, zero_mask) = bit_and-pow_iff w.bitmap (w.highest - s) in
      ground (arith, digit-member p q r, zero_digit, zero_mask)

  accept_behind-Refines :
      0 < s → s ≤ w.highest → Refines w history s (accept_behind w (w.highest - s))
  unfolding accept_behind
  accept_behind-Refines p q = elim (Bool-cases (leb window_bits (w.highest - s))) [
    | inl old ↦ rw old (refuse (ground (arith, v.top)))
    | inr near ↦ rw near (elim (Bool-cases (bit_and w.bitmap (2 ^ (w.highest - s)) == 0)) [
      | inl unset ↦ rw unset (admit _ (ground (arith, v.top, member-test p q)) (set-Represents p q))
      | inr seen ↦ rw seen (refuse (ground (arith, member-test p q)))
    ])
  ]

  start-Represents :
      0 < s → w.highest ≡ 0 → Represents (record { highest = s; bitmap = 1 }) (s ∷ history)
  start-Represents p e = record { top = omega (arith, v.top); bits = λ k r t. start k t }
    where
      start : (k : ℕ) → k < s → digit 1 k ≡ as_digit (member (s - k) (s ∷ history))
      start zero t = ground arith
      start (suc k) t =
          digit-zero k
          ∙ ap as_digit (
              sym (
                member-head_ne (s - suc k) s history (omega arith)
                ∙ member_above (s - suc k) history (omega (arith, v.top))))

  -- On a window that represents the history, `accept` answers as the specification does and
  -- leaves a window that represents the new history.
  pub accept-Refines : Refines w history s (accept w s)
  unfolding accept
  accept-Refines = elim (Bool-cases (s == 0)) [
    | inl null ↦ rw null (refuse (ground arith))
    | inr positive ↦ rw positive (elim (Bool-cases (w.highest == 0)) [
      | inl start ↦ rw start (
          admit _ (ground (arith, v.top, member_above s history))
            (start-Represents (ground arith) (ground arith)))
      | inr going ↦ rw going (elim (Bool-cases (ltb w.highest s)) [
        | inl above ↦ rw above (
            admit _ (ground (arith, v.top, member_above s history)) (record {
              top = ground (arith, v.top);
              bits = λ k r t. advance-bits w history s k v (ground arith) r t;
            }))
        | inr behind ↦ rw behind (accept_behind-Refines (ground arith) (ground arith))
      ])
    ])
  ]

-- The numbers that a window accepts of a sequence of packets, in their order.
unfoldable pub accepted : StrictUdpReplayWindow → List ℕ → List ℕ
accepted w [] = []
accepted w (s ∷ packets) =
    let rest = accepted (accept w s).1 packets in if (accept w s).0 then s ∷ rest else rest

-- None of the numbers is in the history, nor is one repeated.
abbrev pub AllNew : List ℕ → List ℕ → Type 0
AllNew history [] = Unit
AllNew history (s ∷ rest) = (member s history ≡ false) × AllNew (s ∷ history) rest

accepted-AllNew_from :
    (w : StrictUdpReplayWindow) (history packets : List ℕ)
    → Represents w history
    → AllNew history (accepted w packets)
unfolding accepted
accepted-AllNew_from w history [] v = tt
accepted-AllNew_from w history (s ∷ packets) v =
    let step = accept-Refines w history s v in
    elim (Bool-cases (is_fresh history s)) [
      | inl fresh ↦ rw (step.answer ∙ fresh) (
        ground arith,
        accepted-AllNew_from (accept w s).1 (s ∷ history) packets (rw fresh at step.after),
      )
      | inr stale ↦
          rw (step.answer ∙ stale)
            (accepted-AllNew_from (accept w s).1 history packets (rw stale at step.after))
    ]

-- `StrictUdpReplayWindow::default()`
abbrev pub empty_window : StrictUdpReplayWindow
empty_window = record { highest = 0; bitmap = 0 }

-- Whatever packets arrive, in whatever order, a new window accepts no number twice.
pub accepted-AllNew : (packets : List ℕ) → AllNew [] (accepted empty_window packets)
accepted-AllNew packets =
    accepted-AllNew_from empty_window [] packets
      (record { top = refl; bits = λ k p q. absurd (omega arith) })
