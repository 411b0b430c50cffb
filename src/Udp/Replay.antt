-- ===== src/Udp/Replay.antt =====
-- `StrictUdpReplayWindow` (services/strict-broker/src/strict_udp_frame.rs): a bitmap of the last 64
-- sequence numbers.
pub mod Laws
use Prim.Native.Nat.{bit_and, bit_or}
use freedom_cloud.Common.{
  ℕ, ◌+◌, ◌-◌, ◌*◌, ◌%◌, ◌^◌, Bool, true, false, not, ltb, leb, ◌==◌, if◌then◌else◌,
}

pub record StrictUdpReplayWindow : Type 0 where
  pub highest : ℕ
  pub bitmap : ℕ

-- `u64::BITS`
abbrev pub window_bits : ℕ
window_bits = 64

-- `x << shift` on `u64`
abbrev shl64 : ℕ → ℕ → ℕ
shl64 x shift = x * 2 ^ shift % 2 ^ 64

unfoldable pub advance : ℕ → ℕ → ℕ
advance bitmap shift = if leb window_bits shift then 1 else bit_or (shl64 bitmap shift) 1

-- The branch for a number that is not above the highest.
unfoldable pub accept_behind : StrictUdpReplayWindow → ℕ → Bool × StrictUdpReplayWindow
accept_behind w offset =
    if leb window_bits offset
    then (false, w)
    else if not (bit_and w.bitmap (2 ^ offset) == 0)
    then (false, w)
    else (true, record w { bitmap = bit_or w.bitmap (2 ^ offset) })

unfoldable pub accept : StrictUdpReplayWindow → ℕ → Bool × StrictUdpReplayWindow
unfolding advance accept_behind
accept w sequence =
    if sequence == 0
    then (false, w)
    else if w.highest == 0
    then (true, record { highest = sequence; bitmap = 1 })
    else if ltb w.highest sequence
    then (true, record { highest = sequence; bitmap = advance w.bitmap (sequence - w.highest) })
    else accept_behind w (w.highest - sequence)
