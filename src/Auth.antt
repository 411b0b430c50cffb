-- ===== src/Auth.antt =====
-- `BrokerAuthenticator` (services/strict-broker/src/ipc_auth.rs): a frame becomes an authorized
-- request of a local client that knows the session's capability.
pub mod Laws
pub mod Hex
use Prim.Native.Nat.{bit_or, bit_xor}
use freedom_cloud.Common.{
  ℕ, ◌+◌, ◌-◌, ◌*◌, Bool, true, false, not, ◌&&◌, ◌||◌, List, [], ◌∷◌, all, leb, ◌==◌,
  if◌then◌else◌,
}
use freedom_cloud.Fallible.{Result, ok, err, ◌>>=◌, ◌>>◌, bail, bail_if}
use freedom_cloud.Text.{Text, bytes, len}
use freedom_cloud.Contract.Codec.{Codec}
use freedom_cloud.Contract.Frames.{
  BrokerCommand, BrokerRequest, FrameCodec, force_blocking, disable_policy, diagnostics,
  parse_broker_request,
}

pub data ClientRole : Type 0 where
  owner recovery_administrator : ClientRole

pub record ClientPrincipal : Type 0 where
  pub is_local : Bool
  pub role : ClientRole

pub record AuthorizedBrokerRequest : Type 0 where
  pub principal : ClientPrincipal
  pub request : BrokerRequest

pub record BrokerAuthenticator : Type 0 where
  pub expected_capability : List ℕ

unfoldable pub decode_hex_digit : ℕ → Result ℕ
decode_hex_digit value =
    if leb b'0' value && leb value b'9'
    then ok (value - b'0')
    else if leb b'a' value && leb value b'f'
    then ok (value - b'a' + 10)
    else if leb b'A' value && leb value b'F'
    then ok (value - b'A' + 10)
    else bail "Broker session capability is not hexadecimal"

-- The loop over `chunks_exact(2)`: an odd last byte would be dropped. The shifted high digit and
-- the low one have no bit in common, so their `|` is a sum.
unfoldable pub decode_pairs : List ℕ → Result (List ℕ)
decode_pairs (a ∷ b ∷ rest) = do
  high ← decode_hex_digit a
  low ← decode_hex_digit b
  decoded ← decode_pairs rest
  ok (bit_or (high * 16) low ∷ decoded)
decode_pairs _ = ok []

unfoldable pub decode_sha256 : Text → Result (List ℕ)
decode_sha256 value = do
  bail_if (not (len value == 64)) "Broker session capability has an invalid size"
  decode_pairs (bytes value)

-- `difference |= left[index] ^ right[index]`
unfoldable pub difference : ℕ → List ℕ → List ℕ → ℕ
difference acc (l ∷ left) (r ∷ right) = difference (bit_or acc (bit_xor l r)) left right
difference acc _ _ = acc

unfoldable pub constant_time_equal : List ℕ → List ℕ → Bool
unfolding difference
constant_time_equal left right = difference 0 left right == 0

-- `BrokerAuthenticator::from_hex`
unfoldable pub from_hex : Text → Result BrokerAuthenticator
from_hex expected_capability = do
  decoded ← decode_sha256 expected_capability
  bail_if (all (λ byte. byte == 0) decoded) "Broker session capability cannot be zero"
  ok (record { expected_capability = decoded })

abbrev pub is_administrator : ClientRole → Bool
is_administrator owner = false
is_administrator recovery_administrator = true

-- The commands that a recovery administrator may give.
unfoldable pub is_recovery_command : BrokerCommand → Bool
is_recovery_command BrokerCommand.status = true
is_recovery_command diagnostics = true
is_recovery_command (force_blocking revision) = true
is_recovery_command (disable_policy revision) = true
is_recovery_command _ = false

module _ (codec : Codec) (frames : FrameCodec) where
  unfoldable pub authenticate :
      BrokerAuthenticator → ClientPrincipal → Text → Result AuthorizedBrokerRequest
  authenticate auth principal frame = do
    request ← parse_broker_request codec frames frame
    bail_if (not principal.is_local) "remote Broker clients are forbidden"
    provided ← decode_sha256 request.session_capability
    bail_if (not (constant_time_equal provided auth.expected_capability))
        "Broker session capability is invalid"
    bail_if (is_administrator principal.role && not (is_recovery_command request.command))
        "recovery administrator command is not permitted"
    ok (record { principal = principal; request = request })
