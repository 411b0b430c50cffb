-- ===== src/Udp/Frame.antt =====
-- `StrictUdpDataAuthenticator` (services/strict-broker/src/strict_udp_frame.rs): the frames of the
-- UDP data channel. HMAC-SHA256 is a parameter; it takes keys of every length, so that
-- `new_from_slice` does not fail.
pub mod Layout
pub mod Decode
pub mod RoundTrip
use freedom_cloud.Common.{
  ℕ, zero, suc, ◌+◌, ◌-◌, ◌*◌, ◌^◌, ◌/◌, Bool, true, false, not, ◌&&◌, ◌||◌, Option, none, some,
  List, [], ◌∷◌, ◌++◌, take, drop, length, all, any, ltb, leb, ◌==◌, is_empty, replicate,
  if◌then◌else◌,
}
use freedom_cloud.Fallible.{Result, ok, err, ◌>>=◌, ◌>>◌, bail, bail_if}
use freedom_cloud.Text.{Text, bytes, len, text_eq, is_ascii_hexdigit}
use freedom_cloud.Bytes.{slice, byte_at, all_zero, hex_pairs, to_be, from_be}
use freedom_cloud.Net.{
  SocketAddr, v4, v6, port_of, ipv4_loopback, ipv4_multicast, ipv4_link_local, ipv4_broadcast,
  ipv6_loopback, ipv6_multicast, ipv6_link_local, ipv4_mapped,
}

abbrev pub strict_udp_data_header_bytes : ℕ
strict_udp_data_header_bytes = 80

abbrev pub strict_udp_data_max_payload_bytes : ℕ
strict_udp_data_max_payload_bytes = 16384

abbrev pub tag_bytes : ℕ
tag_bytes = 32

abbrev pub strict_udp_data_max_frame_bytes : ℕ
strict_udp_data_max_frame_bytes = 80 + 16384 + 32

-- `b"FCXD"`
abbrev pub magic : List ℕ
magic = b'F' ∷ b'C' ∷ b'X' ∷ b'D' ∷ []

pub data StrictUdpDataDirection : Type 0 where
  outbound inbound : StrictUdpDataDirection

abbrev pub kind : StrictUdpDataDirection → ℕ
kind outbound = 1
kind inbound = 2

pub record StrictUdpDataAuthenticator : Type 0 where
  pub generation : ℕ
  pub key_id : List ℕ
  pub key : List ℕ

pub record StrictUdpDataFrame : Type 0 where
  pub direction : StrictUdpDataDirection
  pub association_id : List ℕ
  pub sequence : ℕ
  pub endpoint : SocketAddr
  pub payload : List ℕ

-- `StrictUdpDataAuthenticator::new`
unfoldable pub new_authenticator : ℕ → List ℕ → List ℕ → Result StrictUdpDataAuthenticator
new_authenticator generation key_id key = do
  bail_if (generation == 0 || all_zero key_id || all_zero key)
      "strict UDP data authentication identity is invalid"
  ok (record { generation = generation; key_id = key_id; key = key })

unfoldable pub decode_strict_udp_credential : Text → Result (List ℕ)
decode_strict_udp_credential value = do
  bail_if (not (len value == 64) || not (all is_ascii_hexdigit (bytes value)))
      "strict UDP credential is invalid"
  bail_if (all_zero (hex_pairs (bytes value))) "strict UDP credential cannot be zero"
  ok (hex_pairs (bytes value))

unfoldable pub safe_ipv4 : List ℕ → Bool
safe_ipv4 octets =
    not (all_zero octets)
    && not (ipv4_loopback octets)
    && not (ipv4_multicast octets)
    && not (ipv4_link_local octets)
    && not (ipv4_broadcast octets)

unfoldable pub safe_ipv6 : List ℕ → Bool
safe_ipv6 octets =
    not (all_zero octets)
    && not (ipv6_loopback octets)
    && not (ipv6_multicast octets)
    && not (ipv6_link_local octets)
    && not (ipv4_mapped octets)

unfoldable pub safe_address : SocketAddr → Bool
safe_address (v4 octets port) = safe_ipv4 octets
safe_address (v6 octets port flowinfo scope_id) = flowinfo == 0 && scope_id == 0 && safe_ipv6 octets

unfoldable pub validate_endpoint : SocketAddr → Result Unit
unfolding safe_address
validate_endpoint endpoint = do
  bail_if (port_of endpoint == 0) "strict UDP data endpoint port is invalid"
  bail_if (not (safe_address endpoint)) "strict UDP data endpoint address is unsafe"

-- The sixteen bytes at ADDRESS_OFFSET, and the byte at ADDRESS_FAMILY_OFFSET.
abbrev pub address_family : SocketAddr → ℕ
address_family (v4 octets port) = 4
address_family (v6 octets port flowinfo scope_id) = 6

abbrev pub address_bytes : SocketAddr → List ℕ
address_bytes (v4 octets port) = octets ++ replicate 12 0
address_bytes (v6 octets port flowinfo scope_id) = octets

-- `write_endpoint` on the zeroed header: the bytes from ADDRESS_FAMILY_OFFSET on.
abbrev pub endpoint_bytes : SocketAddr → List ℕ → List ℕ
endpoint_bytes endpoint rest =
    address_family endpoint ∷ 0 ∷ (to_be 2 (port_of endpoint) ++ (address_bytes endpoint ++ rest))

-- What `encode` writes below the tag. Its writes fill ranges of the zeroed header that follow each
-- other, and leave the flags and two gaps at 0.
abbrev pub header :
    StrictUdpDataAuthenticator
    → StrictUdpDataDirection
    → List ℕ
    → ℕ
    → SocketAddr
    → ℕ
    → List ℕ
    → List ℕ
header auth direction association_id sequence endpoint payload_length rest =
    b'F'
    ∷ b'C'
    ∷ b'X'
    ∷ b'D'
    ∷ 1
    ∷ kind direction
    ∷ 0
    ∷ 0
    ∷ (to_be 8 auth.generation
        ++ (auth.key_id
            ++ (association_id
                ++ (to_be 8 sequence
                    ++ endpoint_bytes endpoint (to_be 2 payload_length ++ (0 ∷ 0 ∷ rest))))))

abbrev pub signed_bytes :
    StrictUdpDataAuthenticator → StrictUdpDataDirection → List ℕ → ℕ → SocketAddr → List ℕ → List ℕ
signed_bytes auth direction association_id sequence endpoint payload =
    header auth direction association_id sequence endpoint (length payload) payload

-- `parse_endpoint`, before `validate_endpoint`.
unfoldable pub read_endpoint : List ℕ → Result SocketAddr
read_endpoint frame =
    if byte_at 56 frame == 4
    then (do
      bail_if (any (λ b. not (b == 0)) (slice 64 76 frame))
          "strict UDP data IPv4 padding is noncanonical"
      ok (v4 (slice 60 64 frame) (from_be (slice 58 60 frame))))
    else if byte_at 56 frame == 6
    then ok (v6 (slice 60 76 frame) (from_be (slice 58 60 frame)) 0 0)
    else bail "strict UDP data address family is invalid"

unfoldable pub parse_endpoint : List ℕ → Result SocketAddr
parse_endpoint frame = do endpoint ← read_endpoint frame; validate_endpoint endpoint; ok endpoint

unfoldable pub strict_udp_data_frame_key_id : List ℕ → Result (List ℕ)
strict_udp_data_frame_key_id frame = do
  bail_if
      (ltb (length frame) 32 || not (text_eq (take 4 frame) magic) || not (byte_at 4 frame == 1))
      "strict UDP data frame identity is invalid"
  bail_if (all_zero (slice 16 32 frame)) "strict UDP data frame identity is invalid"
  ok (slice 16 32 frame)

module _ (hmac : List ℕ → List ℕ → List ℕ) where
  -- `encode`: the size of the frame, and the buffer with the frame at its front.
  unfoldable pub encode :
      StrictUdpDataAuthenticator
      → List ℕ
      → StrictUdpDataDirection
      → List ℕ
      → ℕ
      → SocketAddr
      → List ℕ
      → Result (ℕ × List ℕ)
  encode auth output direction association_id sequence endpoint payload = do
    bail_if (all_zero association_id || sequence == 0)
        "strict UDP data association correlation is invalid"
    bail_if (is_empty payload || ltb strict_udp_data_max_payload_bytes (length payload))
        "strict UDP data payload size is invalid"
    validate_endpoint endpoint
    let frame_bytes = 80 + length payload + 32
    bail_if (ltb (length output) frame_bytes) "strict UDP data output buffer is too small"
    let signed = signed_bytes auth direction association_id sequence endpoint payload
    ok (frame_bytes, signed ++ (hmac auth.key signed ++ drop frame_bytes output))

  -- The checks of `decode` that a bad header fails together.
  unfoldable pub correlation_fails :
      StrictUdpDataAuthenticator → List ℕ → StrictUdpDataDirection → Bool
  correlation_fails auth frame expected_direction =
      not (text_eq (take 4 frame) magic)
      || not (byte_at 4 frame == 1)
      || not (byte_at 5 frame == kind expected_direction)
      || not (byte_at 6 frame == 0)
      || not (byte_at 7 frame == 0)
      || not (byte_at 57 frame == 0)
      || not (byte_at 78 frame == 0)
      || not (byte_at 79 frame == 0)
      || not (text_eq (slice 8 16 frame) (to_be 8 auth.generation))
      || not (text_eq (slice 16 32 frame) auth.key_id)

  -- `mac.verify_slice`
  unfoldable pub verify_tag : StrictUdpDataAuthenticator → List ℕ → ℕ → Result Unit
  verify_tag auth frame tag_offset =
      bail_if (not (text_eq (drop tag_offset frame) (hmac auth.key (take tag_offset frame))))
        "strict UDP data frame authentication failed"

  unfoldable pub decode :
      StrictUdpDataAuthenticator → List ℕ → StrictUdpDataDirection → Result StrictUdpDataFrame
  decode auth frame expected_direction = do
    bail_if (ltb (length frame) (80 + 1 + 32) || ltb strict_udp_data_max_frame_bytes (length frame))
        "strict UDP data frame size is invalid"
    let payload_bytes = from_be (slice 76 78 frame)
    bail_if
        (payload_bytes == 0
          || ltb strict_udp_data_max_payload_bytes payload_bytes
          || not (length frame == 80 + payload_bytes + 32))
        "strict UDP data payload length is invalid"
    bail_if (correlation_fails auth frame expected_direction)
        "strict UDP data frame correlation failed"
    let tag_offset = length frame - 32
    verify_tag auth frame tag_offset
    let association_id = slice 32 48 frame
    let sequence = from_be (slice 48 56 frame)
    bail_if (all_zero association_id || sequence == 0)
        "strict UDP data association correlation is invalid"
    endpoint ← parse_endpoint frame
    ok (record {
      direction = expected_direction;
      association_id = association_id;
      sequence = sequence;
      endpoint = endpoint;
      payload = slice 80 tag_offset frame;
    })
