-- ===== src/Tests/Datagrams.antt =====
-- The frames of the UDP data channel and the redirect contexts, each theorem at one of them.
use freedom_cloud.Common.{
  arith, ℕ, ◌+◌, ◌≡◌, ◌≢◌, ◌≤◌, ◌<◌, ◌⊎◌, refl, none, some, false, List, [], ◌∷◌, ◌++◌, take, drop,
  length, replicate,
}
use freedom_cloud.Fallible.{ok, is_ok}
use freedom_cloud.Text.{text_eq}
use freedom_cloud.Bytes.{slice, byte_at, all_zero, to_be, from_be, from_le}
use freedom_cloud.Net.{SocketAddr, v4, is_v4}
use freedom_cloud.Udp.Frame.{
  StrictUdpDataAuthenticator, StrictUdpDataFrame, outbound, inbound, signed_bytes, encode, decode,
  validate_endpoint, safe_address, safe_ipv4, correlation_fails,
}
use freedom_cloud.Udp.Frame.Decode.{Correlated, decode-checks}
use freedom_cloud.Udp.Frame.RoundTrip.{decode-encode}
use freedom_cloud.Auth.{difference}
use freedom_cloud.Redirect.{
  StrictRedirectLeaseBinding, StrictRedirectContext, udp, renewed, check_bound, read_u16, read_u32,
  read_u64, constant_time_eq, read_destination, parse_strict_redirect_context,
}
use freedom_cloud.Redirect.Checks.{field, unsafe_destination, parse_strict_redirect_context-checks}
use freedom_cloud.Redirect.Renewal.{renewed-keeps, renewed_twice-rejects}

-- A keyed hash of one value.
abbrev toy_hmac : List ℕ → List ℕ → List ℕ
toy_hmac key bytes = replicate 32 9

abbrev toy_authenticator : StrictUdpDataAuthenticator
toy_authenticator = record { generation = 5; key_id = replicate 16 3; key = replicate 32 4 }

abbrev resolver : SocketAddr
resolver = v4 (8 ∷ 8 ∷ 4 ∷ 4 ∷ []) 53

abbrev hello : List ℕ
hello = b'h' ∷ b'i' ∷ []

abbrev hello_signed : List ℕ
hello_signed = signed_bytes toy_authenticator outbound (replicate 16 1) 7 resolver hello

-- An output buffer of 120 bytes has six to spare.
abbrev hello_buffer : List ℕ
hello_buffer = hello_signed ++ (replicate 32 9 ++ replicate 6 0)

abbrev hello_frame : StrictUdpDataFrame
hello_frame = record {
  direction = outbound;
  association_id = replicate 16 1;
  sequence = 7;
  endpoint = resolver;
  payload = hello;
}

hello_encoded :
    encode toy_hmac toy_authenticator (replicate 120 0) outbound (replicate 16 1) 7 resolver hello
    ≡ ok (114, hello_buffer)
unfolding encode validate_endpoint safe_address safe_ipv4 text_eq
hello_encoded = refl

decode-encode_example :
    decode toy_hmac toy_authenticator (take 114 hello_buffer) outbound ≡ ok hello_frame
decode-encode_example =
    decode-encode toy_hmac toy_authenticator (replicate 120 0) outbound (replicate 16 1) 7 resolver
      hello refl refl (omega arith)
      (is_v4 8 8 4 4 53 (omega arith) (omega arith) (omega arith) (omega arith) (omega arith))
      (λ k m. refl) 114 hello_buffer hello_encoded

-- With another key identifier, or read as the other direction, the frame is refused.
other_direction_refused :
    is_ok (decode toy_hmac toy_authenticator (take 114 hello_buffer) inbound) ≡ false
unfolding decode correlation_fails to_be text_eq from_be
other_direction_refused = refl

decode-checks_example :
    (length (take 114 hello_buffer) ≡ 80 + 2 + 32)
    × (1 ≤ 2)
    × (2 ≤ 16384)
    × (hello ≡ slice 80 (80 + 2) (take 114 hello_buffer))
    × (drop (80 + 2) (take 114 hello_buffer) ≡ replicate 32 9)
    × Correlated toy_hmac toy_authenticator (take 114 hello_buffer) outbound
    × (outbound ≡ outbound)
    × (replicate 16 1 ≡ slice 32 48 (take 114 hello_buffer))
    × (7 ≡ from_be (slice 48 56 (take 114 hello_buffer)))
    × (1 ≤ 7)
    × (all_zero (replicate 16 1) ≡ false)
    × (validate_endpoint resolver ≡ ok tt)
decode-checks_example =
    decode-checks toy_hmac toy_authenticator (take 114 hello_buffer) outbound hello_frame
      decode-encode_example

abbrev lease : StrictRedirectLeaseBinding
lease = record {
  generation = 5;
  previous_generation = none;
  revision = 1;
  policy_digest = replicate 32 2;
  nonce = replicate 16 6;
  target_group_count = 3;
}

abbrev renewed_to : ℕ → ℕ → StrictRedirectLeaseBinding
renewed_to generation previous = record lease {
  generation = generation;
  previous_generation = some previous;
}

-- A flow to 8.8.4.4:53 that the driver stamped under generation 5.
abbrev stamped : List ℕ
stamped =
    0x46
    ∷ 0x43
    ∷ 0x58
    ∷ 0x43
    ∷ 1
    ∷ 0
    ∷ 112
    ∷ 0
    ∷ 5
    ∷ 0
    ∷ 0
    ∷ 0
    ∷ 0
    ∷ 0
    ∷ 0
    ∷ 0
    ∷ 1
    ∷ 0
    ∷ 0
    ∷ 0
    ∷ 0
    ∷ 0
    ∷ 0
    ∷ 0
    ∷ (replicate 32 2
        ++ (replicate 16 6 ++ (2 ∷ 0 ∷ 4 ∷ 17 ∷ 53 ∷ 0 ∷ 0 ∷ 0 ∷ 8 ∷ 8 ∷ 4 ∷ 4 ∷ replicate 28 0)))

abbrev flow : StrictRedirectContext
flow = record {
  target_group_index = 2;
  original_destination = resolver;
  transport = udp;
  canary_process_id = 0;
}

stamped_parsed : parse_strict_redirect_context stamped lease udp ≡ ok flow
unfolding parse_strict_redirect_context check_bound read_u16 read_u32 read_u64 constant_time_eq
    read_destination from_le text_eq difference
stamped_parsed = refl

parse_strict_redirect_context-checks_example :
    (length stamped ≡ 112)
    × ((field 8 8 stamped ≡ 5) ⊎ (none ≡ some (field 8 8 stamped)))
    × (field 16 8 stamped ≡ 1)
    × (slice 24 56 stamped ≡ replicate 32 2)
    × (slice 56 72 stamped ≡ replicate 16 6)
    × (2 < 3)
    × (udp ≡ udp)
    × (byte_at 75 stamped ≡ 17)
    × (unsafe_destination resolver ≡ false)
    × (1 ≤ 53)
    × (flow.canary_process_id ≡ field 96 8 stamped)
    × ((field 4 2 stamped ≡ 1) × (flow.canary_process_id ≡ 0)
        ⊎ (field 4 2 stamped ≡ 2) × (1 ≤ flow.canary_process_id))
parse_strict_redirect_context-checks_example =
    parse_strict_redirect_context-checks stamped lease udp flow stamped_parsed

lease_renewed : renewed lease 6 ≡ ok (renewed_to 6 5)
unfolding renewed
lease_renewed = refl

lease_renewed_again : renewed (renewed_to 6 5) 9 ≡ ok (renewed_to 9 6)
unfolding renewed
lease_renewed_again = refl

stamped_generation : field 8 8 stamped ≡ 5
unfolding from_le
stamped_generation = refl

renewed-keeps_example :
    parse_strict_redirect_context stamped (renewed_to 6 5) udp
    ≡ parse_strict_redirect_context stamped lease udp
renewed-keeps_example =
    renewed-keeps stamped lease udp 6 (renewed_to 6 5) lease_renewed stamped_generation

renewed_twice-rejects_example : parse_strict_redirect_context stamped (renewed_to 9 6) udp ≢ ok flow
renewed_twice-rejects_example =
    renewed_twice-rejects stamped lease udp 6 9 (renewed_to 6 5) (renewed_to 9 6) lease_renewed
      lease_renewed_again stamped_generation flow
