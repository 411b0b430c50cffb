-- ===== src/Wfp/Keys.antt =====
-- Object keys, layers and callouts (services/strict-broker/src/wfp_plan.rs).
use Prim.Native.Nat.{bit_and, bit_or}
use freedom_cloud.Common.{ℕ, Bool, List, [], ◌∷◌, ◌++◌, take, drop, all, any, ◌&&◌}
use freedom_cloud.Text.{text_eq}
use freedom_cloud.Bytes.{byte_at}

-- The sixteen bytes of a key.
abbrev pub WfpObjectKey : Type 0
WfpObjectKey = List ℕ

abbrev pub provider_key : WfpObjectKey
provider_key =
    0x8f ∷ 0xcc ∷ 0x2c ∷ 0x06 ∷ 0x8e ∷ 0xa4 ∷ 0x48 ∷ 0x9d ∷ 0x9d ∷ 0x7c ∷ 0x84 ∷ 0x20 ∷ 0x67 ∷ 0x67
    ∷ 0x44 ∷ 0x01 ∷ []

abbrev pub guard_v4_callout_key : WfpObjectKey
guard_v4_callout_key =
    0x4e ∷ 0x5d ∷ 0x3f ∷ 0x4c ∷ 0x0e ∷ 0xf1 ∷ 0x45 ∷ 0x36 ∷ 0xac ∷ 0xf0 ∷ 0x21 ∷ 0x18 ∷ 0xce ∷ 0x60
    ∷ 0x40 ∷ 0x31 ∷ []

abbrev pub guard_v6_callout_key : WfpObjectKey
guard_v6_callout_key =
    0x0b ∷ 0x69 ∷ 0x9f ∷ 0x20 ∷ 0x38 ∷ 0x67 ∷ 0x44 ∷ 0xa0 ∷ 0x93 ∷ 0x4b ∷ 0x3e ∷ 0xf8 ∷ 0x43 ∷ 0xc6
    ∷ 0xf7 ∷ 0x32 ∷ []

abbrev pub redirect_v4_callout_key : WfpObjectKey
redirect_v4_callout_key =
    0xfa ∷ 0x8a ∷ 0x9b ∷ 0xa7 ∷ 0x64 ∷ 0x2c ∷ 0x43 ∷ 0xee ∷ 0xa6 ∷ 0xe6 ∷ 0x71 ∷ 0xd0 ∷ 0x76 ∷ 0xc9
    ∷ 0x53 ∷ 0x41 ∷ []

abbrev pub redirect_v6_callout_key : WfpObjectKey
redirect_v6_callout_key =
    0x9a ∷ 0xd0 ∷ 0x4f ∷ 0x4e ∷ 0x33 ∷ 0x42 ∷ 0x46 ∷ 0xc0 ∷ 0xa1 ∷ 0xa2 ∷ 0xf1 ∷ 0x54 ∷ 0x4d ∷ 0xc1
    ∷ 0xaf ∷ 0x42 ∷ []

abbrev pub flow_v4_callout_key : WfpObjectKey
flow_v4_callout_key =
    0x00 ∷ 0xd8 ∷ 0x3e ∷ 0xb9 ∷ 0x87 ∷ 0x49 ∷ 0x4b ∷ 0x5d ∷ 0xae ∷ 0x3b ∷ 0x55 ∷ 0x1a ∷ 0x96 ∷ 0x2b
    ∷ 0xa5 ∷ 0xf4 ∷ []

abbrev pub flow_v6_callout_key : WfpObjectKey
flow_v6_callout_key =
    0xd8 ∷ 0x8a ∷ 0x2c ∷ 0x87 ∷ 0x51 ∷ 0x0a ∷ 0x4f ∷ 0x61 ∷ 0xa9 ∷ 0xb1 ∷ 0x12 ∷ 0x9f ∷ 0x2e ∷ 0x5f
    ∷ 0xb3 ∷ 0xf0 ∷ []

abbrev pub datagram_v4_callout_key : WfpObjectKey
datagram_v4_callout_key =
    0xf1 ∷ 0x72 ∷ 0x48 ∷ 0xe9 ∷ 0xfd ∷ 0xd9 ∷ 0x43 ∷ 0x07 ∷ 0xb7 ∷ 0x6b ∷ 0xcc ∷ 0x8f ∷ 0x21 ∷ 0x24
    ∷ 0x62 ∷ 0xc5 ∷ []

abbrev pub datagram_v6_callout_key : WfpObjectKey
datagram_v6_callout_key =
    0xa8 ∷ 0x6c ∷ 0x24 ∷ 0x26 ∷ 0x7a ∷ 0x29 ∷ 0x4a ∷ 0xd4 ∷ 0xae ∷ 0xb3 ∷ 0x8d ∷ 0x17 ∷ 0xa8 ∷ 0x7e
    ∷ 0x2c ∷ 0x05 ∷ []

pub data WfpLayer : Type 0 where
  auth_connect_v4 auth_connect_v6 connect_redirect_v4 connect_redirect_v6 : WfpLayer
  flow_established_v4 flow_established_v6 datagram_data_v4 datagram_data_v6 : WfpLayer

pub data WfpCallout : Type 0 where
  fail_closed_guard_v4 fail_closed_guard_v6 redirect_v4 redirect_v6 : WfpCallout
  flow_v4 flow_v6 datagram_v4 datagram_v6 : WfpCallout

pub data WfpFilterLifetime : Type 0 where
  persistent dynamic : WfpFilterLifetime

pub data WfpFilterAction : Type 0 where
  terminating flow_tracking conditional_capture : WfpFilterAction

abbrev namespace_of : WfpLayer → ℕ
namespace_of auth_connect_v4 = 0x11
namespace_of auth_connect_v6 = 0x12
namespace_of connect_redirect_v4 = 0x21
namespace_of connect_redirect_v6 = 0x22
namespace_of flow_established_v4 = 0x31
namespace_of flow_established_v6 = 0x32
namespace_of datagram_data_v4 = 0x41
namespace_of datagram_data_v6 = 0x42

unfoldable pub expected_callout_key : WfpLayer → WfpObjectKey
expected_callout_key auth_connect_v4 = guard_v4_callout_key
expected_callout_key auth_connect_v6 = guard_v6_callout_key
expected_callout_key connect_redirect_v4 = redirect_v4_callout_key
expected_callout_key connect_redirect_v6 = redirect_v6_callout_key
expected_callout_key flow_established_v4 = flow_v4_callout_key
expected_callout_key flow_established_v6 = flow_v6_callout_key
expected_callout_key datagram_data_v4 = datagram_v4_callout_key
expected_callout_key datagram_data_v6 = datagram_v6_callout_key

-- The bits of the digest that mark the key as a custom one.
abbrev pub mark_custom : List ℕ → WfpObjectKey
mark_custom digest =
    take 6 digest
    ++ (bit_or (bit_and (byte_at 6 digest) 0x0f) 0x80
        ∷ byte_at 7 digest
        ∷ bit_or (bit_and (byte_at 8 digest) 0x3f) 0x80
        ∷ take 7 (drop 9 digest))

module _ (sha256 : List ℕ → List ℕ) where
  unfoldable pub derived_filter_key : ℕ → List ℕ → WfpObjectKey
  derived_filter_key key_namespace app_id =
      mark_custom (sha256 (provider_key ++ (key_namespace ∷ app_id)))

  unfoldable pub expected_filter_key : WfpLayer → List ℕ → WfpObjectKey
  unfolding derived_filter_key
  expected_filter_key layer app_id = derived_filter_key (namespace_of layer) app_id

-- Sets of keys (`BTreeSet<WfpObjectKey>`) as lists without regard to order and repetition.
unfoldable pub has_key : List WfpObjectKey → WfpObjectKey → Bool
unfolding text_eq
has_key keys key = any (λ k. text_eq k key) keys

unfoldable pub same_keys : List WfpObjectKey → List WfpObjectKey → Bool
unfolding has_key
same_keys a b = all (has_key b) a && all (has_key a) b
