-- ===== src/Net.antt =====
-- `std::net` addresses: their octets, and the tests on them that the program makes.
use Prim.Native.Nat.{bit_and}
use freedom_cloud.Common.{
  ℕ, ◌+◌, ◌*◌, ◌^◌, Bool, true, ◌&&◌, List, [], ◌∷◌, take, length, leb, ◌==◌, ◌≡◌, ◌<◌,
}
use freedom_cloud.Text.{text_eq}
use freedom_cloud.Bytes.{all_zero, are_bytes, byte_at}

-- `SocketAddr`: the octets of the address and the port, and with IPv6 flow information and scope.
pub data SocketAddr : Type 0 where
  v4 : List ℕ → ℕ → SocketAddr
  v6 : List ℕ → ℕ → ℕ → ℕ → SocketAddr

abbrev pub port_of : SocketAddr → ℕ
port_of (v4 octets port) = port
port_of (v6 octets port flowinfo scope_id) = port

abbrev pub ipv4_loopback : List ℕ → Bool
ipv4_loopback octets = byte_at 0 octets == 127

abbrev pub ipv4_multicast : List ℕ → Bool
ipv4_multicast octets = leb 224 (byte_at 0 octets) && leb (byte_at 0 octets) 239

abbrev pub ipv4_link_local : List ℕ → Bool
ipv4_link_local octets = byte_at 0 octets == 169 && byte_at 1 octets == 254

abbrev pub ipv4_broadcast : List ℕ → Bool
ipv4_broadcast octets = text_eq octets (255 ∷ 255 ∷ 255 ∷ 255 ∷ [])

abbrev pub ipv6_loopback : List ℕ → Bool
ipv6_loopback octets = all_zero (take 15 octets) && byte_at 15 octets == 1

abbrev pub ipv6_multicast : List ℕ → Bool
ipv6_multicast octets = byte_at 0 octets == 255

-- `segments()[0]`
abbrev pub first_segment : List ℕ → ℕ
first_segment octets = byte_at 0 octets * 256 + byte_at 1 octets

-- `segments()[0] & 0xffc0 == 0xfe80`
abbrev pub ipv6_link_local : List ℕ → Bool
ipv6_link_local octets = bit_and (first_segment octets) 0xffc0 == 0xfe80

-- `to_ipv4_mapped().is_some()`: `::ffff:a.b.c.d`
abbrev pub ipv4_mapped : List ℕ → Bool
ipv4_mapped octets =
    all_zero (take 10 octets) && byte_at 10 octets == 255 && byte_at 11 octets == 255

-- A value of the type: as many octets as the family has, each a byte, and a port of 16 bits.
pub data IsAddress : SocketAddr → Type 0 where
  is_v4 :
      (a b c d port : ℕ)
      → a < 256
      → b < 256
      → c < 256
      → d < 256
      → port < 2 ^ 16
      → IsAddress (v4 (a ∷ b ∷ c ∷ d ∷ []) port)
  is_v6 :
      (octets : List ℕ) (port flowinfo scope_id : ℕ)
      → length octets ≡ 16
      → are_bytes octets ≡ true
      → port < 2 ^ 16
      → IsAddress (v6 octets port flowinfo scope_id)
