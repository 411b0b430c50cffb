-- ===== src/Udp/Frame/Layout.antt =====
-- Where the fields of a frame are found again.
use mathlib.Core.List.{append_assoc}
use freedom_cloud.Common.{
  ℕ, ◌+◌, ◌-◌, ◌^◌, ◌≤◌, ◌<◌, ◌≡◌, refl, ap, ◌∙◌, arith, List, ◌∷◌, ◌++◌, take, drop, length,
  length-append,
}
use freedom_cloud.Bytes.{head_or_zero, slice, byte_at, to_be, from_be}
use freedom_cloud.Bytes.Laws.{
  drop-append_past, drop-append_within, take-append_whole, take-append_within, length-drop,
  from_be-to_be_two, from_be-to_be_eight,
}
use freedom_cloud.Net.{SocketAddr, port_of, IsAddress, is_v4, is_v6}
use freedom_cloud.Udp.Frame.{
  StrictUdpDataAuthenticator, StrictUdpDataDirection, kind, magic, address_family, address_bytes,
  endpoint_bytes, header,
}

length-address_bytes : (e : SocketAddr) → IsAddress e → length (address_bytes e) ≡ 16
length-address_bytes e (is_v4 a b c d port p q r s t) = refl
length-address_bytes e (is_v6 octets port flowinfo scope_id n bs t) = n

port_bound : (e : SocketAddr) → IsAddress e → port_of e < 2 ^ 16
port_bound e (is_v4 a b c d port p q r s t) = t
port_bound e (is_v6 octets port flowinfo scope_id n bs t) = t

-- What stands where in a frame.
pub record Written (auth : StrictUdpDataAuthenticator) (direction : StrictUdpDataDirection)
    (association_id : List ℕ) (sequence : ℕ) (endpoint : SocketAddr) (n : ℕ) (rest frame : List ℕ)
    : Type 0 where
  pub start : take 4 frame ≡ magic
  pub version : byte_at 4 frame ≡ 1
  pub directed : byte_at 5 frame ≡ kind direction
  pub gap_six : byte_at 6 frame ≡ 0
  pub gap_seven : byte_at 7 frame ≡ 0
  pub generation_at : slice 8 16 frame ≡ to_be 8 auth.generation
  pub key_id_at : slice 16 32 frame ≡ auth.key_id
  pub association_id_at : slice 32 48 frame ≡ association_id
  pub sequence_at : from_be (slice 48 56 frame) ≡ sequence
  pub family_at : byte_at 56 frame ≡ address_family endpoint
  pub gap_fifty_seven : byte_at 57 frame ≡ 0
  pub port_at : from_be (slice 58 60 frame) ≡ port_of endpoint
  pub address_at : slice 60 76 frame ≡ address_bytes endpoint
  pub address_start_at : slice 60 64 frame ≡ take 4 (address_bytes endpoint)
  pub address_rest_at : slice 64 76 frame ≡ drop 4 (address_bytes endpoint)
  pub length_at : from_be (slice 76 78 frame) ≡ n
  pub gap_seventy_eight : byte_at 78 frame ≡ 0
  pub gap_seventy_nine : byte_at 79 frame ≡ 0
  pub rest_at : drop 80 frame ≡ rest
  pub size : length frame ≡ 80 + length rest

module _ (auth : StrictUdpDataAuthenticator) (direction : StrictUdpDataDirection)
    (association_id : List ℕ) (sequence : ℕ) (endpoint : SocketAddr) (n : ℕ) (rest : List ℕ)
    (key_fits : length auth.key_id ≡ 16) (id_fits : length association_id ≡ 16)
    (address : IsAddress endpoint) (numbered : sequence < 2 ^ 64) (short : n < 2 ^ 16) where
  abbrev pub framed : List ℕ
  framed = header auth direction association_id sequence endpoint n rest

  abbrev behind_ids : List ℕ
  behind_ids = to_be 8 sequence ++ endpoint_bytes endpoint (to_be 2 n ++ (0 ∷ 0 ∷ rest))

  abbrev behind_address : List ℕ
  behind_address = to_be 2 n ++ (0 ∷ 0 ∷ rest)

  past_ids :
      (j : ℕ)
      → 32 ≤ j
      → drop j (auth.key_id ++ (association_id ++ behind_ids)) ≡ drop (j - 32) behind_ids
  past_ids j p =
      drop-append_past auth.key_id _ j 16 key_fits (omega arith)
      ∙ drop-append_past association_id behind_ids (j - 16) 16 id_fits (omega arith)
      ∙ ap (λ k. drop k behind_ids) (omega arith)

  past_address :
      (j : ℕ)
      → 16 ≤ j
      → drop j (address_bytes endpoint ++ behind_address) ≡ drop (j - 16) behind_address
  past_address j p =
      drop-append_past (address_bytes endpoint) behind_address j 16
        (length-address_bytes endpoint address) p

  length-behind_address : length (address_bytes endpoint ++ behind_address) ≡ 20 + length rest
  unfolding to_be
  length-behind_address = omega (
    arith,
    length-append (address_bytes endpoint) behind_address,
    length-address_bytes endpoint address,
  )

  length-behind_ids : length behind_ids ≡ 32 + length rest
  unfolding to_be
  length-behind_ids = omega (arith, length-behind_address)

  pub framed-length : length framed ≡ 80 + length rest
  unfolding to_be
  framed-length = omega (
    arith,
    length-append auth.key_id (association_id ++ behind_ids),
    length-append association_id behind_ids,
    key_fits,
    id_fits,
    length-behind_ids,
  )

  pub header-Written :
      Written auth direction association_id sequence endpoint n rest
        (header auth direction association_id sequence endpoint n rest)
  unfolding to_be
  header-Written = record {
    start = refl;
    version = refl;
    directed = refl;
    gap_six = refl;
    gap_seven = refl;
    generation_at = refl;
    key_id_at = take-append_whole auth.key_id _ 16 key_fits;
    association_id_at =
        ap (take 16)
          (drop-append_past auth.key_id (association_id ++ behind_ids) 16 16 key_fits (omega arith))
        ∙ take-append_whole association_id behind_ids 16 id_fits;
    sequence_at =
        ap (λ t. from_be (take 8 t)) (past_ids 32 (omega arith))
        ∙ from_be-to_be_eight sequence numbered;
    family_at = ap head_or_zero (past_ids 40 (omega arith));
    gap_fifty_seven = ap head_or_zero (past_ids 41 (omega arith));
    port_at =
        ap (λ t. from_be (take 2 t)) (past_ids 42 (omega arith))
        ∙ from_be-to_be_two (port_of endpoint) (port_bound endpoint address);
    address_at =
        ap (take 16) (past_ids 44 (omega arith))
        ∙ take-append_whole (address_bytes endpoint) behind_address 16
            (length-address_bytes endpoint address);
    address_start_at =
        ap (take 4) (past_ids 44 (omega arith))
        ∙ take-append_within (address_bytes endpoint) behind_address 4
            (omega (arith, length-address_bytes endpoint address));
    address_rest_at =
        ap (take 12) (
          past_ids 48 (omega arith)
          ∙ drop-append_within (address_bytes endpoint) behind_address 4
              (omega (arith, length-address_bytes endpoint address)))
        ∙ take-append_whole (drop 4 (address_bytes endpoint)) behind_address 12 (
            omega (
              arith,
              length-drop (address_bytes endpoint) 4,
              length-address_bytes endpoint address,
            ));
    length_at =
        ap (λ t. from_be (take 2 t)) (past_ids 60 (omega arith) ∙ past_address 16 (omega arith))
        ∙ from_be-to_be_two n short;
    gap_seventy_eight = ap head_or_zero (past_ids 62 (omega arith) ∙ past_address 18 (omega arith));
    gap_seventy_nine = ap head_or_zero (past_ids 63 (omega arith) ∙ past_address 19 (omega arith));
    rest_at = past_ids 64 (omega arith) ∙ past_address 20 (omega arith);
    size = framed-length;
  }

-- What is appended to a frame stands at its end.
pub header-append :
    (auth : StrictUdpDataAuthenticator) (direction : StrictUdpDataDirection)
    (association_id : List ℕ) (sequence : ℕ) (endpoint : SocketAddr) (n : ℕ) (rest more : List ℕ)
    → header auth direction association_id sequence endpoint n rest ++ more
      ≡ header auth direction association_id sequence endpoint n (rest ++ more)
unfolding to_be
header-append auth direction association_id sequence endpoint n rest more = simp (append_assoc) refl
