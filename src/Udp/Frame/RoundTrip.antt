-- ===== src/Udp/Frame/RoundTrip.antt =====
-- `StrictUdpDataAuthenticator::decode` takes what `encode` wrote.
use mathlib.Core.List.{append_assoc}
use freedom_cloud.Common.{
  not-eq_false, ℕ, ◌+◌, ◌-◌, ◌^◌, ◌<◌, ◌≡◌, refl, ap, ◌∙◌, sym, arith, true, false, not, ◌||◌, ◌&&◌,
  List, [], ◌∷◌, ◌++◌, take, drop, length, length-append, ltb, ◌==◌, is_empty, and-eq_true, ==_iff,
}
use freedom_cloud.Fallible.{ok, >>-eq-ok, bail_if, bail_if-eq-ok, ok-injective}
use freedom_cloud.Text.{text_eq_refl}
use freedom_cloud.Bytes.{all_zero, to_be}
use freedom_cloud.Bytes.Laws.{drop-append_whole, take-append_whole}
use freedom_cloud.Net.{SocketAddr, v6, IsAddress, is_v4, is_v6}
use freedom_cloud.Udp.Frame.{
  StrictUdpDataAuthenticator, StrictUdpDataDirection, outbound, inbound, kind, magic, safe_address,
  safe_ipv6, header, signed_bytes, encode, decode, correlation_fails, verify_tag, parse_endpoint,
  read_endpoint, validate_endpoint, strict_udp_data_max_payload_bytes,
}
use freedom_cloud.Udp.Frame.Decode.{Accepted, content, decode-accepts}
use freedom_cloud.Udp.Frame.Layout.{Written, header-Written, header-append}

-- The size checks of `encode` give those of `decode`.
short_frame :
    (xs : List ℕ)
    → (is_empty xs || ltb 16384 (length xs)) ≡ false
    → (ltb (80 + length xs + 32) (80 + 1 + 32) || ltb (80 + 16384 + 32) (80 + length xs + 32))
      ≡ false
short_frame [] h = cc
short_frame (x ∷ xs) h = ground arith

payload_short : (xs : List ℕ) → (is_empty xs || ltb 16384 (length xs)) ≡ false → length xs < 2 ^ 16
payload_short [] h = cc
payload_short (x ∷ xs) h = ground arith

short_payload :
    (xs : List ℕ)
    → (is_empty xs || ltb 16384 (length xs)) ≡ false
    → (length xs == 0 || ltb 16384 (length xs) || not (80 + length xs + 32 == 80 + length xs + 32))
      ≡ false
short_payload [] h = cc
short_payload (x ∷ xs) h = ground arith

-- A valid IPv6 endpoint has neither flow information nor a scope.
validate_endpoint-v6 :
    (octets : List ℕ) (port flowinfo scope_id : ℕ)
    → validate_endpoint (v6 octets port flowinfo scope_id) ≡ ok tt
    → (flowinfo ≡ 0) × (scope_id ≡ 0)
unfolding validate_endpoint safe_address
validate_endpoint-v6 octets port flowinfo scope_id v =
    let (_, safe) = >>-eq-ok (bail_if (port == 0) _) _ v in
    let (plain, _) = and-eq_true (flowinfo == 0 && scope_id == 0) _ (
      not-eq_false _
        (bail_if-eq-ok (not (flowinfo == 0 && scope_id == 0 && safe_ipv6 octets)) _ safe)) in
    let (f, g) = and-eq_true (flowinfo == 0) (scope_id == 0) plain in
    ((==_iff flowinfo 0).0 f, (==_iff scope_id 0).0 g)

module _ (hmac : List ℕ → List ℕ → List ℕ) where
  -- A frame that `encode` wrote is one that `decode` takes.
  module _ (auth : StrictUdpDataAuthenticator) (direction : StrictUdpDataDirection)
      (association_id : List ℕ) (sequence : ℕ) (endpoint : SocketAddr) (payload : List ℕ) where
    abbrev signed : List ℕ
    signed = signed_bytes auth direction association_id sequence endpoint payload

    abbrev tag : List ℕ
    tag = hmac auth.key signed

    abbrev Is : List ℕ → Type 0
    Is frame =
        Written auth direction association_id sequence endpoint (length payload) (payload ++ tag)
          frame

    tagged-Written :
        (frame : List ℕ)
        → signed ++ tag ≡ frame
        → length signed ≡ 80 + length payload
        → length frame - 32 ≡ 80 + length payload
        → verify_tag hmac auth frame (length frame - 32) ≡ ok tt
    unfolding verify_tag
    tagged-Written frame e n at =
        rw
          (
            at,
            sym e,
            drop-append_whole signed tag _ n,
            take-append_whole signed tag _ n,
            text_eq_refl tag,
          )
          refl

    correlated-Written :
        (frame : List ℕ) → Is frame → correlation_fails hmac auth frame direction ≡ false
    unfolding correlation_fails
    correlated-Written frame w =
        rw
          (
            w.start,
            w.version,
            w.directed,
            w.gap_six,
            w.gap_seven,
            w.gap_fifty_seven,
            w.gap_seventy_eight,
            w.gap_seventy_nine,
            w.generation_at,
            w.key_id_at,
            text_eq_refl (to_be 8 auth.generation),
            text_eq_refl auth.key_id,
            text_eq_refl magic,
            kinds direction,
          )
          refl
      where
        kinds : (d : StrictUdpDataDirection) → (kind d == kind d) ≡ true
        kinds outbound = refl
        kinds inbound = refl

    read-Written :
        (e : SocketAddr)
        → endpoint ≡ e
        → IsAddress e
        → validate_endpoint e ≡ ok tt
        → (frame : List ℕ) → Is frame
        → read_endpoint frame ≡ ok e
    unfolding read_endpoint validate_endpoint safe_address
    read-Written e q (is_v4 a b c d port _ _ _ _ _) v frame w =
        rw (w.family_at, w.address_start_at, w.address_rest_at, w.port_at, q) refl
    read-Written e q (is_v6 octets port flowinfo scope_id _ _ _) v frame w =
        let (unlabelled, unscoped) = validate_endpoint-v6 octets port flowinfo scope_id v in
        rw (w.family_at, w.address_at, w.port_at, q, unlabelled, unscoped) refl

    encode-encoded :
        (output : List ℕ) (size : ℕ) (buffer : List ℕ)
        → encode hmac auth output direction association_id sequence endpoint payload
          ≡ ok (size, buffer)
        → ((all_zero association_id || sequence == 0) ≡ false)
          × ((is_empty payload || ltb strict_udp_data_max_payload_bytes (length payload)) ≡ false)
          × (validate_endpoint endpoint ≡ ok tt)
          × (80 + length payload + 32 ≡ size)
          × (signed ++ (tag ++ drop (80 + length payload + 32) output) ≡ buffer)
    unfolding encode
    encode-encoded output size buffer h =
        let (c1, h1) = >>-eq-ok (bail_if (all_zero association_id || sequence == 0) _) _ h in
        let (c2, h2) =
          >>-eq-ok
            (bail_if (is_empty payload || ltb strict_udp_data_max_payload_bytes (length payload)) _)
            _ h1 in
        let (c3, h3) = >>-eq-ok (validate_endpoint endpoint) _ h2 in
        let (c4, h4) = >>-eq-ok (bail_if (ltb (length output) (80 + length payload + 32)) _) _ h3 in
        (
          bail_if-eq-ok _ _ c1,
          bail_if-eq-ok _ _ c2,
          c3,
          ap (λ p. p.0) (ok-injective _ _ h4),
          ap (λ p. p.1) (ok-injective _ _ h4),
        )

    module _ (address : IsAddress endpoint) (wide : length tag ≡ 32)
        (numbered : (all_zero association_id || sequence == 0) ≡ false)
        (sized : (is_empty payload || ltb strict_udp_data_max_payload_bytes (length payload))
          ≡ false)
        (valid : validate_endpoint endpoint ≡ ok tt) where
      written-Accepted :
          (frame : List ℕ)
          → Is frame
          → signed ++ tag ≡ frame
          → length signed ≡ 80 + length payload
          → Accepted hmac auth frame direction endpoint
      unfolding parse_endpoint
      written-Accepted frame w e n = record {
        size = rw long (short_frame payload sized);
        payload_size = rw (w.length_at, long) (short_payload payload sized);
        correlated = correlated-Written frame w;
        tagged = tagged-Written frame e n (omega (arith, long));
        numbered = rw (w.association_id_at, w.sequence_at) numbered;
        addressed = rw (read-Written endpoint refl address valid frame w, valid) refl;
      }
        where
          long : length frame ≡ 80 + length payload + 32
          long = omega (arith, w.size, length-append payload tag, wide)

      content-Written :
          (frame : List ℕ)
          → Is frame
          → content hmac frame direction endpoint ≡ record {
            direction = direction;
            association_id = association_id;
            sequence = sequence;
            endpoint = endpoint;
            payload = payload;
          }
      content-Written frame w =
          rw
            (
              w.association_id_at,
              w.sequence_at,
              w.rest_at,
              long,
              take-append_whole payload tag _ refl,
            )
            refl
        where
          long : length frame - 32 - 80 ≡ length payload
          long = omega (arith, w.size, length-append payload tag, wide)

    -- The front of the buffer.
    front :
        (output : List ℕ)
        → length tag ≡ 32
        → length signed ≡ 80 + length payload
        → take (80 + length payload + 32) (signed ++ (tag ++ output)) ≡ signed ++ tag
    front output wide n =
        ap (take (80 + length payload + 32)) (sym (append_assoc signed tag output))
        ∙ take-append_whole (signed ++ tag) output _
            (omega (arith, length-append signed tag, wide, n))

  -- What `encode` wrote into its buffer, `decode` reads back from the front of the buffer: the
  -- frame's direction, identifier, sequence number, endpoint and payload. The key identifier and
  -- the association identifier have 16 bytes, the sequence number 64 bits, the endpoint is a value
  -- of its type, and the keyed hash gives 32 bytes.
  pub decode-encode :
      (auth : StrictUdpDataAuthenticator) (output : List ℕ) (direction : StrictUdpDataDirection)
      (association_id : List ℕ) (sequence : ℕ) (endpoint : SocketAddr) (payload : List ℕ)
      → length auth.key_id ≡ 16
      → length association_id ≡ 16
      → sequence < 2 ^ 64
      → IsAddress endpoint
      → ((k m : List ℕ) → length (hmac k m) ≡ 32)
      → (size : ℕ) (buffer : List ℕ)
      → encode hmac auth output direction association_id sequence endpoint payload
        ≡ ok (size, buffer)
      → decode hmac auth (take size buffer) direction
        ≡ ok (record {
          direction = direction;
          association_id = association_id;
          sequence = sequence;
          endpoint = endpoint;
          payload = payload;
        })
  unfolding encode
  decode-encode auth output direction association_id sequence endpoint payload key id num addr wide
        size buffer h =
      let (numbered, sized, valid, e, q) =
        encode-encoded auth direction association_id sequence endpoint payload output size buffer
          h in
      let at =
        front auth direction association_id sequence endpoint payload
          (drop (80 + length payload + 32) output) (wide _ _) (written sized payload).size
        ∙ header-append auth direction association_id sequence endpoint (length payload) payload
            _ in
      rw (sym e, sym q, at)
        (decode-accepts hmac auth _ direction endpoint (
            written-Accepted auth direction association_id sequence endpoint payload addr (wide _ _)
              numbered sized valid _
              (written sized
                (payload ++ tag auth direction association_id sequence endpoint payload))
              (header-append auth direction association_id sequence endpoint (length payload)
                payload _)
              (written sized payload).size)
          ∙ ap ok (
              content-Written auth direction association_id sequence endpoint payload addr
                (wide _ _) numbered sized valid _
                (written sized
                  (payload ++ tag auth direction association_id sequence endpoint payload))))
    where
      written :
          (is_empty payload || ltb 16384 (length payload)) ≡ false
          → (rest : List ℕ)
          → Written auth direction association_id sequence endpoint
              (length payload)
              rest
              (header auth direction association_id sequence endpoint (length payload) rest)
      written sized rest =
          header-Written auth direction association_id sequence endpoint (length payload) rest key
            id addr num (payload_short payload sized)
