-- ===== src/Udp/Frame/Decode.antt =====
-- What `StrictUdpDataAuthenticator::decode` has checked of a frame that it takes.

use freedom_cloud.Common.{
  ==_iff, ==_zero-eq_false, not-eq_false, or-eq_false, ℕ, ◌+◌, ◌-◌, ◌≤◌, ◌≡◌, refl, ap, ◌∙◌, sym,
  arith, false, not, ◌||◌, List, take, drop, length, ltb, ◌==◌,
}
use freedom_cloud.Fallible.{ok, >>=-eq-ok, >>-eq-ok, bail_if, bail_if-eq-ok, ok-injective}
use freedom_cloud.Text.{text_eq, text_eq→eq}
use freedom_cloud.Bytes.{slice, byte_at, all_zero, from_be, to_be}
use freedom_cloud.Bytes.Laws.{length-take, length-drop}
use freedom_cloud.Net.{SocketAddr}
use freedom_cloud.Udp.Frame.{
  StrictUdpDataAuthenticator, StrictUdpDataDirection, StrictUdpDataFrame, kind, magic, decode,
  correlation_fails, verify_tag, parse_endpoint, read_endpoint, validate_endpoint,
  strict_udp_data_max_payload_bytes, strict_udp_data_max_frame_bytes,
}

sizes :
    (m n : ℕ)
    → (m == 0 || ltb 16384 m || not (n == 80 + m + 32)) ≡ false
    → (1 ≤ m) × (m ≤ 16384) × (n ≡ 80 + m + 32)
sizes m n h = (ground arith, ground arith, ground arith)

payload-length :
    (frame : List ℕ) (m : ℕ)
    → length frame ≡ 80 + m + 32
    → (length (slice 80 (length frame - 32) frame) ≡ m) × (length frame - 32 ≡ 80 + m)
payload-length frame m e = (
  length-take (drop 80 frame) (length frame - 32 - 80) (omega (arith, length-drop frame 80))
      ∙ omega arith,
  omega arith,
)

parse_endpoint-valid :
    (frame : List ℕ) (e : SocketAddr) → parse_endpoint frame ≡ ok e → validate_endpoint e ≡ ok tt
unfolding parse_endpoint
parse_endpoint-valid frame e h =
    let (read, _, h1) = >>=-eq-ok (read_endpoint frame) _ h in
    let (v, h2) = >>-eq-ok (validate_endpoint read) _ h1 in rw (sym (ok-injective read e h2)) v

module _ (hmac : List ℕ → List ℕ → List ℕ) where
  -- The conditions under which `decode` reaches its end.
  pub record Accepted (auth : StrictUdpDataAuthenticator) (frame : List ℕ)
      (direction : StrictUdpDataDirection) (endpoint : SocketAddr) : Type 0 where
    pub size :
        (ltb (length frame) (80 + 1 + 32) || ltb strict_udp_data_max_frame_bytes (length frame))
        ≡ false
    pub payload_size :
        (from_be (slice 76 78 frame) == 0
          || ltb strict_udp_data_max_payload_bytes (from_be (slice 76 78 frame))
          || not (length frame == 80 + from_be (slice 76 78 frame) + 32))
        ≡ false
    pub correlated : correlation_fails hmac auth frame direction ≡ false
    pub tagged : verify_tag hmac auth frame (length frame - 32) ≡ ok tt
    pub numbered : (all_zero (slice 32 48 frame) || from_be (slice 48 56 frame) == 0) ≡ false
    pub addressed : parse_endpoint frame ≡ ok endpoint

  abbrev pub content : List ℕ → StrictUdpDataDirection → SocketAddr → StrictUdpDataFrame
  content frame d e = record {
    direction = d;
    association_id = slice 32 48 frame;
    sequence = from_be (slice 48 56 frame);
    endpoint = e;
    payload = slice 80 (length frame - 32) frame;
  }

  pub decode-accepts :
      (auth : StrictUdpDataAuthenticator) (frame : List ℕ) (d : StrictUdpDataDirection)
      (e : SocketAddr)
      → Accepted auth frame d e
      → decode hmac auth frame d ≡ ok (content frame d e)
  unfolding decode
  decode-accepts auth frame d e a =
      rw (a.size, a.payload_size, a.correlated, a.tagged, a.numbered, a.addressed) refl

  decode-Accepted :
      (auth : StrictUdpDataAuthenticator) (frame : List ℕ) (d : StrictUdpDataDirection)
      (f : StrictUdpDataFrame)
      → decode hmac auth frame d ≡ ok f
      → (e : SocketAddr) × Accepted auth frame d e × (content frame d e ≡ f)
  unfolding decode
  decode-Accepted auth frame d f h =
      let (s, h1) = >>-eq-ok (bail_if _ _) _ h in
      let (p, h2) = >>-eq-ok (bail_if _ _) _ h1 in
      let (c, h3) = >>-eq-ok (bail_if _ _) _ h2 in
      let (t, h4) = >>-eq-ok (verify_tag hmac auth frame (length frame - 32)) _ h3 in
      let (n, h5) = >>-eq-ok (bail_if _ _) _ h4 in
      let (e, a, h6) = >>=-eq-ok (parse_endpoint frame) _ h5 in
      (
        e,
        record {
          size = bail_if-eq-ok _ _ s;
          payload_size = bail_if-eq-ok _ _ p;
          correlated = bail_if-eq-ok _ _ c;
          tagged = t;
          numbered = bail_if-eq-ok _ _ n;
          addressed = a;
        },
        ok-injective _ _ h6,
      )

  -- What the header says of itself, of the direction and of the key.
  pub record Correlated (auth : StrictUdpDataAuthenticator) (frame : List ℕ)
      (direction : StrictUdpDataDirection) : Type 0 where
    pub is_magic : take 4 frame ≡ magic
    pub is_version : byte_at 4 frame ≡ 1
    pub is_direction : byte_at 5 frame ≡ kind direction
    pub is_reserved :
        (byte_at 6 frame ≡ 0)
        × (byte_at 7 frame ≡ 0)
        × (byte_at 57 frame ≡ 0)
        × (byte_at 78 frame ≡ 0)
        × (byte_at 79 frame ≡ 0)
    pub is_generation : slice 8 16 frame ≡ to_be 8 auth.generation
    pub is_key : slice 16 32 frame ≡ auth.key_id

  correlation_fails-Correlated :
      (auth : StrictUdpDataAuthenticator) (frame : List ℕ) (d : StrictUdpDataDirection)
      → correlation_fails hmac auth frame d ≡ false
      → Correlated auth frame d
  unfolding correlation_fails
  correlation_fails-Correlated auth frame d h =
      let (h9, key) = or-eq_false _ (not (text_eq (slice 16 32 frame) auth.key_id)) h in
      let (h8, generation) =
        or-eq_false _ (not (text_eq (slice 8 16 frame) (to_be 8 auth.generation))) h9 in
      let (h7, r79) = or-eq_false _ (not (byte_at 79 frame == 0)) h8 in
      let (h6, r78) = or-eq_false _ (not (byte_at 78 frame == 0)) h7 in
      let (h5, r57) = or-eq_false _ (not (byte_at 57 frame == 0)) h6 in
      let (h4, r7) = or-eq_false _ (not (byte_at 7 frame == 0)) h5 in
      let (h3, r6) = or-eq_false _ (not (byte_at 6 frame == 0)) h4 in
      let (h2, sent) = or-eq_false _ (not (byte_at 5 frame == kind d)) h3 in
      let (start, version) =
        or-eq_false (not (text_eq (take 4 frame) magic)) (not (byte_at 4 frame == 1)) h2 in
      record {
        is_magic = text_eq→eq _ _ (not-eq_false _ start);
        is_version = same _ _ version;
        is_direction = same _ _ sent;
        is_reserved = (same _ _ r6, same _ _ r7, same _ _ r57, same _ _ r78, same _ _ r79);
        is_generation = text_eq→eq _ _ (not-eq_false _ generation);
        is_key = text_eq→eq _ _ (not-eq_false _ key);
      }
    where
      same : (m n : ℕ) → not (m == n) ≡ false → m ≡ n
      same m n e = (==_iff m n).0 (not-eq_false _ e)

  verified-tag :
      (auth : StrictUdpDataAuthenticator) (frame : List ℕ) (tag_offset : ℕ)
      → verify_tag hmac auth frame tag_offset ≡ ok tt
      → drop tag_offset frame ≡ hmac auth.key (take tag_offset frame)
  unfolding verify_tag
  verified-tag auth frame tag_offset h = text_eq→eq _ _ (not-eq_false _ (bail_if-eq-ok _ _ h))

  -- A frame that `decode` takes has exactly its header, a payload of 1 to 16384 bytes, which is the frame's part between
  -- header and tag, and a tag that is the keyed hash of all before it. The header has the magic bytes, version 1, zero in every
  -- reserved byte, the byte of the direction that the caller expects and that the frame is given, this generation and this key. The
  -- sequence number and the association identifier are the header's and not zero, and the endpoint is one that
  -- `validate_endpoint` takes.
  pub decode-checks :
      (auth : StrictUdpDataAuthenticator) (frame : List ℕ) (d : StrictUdpDataDirection)
      (f : StrictUdpDataFrame)
      → decode hmac auth frame d ≡ ok f
      → (length frame ≡ 80 + length f.payload + 32)
        × (1 ≤ length f.payload)
        × (length f.payload ≤ 16384)
        × (f.payload ≡ slice 80 (80 + length f.payload) frame)
        × (drop (80 + length f.payload) frame ≡ hmac auth.key (take (80 + length f.payload) frame))
        × Correlated auth frame f.direction
        × (f.direction ≡ d)
        × (f.association_id ≡ slice 32 48 frame)
        × (f.sequence ≡ from_be (slice 48 56 frame))
        × (1 ≤ f.sequence)
        × (all_zero f.association_id ≡ false)
        × (validate_endpoint f.endpoint ≡ ok tt)
  unfolding verify_tag
  decode-checks auth frame d f h =
      let (e, a, q) = decode-Accepted auth frame d f h in
      let (some_payload, small, long) = sizes (from_be (slice 76 78 frame)) _ a.payload_size in
      let (m, last) = payload-length frame (from_be (slice 76 78 frame)) long in
      let (unidentified, unnumbered) = or-eq_false (all_zero (slice 32 48 frame)) _ a.numbered in
      rw (sym q, m)
        (
          long,
          some_payload,
          small,
          ap (λ b. slice 80 b frame) last,
          verified-tag auth frame (80 + from_be (slice 76 78 frame)) (rw (sym last) a.tagged),
          correlation_fails-Correlated auth frame d a.correlated,
          refl,
          refl,
          refl,
          ==_zero-eq_false _ unnumbered,
          unidentified,
          parse_endpoint-valid frame e a.addressed,
        )
