-- ===== src/Auth/Laws.antt =====
-- The comparison of capabilities decides equality, and authentication its four conditions.
use Prim.Native.Nat.{bit_or, bit_xor}
use freedom_cloud.Common.{
  ℕ, ◌/◌, ◌≡◌, ◌↔◌, refl, sym, ap, ◌∙◌, true, false, not, ◌&&◌, List, [], ◌∷◌, arith, length, ◌==◌,
  ==_iff,
}
use freedom_cloud.Bits.{bit_or-eq_zero, bit_xor-eq_zero, bit_xor_self}
use freedom_cloud.Fallible.{ok, bail_if, >>=-eq-ok, >>-eq-ok, bail_if-eq-ok, ok-injective}
use freedom_cloud.Text.{Text, bytes, len}
use freedom_cloud.Contract.Codec.{Codec}
use freedom_cloud.Contract.Frames.{FrameCodec, BrokerRequest, parse_broker_request}
use freedom_cloud.Auth.{
  ClientPrincipal, AuthorizedBrokerRequest, BrokerAuthenticator, difference, constant_time_equal,
  decode_hex_digit, decode_pairs, decode_sha256, is_administrator, is_recovery_command,
  authenticate,
}

pub difference-zero :
    (acc : ℕ) (left right : List ℕ)
    → length left ≡ length right
    → difference acc left right ≡ 0
    → (acc ≡ 0) × (left ≡ right)
unfolding difference
difference-zero acc [] [] n e = (e, refl)
difference-zero acc [] (r ∷ right) n e = absurd (omega arith)
difference-zero acc (l ∷ left) [] n e = absurd (omega arith)
difference-zero acc (l ∷ left) (r ∷ right) n e =
    let (zero_so_far, same) =
      difference-zero (bit_or acc (bit_xor l r)) left right (omega arith) e in
    let (acc_zero, xor_zero) = bit_or-eq_zero acc (bit_xor l r) zero_so_far in
    (acc_zero, cc (bit_xor-eq_zero l r xor_zero, same))

pub difference_self : (left : List ℕ) → difference 0 left left ≡ 0
unfolding difference
difference_self [] = refl
difference_self (l ∷ left) = rw (bit_xor_self l) (difference_self left)

-- On arrays of one length the comparison without early exit decides equality.
pub constant_time_equal_iff :
    (left right : List ℕ)
    → length left ≡ length right
    → (constant_time_equal left right ≡ true) ↔ (left ≡ right)
unfolding constant_time_equal
constant_time_equal_iff left right n = (
  λ e. (difference-zero 0 left right n ((==_iff _ 0).0 e)).1,
  λ e. rw e ((==_iff _ 0).1 (difference_self right)),
)

decode_pairs-length : (bs ds : List ℕ) → decode_pairs bs ≡ ok ds → length ds ≡ length bs / 2
unfolding decode_pairs
decode_pairs-length [] ds e = ground arith
decode_pairs-length (a ∷ []) ds e = ground arith
decode_pairs-length (a ∷ b ∷ rest) ds e =
    let (high, _, e1) = >>=-eq-ok (decode_hex_digit a) _ e in
    let (low, _, e2) = >>=-eq-ok (decode_hex_digit b) _ e1 in
    let (tail, found, e3) = >>=-eq-ok (decode_pairs rest) _ e2 in
    ground (arith, decode_pairs-length rest tail found)

decode_sha256-length : (t : Text) (ds : List ℕ) → decode_sha256 t ≡ ok ds → length ds ≡ 32
unfolding decode_sha256
decode_sha256-length t ds e =
    let (sized, decoded) =
      >>-eq-ok (bail_if (not (len t == 64)) "Broker session capability has an invalid size")
        (decode_pairs (bytes t)) e in
    ground (arith, decode_pairs-length (bytes t) ds decoded, bail_if-eq-ok _ _ sized)

module _ (codec : Codec) (frames : FrameCodec) (auth : BrokerAuthenticator)
    (principal : ClientPrincipal) (frame : Text) where
  -- The four conditions of an authorized request.
  pub record Authentic (a : AuthorizedBrokerRequest) : Type 0 where
    pub parsed : parse_broker_request codec frames frame ≡ ok a.request
    pub same_principal : a.principal ≡ principal
    pub local_client : principal.is_local ≡ true
    pub proven : decode_sha256 a.request.session_capability ≡ ok auth.expected_capability
    pub permitted :
        (is_administrator principal.role && not (is_recovery_command a.request.command)) ≡ false

  authentic :
      (request : BrokerRequest) (provided : List ℕ)
      → parse_broker_request codec frames frame ≡ ok request
      → not principal.is_local ≡ false
      → decode_sha256 request.session_capability ≡ ok provided
      → provided ≡ auth.expected_capability
      → (is_administrator principal.role && not (is_recovery_command request.command)) ≡ false
      → Authentic (record { principal = principal; request = request })
  authentic request provided parsed is_here decoded same allowed = record {
    parsed = parsed;
    same_principal = refl;
    local_client = ground arith;
    proven = decoded ∙ ap ok same;
    permitted = allowed;
  }

  -- With a capability of 32 bytes, an authorized request is the parsed frame under the client's
  -- principal; the client is local, its capability is the expected one, and a recovery
  -- administrator's command is one of those it may give.
  pub authenticate→Authentic :
      length auth.expected_capability ≡ 32
      → (a : AuthorizedBrokerRequest) → authenticate codec frames auth principal frame ≡ ok a
      → Authentic a
  unfolding authenticate
  authenticate→Authentic n a e =
      let (request, parsed, e1) = >>=-eq-ok (parse_broker_request codec frames frame) _ e in
      let (is_here, e2) =
        >>-eq-ok (bail_if (not principal.is_local) "remote Broker clients are forbidden") _ e1 in
      let (provided, decoded, e3) = >>=-eq-ok (decode_sha256 request.session_capability) _ e2 in
      let (same, e4) =
        >>-eq-ok
          (bail_if (not (constant_time_equal provided auth.expected_capability))
            "Broker session capability is invalid")
          _ e3 in
      let (allowed, e5) =
        >>-eq-ok
          (bail_if (is_administrator principal.role && not (is_recovery_command request.command))
            "recovery administrator command is not permitted")
          _ e4 in
      let at_request =
        authentic request provided parsed (bail_if-eq-ok _ _ is_here) decoded
          (same_capability provided (decode_sha256-length _ provided decoded)
            (bail_if-eq-ok _ _ same))
          (bail_if-eq-ok _ _ allowed) in
      rw (ok-injective _ a e5) at at_request
    where
      same_capability :
          (provided : List ℕ)
          → length provided ≡ 32
          → not (constant_time_equal provided auth.expected_capability) ≡ false
          → provided ≡ auth.expected_capability
      same_capability provided sized same =
          (constant_time_equal_iff provided auth.expected_capability (sized ∙ sym n)).0
            (ground arith)
