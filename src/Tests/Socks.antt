-- ===== src/Tests/Socks.antt =====
-- The SOCKS5 exchange over a wire whose answers are given.
use freedom_cloud.Common.{
  ℕ, ◌≡◌, refl, ap, ◌∙◌, sym, arith, Bool, true, false, some, List, [], ◌∷◌, length, replicate,
  ◌==◌, ==_iff,
}
use freedom_cloud.Fallible.{ok, bail, ok-injective}
use freedom_cloud.Action.{Action, ◌>>=◌, branch}
use freedom_cloud.Text.{text_eq, starts_with, ends_with, split}
use freedom_cloud.Net.{v4}
use freedom_cloud.Socks.{
  ByteStream, remaining, write_deadline, read_deadline, read_domain_length, bound_address_bytes,
  consume_bound_address, perform_socks5_authentication, perform_socks5_connect,
}
use freedom_cloud.Socks.Target.{
  Socks5ProxyIngress, Socks5ConnectTarget, domain, validate_domain, encode_connect_request,
}
use freedom_cloud.Socks.Request.{
  read_request, asked_for, is_domain, read_request-encode_connect_request,
}
use freedom_cloud.Socks.Exchange.{
  Event, sent, received, Transcript, Connected, perform_socks5_connect-Connected,
}

-- `a-b.example`
abbrev example_target : Socks5ConnectTarget
example_target =
    domain (b'a' ∷ b'-' ∷ b'b' ∷ b'.' ∷ b'e' ∷ b'x' ∷ b'a' ∷ b'm' ∷ b'p' ∷ b'l' ∷ b'e' ∷ []) 443

read_request-encode_connect_request_example :
    read_request (encode_connect_request example_target) ≡ some (asked_for example_target)
unfolding validate_domain split starts_with ends_with text_eq
read_request-encode_connect_request_example =
    read_request-encode_connect_request example_target (is_domain _ _ refl (omega arith))

record Wire : Type 0 where
  past : List Event
  incoming : List (List ℕ)

abbrev answer : Bool → List ℕ → List (List ℕ) → Action Wire (List ℕ)
answer true bytes rest wire =
    (ok bytes, record { past = received bytes ∷ wire.past; incoming = rest })
answer false bytes rest wire = (bail "failed to fill whole buffer", wire)

abbrev next_answer : List (List ℕ) → ℕ → Action Wire (List ℕ)
next_answer [] n wire = (bail "failed to fill whole buffer", wire)
next_answer (bytes ∷ rest) n wire = answer (length bytes == n) bytes rest wire

-- A clock that stands still.
abbrev wire_stream : ByteStream Wire
wire_stream = record {
  now = λ wire. (1000, wire);
  connect_timeout = λ address timeout wire. (ok tt, wire);
  peer_addr = λ wire. (ok (v4 (127 ∷ 0 ∷ 0 ∷ 1 ∷ []) 9000), wire);
  set_nodelay = λ flag wire. (ok tt, wire);
  set_write_timeout = λ limit wire. (ok tt, wire);
  set_read_timeout = λ limit wire. (ok tt, wire);
  write_all =
      λ bytes wire. (ok tt, record { past = sent bytes ∷ wire.past; incoming = wire.incoming });
  read_exact = λ n wire. next_answer wire.incoming n wire;
}

next_answer_lem :
    (incoming : List (List ℕ)) (n : ℕ) (wire : Wire) (bytes : List ℕ)
    → (next_answer incoming n wire).0 ≡ ok bytes
    → (length bytes ≡ n) × ((next_answer incoming n wire).1.past ≡ received bytes ∷ wire.past)
next_answer_lem [] n wire bytes e = cc
next_answer_lem (b ∷ rest) n wire bytes e = chosen (length b == n) refl e
  where
    chosen :
        (c : Bool)
        → (length b == n) ≡ c
        → (answer c b rest wire).0 ≡ ok bytes
        → (length bytes ≡ n) × ((answer c b rest wire).1.past ≡ received bytes ∷ wire.past)
    chosen true p e =
        let same = ok-injective b bytes e in
        (ap length (sym same) ∙ (==_iff (length b) n).0 p, ap (λ x. received x ∷ wire.past) same)
    chosen false p e = cc

wire_keeps : Transcript wire_stream (λ wire. wire.past)
wire_keeps = record {
  on_now = λ wire. refl;
  on_set_write_timeout = λ limit wire. refl;
  on_set_read_timeout = λ limit wire. refl;
  on_write_all = λ bytes wire e. refl;
  on_read_exact = λ n wire bytes e. next_answer_lem wire.incoming n wire bytes e;
}

abbrev example_ingress : Socks5ProxyIngress
example_ingress = record {
  endpoint = v4 (127 ∷ 0 ∷ 0 ∷ 1 ∷ []) 9000;
  username = replicate 64 b'a';
  password = replicate 64 b'b';
}

abbrev accepting : Wire
accepting = record {
  past = [];
  incoming =
      (5 ∷ 2 ∷ []) ∷ (1 ∷ 0 ∷ []) ∷ (5 ∷ 0 ∷ 0 ∷ 1 ∷ []) ∷ (127 ∷ 0 ∷ 0 ∷ 1 ∷ 35 ∷ 40 ∷ []) ∷ [];
}

perform_socks5_connect-Connected_example :
    Connected example_ingress example_target []
      (perform_socks5_connect wire_stream example_ingress example_target 5000 accepting).1.past
unfolding perform_socks5_connect perform_socks5_authentication remaining write_deadline
    read_deadline read_domain_length bound_address_bytes consume_bound_address branch ◌>>=◌ text_eq
perform_socks5_connect-Connected_example =
    perform_socks5_connect-Connected wire_stream (λ wire. wire.past) wire_keeps example_ingress
      example_target 5000 accepting refl
