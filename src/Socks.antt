-- ===== src/Socks.antt =====
-- The SOCKS5 exchange with the Core's ingress (services/strict-broker/src/socks_probe.rs). The TCP
-- stream and the clock are a parameter.
pub mod Target
pub mod Request
pub mod Exchange
use freedom_cloud.Common.{
  ℕ, ◌+◌, ◌-◌, String, Bool, true, false, not, ◌||◌, ◌&&◌, Option, none, some, List, [], ◌∷◌, ◌==◌,
  if◌then◌else◌,
}
use freedom_cloud.Fallible.{Result, ok, message, with_context, bail_if}
use freedom_cloud.Action.{Action, lift, pure, raise, branch, ◌>>=◌, ◌>>◌}
use freedom_cloud.Text.{text_eq}
use freedom_cloud.Bytes.{byte_at}
use freedom_cloud.Net.{SocketAddr, v4, v6}
use freedom_cloud.Socks.Target.{
  Socks5ProxyIngress, Socks5ConnectTarget, encode_connect_request, authentication_message,
  validate_timeout,
}

-- The clock, in nanoseconds, and the calls of a `TcpStream`. A timeout of `None` waits without an end.
pub record ByteStream (T : Type 0) : Type 0 where
  pub now : T → ℕ × T
  pub connect_timeout : SocketAddr → ℕ → T → Result Unit × T
  pub peer_addr : T → Result SocketAddr × T
  pub set_nodelay : Bool → T → Result Unit × T
  pub set_write_timeout : Option ℕ → T → Result Unit × T
  pub set_read_timeout : Option ℕ → T → Result Unit × T
  pub write_all : List ℕ → T → Result Unit × T
  pub read_exact : ℕ → T → Result (List ℕ) × T

abbrev pub under : {T A : Type 0} → String → Action T A → Action T A
under note call t = let (r, t') = call t in (with_context note r, t')

abbrev same_address : SocketAddr → SocketAddr → Bool
same_address (v4 octets port) (v4 octets' port') = text_eq octets octets' && port == port'
same_address (v6 octets port flowinfo scope_id) (v6 octets' port' flowinfo' scope_id') =
    text_eq octets octets' && port == port' && flowinfo == flowinfo' && scope_id == scope_id'
same_address _ _ = false

module _ {T : Type 0} (stream : ByteStream T) where
  abbrev clock : Action T ℕ
  clock t = let (time, t') = stream.now t in (ok time, t')

  -- `saturating_duration_since` is subtraction that stops at 0.
  unfoldable pub remaining : ℕ → Action T ℕ
  remaining deadline = do
    now ← clock
    lift (bail_if (deadline - now == 0) "SOCKS operation exceeded its deadline")
    pure (deadline - now)

  unfoldable pub write_deadline : List ℕ → ℕ → Action T Unit
  write_deadline bytes deadline = do
    left ← remaining deadline
    stream.set_write_timeout (some left)
    under "write SOCKS frame" (stream.write_all bytes)

  unfoldable pub read_deadline : ℕ → ℕ → Action T (List ℕ)
  read_deadline count deadline = do
    left ← remaining deadline
    stream.set_read_timeout (some left)
    under "read SOCKS frame" (stream.read_exact count)

  -- The arm for a domain, whose length comes first.
  unfoldable pub read_domain_length : ℕ → Action T ℕ
  read_domain_length deadline = do
    length ← read_deadline 1 deadline
    lift (bail_if (byte_at 0 length == 0) "SOCKS ingress returned an empty bound domain")
    pure (byte_at 0 length)

  unfoldable pub bound_address_bytes : ℕ → ℕ → Action T ℕ
  bound_address_bytes address_type deadline = branch (address_type == 0x01) (pure 4) (
      branch (address_type == 0x04) (pure 16) (
        branch (address_type == 0x03) (read_domain_length deadline)
          (raise (message "SOCKS ingress returned an invalid address type"))))

  unfoldable pub consume_bound_address : ℕ → ℕ → Action T Unit
  consume_bound_address address_type deadline = do
    count ← bound_address_bytes address_type deadline
    _ ← read_deadline (count + 2) deadline
    pure tt

  unfoldable pub perform_socks5_authentication : Socks5ProxyIngress → ℕ → Action T Unit
  perform_socks5_authentication ingress deadline = do
    write_deadline (0x05 ∷ 0x01 ∷ 0x02 ∷ []) deadline
    method ← read_deadline 2 deadline
    lift (
        bail_if (not (text_eq method (0x05 ∷ 0x02 ∷ [])))
          "SOCKS ingress did not require the configured authentication")
    write_deadline (authentication_message ingress) deadline
    result ← read_deadline 2 deadline
    lift (bail_if (not (text_eq result (0x01 ∷ 0x00 ∷ []))) "SOCKS ingress rejected authentication")

  unfoldable pub perform_socks5_connect :
      Socks5ProxyIngress → Socks5ConnectTarget → ℕ → Action T Unit
  perform_socks5_connect ingress target deadline = do
    perform_socks5_authentication ingress deadline
    write_deadline (encode_connect_request target) deadline
    reply ← read_deadline 4 deadline
    lift (
        bail_if (not (byte_at 0 reply == 0x05) || not (byte_at 2 reply == 0x00))
          "SOCKS ingress returned an invalid CONNECT response")
    lift (bail_if (not (byte_at 1 reply == 0x00)) "SOCKS ingress rejected CONNECT")
    consume_bound_address (byte_at 3 reply) deadline

  unfoldable pub probe_socks5_connect : Socks5ProxyIngress → Socks5ConnectTarget → ℕ → Action T Unit
  probe_socks5_connect ingress target timeout = do
    lift (validate_timeout timeout)
    now ← clock
    under "connect SOCKS health ingress" (stream.connect_timeout ingress.endpoint timeout)
    perform_socks5_connect ingress target (now + timeout)

  unfoldable pub probe_socks5_authentication : Socks5ProxyIngress → ℕ → Action T Unit
  probe_socks5_authentication ingress timeout = do
    lift (validate_timeout timeout)
    now ← clock
    under "connect SOCKS authentication ingress" (stream.connect_timeout ingress.endpoint timeout)
    perform_socks5_authentication ingress (now + timeout)

  -- The stream that is given back is the one of the state.
  unfoldable pub establish_socks5_connect :
      Socks5ProxyIngress → Socks5ConnectTarget → ℕ → Action T Unit
  establish_socks5_connect ingress target timeout = do
    lift (validate_timeout timeout)
    peer ← under "read SOCKS ingress peer address" stream.peer_addr
    lift (
        bail_if (not (same_address peer ingress.endpoint))
          "SOCKS stream peer does not match the authenticated ingress")
    now ← clock
    perform_socks5_connect ingress target (now + timeout)
    under "clear SOCKS tunnel read timeout" (stream.set_read_timeout none)
    under "clear SOCKS tunnel write timeout" (stream.set_write_timeout none)
    under "enable SOCKS tunnel TCP no-delay" (stream.set_nodelay true)
