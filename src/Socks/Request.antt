-- ===== src/Socks/Request.antt =====
-- A server that reads the CONNECT request by the lengths of RFC 1928 finds the target in it.
use freedom_cloud.Common.{
  ℕ, ◌%◌, ◌^◌, ◌<◌, ◌≡◌, refl, ap, arith, Bool, false, ◌||◌, Option, none, some, List, [], ◌∷◌,
  ◌++◌, take, drop, length, ◌==◌, if◌then◌else◌, or-eq_false, ltb-eq_false,
}
use freedom_cloud.Fallible.{ok, bail_if-eq-ok}
use freedom_cloud.Text.{Text, bytes, len}
use freedom_cloud.Bytes.{from_be, to_be}
use freedom_cloud.Bytes.Laws.{take-append_whole, drop-append_whole, from_be-to_be_two}
use freedom_cloud.Net.{SocketAddr, v4, v6, IsAddress, is_v4, is_v6}
use freedom_cloud.Socks.Target.{
  Socks5ConnectTarget, domain, ip, validate_domain, encode_connect_request,
}

-- What a request asks for: the address type, the bytes of the address, and the port.
pub record Asked : Type 0 where
  pub address_type : ℕ
  pub address : List ℕ
  pub port : ℕ

abbrev asked_at : ℕ → ℕ → List ℕ → Asked
asked_at address_type n rest = record {
  address_type = address_type;
  address = take n rest;
  port = from_be (drop n rest);
}

read_address : ℕ → List ℕ → Option Asked
read_address t [] = none
read_address t (n ∷ rest) =
    if t == 3
    then some (asked_at 3 n rest)
    else if t == 1
    then some (asked_at 1 4 (n ∷ rest))
    else if t == 4
    then some (asked_at 4 16 (n ∷ rest))
    else none

-- A reader of requests, written from the RFC.
pub read_request : List ℕ → Option Asked
unfolding read_address
read_request (version ∷ command ∷ reserved ∷ t ∷ rest) =
    if version == 5 then (if command == 1 then read_address t rest else none) else none
read_request _ = none

abbrev pub asked_for : Socks5ConnectTarget → Asked
asked_for (domain host port) = record { address_type = 3; address = bytes host; port = port }
asked_for (ip (v4 octets port)) = record { address_type = 1; address = octets; port = port }
asked_for (ip (v6 octets port flowinfo scope_id)) = record {
  address_type = 4;
  address = octets;
  port = port;
}

-- A target as the constructors make it: a valid domain, or an address of its type.
pub data IsTarget : Socks5ConnectTarget → Type 0 where
  is_domain :
      (host : Text) (port : ℕ)
      → validate_domain host ≡ ok tt
      → port < 2 ^ 16
      → IsTarget (domain host port)
  is_ip : (a : SocketAddr) → IsAddress a → IsTarget (ip a)

asked_at-append :
    (t n : ℕ) (address : List ℕ) (port : ℕ)
    → length address ≡ n
    → port < 2 ^ 16
    → asked_at t n (address ++ to_be 2 port)
      ≡ record { address_type = t; address = address; port = port }
asked_at-append t n address port e p =
    rw
      (
        take-append_whole address (to_be 2 port) n e,
        drop-append_whole address (to_be 2 port) n e,
        from_be-to_be_two port p,
      )
      refl

validate_domain-short : (host : Text) → validate_domain host ≡ ok tt → len host < 256
unfolding validate_domain
validate_domain-short host v =
    let chain = bail_if-eq-ok _ _ v in
    let empty_or_long = first _ _ (first _ _ (first _ _ (first _ _ chain))) in
    let bounded = ltb-eq_false 253 (len host) (or-eq_false _ _ empty_or_long).1 in omega arith
  where
    first : (a b : Bool) → (a || b) ≡ false → a ≡ false
    first a b e = (or-eq_false a b e).0

-- A server that reads a request by the lengths of the RFC finds the target's address type, its address and its
-- port, for a valid domain and for an address.
pub read_request-encode_connect_request :
    (target : Socks5ConnectTarget)
    → IsTarget target
    → read_request (encode_connect_request target) ≡ some (asked_for target)
unfolding read_request encode_connect_request read_address
read_request-encode_connect_request target (is_domain host port v p) =
    rw (short (len host) (validate_domain-short host v))
      (ap some (asked_at-append 3 (len host) (bytes host) port refl p))
  where
    short : (n : ℕ) → n < 256 → n % 256 ≡ n
    short n q = omega arith
read_request-encode_connect_request target (is_ip a (is_v4 x y z w port _ _ _ _ p)) =
    ap some (asked_at-append 1 4 (x ∷ y ∷ z ∷ w ∷ []) port refl p)
read_request-encode_connect_request target (is_ip a (is_v6 octets port flowinfo scope_id n _ p)) =
    six octets n
  where
    six :
        (bytes : List ℕ)
        → length bytes ≡ 16
        → read_address 4 (bytes ++ to_be 2 port)
          ≡ some (record { address_type = 4; address = bytes; port = port })
    six [] e = absurd (let z = e in omega arith)
    six (b ∷ bs) e = ap some (asked_at-append 4 16 (b ∷ bs) port e p)
