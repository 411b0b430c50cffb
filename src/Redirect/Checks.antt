-- ===== src/Redirect/Checks.antt =====
-- What `parse_strict_redirect_context` has checked of a context that it returns.
use freedom_cloud.Common.{
  ℕ, ◌+◌, ◌^◌, ◌%◌, ◌≤◌, ◌<◌, ◌≡◌, refl, ap, sym, arith, ◌⊎◌, inl, inr, Bool, true, false, not,
  ◌&&◌, ◌||◌, Option, none, some, List, length, any, leb, ◌==◌, ==_iff, Bool-cases, not-eq_false,
  leb-eq_false, ==_zero-eq_false, if◌then◌else◌, String,
}
use freedom_cloud.Fallible.{
  Result, ok, ◌>>=◌, ◌>>◌, >>=-eq-ok, bail_if->>-eq-ok, >>-eq-ok, bail, bail_if, bail_if-eq-ok,
  ok-injective,
}
use freedom_cloud.Bytes.{slice, byte_at, from_le}
use freedom_cloud.Net.{SocketAddr, v4, v6, port_of}
use freedom_cloud.Auth.Laws.{difference-zero}
use freedom_cloud.Redirect.{
  StrictRedirectTransport, protocol_number, StrictRedirectLeaseBinding, StrictRedirectContext,
  constant_time_eq, read_u16, read_u32, read_u64, is_previous, canary_fails, check_bound,
  unsafe_ipv4, unsafe_ipv6, read_destination, parse_strict_redirect_context, redirect_context_bytes,
  redirect_context_magic,
}

-- The fields of a context.
abbrev pub field : ℕ → ℕ → List ℕ → ℕ
field offset width bytes = from_le (slice offset (offset + width) bytes)

-- A read that succeeded gave the field to the rest of the block.
read-then :
    {B : Type 0} (inside : Bool) (x : ℕ) (s : String) (rest : ℕ → Result B) {last : B}
    → ((if inside then ok x else bail s) >>= rest) ≡ ok last
    → rest x ≡ ok last
read-then true x s rest e = e
read-then false x s rest e = cc

module _ {B : Type 0} (bytes : List ℕ) (offset : ℕ) (rest : ℕ → Result B) {last : B} where
  read_u16-then : (read_u16 bytes offset >>= rest) ≡ ok last → rest (field offset 2 bytes) ≡ ok last
  unfolding read_u16
  read_u16-then e = read-then (leb (offset + 2) (length bytes)) _ _ rest e

  read_u32-then : (read_u32 bytes offset >>= rest) ≡ ok last → rest (field offset 4 bytes) ≡ ok last
  unfolding read_u32
  read_u32-then e = read-then (leb (offset + 4) (length bytes)) _ _ rest e

  read_u64-then : (read_u64 bytes offset >>= rest) ≡ ok last → rest (field offset 8 bytes) ≡ ok last
  unfolding read_u64
  read_u64-then e = read-then (leb (offset + 8) (length bytes)) _ _ rest e

same_length : (n m d : ℕ) → (if not (n == m) then false else d == 0) ≡ true → (n ≡ m) × (d ≡ 0)
same_length n m d e = (ground arith, ground arith)

constant_time_eq→eq : (left right : List ℕ) → constant_time_eq left right ≡ true → left ≡ right
unfolding constant_time_eq
constant_time_eq→eq left right e =
    let (n, d) = same_length (length left) (length right) _ e in
    (difference-zero 0 left right n d).1

is_previous→eq : (previous : Option ℕ) (n : ℕ) → is_previous previous n ≡ true → previous ≡ some n
is_previous→eq none n e = cc
is_previous→eq (some m) n e = ap some (sym ((==_iff n m).0 e))

generations :
    (n current : ℕ) (previous : Option ℕ)
    → (not (n == current) && not (is_previous previous n)) ≡ false
    → (n ≡ current) ⊎ (previous ≡ some n)
generations n current previous e = elim (Bool-cases (n == current)) [
  | inl same ↦ inl ((==_iff n current).0 same)
  | inr other ↦ inr (is_previous→eq previous n (ground (arith, e, other)))
]

pub record Bound (bytes : List ℕ) (binding : StrictRedirectLeaseBinding) : Type 0 where
  pub sized : length bytes ≡ redirect_context_bytes
  pub current_or_previous :
      (field 8 8 bytes ≡ binding.generation)
      ⊎ (binding.previous_generation ≡ some (field 8 8 bytes))
  pub known_protocol : (field 4 2 bytes == 1 || field 4 2 bytes == 2) ≡ true
  pub same_revision : field 16 8 bytes ≡ binding.revision
  pub same_digest : slice 24 56 bytes ≡ binding.policy_digest
  pub same_nonce : slice 56 72 bytes ≡ binding.nonce
  pub canary_fits : canary_fails (field 4 2 bytes) (field 96 8 bytes) ≡ false

pub check_bound→Bound :
    (bytes : List ℕ) (binding : StrictRedirectLeaseBinding)
    → check_bound bytes binding ≡ ok tt
    → Bound bytes binding
unfolding check_bound
check_bound→Bound bytes binding h =
    let (sized, h1) = bail_if->>-eq-ok (not (length bytes == redirect_context_bytes)) _ _ h in
    let h2 = read_u32-then bytes 0 _ h1 in
    let (_, h3) = bail_if->>-eq-ok (not (field 0 4 bytes == redirect_context_magic)) _ _ h2 in
    let h4 = read_u16-then bytes 4 _ h3 in
    let (known, h5) =
      bail_if->>-eq-ok (not (field 4 2 bytes == 1 || field 4 2 bytes == 2)) _ _ h4 in
    let h6 = read_u16-then bytes 6 _ h5 in
    let (_, h7) = bail_if->>-eq-ok (not (field 6 2 bytes == redirect_context_bytes)) _ _ h6 in
    let h8 = read_u64-then bytes 8 _ h7 in
    let (stamped, h9) =
      bail_if->>-eq-ok
        (not (field 8 8 bytes == binding.generation)
          && not (is_previous binding.previous_generation (field 8 8 bytes)))
        _ _ h8 in
    let h10 = read_u64-then bytes 16 _ h9 in
    let (revised, h11) = bail_if->>-eq-ok (not (field 16 8 bytes == binding.revision)) _ _ h10 in
    let (digest, h12) =
      bail_if->>-eq-ok (not (constant_time_eq (slice 24 56 bytes) binding.policy_digest)) _ _ h11 in
    let (nonce, h13) =
      bail_if->>-eq-ok (not (constant_time_eq (slice 56 72 bytes) binding.nonce)) _ _ h12 in
    let (_, h14) = bail_if->>-eq-ok (any (λ byte. not (byte == 0)) (slice 78 80 bytes)) _ _ h13 in
    let (_, h15) = bail_if->>-eq-ok (any (λ byte. not (byte == 0)) (slice 104 112 bytes)) _ _ h14 in
    record {
      sized = (==_iff _ _).0 (not-eq_false _ sized);
      current_or_previous = generations _ binding.generation binding.previous_generation stamped;
      known_protocol = not-eq_false _ known;
      same_revision = (==_iff _ _).0 (not-eq_false _ revised);
      same_digest = constant_time_eq→eq _ _ (not-eq_false _ digest);
      same_nonce = constant_time_eq→eq _ _ (not-eq_false _ nonce);
      canary_fits = bail_if-eq-ok _ _ (read_u64-then bytes 96 _ h15);
    }

-- A destination that no flow is redirected for.
abbrev pub unsafe_destination : SocketAddr → Bool
unsafe_destination (v4 octets port) = unsafe_ipv4 octets
unsafe_destination (v6 octets port flowinfo scope_id) = unsafe_ipv6 octets

read_destination-safe :
    (bytes : List ℕ) (port : ℕ) (address : SocketAddr)
    → read_destination bytes port ≡ ok address
    → (unsafe_destination address ≡ false) × (port_of address ≡ port)
unfolding read_destination
read_destination-safe bytes port address h =
    by_family (byte_at 74 bytes == 4) (byte_at 74 bytes == 6) h
  where
    by_family :
        (b c : Bool)
        → (if b
            then (do
              bail_if
                  (any (λ byte. not (byte == 0)) (slice 84 96 bytes))
                  "strict IPv4 redirect context has nonzero tail bytes"
              bail_if (unsafe_ipv4 (slice 80 84 bytes)) "strict IPv4 redirect destination is unsafe"
              ok (v4 (slice 80 84 bytes) port))
            else if c
            then (do
              bail_if (unsafe_ipv6 (slice 80 96 bytes)) "strict IPv6 redirect destination is unsafe"
              ok (v6 (slice 80 96 bytes) port 0 0))
            else bail "strict redirect context address family is invalid")
          ≡ ok address
        → (unsafe_destination address ≡ false) × (port_of address ≡ port)
    by_family true c h =
        let (_, h1) = bail_if->>-eq-ok (any (λ byte. not (byte == 0)) (slice 84 96 bytes)) _ _ h in
        let (safe, h2) = bail_if->>-eq-ok (unsafe_ipv4 (slice 80 84 bytes)) _ _ h1 in
        rw (sym (ok-injective _ _ h2)) (safe, refl)
    by_family false true h =
        let (safe, h1) = bail_if->>-eq-ok (unsafe_ipv6 (slice 80 96 bytes)) _ _ h in
        rw (sym (ok-injective _ _ h1)) (safe, refl)
    by_family false false h = cc

canary_kind :
    (protocol canary : ℕ)
    → (protocol == 1 || protocol == 2) ≡ true
    → canary_fails protocol canary ≡ false
    → (canary % 2 ^ 32 ≡ canary) × ((protocol ≡ 1) × (canary ≡ 0) ⊎ (protocol ≡ 2) × (1 ≤ canary))
canary_kind protocol canary v h = elim (Bool-cases (protocol == 1)) [
  | inl first ↦ no_canary ((==_iff protocol 1).0 first) h
  | inr other ↦ some_canary (ground (arith, v, other)) h
]
  where
    no_canary :
        protocol ≡ 1
        → canary_fails protocol canary ≡ false
        → (canary % 2 ^ 32 ≡ canary)
          × ((protocol ≡ 1) × (canary ≡ 0) ⊎ (protocol ≡ 2) × (1 ≤ canary))
    no_canary p h = (ground arith, inl (p, ground arith))

    some_canary :
        protocol ≡ 2
        → canary_fails protocol canary ≡ false
        → (canary % 2 ^ 32 ≡ canary)
          × ((protocol ≡ 1) × (canary ≡ 0) ⊎ (protocol ≡ 2) × (1 ≤ canary))
    some_canary p h = (ground arith, inr (p, ground arith))

-- A context that is returned was read from 112 bytes that name the binding's revision, policy
-- digest, nonce and its generation or the previous one. Its target group is one of the binding's, its
-- transport the listener's, its destination has a port and is not an unspecified, loopback,
-- multicast or broadcast address, and its canary process is the 64-bit field without loss: 0 in
-- the first version of the layout, and not 0 in the second.
pub parse_strict_redirect_context-checks :
    (bytes : List ℕ) (binding : StrictRedirectLeaseBinding) (t : StrictRedirectTransport)
    (c : StrictRedirectContext)
    → parse_strict_redirect_context bytes binding t ≡ ok c
    → (length bytes ≡ 112)
      × ((field 8 8 bytes ≡ binding.generation)
          ⊎ (binding.previous_generation ≡ some (field 8 8 bytes)))
      × (field 16 8 bytes ≡ binding.revision)
      × (slice 24 56 bytes ≡ binding.policy_digest)
      × (slice 56 72 bytes ≡ binding.nonce)
      × (c.target_group_index < binding.target_group_count)
      × (c.transport ≡ t)
      × (byte_at 75 bytes ≡ protocol_number t)
      × (unsafe_destination c.original_destination ≡ false)
      × (1 ≤ port_of c.original_destination)
      × (c.canary_process_id ≡ field 96 8 bytes)
      × ((field 4 2 bytes ≡ 1) × (c.canary_process_id ≡ 0)
          ⊎ (field 4 2 bytes ≡ 2) × (1 ≤ c.canary_process_id))
unfolding parse_strict_redirect_context
parse_strict_redirect_context-checks bytes binding t c h =
    let (bound, h1) = >>-eq-ok (check_bound bytes binding) _ h in
    let h2 = read_u16-then bytes 72 _ h1 in
    let (grouped, h3) =
      bail_if->>-eq-ok (leb binding.target_group_count (field 72 2 bytes)) _ _ h2 in
    let (carried, h4) = bail_if->>-eq-ok (not (byte_at 75 bytes == protocol_number t)) _ _ h3 in
    let h5 = read_u16-then bytes 76 _ h4 in
    let (addressed, h6) = bail_if->>-eq-ok (field 76 2 bytes == 0) _ _ h5 in
    let (address, found, h7) = >>=-eq-ok (read_destination bytes (field 76 2 bytes)) _ h6 in
    let h8 = read_u64-then bytes 96 _ h7 in
    let b = check_bound→Bound bytes binding bound in
    let (safe, at_port) = read_destination-safe bytes (field 76 2 bytes) address found in
    let (whole, kind) =
      canary_kind (field 4 2 bytes) (field 96 8 bytes) b.known_protocol b.canary_fits in
    rw (sym (ok-injective _ _ h8), whole, at_port)
      (
        b.sized,
        b.current_or_previous,
        b.same_revision,
        b.same_digest,
        b.same_nonce,
        leb-eq_false _ _ grouped,
        refl,
        (==_iff _ _).0 (not-eq_false _ carried),
        safe,
        ==_zero-eq_false _ addressed,
        refl,
        kind,
      )
