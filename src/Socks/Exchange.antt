-- ===== src/Socks/Exchange.antt =====
-- What has crossed the stream when an authentication or a CONNECT has succeeded.
use mathlib.Core.Path.{subst}
use freedom_cloud.Common.{
  ℕ, ◌+◌, ◌≡◌, refl, ap, ◌∙◌, Option, some, String, false, not, ◌||◌, List, [], ◌∷◌, length, ◌==◌,
  ==_iff, or-eq_false, not-eq_false,
}
use freedom_cloud.Fallible.{Error, ok, with_context, with_context-eq-ok, bail_if-eq-ok}
use freedom_cloud.Action.{
  Action, Post, Post-ok, Post-pure, Post-raise, Post-lift, >>=-Post, call-Post, bail_if-Post,
  branch-Post, Post-weaken,
}
use freedom_cloud.Text.{text_eq→eq}
use freedom_cloud.Bytes.{byte_at}
use freedom_cloud.Socks.{
  under, ByteStream, remaining, write_deadline, read_deadline, read_domain_length,
  bound_address_bytes, consume_bound_address, perform_socks5_authentication, perform_socks5_connect,
}
use freedom_cloud.Socks.Target.{
  Socks5ProxyIngress, Socks5ConnectTarget, encode_connect_request, authentication_message,
}

pub data Event : Type 0 where
  sent received : List ℕ → Event

-- What a stream keeps to: a call that succeeded has moved what it names, and the clock and the timeouts move nothing.
-- The latest event comes first.
pub record Transcript {T : Type 0} (stream : ByteStream T) (history : T → List Event) : Type 0 where
  pub on_now : (t : T) → history (stream.now t).1 ≡ history t
  pub on_set_write_timeout :
      (limit : Option ℕ) (t : T) → history (stream.set_write_timeout limit t).1 ≡ history t
  pub on_set_read_timeout :
      (limit : Option ℕ) (t : T) → history (stream.set_read_timeout limit t).1 ≡ history t
  pub on_write_all :
      (bytes : List ℕ) (t : T)
      → (stream.write_all bytes t).0 ≡ ok tt
      → history (stream.write_all bytes t).1 ≡ sent bytes ∷ history t
  pub on_read_exact :
      (n : ℕ) (t : T) (bytes : List ℕ)
      → (stream.read_exact n t).0 ≡ ok bytes
      → (length bytes ≡ n) × (history (stream.read_exact n t).1 ≡ received bytes ∷ history t)

-- The events of an authentication, before which `h` happened.
abbrev pub authenticated : Socks5ProxyIngress → List Event → List Event
authenticated ingress h =
    received (1 ∷ 0 ∷ [])
    ∷ sent (authentication_message ingress)
    ∷ received (5 ∷ 2 ∷ [])
    ∷ sent (5 ∷ 1 ∷ 2 ∷ [])
    ∷ h

-- The bound address in a reply of the given address type, after `h`.
pub data Bound : ℕ → List Event → List Event → Type 0 where
  bound_v4 : (bytes : List ℕ) (h : List Event) → length bytes ≡ 6 → Bound 1 h (received bytes ∷ h)
  bound_v6 : (bytes : List ℕ) (h : List Event) → length bytes ≡ 18 → Bound 4 h (received bytes ∷ h)
  bound_domain :
      (n bytes : List ℕ) (h : List Event)
      → length n ≡ 1
      → length bytes ≡ byte_at 0 n + 2
      → Bound 3 h (received bytes ∷ received n ∷ h)

-- A CONNECT that was accepted, from the history `h` to the history `h'`.
pub record Connected (ingress : Socks5ProxyIngress) (target : Socks5ConnectTarget)
    (h h' : List Event) : Type 0 where
  pub reply : List ℕ
  pub reply_length : length reply ≡ 4
  pub is_version : byte_at 0 reply ≡ 5
  pub is_accepted : byte_at 1 reply ≡ 0
  pub is_reserved : byte_at 2 reply ≡ 0
  pub bound :
      Bound
        (byte_at 3 reply)
        (received reply ∷ sent (encode_connect_request target) ∷ authenticated ingress h)
        h'

abbrev Fails : {T : Type 0} → Error → T → Type 0
Fails e t = Unit

under-Post :
    {T A : Type 0} {Q : A → T → Type 0} (note : String) (call : Action T A) (t : T)
    → ((a : A) → (call t).0 ≡ ok a → Q a (call t).1)
    → Post Fails Q (under note call t)
under-Post note call t f =
    Post-lift (with_context note (call t).0) (call t).1 (λ _ _. tt)
      (λ a e. f a (with_context-eq-ok note _ a e))

module _ {T : Type 0} (stream : ByteStream T) (history : T → List Event)
    (keeps : Transcript stream history) where
  remaining-Post :
      (deadline : ℕ) (t : T)
      → Post Fails (λ _ t'. history t' ≡ history t) (remaining stream deadline t)
  unfolding remaining
  remaining-Post deadline t =
      >>=-Post _ _ _ (λ _ _. tt)
        (λ now _. bail_if-Post _ _ _ _ (λ _. tt) (λ _. Post-pure _ _ (keeps.on_now t)))

  write-Post :
      (bytes : List ℕ) (deadline : ℕ) (t : T)
      → Post Fails
          (λ _ t'. history t' ≡ sent bytes ∷ history t)
          (write_deadline stream bytes deadline t)
  unfolding write_deadline
  write-Post bytes deadline t =
      call-Post _ _ _ (remaining-Post deadline t) (λ e s f. tt)
        (λ left t' kept.
          >>=-Post _ _ _ (λ _ _. tt)
            (λ _ _. write_all-Post bytes _ (keeps.on_set_write_timeout (some left) t' ∙ kept)))
    where
      write_all-Post :
          (bytes : List ℕ) (s : T) {h : List Event}
          → history s ≡ h
          → Post Fails
              (λ _ t'. history t' ≡ sent bytes ∷ h)
              (under "write SOCKS frame" (stream.write_all bytes) s)
      write_all-Post bytes s {h} e =
          under-Post "write SOCKS frame" (stream.write_all bytes) s
            (λ a p. keeps.on_write_all bytes s p ∙ ap (λ x. sent bytes ∷ x) e)

  read-Post :
      (n deadline : ℕ) (t : T)
      → Post Fails
          (λ bytes t'. (length bytes ≡ n) × (history t' ≡ received bytes ∷ history t))
          (read_deadline stream n deadline t)
  unfolding read_deadline
  read-Post n deadline t =
      call-Post _ _ _ (remaining-Post deadline t) (λ e s f. tt)
        (λ left t' kept.
          >>=-Post _ _ _ (λ _ _. tt)
            (λ _ _. read_exact-Post _ (keeps.on_set_read_timeout (some left) t' ∙ kept)))
    where
      read_exact-Post :
          (s : T) {h : List Event}
          → history s ≡ h
          → Post Fails
              (λ bytes t'. (length bytes ≡ n) × (history t' ≡ received bytes ∷ h))
              (under "read SOCKS frame" (stream.read_exact n) s)
      read_exact-Post s {h} e = under-Post "read SOCKS frame" (stream.read_exact n) s (λ bytes p.
          let (l, q) = keeps.on_read_exact n s bytes p in (l, q ∙ ap (λ x. received bytes ∷ x) e))

  authentication-Post :
      (ingress : Socks5ProxyIngress) (deadline : ℕ) (t : T)
      → Post Fails
          (λ _ t'. history t' ≡ authenticated ingress (history t))
          (perform_socks5_authentication stream ingress deadline t)
  unfolding perform_socks5_authentication
  authentication-Post ingress deadline t =
      call-Post _ _ _ (write-Post _ deadline t) (λ e s f. tt)
        (λ _ t1 p1.
          call-Post _ _ _ (read-Post 2 deadline t1) (λ e s f. tt)
            (λ method t2 p2.
              bail_if-Post _ _ _ _ (λ _. tt)
                (λ is_method.
                  call-Post _ _ _ (write-Post _ deadline t2) (λ e s f. tt)
                    (λ _ t3 p3.
                      call-Post _ _ _ (read-Post 2 deadline t3) (λ e s f. tt)
                        (λ result t4 p4.
                          Post-lift _ t4 (λ _ _. tt)
                            (λ _ accepted.
                              let m = text_eq→eq _ _ (not-eq_false _ is_method) in
                              let r =
                                text_eq→eq _ _ (not-eq_false _ (bail_if-eq-ok _ _ accepted)) in
                              rw (p4.1, r, p3, p2.1, m, p1) refl))))))

  -- What is left to read once the length is known.
  abbrev Takes : ℕ → List Event → ℕ → T → Type 0
  Takes address_type h count t' =
      (bytes : List ℕ) (h' : List Event)
      → length bytes ≡ count + 2
      → h' ≡ received bytes ∷ history t'
      → Bound address_type h h'

  domain_length-Post :
      (deadline : ℕ) (t : T)
      → Post Fails (Takes 3 (history t)) (read_domain_length stream deadline t)
  unfolding read_domain_length
  domain_length-Post deadline t =
      call-Post _ _ _ (read-Post 1 deadline t) (λ e s f. tt)
        (λ n t1 p.
          bail_if-Post _ _ _ _ (λ _. tt)
            (λ _.
              Post-pure _ t1
                (λ bytes h' l e. rw (e, p.1) (bound_domain n bytes (history t) p.0 l))))

  bound_address_bytes-Post :
      (address_type deadline : ℕ) (t : T)
      → Post Fails
          (Takes address_type (history t))
          (bound_address_bytes stream address_type deadline t)
  unfolding bound_address_bytes
  bound_address_bytes-Post address_type deadline t =
      branch-Post _ _ _ _
        (λ is_v4.
          Post-pure 4 t (λ bytes h' l e.
            rw ((==_iff address_type 1).0 is_v4, e) (bound_v4 bytes (history t) l)))
        (λ _.
          branch-Post _ _ _ _
            (λ is_v6. Post-pure 16 t (λ bytes h' l e.
              rw ((==_iff address_type 4).0 is_v6, e) (bound_v6 bytes (history t) l)))
            (λ _.
              branch-Post _ _ _ _
                (λ is_domain.
                  rw ((==_iff address_type 3).0 is_domain) (domain_length-Post deadline t))
                (λ _. Post-raise _ t tt)))

  consume_bound_address-Post :
      (address_type deadline : ℕ) (t : T)
      → Post Fails
          (λ _ t'. Bound address_type (history t) (history t'))
          (consume_bound_address stream address_type deadline t)
  unfolding consume_bound_address
  consume_bound_address-Post address_type deadline t =
      call-Post _ _ _ (bound_address_bytes-Post address_type deadline t) (λ e s f. tt)
        (λ count t1 takes.
          call-Post _ _ _ (read-Post (count + 2) deadline t1) (λ e s f. tt)
            (λ bytes t2 p. Post-pure tt t2 (takes bytes (history t2) p.0 p.1)))

  accepted_reply :
      (ingress : Socks5ProxyIngress) (target : Socks5ConnectTarget) (reply : List ℕ)
      (h0 h h' : List Event)
      → h ≡ received reply ∷ sent (encode_connect_request target) ∷ authenticated ingress h0
      → length reply ≡ 4
      → (not (byte_at 0 reply == 5) || not (byte_at 2 reply == 0)) ≡ false
      → not (byte_at 1 reply == 0) ≡ false
      → Bound (byte_at 3 reply) h h'
      → Connected ingress target h0 h'
  accepted_reply ingress target reply h0 h h' e l r c b = record {
    reply = reply;
    reply_length = l;
    is_version = (==_iff _ 5).0 (not-eq_false _ (or-eq_false _ _ r).0);
    is_accepted = (==_iff _ 0).0 (not-eq_false _ c);
    is_reserved = (==_iff _ 0).0 (not-eq_false _ (or-eq_false _ _ r).1);
    bound = subst (λ x. Bound (byte_at 3 reply) x h') e b;
  }

  -- When a CONNECT succeeds, the greeting, the credentials and the request have been sent, each after the right answer to the
  -- one before it: the chosen method, the accepted credentials, and last an accepting reply with its bound address.
  pub perform_socks5_connect-Connected :
      (ingress : Socks5ProxyIngress) (target : Socks5ConnectTarget) (deadline : ℕ) (t : T)
      → (perform_socks5_connect stream ingress target deadline t).0 ≡ ok tt
      → Connected ingress target
          (history t)
          (history (perform_socks5_connect stream ingress target deadline t).1)
  unfolding perform_socks5_connect
  perform_socks5_connect-Connected ingress target deadline t succeeded =
      Post-ok connect-Post tt succeeded
    where
      connect-Post :
          Post Fails
            (λ _ t'. Connected ingress target (history t) (history t'))
            (perform_socks5_connect stream ingress target deadline t)
      connect-Post =
          call-Post _ _ _ (authentication-Post ingress deadline t) (λ e s f. tt)
            (λ _ t1 p1.
              call-Post _ _ _ (write-Post _ deadline t1) (λ e s f. tt)
                (λ _ t2 p2.
                  call-Post _ _ _ (read-Post 4 deadline t2) (λ e s f. tt)
                    (λ reply t3 p3.
                      bail_if-Post _ _ _ _ (λ _. tt)
                        (λ is_response.
                          bail_if-Post _ _ _ _ (λ _. tt)
                            (λ is_accepted.
                              Post-weaken (consume_bound_address-Post (byte_at 3 reply) deadline t3)
                                (λ e f. tt)
                                (λ _ b.
                                  accepted_reply ingress target reply _ _ _ (rw (p3.1, p2, p1) refl)
                                    p3.0 is_response is_accepted b))))))
