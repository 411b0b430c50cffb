-- ===== src/Session/Laws.antt =====
-- What the calls of the registry leave.
use freedom_cloud.Common.{
  ℕ, ◌+◌, ◌≡◌, refl, Bool, true, false, Option, none, some, arith, ◌⊎◌, inl, inr, ◌<◌, ◌^◌,
}
use freedom_cloud.Fallible.{Result, ok}
use freedom_cloud.Action.{
  Post, Post-lift, Post-weaken, call-Post, modify-Post, gets-Post, lift-Post, ok_or-Post,
  branch-Post, attempt-Post, >>=-Post,
}
use freedom_cloud.Contract.Intent.{checked_add}
use freedom_cloud.Session.{
  BrokerSessionResource, BrokerSessionRegistry, activate, replace, retire, install, release,
  reap_exited, reap_session,
}

module _ {S W : Type 0} (resource : BrokerSessionResource S W) where
  -- The old owner had exited, the cleanup succeeded in the world `w`, and then the shutdown in
  -- the world that the cleanup left; `w'` is the world after both.
  pub record Retired (cleanup : W → Result Unit × W) (session : S) (w w' : W) : Type 0 where
    pub between : W
    pub kept : S
    pub cleaned : cleanup w ≡ (ok tt, between)
    pub stopped : resource.shutdown session between ≡ (ok tt, kept, w')

  -- Why a call did not replace the session: it is as it was, or only its own shutdown has run.
  abbrev pub Holds : BrokerSessionRegistry S W → BrokerSessionRegistry S W → Type 0
  Holds r r' =
      (r'.generation ≡ r.generation)
      × ((r'.active ≡ r.active)
          ⊎ ((s : S) × (w : W) × (r.active ≡ some s)
              × (r'.active ≡ some ((resource.shutdown s w).1))))

  retire-Post :
      (cleanup : W → Result Unit × W) (session : S) (r : BrokerSessionRegistry S W)
      → r.active ≡ some session
      → Post
          (λ _ r'. Holds r r')
          (λ _ r'. Holds r r' × Retired cleanup session r.world r'.world)
          (retire resource cleanup session r)
  unfolding retire
  retire-Post cleanup session r held =
      >>=-Post _ _ _ (λ x p. (refl, inl refl))
        λ _ p.
          let w : W = (cleanup r.world).1 in
          let after : Result Unit × S × W = resource.shutdown session w in
          Post-lift after.0 _ (λ x q. (refl, inr (session, w, held, refl)))
            (λ _ q. (
              (refl, inr (session, w, held, refl)),
              record {
                between = w;
                kept = after.1;
                cleaned = λ i. (p i, w);
                stopped = λ i. (q i, after.1, after.2);
              },
            ))

  -- What a successful activation has done with the owner before.
  abbrev pub Succeeds :
      (W → Result Unit × W) → BrokerSessionRegistry S W → BrokerSessionRegistry S W → Type 0
  Succeeds cleanup r r' =
      ((r.active ≡ none) × (r'.world ≡ r.world))
      ⊎ ((s : S) × (r.active ≡ some s)
          × (resource.is_alive s r.world ≡ ok false)
          × Retired cleanup s r.world r'.world)

  abbrev pub Installed :
      S → (W → Result Unit × W) → ℕ → BrokerSessionRegistry S W → BrokerSessionRegistry S W → Type 0
  Installed candidate cleanup n r r' =
      (r'.active ≡ some candidate)
      × (r'.generation ≡ n)
      × (n ≡ r.generation + 1)
      × (n < 2 ^ 64)
      × Succeeds cleanup r r'

  install-Post :
      (candidate : S) (cleanup : W → Result Unit × W) (r r' : BrokerSessionRegistry S W)
      → Holds r r'
      → Succeeds cleanup r r'
      → Post
          (λ _ r''. Holds r r'')
          (λ n r''. Installed candidate cleanup n r r'')
          (install resource candidate r')
  unfolding install
  install-Post candidate cleanup r r' kept s = gets-Post _ _ _ (
      ok_or-Post _ _ _ _ (λ _. kept)
        λ n found. modify-Post _ _ _ (record { at = (refl, refl, next found, bounded n found, s) }))
    where
      next : {n : ℕ} → checked_add r'.generation 1 ≡ some n → n ≡ r.generation + 1
      next found = ground (arith, kept.0)

      bounded : (n : ℕ) → checked_add r'.generation 1 ≡ some n → n < 2 ^ 64
      bounded n found = ground arith

  replace-Post :
      (candidate : S) (cleanup : W → Result Unit × W) (o : Option S) (r : BrokerSessionRegistry S W)
      → r.active ≡ o
      → Post
          (λ _ r'. Holds r r')
          (λ n r'. Installed candidate cleanup n r r')
          (replace resource cleanup candidate o r)
  unfolding replace
  replace-Post candidate cleanup none r held =
      install-Post candidate cleanup r r (refl, inl refl) (inl (held, refl))
  replace-Post candidate cleanup (some session) r held = attempt-Post _ _ _ λ answer asked.
      lift-Post _ _ _ (λ _ _. (refl, inl refl))
        λ is_alive told.
          branch-Post _ _ _ _ (λ _. record { at = (refl, inl refl) })
            (λ dead.
              call-Post _ _ _ (retire-Post cleanup session r held) (λ _ _ w. w)
                λ _ r' done.
                  install-Post candidate cleanup r r' done.0
                    (inr (session, held, ground (arith, asked, told, dead), done.1)))

  -- An activation that succeeds installs the candidate under the next generation, and did so only
  -- because no owner was there, or because the owner had exited, the cleanup then succeeded, and
  -- after it the owner's shutdown. One that fails keeps generation and owner.
  pub activate-Post :
      (candidate : S) (cleanup : W → Result Unit × W) (r : BrokerSessionRegistry S W)
      → Post
          (λ _ r'. Holds r r')
          (λ n r'. Installed candidate cleanup n r r')
          (activate resource candidate cleanup r)
  unfolding activate
  activate-Post candidate cleanup r =
      gets-Post _ _ _ (replace-Post candidate cleanup r.active r refl)

  release-Post :
      (cleanup : W → Result Unit × W) (session : S) (r : BrokerSessionRegistry S W)
      → r.active ≡ some session
      → Post
          (λ _ r'. Holds r r')
          (λ b r'.
            (b ≡ true)
            × (r'.active ≡ none)
            × (r'.generation ≡ r.generation)
            × Retired cleanup session r.world r'.world)
          (release resource cleanup session r)
  unfolding release
  release-Post cleanup session r held =
      call-Post _ _ _ (retire-Post cleanup session r held) (λ _ _ w. w)
        λ _ r' done. modify-Post _ _ _ (record { at = (refl, refl, done.0.0, done.1) })

  -- What `reap_exited` answers: nothing was done for a live or missing owner.
  abbrev pub Reaps :
      (W → Result Unit × W) → Bool → BrokerSessionRegistry S W → BrokerSessionRegistry S W → Type 0
  Reaps cleanup reaped r r' =
      ((reaped ≡ false) × (r' ≡ r))
      ⊎ ((s : S) × (reaped ≡ true)
          × (r.active ≡ some s)
          × (resource.is_alive s r.world ≡ ok false)
          × (r'.active ≡ none)
          × Retired cleanup s r.world r'.world)

  reap_session-Post :
      (cleanup : W → Result Unit × W) (o : Option S) (r : BrokerSessionRegistry S W)
      → r.active ≡ o
      → Post (λ _ r'. Holds r r') (λ b r'. Reaps cleanup b r r') (reap_session resource cleanup o r)
  unfolding reap_session
  reap_session-Post cleanup none r held = record { at = inl (refl, refl) }
  reap_session-Post cleanup (some session) r held =
      >>=-Post _ _ _ (λ _ _. (refl, inl refl))
        λ is_alive told.
          branch-Post _ _ _ _ (λ _. record { at = inl (refl, refl) })
            (λ dead.
              Post-weaken (release-Post cleanup session r held) (λ _ w. w)
                (λ b w. inr (session, w.0, held, ground (arith, told, dead), w.1, w.3)))

  -- Only an exited owner is reaped, by cleanup and then shutdown; a live one is left untouched,
  -- and a failure keeps generation and owner.
  pub reap_exited-Post :
      (cleanup : W → Result Unit × W) (r : BrokerSessionRegistry S W)
      → Post (λ _ r'. Holds r r') (λ b r'. Reaps cleanup b r r') (reap_exited resource cleanup r)
  unfolding reap_exited
  reap_exited-Post cleanup r = gets-Post _ _ _ (reap_session-Post cleanup r.active r refl)
