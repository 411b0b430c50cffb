-- ===== src/Action.antt =====
-- Methods on `&mut self` that may fail: what was written before an error stays written, so the
-- state comes back beside the error too.
use mathlib.Core.Path.{subst}
use freedom_cloud.Common.{String, ◌≡◌, refl, Bool, true, false, Option, none, some}
use freedom_cloud.Fallible.{Error, Result, ok, err, message, bail_if, ok_or}

abbrev pub Action : Type 0 → Type 0 → Type 0
Action S A = S → Result A × S

module _ {S A : Type 0} where
  abbrev pub pure : A → Action S A
  pure a s = (ok a, s)

  abbrev pub raise : Error → Action S A
  raise e s = (err e, s)

  abbrev pub lift : Result A → Action S A
  lift r s = (r, s)

  abbrev pub gets : (S → A) → Action S A
  gets f s = (ok (f s), s)

  -- `match m { .. }` on the result of a call, whose state is kept
  abbrev pub attempt : Action S A → Action S (Result A)
  attempt m s = let (r, s') = m s in (ok r, s')

abbrev pub modify : {S : Type 0} → (S → S) → Action S Unit
modify f s = (ok tt, f s)

module _ {S A B : Type 0} where
  abbrev pub continue : Result A → (A → Action S B) → Action S B
  continue (ok a) f s = f a s
  continue (err e) f s = (err e, s)

  infixl 5 ◌>>=◌
  unfoldable pub ◌>>=◌ : Action S A → (A → Action S B) → Action S B
  ◌>>=◌ m f s = let (r, s') = m s in continue r f s'

infixl 5 ◌>>◌
abbrev pub ◌>>◌ : {S B : Type 0} → Action S Unit → Action S B → Action S B
m >> k = m >>= λ _. k

-- `if test { .. } else { .. }` between two blocks.
unfoldable pub branch : {S A : Type 0} → Bool → Action S A → Action S A → Action S A
branch true m n = m
branch false m n = n

-- What holds after a call, by how the call ended.
abbrev pub Ends : {S A : Type 0} → (Error → S → Type 0) → (A → S → Type 0) → Result A → S → Type 0
Ends E Q (ok a) s = Q a s
Ends E Q (err e) s = E e s

pub record Post {S A : Type 0} (E : Error → S → Type 0) (Q : A → S → Type 0) (r : Result A × S)
    : Type 0 where
  pub at : Ends E Q r.0 r.1

-- Where both ends promise the same, the state that is left has it.
Ends-state :
    {S A : Type 0} (P : S → Type 0) (r : Result A) (s : S) → Ends (λ _. P) (λ _. P) r s → P s
Ends-state P (ok a) s q = q
Ends-state P (err e) s q = q

pub Post-state :
    {S A : Type 0} {P : S → Type 0} (r : Result A × S) → Post (λ _. P) (λ _. P) r → P r.1
Post-state {P} r p = Ends-state P r.0 r.1 p.at

module _ {S A : Type 0} {E : Error → S → Type 0} {Q : A → S → Type 0} where
  pub Post-ok : {r : Result A × S} → Post E Q r → (a : A) → r.0 ≡ ok a → Q a r.1
  Post-ok {r} p a h = subst (λ x. Ends E Q x r.1) h p.at

  pub Post-err : {r : Result A × S} → Post E Q r → (e : Error) → r.0 ≡ err e → E e r.1
  Post-err {r} p e h = subst (λ x. Ends E Q x r.1) h p.at

  pub Post-pure : (a : A) (s : S) → Q a s → Post E Q (pure a s)
  Post-pure a s q = record { at = q }

  pub Post-raise : (e : Error) (s : S) → E e s → Post E Q (raise e s)
  Post-raise e s q = record { at = q }

  pub Post-lift :
      (r : Result A) (s : S)
      → ((e : Error) → r ≡ err e → E e s)
      → ((a : A) → r ≡ ok a → Q a s)
      → Post E Q (r, s)
  Post-lift (ok a) s f g = record { at = g a refl }
  Post-lift (err e) s f g = record { at = f e refl }

module _ {S A B : Type 0} {E : Error → S → Type 0} {Q : B → S → Type 0} where
  continue-Post :
      (r : Result A) (f : A → Action S B) (s : S)
      → ((e : Error) → r ≡ err e → E e s)
      → ((a : A) → r ≡ ok a → Post E Q (f a s))
      → Post E Q (continue r f s)
  continue-Post (ok a) f s fail next = next a refl
  continue-Post (err e) f s fail next = record { at = fail e refl }

  -- One run of a chain: its first call ends it, or the rest goes on from the state that is left.
  pub >>=-Post :
      (m : Action S A) (f : A → Action S B) (s : S)
      → ((e : Error) → (m s).0 ≡ err e → E e (m s).1)
      → ((a : A) → (m s).0 ≡ ok a → Post E Q (f a (m s).1))
      → Post E Q ((m >>= f) s)
  unfolding ◌>>=◌
  >>=-Post m f s fail next = continue-Post (m s).0 f (m s).1 fail next

  -- A pure step keeps the state.
  pub pure-Post :
      (a : A) (f : A → Action S B) (s : S) → Post E Q (f a s) → Post E Q ((pure a >>= f) s)
  unfolding ◌>>=◌
  pure-Post a f s p = p

  -- A call whose error is caught.
  pub attempt-Post :
      (m : Action S A) (f : Result A → Action S B) (s : S)
      → ((r : Result A) → (m s).0 ≡ r → Post E Q (f r (m s).1))
      → Post E Q ((attempt m >>= f) s)
  unfolding ◌>>=◌
  attempt-Post m f s next = next (m s).0 refl

  pub gets-Post :
      (g : S → A) (f : A → Action S B) (s : S) → Post E Q (f (g s) s) → Post E Q ((gets g >>= f) s)
  unfolding ◌>>=◌
  gets-Post g f s p = p

  pub lift-Post :
      (r : Result A) (f : A → Action S B) (s : S)
      → ((e : Error) → r ≡ err e → E e s)
      → ((a : A) → r ≡ ok a → Post E Q (f a s))
      → Post E Q ((lift r >>= f) s)
  unfolding ◌>>=◌
  lift-Post r f s fail next = continue-Post r f s fail next

module _ {S B : Type 0} {E : Error → S → Type 0} {Q : B → S → Type 0} where
  pub modify-Post :
      (g : S → S) (f : Unit → Action S B) (s : S)
      → Post E Q (f tt (g s))
      → Post E Q ((modify g >>= f) s)
  unfolding ◌>>=◌
  modify-Post g f s p = p

  -- `if failed { bail!(..) }`
  pub bail_if-Post :
      (b : Bool) (note : String) (f : Unit → Action S B) (s : S)
      → (b ≡ true → E (message note) s)
      → (b ≡ false → Post E Q (f tt s))
      → Post E Q ((lift (bail_if b note) >>= f) s)
  unfolding ◌>>=◌
  bail_if-Post true note f s fail next = record { at = fail refl }
  bail_if-Post false note f s fail next = next refl

  pub branch-Post :
      (b : Bool) (m n : Action S B) (s : S)
      → (b ≡ true → Post E Q (m s))
      → (b ≡ false → Post E Q (n s))
      → Post E Q (branch b m n s)
  unfolding branch
  branch-Post true m n s p q = p refl
  branch-Post false m n s p q = q refl

module _ {S A B : Type 0} {E : Error → S → Type 0} {Q : B → S → Type 0} where
  pub ok_or-Post :
      (o : Option A) (note : String) (f : A → Action S B) (s : S)
      → (o ≡ none → E (message note) s)
      → ((a : A) → o ≡ some a → Post E Q (f a s))
      → Post E Q ((lift (ok_or o note) >>= f) s)
  unfolding ◌>>=◌
  ok_or-Post none note f s fail next = record { at = fail refl }
  ok_or-Post (some a) note f s fail next = next a refl

module _ {S A B : Type 0} {F : Error → S → Type 0} {R : A → S → Type 0} {E : Error → S → Type 0}
    {Q : B → S → Type 0} where
  continue-Ends :
      (r : Result A) (f : A → Action S B) (s : S)
      → Ends F R r s
      → ((e : Error) (s' : S) → F e s' → E e s')
      → ((a : A) (s' : S) → R a s' → Post E Q (f a s'))
      → Post E Q (continue r f s)
  continue-Ends (ok a) f s p fail next = next a s p
  continue-Ends (err e) f s p fail next = record { at = fail e s p }

  -- A call that is known by its postcondition only.
  pub call-Post :
      (m : Action S A) (f : A → Action S B) (s : S)
      → Post F R (m s)
      → ((e : Error) (s' : S) → F e s' → E e s')
      → ((a : A) (s' : S) → R a s' → Post E Q (f a s'))
      → Post E Q ((m >>= f) s)
  unfolding ◌>>=◌
  call-Post m f s p fail next = continue-Ends (m s).0 f (m s).1 p.at fail next

module _ {S A : Type 0} (F : Error → S → Type 0) (R : A → S → Type 0) (E : Error → S → Type 0)
    (Q : A → S → Type 0) where
  Ends-weaken :
      (r : Result A) (s : S)
      → Ends F R r s
      → ((e : Error) → F e s → E e s)
      → ((a : A) → R a s → Q a s)
      → Ends E Q r s
  Ends-weaken (ok a) s p f g = g a p
  Ends-weaken (err e) s p f g = f e p

pub Post-weaken :
    {S A : Type 0} {F E : Error → S → Type 0} {R Q : A → S → Type 0} {r : Result A × S}
    → Post F R r
    → ((e : Error) → F e r.1 → E e r.1)
    → ((a : A) → R a r.1 → Q a r.1)
    → Post E Q r
Post-weaken {F} {E} {R} {Q} {r} p f g = record { at = Ends-weaken F R E Q r.0 r.1 p.at f g }
