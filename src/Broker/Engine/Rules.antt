-- ===== src/Broker/Engine/Rules.antt =====
-- Rules for the engine's calls of its host: the call leaves a new state of the part it ran on.
use freedom_cloud.Common.{◌≡◌}
use freedom_cloud.Fallible.{Error, Result, ok, err}
use freedom_cloud.Action.{Post, Post-lift, ◌>>=◌, >>=-Post, attempt, attempt-Post}
use freedom_cloud.Broker.Host.{Host}
use freedom_cloud.Broker.Engine.State.{Engine, Act, on_backend, on_store, on_verifier}

module _ {A B : Type 0} {h : Host} {E : Error → Engine h → Type 0} {Q : B → Engine h → Type 0} where
  pub on_backend-Post :
      (call : h.Backend → Result A × h.Backend) (f : A → Act h B) (e : Engine h)
      → ((x : Error) (b : h.Backend) → call e.backend ≡ (err x, b) → E x (record e { backend = b }))
      → ((a : A) (b : h.Backend)
          → call e.backend ≡ (ok a, b)
          → Post E Q (f a (record e { backend = b })))
      → Post E Q ((on_backend h call >>= f) e)
  on_backend-Post call f e fail next =
      >>=-Post _ _ _ (λ x p. fail x _ (λ i. (p i, (call e.backend).1)))
        (λ a p. next a _ (λ i. (p i, (call e.backend).1)))

  pub on_store-Post :
      (call : h.Store → Result A × h.Store) (f : A → Act h B) (e : Engine h)
      → ((x : Error) (s : h.Store) → call e.store ≡ (err x, s) → E x (record e { store = s }))
      → ((a : A) (s : h.Store) → call e.store ≡ (ok a, s) → Post E Q (f a (record e { store = s })))
      → Post E Q ((on_store h call >>= f) e)
  on_store-Post call f e fail next =
      >>=-Post _ _ _ (λ x p. fail x _ (λ i. (p i, (call e.store).1)))
        (λ a p. next a _ (λ i. (p i, (call e.store).1)))

  pub on_verifier-Post :
      (call : h.Verifier → Result A × h.Verifier) (f : A → Act h B) (e : Engine h)
      → ((x : Error) (v : h.Verifier)
          → call e.verifier ≡ (err x, v)
          → E x (record e { verifier = v }))
      → ((a : A) (v : h.Verifier)
          → call e.verifier ≡ (ok a, v)
          → Post E Q (f a (record e { verifier = v })))
      → Post E Q ((on_verifier h call >>= f) e)
  on_verifier-Post call f e fail next =
      >>=-Post _ _ _ (λ x p. fail x _ (λ i. (p i, (call e.verifier).1)))
        (λ a p. next a _ (λ i. (p i, (call e.verifier).1)))

  pub attempt_backend-Post :
      (call : h.Backend → Result A × h.Backend) (f : Result A → Act h B) (e : Engine h)
      → ((r : Result A) (b : h.Backend)
          → call e.backend ≡ (r, b)
          → Post E Q (f r (record e { backend = b })))
      → Post E Q ((attempt (on_backend h call) >>= f) e)
  attempt_backend-Post call f e next =
      attempt-Post _ _ _ (λ r p. next r _ (λ i. (p i, (call e.backend).1)))

  pub attempt_store-Post :
      (call : h.Store → Result A × h.Store) (f : Result A → Act h B) (e : Engine h)
      → ((r : Result A) (s : h.Store)
          → call e.store ≡ (r, s)
          → Post E Q (f r (record e { store = s })))
      → Post E Q ((attempt (on_store h call) >>= f) e)
  attempt_store-Post call f e next =
      attempt-Post _ _ _ (λ r p. next r _ (λ i. (p i, (call e.store).1)))

module _ {B : Type 0} {h : Host} {E : Error → Engine h → Type 0} {Q : B → Engine h → Type 0} where
  -- A call of the backend that ends a block.
  pub on_backend-last :
      (call : h.Backend → Result B × h.Backend) (e : Engine h)
      → ((x : Error) (b : h.Backend) → call e.backend ≡ (err x, b) → E x (record e { backend = b }))
      → ((a : B) (b : h.Backend) → call e.backend ≡ (ok a, b) → Q a (record e { backend = b }))
      → Post E Q (on_backend h call e)
  on_backend-last call e fail next =
      Post-lift _ _ (λ x p. fail x _ (λ i. (p i, (call e.backend).1)))
        (λ a p. next a _ (λ i. (p i, (call e.backend).1)))
