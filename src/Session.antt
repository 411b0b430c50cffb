-- ===== src/Session.antt =====
-- `BrokerSessionRegistry` (services/strict-broker/src/session_registry.rs): at most one owner
-- session. The session resource and the caller's fail-closed cleanup act on a world `W`.
pub mod Laws
use freedom_cloud.Common.{
  ℕ, suc, ◌+◌, ◌^◌, Bool, true, false, Option, none, some, ltb, if◌then◌else◌,
}
use freedom_cloud.Fallible.{Error, Result, ok, err, message, with_context, ok_or}
use freedom_cloud.Action.{Action, pure, raise, lift, gets, modify, attempt, branch, ◌>>=◌, ◌>>◌}
use freedom_cloud.Contract.Intent.{checked_add}

-- `trait BrokerSessionResource`: liveness only looks, shutdown may change session and world.
pub record BrokerSessionResource (S W : Type 0) : Type 0 where
  pub is_alive : S → W → Result Bool
  pub shutdown : S → W → Result Unit × S × W

pub record BrokerSessionRegistry (S W : Type 0) : Type 0 where
  pub active : Option S
  pub generation : ℕ
  pub world : W

module _ {S W : Type 0} (resource : BrokerSessionResource S W) where
  abbrev pub Act : Type 0 → Type 0
  Act A = Action (BrokerSessionRegistry S W) A

  abbrev pub alive : S → Act Bool
  alive session r = (resource.is_alive session r.world, r)

  -- `fail_closed_cleanup()?`
  abbrev pub cleanup_with : (W → Result Unit × W) → Act Unit
  cleanup_with cleanup r = let (x, w) = cleanup r.world in (x, record r { world = w })

  -- `active.shutdown()?` on the session in place.
  abbrev pub shutdown_session : S → Act Unit
  shutdown_session session r =
      let (x, session', w) = resource.shutdown session r.world in
      (x, record r { active = some session'; world = w })

  -- The cleanup, and then the shutdown of the old session.
  unfoldable pub retire : (W → Result Unit × W) → S → Act Unit
  retire cleanup session = do cleanup_with cleanup; shutdown_session session

  unfoldable pub install : S → Act ℕ
  install candidate = do
    generation ← gets (λ r. r.generation)
    next ← lift (ok_or (checked_add generation 1) "strict Broker session generation overflow")
    modify (λ r. record r { active = some candidate; generation = next })
    pure next

  unfoldable pub replace : (W → Result Unit × W) → S → Option S → Act ℕ
  replace cleanup candidate none = install candidate
  replace cleanup candidate (some session) = do
    answer ← attempt (alive session)
    is_alive ← lift (with_context "query active strict Broker Agent session" answer)
    branch is_alive (raise (message "a live strict Broker Agent session already exists"))
        (do retire cleanup session; install candidate)

  unfoldable pub activate : S → (W → Result Unit × W) → Act ℕ
  unfolding replace
  activate candidate cleanup = do active ← gets (λ r. r.active); replace cleanup candidate active

  unfoldable pub release : (W → Result Unit × W) → S → Act Bool
  release cleanup session = do
    retire cleanup session
    modify (λ r. record r { active = none })
    pure true

  unfoldable pub reap_session : (W → Result Unit × W) → Option S → Act Bool
  reap_session cleanup none = pure false
  reap_session cleanup (some session) = do
    is_alive ← alive session
    branch is_alive (pure false) (release cleanup session)

  unfoldable pub reap_exited : (W → Result Unit × W) → Act Bool
  unfolding reap_session
  reap_exited cleanup = do active ← gets (λ r. r.active); reap_session cleanup active

  unfoldable pub shutdown_active : (W → Result Unit × W) → Option S → Act Bool
  shutdown_active cleanup none = pure false
  shutdown_active cleanup (some session) = release cleanup session

  unfoldable pub shutdown : (W → Result Unit × W) → Act Bool
  unfolding shutdown_active
  shutdown cleanup = do active ← gets (λ r. r.active); shutdown_active cleanup active
