-- ===== src/Broker/Safety/Reach.antt =====
-- The calls of the engine's interface as steps, and what holds of every state that they reach.
use freedom_cloud.Common.{ℕ, List, [], ◌∷◌}
use freedom_cloud.Action.{Post-state}
use freedom_cloud.Text.{Text}
use freedom_cloud.Contract.Codec.{Codec}
use freedom_cloud.Contract.Policy.{StrictPolicyBundle}
use freedom_cloud.Broker.Marker.{ForwardingHealth}
use freedom_cloud.Broker.Host.{Host}
use freedom_cloud.Broker.Engine.{
  Engine, new, prepare, commit, disable, force_blocking, force_blocking_if_active, recover, status,
}
use freedom_cloud.Broker.Safety.Invariant.{Safe, disabled-IsSafe}
use freedom_cloud.Broker.Safety.Recovery.{
  force_blocking-EndsSafe, force_blocking_if_active-EndsSafe, status-EndsSafe,
}
use freedom_cloud.Broker.Safety.Recover.{recover-EndsSafe}
use freedom_cloud.Broker.Safety.Transitions.{disable-EndsSafe, commit-EndsSafe}
use freedom_cloud.Broker.Safety.Prepare.{prepare-EndsSafe}

pub data Call : Type 0 where
  prepares : StrictPolicyBundle → Call
  commits : ℕ → Text → ForwardingHealth → Call
  disables : ℕ → Call
  forces_blocking : ℕ → Call
  tears_down : Call
  recovers : Call
  asks_status : Call

module _ (codec : Codec) (h : Host) where
  -- The state that a call leaves, whether it succeeds or fails.
  unfoldable pub step : Call → Engine h → Engine h
  step (prepares policy) e = (prepare codec h policy e).1
  step (commits revision digest health) e = (commit h revision digest health e).1
  step (disables revision) e = (disable h revision e).1
  step (forces_blocking revision) e = (force_blocking h revision e).1
  step tears_down e = (force_blocking_if_active h e).1
  step recovers e = (recover codec h e).1
  step asks_status e = (status h e).1

  unfoldable pub run : List Call → Engine h → Engine h
  run [] e = e
  run (c ∷ cs) e = run cs (step c e)

  step-Safe : (c : Call) (e : Engine h) → Safe h e → Safe h (step c e)
  unfolding step
  step-Safe (prepares policy) e v = Post-state _ (prepare-EndsSafe codec h policy e v)
  step-Safe (commits revision digest health) e v =
      Post-state _ (commit-EndsSafe h revision digest health e v)
  step-Safe (disables revision) e v = Post-state _ (disable-EndsSafe h revision e v)
  step-Safe (forces_blocking revision) e v = Post-state _ (force_blocking-EndsSafe h revision e v)
  step-Safe tears_down e v = Post-state _ (force_blocking_if_active-EndsSafe h e v)
  step-Safe recovers e v = Post-state _ (recover-EndsSafe codec h e v)
  step-Safe asks_status e v = Post-state _ (status-EndsSafe h e v)

  run-Safe : (cs : List Call) (e : Engine h) → Safe h e → Safe h (run cs e)
  unfolding run
  run-Safe [] e v = v
  run-Safe (c ∷ cs) e v = run-Safe cs (step c e) (step-Safe c e v)

  -- From a new engine, over any host and after any sequence of calls, failed ones included: the
  -- engine is disabled exactly when it has no marker, and where it is armed for a policy with
  -- proxy entries, its health proof is complete for that policy and it holds a verification lease.
  pub run-new-Safe :
      (backend : h.Backend) (store : h.Store) (verifier : h.Verifier) (cs : List Call)
      → Safe h (run cs (new h backend store verifier))
  unfolding new
  run-new-Safe backend store verifier cs = run-Safe cs _ disabled-IsSafe
