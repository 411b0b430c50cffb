-- ===== src/Contract/Codec.antt =====
-- What the contract takes from other crates: `sha2` and `serde_json`. Both are parameters of every
-- definition that uses them.
use freedom_cloud.Common.{ℕ, List}
use freedom_cloud.Fallible.{Result}
use freedom_cloud.Contract.Policy.{StrictPolicyBundle}

pub record Codec : Type 0 where
  -- `Sha256::digest`
  pub sha256 : List ℕ → List ℕ
  -- `serde_json::to_vec` of a policy bundle
  pub policy_to_vec : StrictPolicyBundle → Result (List ℕ)
