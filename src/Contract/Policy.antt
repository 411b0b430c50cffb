-- ===== src/Contract/Policy.antt =====
-- The policy bundle: identities, entries, and how they compare (services/strict-contract/src/lib.rs).
use freedom_cloud.Common.{ℕ, Option, List, ℕ_discrete}
use freedom_cloud.Text.{Text}

pub record StrictChildIdentity : Type 0 where
  pub canonical_path : Text
  pub wfp_app_id_sha256 : Text
  pub publisher_certificate_sha256 : Text

pub record StrictIdentity : Type 0 where
  pub identity_id : Text
  pub canonical_path : Text
  pub wfp_app_id_sha256 : Text
  pub publisher_certificate_sha256 : Text
  pub verified_children : List StrictChildIdentity

pub data StrictAction : Type 0 where
  proxy block : StrictAction

pub record StrictPolicyEntry : Type 0 where
  pub identity : StrictIdentity
  pub action : StrictAction
  pub target_group : Option Text

pub record StrictPolicyBundle : Type 0 where
  pub protocol : ℕ
  pub revision : ℕ
  pub entries : List StrictPolicyEntry

unfoldable pub StrictPolicyBundle-discrete : Discrete StrictPolicyBundle
StrictPolicyBundle-discrete = hlevel ℕ_discrete
