-- ===== src/Tests/Dispatch.antt =====
-- A dispatcher on the host in memory, with a probe that counts its calls.
use freedom_cloud.Common.{ℕ, suc, ◌≡◌, refl, true, false, some, [], ◌∷◌, replicate}
use freedom_cloud.Fallible.{ok}
use freedom_cloud.Action.{Post, ◌>>=◌}
use freedom_cloud.Text.{codes, text_eq, eq_ignore_ascii_case, to_lower}
use freedom_cloud.Contract.Capability.{BrokerProof, no_capabilities, required_for_proxy, is_sha256}
use freedom_cloud.Contract.Fields.{validate_sha256, validate_target_group}
use freedom_cloud.Contract.Ingress.{
  StrictProxyIngressSet, localhost, validate_ingress, not_loopback, validate_ingress_entries,
  validate_ingress_entry, validate_ingress_credential,
}
use freedom_cloud.Contract.Frames.{
  BrokerRequest, BrokerResponseBody, commit_policy, checked_response, validate_response,
  validate_request_id, validate_broker_proof,
}
use freedom_cloud.Broker.Marker.{
  RecoveryMarker, BrokerStatus, blocking, no_health, has_proxy_entries, is_complete_for,
  required_capabilities, validate_snapshot,
}
use freedom_cloud.Broker.Engine.{
  Engine, commit, match_current, arm, or_rollback, status_of, validate_forwarding_ingress,
  expected_groups, insert_group, any_mismatch,
}
use freedom_cloud.Dispatch.{
  ForwardingHealthProbe, BrokerDispatcher, dispatch, run_command, response_for_result,
  revoke_on_failure,
}
use freedom_cloud.Dispatch.Answers.{Forwards, dispatch-commit-Forwards}
use freedom_cloud.Dispatch.Laws.{CommitEnds, run_command-commit-Post}
use freedom_cloud.Tests.Host.{memory_host, toy_codec, ones_digest, browser_policy, full_health}

-- Every measurement finds full health.
abbrev counting_probe : ForwardingHealthProbe ℕ
counting_probe = record {
  measure = λ revision digest ingress n. (ok full_health, suc n);
  verify_active = λ n. (ok tt, n);
  prepare_deactivation = λ n. (ok tt, n);
  deactivate = λ n. (ok tt, suc n);
}

abbrev browser_marker : RecoveryMarker
browser_marker = record {
  protocol = 2;
  revision = 1;
  policy_digest = ones_digest;
  filter_generation = 1;
  phase = blocking;
  policy = browser_policy 1;
}

abbrev blocking_engine : Engine memory_host
blocking_engine = record {
  backend = record {
    owner = some (1, ones_digest);
    generation = 1;
    guards = true;
    data_plane = false;
  };
  store = record { high_watermark = 1; marker = some browser_marker };
  verifier = tt;
  current_marker = some browser_marker;
  high_watermark = 1;
  store_loaded = true;
  phase = blocking;
  forwarding_health = no_health;
  verification_lease =
      some (record { app_ids = record { applications = []; app_id_count = 0 }; lease = tt });
}

abbrev dispatcher : BrokerDispatcher memory_host ℕ
dispatcher = record { engine = blocking_engine; health_probe = 0 }

abbrev one_ingress : StrictProxyIngressSet
one_ingress = record {
  protocol = 2;
  generation = 1;
  udp_endpoint = some (record { ip = localhost; port = 9001 });
  entries =
      record {
        target_group = codes "proxy";
        endpoint = record { ip = localhost; port = 9000 };
        username = replicate 64 b'a';
        password = replicate 64 b'b';
      }
      ∷ [];
}

run_command-commit-Post_example :
    Post
      (λ _ _. ⊥)
      (CommitEnds toy_codec memory_host counting_probe 1 ones_digest one_ingress dispatcher)
      (run_command toy_codec memory_host counting_probe
        (commit_policy 1 ones_digest one_ingress)
        dispatcher)
run_command-commit-Post_example =
    run_command-commit-Post toy_codec memory_host counting_probe 1 ones_digest one_ingress
      dispatcher

abbrev commit_request : BrokerRequest
commit_request = record {
  protocol = 2;
  request_id = codes "request-7";
  session_capability = ones_digest;
  command = commit_policy 1 ones_digest one_ingress;
}

abbrev no_proof : BrokerProof
no_proof = record {
  revision = 0;
  policy_digest = [];
  filter_generation = 0;
  capabilities = no_capabilities;
  guard_filters_installed = false;
  recovery_marker_present = false;
  core_healthy = false;
  relay_healthy = false;
  dns_healthy = false;
}

abbrev proof_or : BrokerProof → BrokerResponseBody → BrokerProof
proof_or other (BrokerResponseBody.status proof) = proof
proof_or other (BrokerResponseBody.error code) = other

abbrev answered_proof : BrokerProof
answered_proof =
    proof_or no_proof
      (dispatch toy_codec memory_host counting_probe commit_request dispatcher).0.body

answered :
    (dispatch toy_codec memory_host counting_probe commit_request dispatcher).0.body
    ≡ BrokerResponseBody.status answered_proof
unfolding dispatch run_command revoke_on_failure response_for_result ◌>>=◌
    validate_forwarding_ingress match_current eq_ignore_ascii_case to_lower text_eq validate_ingress
    not_loopback validate_ingress_entries validate_ingress_entry validate_target_group
    validate_ingress_credential validate_sha256 is_sha256 expected_groups insert_group any_mismatch
    commit arm or_rollback validate_snapshot has_proxy_entries is_complete_for required_capabilities
    required_for_proxy status_of checked_response validate_response validate_request_id
    validate_broker_proof
answered = refl

dispatch-commit-Forwards_example :
    (st : BrokerStatus) × (st.proof ≡ answered_proof)
    × Forwards toy_codec memory_host counting_probe 1 ones_digest one_ingress dispatcher st
        (dispatch toy_codec memory_host counting_probe commit_request dispatcher).1
dispatch-commit-Forwards_example =
    dispatch-commit-Forwards toy_codec memory_host counting_probe commit_request 1 ones_digest
      one_ingress dispatcher answered_proof refl answered
