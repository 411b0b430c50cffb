-- ===== src/Tests/Witnesses.antt =====
-- The theorems, each at one concrete run.
use freedom_cloud.Common.{
  arith, ℕ, suc, ◌≡◌, ◌↔◌, refl, true, some, List, [], ◌∷◌, replicate, ◌⊎◌, ltb,
}
use freedom_cloud.Fallible.{Result, ok, err, message}
use freedom_cloud.Action.{Post}
use freedom_cloud.Text.{Text, codes, text_eq, eq_ignore_ascii_case, to_lower}
use freedom_cloud.Contract.Canonical.{canonical_bytes_unchecked, to_hex}
use freedom_cloud.Contract.Validate.{
  validate, validate_entries, validate_entry, validate_identity, validate_children, validate_target,
  insert_children, contains,
}
use freedom_cloud.Contract.Validate.Laws.{WellFormed, validate→WellFormed}
use freedom_cloud.Contract.Migration.{
  validate_identity_migration, migrate_entries, migrate_entry, find_identity, retains_child,
  family_contains,
}
use freedom_cloud.Contract.Migration.Laws.{Migrates, validate_identity_migration→Migrates}
use freedom_cloud.Contract.Frames.{
  BrokerRequest, FrameCodec, diagnostics, parse_broker_request, validate_request_id,
  validate_command,
}
use freedom_cloud.Contract.Capability.{is_sha256}
use freedom_cloud.Contract.Fields.{
  validate_sha256, is_uuid, validate_windows_executable_path, validate_target_group,
}
use freedom_cloud.Broker.Marker.{RecoveryMarker, with_phase, disabling}
use freedom_cloud.Broker.Engine.{Engine, new, commit, disable, force_blocking, recover}
use freedom_cloud.Broker.Safety.{
  Safe, Call, prepares, commits, disables, forces_blocking, asks_status, run, run-new-Safe,
}
use freedom_cloud.Broker.Outcome.{
  StaysClosed, Proves, Idle, Guarded, Stuck, Retreats, Blocked, Unrecovered, commit-Post,
  recover-Post, disable-Post, force_blocking-Post,
}
use freedom_cloud.Bits.{digit-zero}
use freedom_cloud.Udp.Replay.{StrictUdpReplayWindow, accept}
use freedom_cloud.Udp.Replay.Laws.{
  Represents, Refines, AllNew, accepted, empty_window, accept-Refines, accepted-AllNew,
}
use freedom_cloud.Session.{BrokerSessionResource, BrokerSessionRegistry, activate, reap_exited}
use freedom_cloud.Session.Laws.{Holds, Installed, Reaps, activate-Post, reap_exited-Post}
use freedom_cloud.Auth.{
  ClientPrincipal, AuthorizedBrokerRequest, BrokerAuthenticator, owner, constant_time_equal,
  authenticate, decode_sha256, decode_pairs, decode_hex_digit, difference, is_recovery_command,
}
use freedom_cloud.Auth.Hex.{decode_sha256-to_hex}
use freedom_cloud.Auth.Laws.{Authentic, authenticate→Authentic, constant_time_equal_iff}
use freedom_cloud.Retry.{default_retry}
use freedom_cloud.Retry.Laws.{granted, backoff, granted-backoff}
use freedom_cloud.Tests.Host.{
  no_filters, memory_host, empty_store, toy_codec, ones_digest, browser_policy, full_health,
}

abbrev fresh_engine : Engine memory_host
fresh_engine = new memory_host no_filters empty_store tt

abbrev prepared_engine : Engine memory_host
prepared_engine = run toy_codec memory_host (prepares (browser_policy 1) ∷ []) fresh_engine

abbrev lifetime : List Call
lifetime =
    prepares (browser_policy 1)
    ∷ commits 1 ones_digest full_health
    ∷ asks_status
    ∷ forces_blocking 1
    ∷ disables 1
    ∷ []

run-new-Safe_example : Safe memory_host (run toy_codec memory_host lifetime fresh_engine)
run-new-Safe_example = run-new-Safe toy_codec memory_host no_filters empty_store tt lifetime

commit-Post_example :
    Post
      (λ _ e. StaysClosed prepared_engine e)
      (Proves memory_host 1 full_health)
      (commit memory_host 1 ones_digest full_health prepared_engine)
commit-Post_example = commit-Post memory_host 1 ones_digest full_health prepared_engine

recover-Post_example :
    Post
      (λ _ e. Unrecovered memory_host prepared_engine e)
      (λ st e. Idle st e ⊎ ((m : RecoveryMarker) × Guarded m st e))
      (recover toy_codec memory_host prepared_engine)
recover-Post_example = recover-Post toy_codec memory_host prepared_engine

abbrev committed_engine : Engine memory_host
committed_engine =
    run toy_codec memory_host (prepares (browser_policy 1) ∷ commits 1 ones_digest full_health ∷ [])
      fresh_engine

disable-Post_example :
    Post
      (λ _ e.
        ((e.phase ≡ committed_engine.phase) × (e.current_marker ≡ committed_engine.current_marker))
        ⊎ ((m : RecoveryMarker) × (committed_engine.current_marker ≡ some m)
            × (m.revision ≡ 1)
            × Stuck memory_host (with_phase m disabling m.filter_generation) e))
      Idle
      (disable memory_host 1 committed_engine)
disable-Post_example = disable-Post memory_host 1 committed_engine

force_blocking-Post_example :
    Post
      (λ _ e. Retreats memory_host committed_engine e)
      (λ st e. Blocked memory_host 1 committed_engine st e)
      (force_blocking memory_host 1 committed_engine)
force_blocking-Post_example = force_blocking-Post memory_host 1 committed_engine

-- A window that has accepted the number 5 only.
abbrev window_at_five : StrictUdpReplayWindow
window_at_five = record { highest = 5; bitmap = 1 }

window_at_five-Represents : Represents window_at_five (5 ∷ [])
unfolding accept
window_at_five-Represents =
    (accept-Refines empty_window [] 5 (record { top = refl; bits = λ k p q. digit-zero k })).after

accept-Refines_example : Refines window_at_five (5 ∷ []) 3 (accept window_at_five 3)
accept-Refines_example = accept-Refines window_at_five (5 ∷ []) 3 window_at_five-Represents

accepted-AllNew_example : AllNew [] (accepted empty_window (5 ∷ 3 ∷ 5 ∷ 100 ∷ 3 ∷ 37 ∷ []))
accepted-AllNew_example = accepted-AllNew (5 ∷ 3 ∷ 5 ∷ 100 ∷ 3 ∷ 37 ∷ [])

-- A session is a process number; the world counts the shutdowns, and processes below 10 run.
abbrev processes : BrokerSessionResource ℕ ℕ
processes = record {
  is_alive = λ session world. ok (ltb session 10);
  shutdown = λ session world. (ok tt, session, suc world);
}

abbrev exited_owner : BrokerSessionRegistry ℕ ℕ
exited_owner = record { active = some 12; generation = 1; world = 0 }

abbrev no_cleanup : ℕ → Result Unit × ℕ
no_cleanup world = (ok tt, world)

activate-Post_example :
    Post
      (λ _ r. Holds processes exited_owner r)
      (λ n r. Installed processes 7 no_cleanup n exited_owner r)
      (activate processes 7 no_cleanup exited_owner)
activate-Post_example = activate-Post processes 7 no_cleanup exited_owner

reap_exited-Post_example :
    Post
      (λ _ r. Holds processes exited_owner r)
      (λ b r. Reaps processes no_cleanup b exited_owner r)
      (reap_exited processes no_cleanup exited_owner)
reap_exited-Post_example = reap_exited-Post processes no_cleanup exited_owner

abbrev one_two : List ℕ
one_two = 1 ∷ 2 ∷ []

abbrev one_three : List ℕ
one_three = 1 ∷ 3 ∷ []

constant_time_equal_example : (constant_time_equal one_two one_three ≡ true) ↔ (one_two ≡ one_three)
constant_time_equal_example = constant_time_equal_iff one_two one_three refl

-- A codec whose every frame is the same request.
abbrev zeros_and_ones : Text
zeros_and_ones = replicate 64 b'1'

abbrev diagnosis : BrokerRequest
diagnosis = record {
  protocol = 2;
  request_id = codes "request-7";
  session_capability = zeros_and_ones;
  command = diagnostics;
}

abbrev toy_frames : FrameCodec
toy_frames = record {
  request_from_str = λ line. ok diagnosis;
  activation_request_from_slice = λ frame. err (message "no activation");
  activation_response_from_slice = λ frame. err (message "no activation");
  response_from_slice = λ frame. err (message "no response");
  activation_response_to_vec = λ response. ok [];
  response_to_vec = λ response. ok [];
}

abbrev authenticator : BrokerAuthenticator
authenticator = record { expected_capability = replicate 32 17 }

abbrev local_owner : ClientPrincipal
local_owner = record { is_local = true; role = owner }

abbrev authorized : AuthorizedBrokerRequest
authorized = record { principal = local_owner; request = diagnosis }

authenticate_runs :
    authenticate toy_codec toy_frames authenticator local_owner (codes "frame") ≡ ok authorized
unfolding authenticate parse_broker_request decode_sha256 constant_time_equal is_recovery_command
    validate_request_id validate_sha256 is_sha256 decode_pairs decode_hex_digit validate_command
    difference
authenticate_runs = refl

authenticate_example :
    Authentic toy_codec toy_frames authenticator local_owner (codes "frame") authorized
authenticate_example =
    authenticate→Authentic toy_codec toy_frames authenticator local_owner (codes "frame") refl
      authorized authenticate_runs

browser_policy-valid : validate toy_codec (browser_policy 1) ≡ ok tt
unfolding validate validate_entries validate_entry validate_identity validate_children
    validate_target insert_children contains is_uuid validate_windows_executable_path
    validate_sha256 validate_target_group canonical_bytes_unchecked is_sha256
browser_policy-valid = refl

validate→WellFormed_example : WellFormed (browser_policy 1)
validate→WellFormed_example = validate→WellFormed toy_codec (browser_policy 1) browser_policy-valid

browser_policy-migrates :
    validate_identity_migration toy_codec (browser_policy 1) (browser_policy 2) ≡ ok tt
unfolding validate_identity_migration migrate_entries migrate_entry find_identity retains_child
    family_contains validate validate_entries validate_entry validate_identity validate_children
    validate_target insert_children contains is_uuid validate_windows_executable_path
    validate_sha256 validate_target_group canonical_bytes_unchecked is_sha256 text_eq
    eq_ignore_ascii_case to_lower
browser_policy-migrates = refl

validate_identity_migration→Migrates_example : Migrates (browser_policy 1) (browser_policy 2)
validate_identity_migration→Migrates_example =
    validate_identity_migration→Migrates toy_codec (browser_policy 1) (browser_policy 2)
      browser_policy-migrates

abbrev seventeens : List ℕ
seventeens = replicate 32 17

decode_sha256-to_hex_example : decode_sha256 (to_hex seventeens) ≡ ok seventeens
decode_sha256-to_hex_example = decode_sha256-to_hex seventeens refl refl

-- Seven failures in a row have five retries, after 1, 2, 4, 8 and 16 seconds.
granted-backoff_example : granted 7 default_retry ≡ backoff 1_000_000_000 16_000_000_000 0 5
granted-backoff_example = granted-backoff 7 default_retry (omega arith)
