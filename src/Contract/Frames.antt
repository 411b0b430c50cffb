-- ===== src/Contract/Frames.antt =====
-- The frames of the Broker's pipes (services/strict-contract/src/lib.rs).
use freedom_cloud.Common.{
  ℕ, Bool, not, ◌&&◌, ◌||◌, Option, none, some, List, ◌∷◌, ltb, ◌==◌, all, length, is_empty,
  if◌then◌else◌, replicate,
}
use freedom_cloud.Fallible.{Result, ok, ◌>>=◌, ◌>>◌, bail, bail_if}
use freedom_cloud.Text.{Text, codes, bytes, len, is_ascii_alphanumeric, strip_prefix, text_eq}
use freedom_cloud.Contract.Capability.{
  BrokerProof, persistent_fail_closed, recovery_verified, is_empty_set, strict_protocol_version,
}
use freedom_cloud.Contract.Policy.{StrictPolicyBundle}
use freedom_cloud.Contract.Codec.{Codec}
use freedom_cloud.Contract.Fields.{validate_sha256}
use freedom_cloud.Contract.Ingress.{StrictProxyIngressSet, validate_ingress}
use freedom_cloud.Contract.Validate.{validate, max_broker_frame_bytes}

abbrev pub max_broker_activation_frame_bytes : ℕ
max_broker_activation_frame_bytes = 4096

pub data BrokerCommand : Type 0 where
  status : BrokerCommand
  prepare_policy : StrictPolicyBundle → BrokerCommand
  commit_policy : ℕ → Text → StrictProxyIngressSet → BrokerCommand
  force_blocking : ℕ → BrokerCommand
  disable_policy : ℕ → BrokerCommand
  diagnostics : BrokerCommand

pub record BrokerRequest : Type 0 where
  pub protocol : ℕ
  pub request_id : Text
  pub session_capability : Text
  pub command : BrokerCommand

pub record BrokerActivationRequest : Type 0 where
  pub protocol : ℕ
  pub request_id : Text
  pub session_capability : Text

pub data BrokerActivationErrorCode : Type 0 where
  unauthorized busy internal : BrokerActivationErrorCode

pub data BrokerActivationResponseBody : Type 0 where
  activated : Text → BrokerActivationResponseBody
  error : BrokerActivationErrorCode → BrokerActivationResponseBody

pub record BrokerActivationResponse : Type 0 where
  pub protocol : ℕ
  pub request_id : Text
  pub body : BrokerActivationResponseBody

pub data BrokerErrorCode : Type 0 where
  invalid_request unauthorized invalid_state identity_rejected : BrokerErrorCode
  backend_unavailable persistence_failure forwarding_dns_mapping : BrokerErrorCode
  forwarding_dns_restoration forwarding_canary forwarding_timeout internal : BrokerErrorCode

pub data BrokerResponseBody : Type 0 where
  status : BrokerProof → BrokerResponseBody
  error : BrokerErrorCode → BrokerResponseBody

pub record BrokerResponse : Type 0 where
  pub protocol : ℕ
  pub request_id : Text
  pub body : BrokerResponseBody

-- `serde_json` on the frames.
pub record FrameCodec : Type 0 where
  pub request_from_str : Text → Result BrokerRequest
  pub activation_request_from_slice : List ℕ → Result BrokerActivationRequest
  pub activation_response_from_slice : List ℕ → Result BrokerActivationResponse
  pub response_from_slice : List ℕ → Result BrokerResponse
  pub activation_response_to_vec : BrokerActivationResponse → Result (List ℕ)
  pub response_to_vec : BrokerResponse → Result (List ℕ)

unfoldable pub validate_request_id : Text → Result Unit
validate_request_id value =
    bail_if
      (len value == 0
        || ltb 64 (len value)
        || not (all (λ b. is_ascii_alphanumeric b || b == b'-' || b == b'_') (bytes value)))
      "Broker request ID is invalid"

abbrev broker_pipe_name_prefix : Text
broker_pipe_name_prefix =
    92 ∷ 92 ∷ b'.' ∷ 92 ∷ b'p' ∷ b'i' ∷ b'p' ∷ b'e' ∷ 92 ∷ codes "FlClashX.StrictBroker."

abbrev pipe_name_byte : ℕ → Bool
pipe_name_byte b = is_ascii_alphanumeric b || b == b'.' || b == b'-' || b == b'_'

validate_suffix : Text → Option Text → Result Unit
validate_suffix value none = bail "Broker activation pipe name has an invalid namespace"
validate_suffix value (some suffix) =
    bail_if (len suffix == 0 || ltb 240 (len value) || not (all pipe_name_byte (bytes suffix)))
      "Broker activation pipe name is invalid"

unfoldable pub validate_broker_pipe_name : Text → Result Unit
unfolding validate_suffix
validate_broker_pipe_name value = validate_suffix value (strip_prefix value broker_pipe_name_prefix)

abbrev pub zero_digest : Text
zero_digest = replicate 64 b'0'

validate_disabled_proof : BrokerProof → Result Unit
validate_disabled_proof proof =
    bail_if
      (not (text_eq proof.policy_digest zero_digest)
        || not (proof.filter_generation == 0)
        || not (is_empty_set proof.capabilities)
        || proof.guard_filters_installed
        || proof.recovery_marker_present
        || proof.core_healthy
        || proof.relay_healthy
        || proof.dns_healthy)
      "disabled Broker proof contains active strict state"

validate_active_proof : BrokerProof → Result Unit
validate_active_proof proof = do
  bail_if (not proof.recovery_marker_present) "active Broker proof is missing its recovery marker"
  bail_if (proof.guard_filters_installed && proof.filter_generation == 0)
      "active Broker guard proof is missing its filter generation"
  bail_if
      ((proof.capabilities persistent_fail_closed || proof.capabilities recovery_verified)
        && not proof.guard_filters_installed)
      "Broker fail-closed capability has no installed guard proof"

unfoldable pub validate_broker_proof : BrokerProof → Result Unit
unfolding validate_disabled_proof validate_active_proof
validate_broker_proof proof = do
  validate_sha256 proof.policy_digest
  if proof.revision == 0 then validate_disabled_proof proof else validate_active_proof proof

validate_body : BrokerResponseBody → Result Unit
validate_body (BrokerResponseBody.status proof) = validate_broker_proof proof
validate_body (BrokerResponseBody.error code) = ok tt

-- `BrokerResponse::validate`
unfoldable pub validate_response : BrokerResponse → Result Unit
unfolding validate_body
validate_response response = do
  bail_if (not (response.protocol == strict_protocol_version))
      "unsupported Broker response protocol"
  validate_request_id response.request_id
  validate_body response.body

abbrev pub response_of : Text → BrokerResponseBody → BrokerResponse
response_of request_id body = record {
  protocol = strict_protocol_version;
  request_id = request_id;
  body = body;
}

-- `BrokerResponse::status` and `BrokerResponse::error`
unfoldable pub checked_response : Text → BrokerResponseBody → Result BrokerResponse
checked_response request_id body = do
  validate_response (response_of request_id body)
  ok (response_of request_id body)

validate_activation_body : BrokerActivationResponseBody → Result Unit
validate_activation_body (activated pipe_name) = validate_broker_pipe_name pipe_name
validate_activation_body (BrokerActivationResponseBody.error code) = ok tt

unfoldable pub validate_activation_response : BrokerActivationResponse → Result Unit
unfolding validate_activation_body
validate_activation_response response = do
  bail_if (not (response.protocol == strict_protocol_version))
      "unsupported Broker activation response protocol"
  validate_request_id response.request_id
  validate_activation_body response.body

abbrev activation_response_of : Text → BrokerActivationResponseBody → BrokerActivationResponse
activation_response_of request_id body = record {
  protocol = strict_protocol_version;
  request_id = request_id;
  body = body;
}

-- `BrokerActivationResponse::activated` and `BrokerActivationResponse::error`
unfoldable pub checked_activation_response :
    Text → BrokerActivationResponseBody → Result BrokerActivationResponse
checked_activation_response request_id body = do
  validate_activation_response (activation_response_of request_id body)
  ok (activation_response_of request_id body)

-- The revision, digest and ingress of a command.
unfoldable pub validate_command : Codec → BrokerCommand → Result Unit
validate_command codec (prepare_policy policy) = validate codec policy
validate_command codec (commit_policy revision policy_digest ingress) = do
  bail_if (revision == 0) "strict policy revision must be positive"
  validate_sha256 policy_digest
  validate_ingress ingress
validate_command codec (force_blocking revision) =
    bail_if (revision == 0) "strict policy revision must be positive"
validate_command codec (disable_policy revision) =
    bail_if (revision == 0) "strict policy revision must be positive"
validate_command codec BrokerCommand.status = ok tt
validate_command codec diagnostics = ok tt

module _ (codec : Codec) (frames : FrameCodec) where
  unfoldable pub parse_broker_request : Text → Result BrokerRequest
  unfolding validate_command
  parse_broker_request line = do
    bail_if (len line == 0 || ltb max_broker_frame_bytes (len line)) "Broker frame size is invalid"
    request ← frames.request_from_str line
    bail_if (not (request.protocol == strict_protocol_version)) "unsupported Broker protocol"
    validate_request_id request.request_id
    validate_sha256 request.session_capability
    validate_command codec request.command
    ok request

module _ (frames : FrameCodec) where
  unfoldable pub parse_broker_response : List ℕ → Result BrokerResponse
  parse_broker_response frame = do
    bail_if (is_empty frame || ltb max_broker_frame_bytes (length frame))
        "Broker response frame size is invalid"
    response ← frames.response_from_slice frame
    validate_response response
    ok response

  -- `BrokerResponse::to_bytes`
  unfoldable pub response_to_bytes : BrokerResponse → Result (List ℕ)
  response_to_bytes response = do
    validate_response response
    encoded ← frames.response_to_vec response
    bail_if (is_empty encoded || ltb max_broker_frame_bytes (length encoded))
        "Broker response frame size is invalid"
    ok encoded

  unfoldable pub parse_broker_activation_request : List ℕ → Result BrokerActivationRequest
  parse_broker_activation_request frame = do
    bail_if (is_empty frame || ltb max_broker_activation_frame_bytes (length frame))
        "Broker activation frame size is invalid"
    request ← frames.activation_request_from_slice frame
    bail_if (not (request.protocol == strict_protocol_version))
        "unsupported Broker activation protocol"
    validate_request_id request.request_id
    validate_sha256 request.session_capability
    bail_if (all (λ byte. byte == b'0') (bytes request.session_capability))
        "Broker session capability cannot be zero"
    ok request

  unfoldable pub parse_broker_activation_response : List ℕ → Result BrokerActivationResponse
  parse_broker_activation_response frame = do
    bail_if (is_empty frame || ltb max_broker_activation_frame_bytes (length frame))
        "Broker activation response frame size is invalid"
    response ← frames.activation_response_from_slice frame
    validate_activation_response response
    ok response

  -- `BrokerActivationResponse::to_bytes`
  unfoldable pub activation_response_to_bytes : BrokerActivationResponse → Result (List ℕ)
  activation_response_to_bytes response = do
    validate_activation_response response
    encoded ← frames.activation_response_to_vec response
    bail_if (is_empty encoded || ltb max_broker_activation_frame_bytes (length encoded))
        "Broker activation response frame size is invalid"
    ok encoded
