-- ===== src/Transport/Protocol.antt =====
-- go-core/internal/transport/protocol.go, and the frames of session.go. The errors that a frame carries are
-- a text or a ProtocolError. ParseEnvelope calls encoding/json and is left out.
pub mod Valid
pub mod Tests
use sourcevcode_orchestrator.Prelude.{
  String, List, [], ◌∷◌, Option, none, some, Bool, true, false, not, ◌&&◌, ◌||◌, if◌then◌else◌,
  ◌==◌, any, trim, lower_is, upper_is,
}
use sourcevcode_orchestrator.Prelude.Int.{ℤ, pos, ltb_ℤ}
use sourcevcode_orchestrator.Domain.Json.{Fields, text, scalar, number, end, field}
use Prim.Native.String as Str

pub record ErrorDefinition : Type 0 where
  pub retryable : Bool
  pub category : String
  pub message : String

pub record ProtocolError : Type 0 where
  pub code : String
  pub message : String
  pub retryable : Bool
  pub category : String
  pub details : Fields

pub data FrameError : Type 0 where
  no_error : FrameError
  error_text : String → FrameError
  frame_error : ProtocolError → FrameError

pub record Frame : Type 0 where
  pub type : String
  pub request_id : String
  pub correlation_id : String
  pub action : String
  pub fields : Fields
  pub error : FrameError
  pub final : Bool
  pub ack : Bool
  pub idempotency_key : String
  pub timeout_ms : ℤ

abbrev defined : Bool → String → String → ErrorDefinition
defined retryable category message = record {
  retryable = retryable;
  category = category;
  message = message;
}

unfoldable pub error_taxonomy : List (String × ErrorDefinition)
error_taxonomy =
    ("INVALID_JSON", defined false "protocol" "frame payload is not valid JSON")
    ∷ ("INVALID_FRAME", defined false "protocol" "frame payload must be a JSON object")
    ∷ ("INVALID_TYPE", defined false "protocol" "frame type is not supported")
    ∷ ("INVALID_ACTION", defined false "protocol" "request frames require action")
    ∷ ("INVALID_REQUEST_ID", defined false "protocol" "request_id must be a non-empty string")
    ∷ ("INVALID_TIMEOUT", defined false "protocol" "timeout_ms must be a positive integer")
    ∷ (
      "INVALID_IDEMPOTENCY_KEY",
      defined false "protocol" "idempotency_key must be a non-empty string",
    )
    ∷ ("BAD_REQUEST", defined false "client" "request payload is semantically invalid")
    ∷ ("UNAUTHORIZED", defined false "auth" "authentication is required or invalid")
    ∷ ("FORBIDDEN", defined false "auth" "caller is not allowed to perform this action")
    ∷ ("NOT_FOUND", defined false "routing" "resource was not found")
    ∷ ("CONFLICT", defined false "mutation" "request conflicts with current state")
    ∷ ("UNSUPPORTED_ACTION", defined false "routing" "action is not registered in the dispatcher")
    ∷ ("TIMEOUT", defined true "mutation" "request timed out")
    ∷ ("CANCELED", defined true "mutation" "request was canceled")
    ∷ ("RATE_LIMITED", defined true "provider" "request was rate limited")
    ∷ ("UNAVAILABLE", defined true "provider" "service is unavailable")
    ∷ ("INTERNAL_ERROR", defined true "server" "request handling failed")
    ∷ []

-- The entry whose key is the upper-case code, or INTERNAL_ERROR.
unfoldable pub definition_of : String → List (String × ErrorDefinition) → String × ErrorDefinition
unfolding upper_is
definition_of code [] = ("INTERNAL_ERROR", defined true "server" "request handling failed")
definition_of code (entry ∷ entries) =
    let later = definition_of code entries in if upper_is code entry.0 then entry else later

unfoldable pub new_protocol_frame_error : String → String → Fields → ProtocolError
unfolding definition_of error_taxonomy trim
new_protocol_frame_error code message details =
    let (known, definition) = definition_of (trim code) error_taxonomy in
    record {
      code = known;
      message = if trim message == "" then definition.message else message;
      retryable = definition.retryable;
      category = definition.category;
      details = details;
    }

unfoldable pub request_frame_types : List String
request_frame_types = "command" ∷ "subscribe" ∷ "unsubscribe" ∷ "cancel" ∷ []

unfoldable pub server_frame_types : List String
server_frame_types =
    "ack" ∷ "event" ∷ "response" ∷ "error" ∷ "snapshot" ∷ "delta" ∷ "heartbeat" ∷ "pong"
    ∷ "control.ack" ∷ []

-- Whether the text, trimmed and in lower case, is one of the types.
abbrev pub is_type : List String → String → Bool
is_type types type = any (λ t. lower_is (trim type) t) types

-- `lower` is strings.ToLower.
unfoldable pub validate_envelope : (String → String) → Frame → Option ProtocolError
unfolding new_protocol_frame_error request_frame_types server_frame_types
validate_envelope lower e =
    if not (is_type request_frame_types e.type) && not (is_type server_frame_types e.type)
    then some (
        new_protocol_frame_error "INVALID_TYPE"
          (Str.◌++◌ "unsupported frame type: " (lower (trim e.type))) end)
    else if trim e.request_id == "" && not (lower_is (trim e.type) "heartbeat")
    then some (new_protocol_frame_error "INVALID_REQUEST_ID" "" end)
    else if is_type request_frame_types e.type && trim e.action == ""
    then some (new_protocol_frame_error "INVALID_ACTION" "" end)
    else if ltb_ℤ e.timeout_ms (pos 0)
    then some (new_protocol_frame_error "INVALID_TIMEOUT" "" end)
    else none

abbrev pub boolean : Bool → String
boolean true = "true"
boolean false = "false"

-- The fields of the request that its answers repeat.
abbrev pub answer : Frame → String → Fields → Bool → Frame
answer request type fields final = record {
  type = type;
  request_id = request.request_id;
  correlation_id = request.correlation_id;
  action = request.action;
  fields = fields;
  error = no_error;
  final = final;
  ack = false;
  idempotency_key = "";
  timeout_ms = pos 0;
}

unfoldable pub ack_envelope : Frame → String → Frame
ack_envelope request mode =
    record (answer request "ack"
      (field "accepted" (scalar "true") (
        field "mode" (text mode) (
          field "idempotency_key" (text request.idempotency_key)
            (field "timeout_ms" (number request.timeout_ms) end))))
      false) { ack = true }

unfoldable pub response_envelope : Frame → Fields → Frame
response_envelope request fields = answer request "response" fields true

unfoldable pub event_envelope : Frame → String → Fields → Bool → Frame
event_envelope request type fields final =
    answer request (if type == "snapshot" || type == "delta" then type else "event") fields final

unfoldable pub error_envelope : Frame → String → String → Fields → Frame
unfolding new_protocol_frame_error
error_envelope request code message details = record (answer request "error" end true) {
  error = frame_error (new_protocol_frame_error code message details);
}
