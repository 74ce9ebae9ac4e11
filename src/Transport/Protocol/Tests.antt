-- ===== src/Transport/Protocol/Tests.antt =====
-- Concrete frames and errors.
use sourcevcode_orchestrator.Prelude.{String, ◌≡◌, none, refl, true, false, lower_is}
use sourcevcode_orchestrator.Prelude.Int.{pos}
use sourcevcode_orchestrator.Domain.Json.{end}
use sourcevcode_orchestrator.Transport.Protocol.{
  Frame, no_error, new_protocol_frame_error, validate_envelope,
}

abbrev pub frame : Frame
frame = record {
  type = " Command ";
  request_id = "r1";
  correlation_id = "";
  action = "task.create";
  fields = end;
  error = no_error;
  final = false;
  ack = true;
  idempotency_key = "";
  timeout_ms = pos 0;
}

abbrev same : String → String
same s = s

it_passes : validate_envelope same frame ≡ none
unfolding validate_envelope lower_is
it_passes = refl

its_code : (new_protocol_frame_error " timeout" "" end).code ≡ "TIMEOUT"
unfolding new_protocol_frame_error
its_code = refl
