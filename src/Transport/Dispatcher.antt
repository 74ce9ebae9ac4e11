-- ===== src/Transport/Dispatcher.antt =====
-- go-core/internal/transport/dispatcher.go. A handler emits frames and may fail; it is a parameter, as a
-- function of the frames that were emitted before. What the emitter answers is a parameter too. The
-- timeout of a request reaches the handler only, whose error says that it ran out. A handler is never nil:
-- Register ignores one that is.
pub mod Answers
pub mod Sent
mod Tests
use Prim.Native.String as Str
use Prim.Native.String.{compare as str_compare}
use package.text.Mathlib.Text.{is_lt}
use sourcevcode_orchestrator.Prelude.{
  String, List, [], ◌∷◌, ◌++◌, map, Option, none, some, Bool, true, false, ◌&&◌, if◌then◌else◌,
  ◌==◌, trim, lookup, insert, sort_by, is_some,
}
use sourcevcode_orchestrator.Domain.Json.{Fields, text, end, field}
use sourcevcode_orchestrator.Transport.Protocol.{Frame, ProtocolError, ack_envelope, error_envelope}

-- errors.Is and errors.As, as Dispatch and ErrorCode ask them: a deadline or a cancellation, whose error
-- may be a ProtocolError besides, with the text of the error.
pub record HandlerError : Type 0 where
  pub deadline_exceeded : Bool
  pub canceled : Bool
  pub protocol : Option ProtocolError
  pub message : String

-- A failed emit, or the error of the handler is sent and the call succeeds.
pub record Emission : Type 0 where
  pub sent : List Frame
  pub err : Option String

pub record HandlerRegistration : Type 0 where
  pub handler : Frame → List Frame → List Frame × Option HandlerError
  pub mode : String
  pub send_ack : Bool

unfoldable pub error_code : HandlerError → String
error_code e = elim e.protocol [ none ↦ "INTERNAL_ERROR" | some p ↦ p.code ]

unfoldable pub failure_code : HandlerError → String
unfolding error_code
failure_code e =
    if e.deadline_exceeded then "TIMEOUT" else if e.canceled then "CANCELED" else error_code e

abbrev pub unsupported_frame : Frame → Frame
unsupported_frame request =
    error_envelope request "UNSUPPORTED_ACTION" (Str.◌++◌ "unsupported action: " request.action) end

abbrev pub failure_frame : Frame → HandlerError → Frame
failure_frame request e =
    error_envelope request (failure_code e) e.message (field "handler" (text request.action) end)

-- `lower` is strings.ToLower.
module _ (lower : String → String) where
  abbrev pub key_of : String → String
  key_of action = lower (trim action)

  unfoldable pub register :
      String
      → String
      → Bool
      → (Frame → List Frame → List Frame × Option HandlerError)
      → List (String × HandlerRegistration)
      → List (String × HandlerRegistration)
  unfolding insert trim
  register action mode send_ack handler handlers =
      if key_of action == ""
      then handlers
      else insert (key_of action)
          (record {
            handler = handler;
            mode = if mode == "stream" then mode else "single";
            send_ack = send_ack;
          })
          handlers

  unfoldable pub supports : String → List (String × HandlerRegistration) → Bool
  unfolding lookup trim
  supports action handlers = is_some (lookup (key_of action) handlers)

  abbrev pub action_less : String → String → Bool
  action_less s t = is_lt (str_compare s t)

  unfoldable pub actions : List (String × HandlerRegistration) → List String
  unfolding sort_by
  actions handlers = sort_by action_less (map (λ (e : String × HandlerRegistration). e.0) handlers)

  module _ (emit : Frame → Option String) where
    unfoldable pub emitted : List Frame → Frame → Emission
    emitted sent frame = elim (emit frame) [
      | none ↦ record { sent = sent ++ (frame ∷ []); err = none }
      | some e ↦ record { sent = sent; err = some e }
    ]

    -- The call of the handler, and the answer to its error.
    unfoldable pub run_handler : Frame → HandlerRegistration → List Frame → Emission
    unfolding emitted failure_code error_envelope
    run_handler request r sent =
        let (after, err) = r.handler request sent in
        elim err [
          | none ↦ record { sent = after; err = none }
          | some e ↦ emitted after (failure_frame request e)
        ]

    unfoldable pub after_ack : Frame → HandlerRegistration → Emission → Emission
    unfolding run_handler
    after_ack request r a = elim a.err [ some e ↦ a | none ↦ run_handler request r a.sent ]

    unfoldable pub dispatch : List (String × HandlerRegistration) → Frame → Emission
    unfolding after_ack run_handler emitted error_envelope ack_envelope lookup trim
    dispatch handlers request = elim (lookup (key_of request.action) handlers) [
      | none ↦ emitted [] (unsupported_frame request)
      | some r ↦
          if request.ack && r.send_ack
          then after_ack request r (emitted [] (ack_envelope request r.mode))
          else run_handler request r []
    ]
