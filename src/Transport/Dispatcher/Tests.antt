-- ===== src/Transport/Dispatcher/Tests.antt =====
-- A concrete dispatcher with one handler, which fails.
use sourcevcode_orchestrator.Prelude.{
  String, List, [], ◌∷◌, Option, some, none, true, false, ◌≡◌, refl, lookup, map, All, some_inj,
  subst, lower_is, trim,
}
use sourcevcode_orchestrator.Transport.Protocol.{Frame, validate_envelope}
use sourcevcode_orchestrator.Transport.Protocol.Valid.{Passes, is_heartbeat}
use sourcevcode_orchestrator.Transport.Protocol.Tests.{frame}
use sourcevcode_orchestrator.Transport.Dispatcher.{
  HandlerError, HandlerRegistration, register, dispatch, key_of,
}
use sourcevcode_orchestrator.Transport.Dispatcher.Sent.{SendsValid, dispatch-Passes}
use sourcevcode_orchestrator.Transport.Dispatcher.Answers.{Answered, dispatch-Answered}

abbrev same : String → String
same s = s

abbrev refused : HandlerError
refused = record {
  deadline_exceeded = true;
  canceled = false;
  protocol = none;
  message = "too late";
}

abbrev fails : Frame → List Frame → List Frame × Option HandlerError
fails request sent = (sent, some refused)

abbrev handlers : List (String × HandlerRegistration)
handlers = register same " task.create " "single" true fails []

abbrev takes_all : Frame → Option String
takes_all f = none

is_taken : (f : Frame) → takes_all f ≡ none
is_taken f = refl

its_kinds :
    map (λ (f : Frame). f.type) (dispatch same takes_all handlers frame).sent ≡ "ack" ∷ "error" ∷ []
unfolding dispatch register
its_kinds = refl

dispatch-Answered_example :
    Answered
      (lookup (key_of same frame.action) handlers)
      frame
      (dispatch same takes_all handlers frame)
dispatch-Answered_example = dispatch-Answered same takes_all is_taken handlers frame

is_valid : validate_envelope same frame ≡ none
unfolding validate_envelope lower_is
is_valid = refl

is_no_heartbeat : is_heartbeat frame ≡ false
unfolding lower_is trim
is_no_heartbeat = refl

adds_valid :
    (r : HandlerRegistration)
    → lookup (key_of same frame.action) handlers ≡ some r
    → SendsValid same frame r
unfolding register lookup
adds_valid r e before h = subst (λ q. All (Passes same) (q.handler frame before).0) (some_inj e) h

dispatch-Passes_example : All (Passes same) (dispatch same takes_all handlers frame).sent
dispatch-Passes_example =
    dispatch-Passes same takes_all frame handlers is_valid is_no_heartbeat adds_valid
