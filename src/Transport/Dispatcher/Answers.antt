-- ===== src/Transport/Dispatcher/Answers.antt =====
-- Every request is answered, by its handler or by an error frame.
use sourcevcode_orchestrator.Prelude.{
  String, List, [], ◌∷◌, ◌++◌, Option, none, some, Bool, true, false, ◌&&◌, ◌||◌, ◌≡◌, inl, inr,
  refl, if_cases, Bool-cases, Option-cases, ◌==◌, if◌then◌else◌, lookup, lookup-insert,
}
use sourcevcode_orchestrator.Domain.Json.{Fields}
use sourcevcode_orchestrator.Transport.Protocol.{
  Frame, ProtocolError, frame_error, error_envelope, ack_envelope, new_protocol_frame_error,
}
use sourcevcode_orchestrator.Transport.Protocol.Valid.{is_listed, new_protocol_frame_error-known}
use sourcevcode_orchestrator.Transport.Dispatcher.{
  HandlerError, HandlerRegistration, Emission, key_of, register, supports, emitted, failure_code,
  failure_frame, unsupported_frame, run_handler, after_ack, dispatch,
}

-- A final frame with the ids and the action of the request, whose error stands in the taxonomy.
pub record IsErrorAnswer (request f : Frame) : Type 0 where
  pub kind : f.type ≡ "error"
  pub last : f.final ≡ true
  pub same_request : f.request_id ≡ request.request_id
  pub same_correlation : f.correlation_id ≡ request.correlation_id
  pub same_action : f.action ≡ request.action
  pub reason : ProtocolError
  pub carried : f.error ≡ frame_error reason
  pub known : is_listed reason.code reason.category reason.retryable ≡ true

error_envelope-IsErrorAnswer :
    (request : Frame) (code message : String) (details : Fields)
    → IsErrorAnswer request (error_envelope request code message details)
unfolding error_envelope
error_envelope-IsErrorAnswer request code message details = record {
  kind = refl;
  last = refl;
  same_request = refl;
  same_correlation = refl;
  same_action = refl;
  reason = new_protocol_frame_error code message details;
  carried = refl;
  known = (new_protocol_frame_error-known code message details).0;
}

unsupported_frame-IsErrorAnswer :
    (request : Frame) → IsErrorAnswer request (unsupported_frame request)
unsupported_frame-IsErrorAnswer request =
    error_envelope-IsErrorAnswer request "UNSUPPORTED_ACTION" _ _

failure_frame-IsErrorAnswer :
    (request : Frame) (e : HandlerError) → IsErrorAnswer request (failure_frame request e)
failure_frame-IsErrorAnswer request e =
    error_envelope-IsErrorAnswer request (failure_code e) e.message _

-- A handler ran for the request without an error, or an error frame was sent last.
pub data Answered (found : Option HandlerRegistration) (request : Frame) (a : Emission)
    : Type 0 where
  by_handler :
      (r : HandlerRegistration) (before : List Frame)
      → found ≡ some r
      → (r.handler request before).1 ≡ none
      → a ≡ record { sent = (r.handler request before).0; err = none }
      → Answered found request a
  by_error :
      (before : List Frame) (f : Frame)
      → a ≡ record { sent = before ++ (f ∷ []); err = none }
      → IsErrorAnswer request f
      → Answered found request a

module _ (lower : String → String) where
  -- An action with a name is supported once it is registered, in any case and with any space around it, and
  -- the others as before.
  pub supports-register :
      (wanted action mode : String) (send_ack : Bool)
      (handler : Frame → List Frame → List Frame × Option HandlerError)
      (handlers : List (String × HandlerRegistration))
      → (key_of lower action == "") ≡ false
      → supports lower wanted (register lower action mode send_ack handler handlers)
        ≡ (key_of lower action == key_of lower wanted || supports lower wanted handlers)
  unfolding supports register
  supports-register wanted action mode send_ack handler handlers named =
      rw
        (
          named,
          lookup-insert (key_of lower action) (key_of lower wanted)
              (record {
                handler = handler;
                mode = if mode == "stream" then mode else "single";
                send_ack = send_ack;
              })
              handlers,
        )
        (elim (Bool-cases (key_of lower action == key_of lower wanted)) [
          | inl t ↦ rw t refl
          | inr f ↦ rw f refl
        ])

  module _ (emit : Frame → Option String) (accepts : (f : Frame) → emit f ≡ none) where
    emitted-all :
        (sent : List Frame) (f : Frame)
        → emitted lower emit sent f ≡ record { sent = sent ++ (f ∷ []); err = none }
    unfolding emitted
    emitted-all sent f = rw (accepts f, emitted) refl

    run_handler-Answered :
        (found : Option HandlerRegistration) (request : Frame) (r : HandlerRegistration)
        (sent : List Frame)
        → found ≡ some r
        → Answered found request (run_handler lower emit request r sent)
    unfolding run_handler
    run_handler-Answered found request r sent e = elim (Option-cases (r.handler request sent).1) [
      | inl h ↦ by_handler r sent e h (rw (h, run_handler) refl)
      | inr (x, h) ↦
          by_error (r.handler request sent).0 (failure_frame request x)
            (rw (h, run_handler) (emitted-all (r.handler request sent).0 (failure_frame request x)))
            (failure_frame-IsErrorAnswer request x)
    ]

    -- When the connection takes every frame, a request is answered: its handler is registered and returned
    -- without an error, or the last frame is a final error frame with the ids of the request, whose code
    -- stands in the taxonomy; and the call itself succeeds.
    pub dispatch-Answered :
        (handlers : List (String × HandlerRegistration)) (request : Frame)
        → Answered
            (lookup (key_of lower request.action) handlers)
            request
            (dispatch lower emit handlers request)
    unfolding dispatch after_ack
    dispatch-Answered handlers request = by_lookup (lookup (key_of lower request.action) handlers)
      where
        by_lookup :
            (found : Option HandlerRegistration)
            → Answered found request (elim found [
              | none ↦ emitted lower emit [] (unsupported_frame request)
              | some r ↦
                  if request.ack && r.send_ack
                  then after_ack lower emit request r
                      (emitted lower emit [] (ack_envelope request r.mode))
                  else run_handler lower emit request r []
            ])
        by_lookup none =
            by_error [] (unsupported_frame request) (emitted-all [] (unsupported_frame request))
              (unsupported_frame-IsErrorAnswer request)
        by_lookup (some r) =
            if_cases (Answered (some r) request) (request.ack && r.send_ack)
              (λ _.
                rw (emitted-all [] (ack_envelope request r.mode))
                  (run_handler-Answered (some r) request r (ack_envelope request r.mode ∷ []) refl))
              (λ _. run_handler-Answered (some r) request r [] refl)
