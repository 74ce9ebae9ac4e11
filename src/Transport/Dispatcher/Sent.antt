-- ===== src/Transport/Dispatcher/Sent.antt =====
-- The frames that a dispatch sends pass the validation of frames.
use sourcevcode_orchestrator.Prelude.{
  String, List, [], ◌∷◌, Option, none, some, false, ◌&&◌, ◌≡◌, inl, inr, refl, Option-cases,
  if_cases, if◌then◌else◌, ◌==◌, trim, lookup, All, All-append,
}
use sourcevcode_orchestrator.Transport.Protocol.{Frame, ack_envelope}
use sourcevcode_orchestrator.Transport.Protocol.Valid.{
  Passes, is_heartbeat, named_request, ack_envelope-Passes, error_envelope-Passes,
}
use sourcevcode_orchestrator.Transport.Dispatcher.{
  HandlerRegistration, Emission, key_of, emitted, failure_code, failure_frame, unsupported_frame,
  run_handler, after_ack, dispatch,
}

-- The handler adds only frames that pass, when those sent before it pass.
abbrev pub SendsValid : (String → String) → Frame → HandlerRegistration → Type 0
SendsValid lower request r =
    (before : List Frame)
    → All (Passes lower) before
    → All (Passes lower) (r.handler request before).0

module _ (lower : String → String) (emit : Frame → Option String) (request : Frame) where
  emitted-Passes :
      (sent : List Frame) (f : Frame)
      → All (Passes lower) sent
      → Passes lower f
      → All (Passes lower) (emitted lower emit sent f).sent
  unfolding emitted
  emitted-Passes sent f h p = elim (Option-cases (emit f)) [
    | inl e ↦ rw (e, emitted) (All-append (Passes lower) sent (f ∷ []) h (p, tt))
    | inr (x, e) ↦ rw (e, emitted) h
  ]

  module _ (identified : (trim request.request_id == "") ≡ false) where
    run_handler-Passes :
        (r : HandlerRegistration) (sent : List Frame)
        → SendsValid lower request r
        → All (Passes lower) sent
        → All (Passes lower) (run_handler lower emit request r sent).sent
    unfolding run_handler
    run_handler-Passes r sent v h = elim (Option-cases (r.handler request sent).1) [
      | inl e ↦ rw (e, run_handler) (v sent h)
      | inr (x, e) ↦
          rw (e, run_handler)
            (emitted-Passes (r.handler request sent).0 (failure_frame request x) (v sent h)
              (error_envelope-Passes lower request (failure_code x) x.message _ identified))
    ]

    after_ack-Passes :
        (r : HandlerRegistration) (a : Emission)
        → SendsValid lower request r
        → All (Passes lower) a.sent
        → All (Passes lower) (after_ack lower emit request r a).sent
    unfolding after_ack
    after_ack-Passes r a v h = elim (Option-cases a.err) [
      | inl e ↦ rw (e, after_ack) (run_handler-Passes r a.sent v h)
      | inr (x, e) ↦ rw (e, after_ack) h
    ]

    dispatched :
        (found : Option HandlerRegistration)
        → ((r : HandlerRegistration) → found ≡ some r → SendsValid lower request r)
        → All
            (Passes lower)
            (elim found as (λ _. Emission) [
              | none ↦ emitted lower emit [] (unsupported_frame request)
              | some r ↦
                  if request.ack && r.send_ack
                  then after_ack lower emit request r
                      (emitted lower emit [] (ack_envelope request r.mode))
                  else run_handler lower emit request r []
            ]).sent
    dispatched none v =
        emitted-Passes [] (unsupported_frame request) tt
          (error_envelope-Passes lower request "UNSUPPORTED_ACTION" _ _ identified)
    dispatched (some r) v =
        if_cases (λ (a : Emission). All (Passes lower) a.sent) (request.ack && r.send_ack)
          (λ _.
            after_ack-Passes r (emitted lower emit [] (ack_envelope request r.mode)) (v r refl) (
              emitted-Passes [] (ack_envelope request r.mode) tt
                (ack_envelope-Passes lower request r.mode identified)))
          (λ _. run_handler-Passes r [] (v r refl) tt)

  -- For a request that passes the validation and is no heartbeat, every frame that a dispatch sends passes the
  -- validation too, whichever frames the connection refuses, provided that the handler registered for the
  -- action adds only frames that pass.
  pub dispatch-Passes :
      (handlers : List (String × HandlerRegistration))
      → Passes lower request
      → is_heartbeat request ≡ false
      → ((r : HandlerRegistration)
          → lookup (key_of lower request.action) handlers ≡ some r
          → SendsValid lower request r)
      → All (Passes lower) (dispatch lower emit handlers request).sent
  unfolding dispatch
  dispatch-Passes handlers p b v =
      dispatched (named_request lower request p b) (lookup (key_of lower request.action) handlers) v
