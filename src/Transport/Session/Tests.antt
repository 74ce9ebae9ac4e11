-- ===== src/Transport/Session/Tests.antt =====
-- A concrete session.
use sourcevcode_orchestrator.Prelude.{
  String, [], ◌∷◌, some, true, false, ◌≡◌, refl, lookup, trim, ◌==◌,
}
use sourcevcode_orchestrator.Prelude.Int.{pos}
use sourcevcode_orchestrator.Transport.Session.{
  Session, SubscriptionBinding, new_session, track_request, register_subscription, close,
  negotiate_subprotocol, requested_tokens, completed_binding,
}
use sourcevcode_orchestrator.Transport.Session.Negotiation.{
  Negotiated, negotiate_subprotocol-Negotiated,
}
use sourcevcode_orchestrator.Transport.Session.Closed.{Reach, Step, IsTidy, Reach-IsTidy}
use sourcevcode_orchestrator.Transport.Session.Subscribed.{register_subscription-replaces}

abbrev session : Session
session = new_session "sess_1" [] (pos 0) (pos 0)

abbrev with_request : Session
with_request = (track_request session "r1" (some "stop_r1")).0

its_requests : with_request.requests ≡ ("r1", "stop_r1") ∷ []
unfolding track_request new_session
its_requests = refl

its_calls : (close with_request).canceled ≡ "stop_r1" ∷ []
unfolding close track_request new_session
its_calls = refl

its_tokens : requested_tokens (" chat.v2, chat.json" ∷ []) ≡ "chat.v2" ∷ "chat.json" ∷ []
unfolding requested_tokens
its_tokens = refl

negotiate_subprotocol-Negotiated_example :
    Negotiated []
      ("chat.v2" ∷ "chat.json" ∷ [])
      (negotiate_subprotocol ("chat.v2" ∷ "chat.json" ∷ []) [])
negotiate_subprotocol-Negotiated_example =
    negotiate_subprotocol-Negotiated [] ("chat.v2" ∷ "chat.json" ∷ [])

Reach-IsTidy_example : IsTidy (close with_request)
Reach-IsTidy_example = Reach-IsTidy (
    Reach.then_step
      (Reach.then_step (Reach.opened "sess_1" [] (pos 0) (pos 0))
        (Step.tracks session "r1" (some "stop_r1")))
      (Step.closes with_request))

is_blank : (trim "" == "") ≡ true
unfolding trim
is_blank = refl

abbrev of_filter : String → String → SubscriptionBinding
of_filter key value = record {
  id = "";
  topic = "tasks";
  filter = (key, value) ∷ [];
  created_at = 0;
}

is_active : session.closed ≡ false
unfolding new_session
is_active = refl

is_named : (trim "tasks" == "") ≡ false
unfolding trim
is_named = refl

register_subscription-replaces_example :
    let a = of_filter "status" "done" in
    let b = of_filter "agent" "coder" in
    let first = register_subscription session 5 a in
    (lookup (completed_binding 5 a).id first.0.subscriptions ≡ some (completed_binding 5 a))
    × (lookup (completed_binding 5 a).id (register_subscription first.0 6 b).0.subscriptions
        ≡ some (completed_binding 6 b))
register_subscription-replaces_example =
    register_subscription-replaces session 5 6 (of_filter "status" "done")
      (of_filter "agent" "coder") is_active is_named is_blank is_blank refl refl
