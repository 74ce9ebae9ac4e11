-- ===== src/Transport/Session/Closed.antt =====
-- Everything that happens to a session, and what holds of a closed one.
use sourcevcode_orchestrator.Prelude.{
  ℕ, String, List, [], ◌∷◌, Option, none, some, Bool, true, false, ◌≡◌, refl, sym, true≢false, ◌∙◌,
  arith, if_cases, inl, inr, Option-cases, lookup, trim, ◌==◌, if◌then◌else◌, lower_is,
}
use sourcevcode_orchestrator.Prelude.Int.{ℤ}
use sourcevcode_orchestrator.Domain.Json.{Value}
use sourcevcode_orchestrator.Transport.Protocol.{Frame}
use sourcevcode_orchestrator.Transport.Session.{
  Session, SubscriptionBinding, Result, ok, err, new_session, accept, track_request, cancel_request,
  finish_request, cancel_all_requests, register_subscription, remove_subscription,
  clear_subscriptions, close, handle_control_frame, cancel_frame, unsubscribe_frame,
  negotiate_subprotocol_from_headers, without, already, already_closed, first_non_empty,
  subscription_of,
}

pub data Step : Session → Session → Type 0 where
  accepts :
      (s : Session) (now : ℕ) (principal : Result String) (values : List String)
      → Step s (accept s now principal values).0
  tracks :
      (s : Session) (id : String) (cancel : Option String) → Step s (track_request s id cancel).0
  cancels_one : (s : Session) (id : String) → Step s (cancel_request s id).0
  finishes : (s : Session) (id : String) → Step s (finish_request s id)
  cancels_all : (s : Session) → Step s (cancel_all_requests s).0
  registers :
      (s : Session) (now : ℕ) (b : SubscriptionBinding) → Step s (register_subscription s now b).0
  removes : (s : Session) (id : String) → Step s (remove_subscription s id).0
  clears : (s : Session) → Step s (clear_subscriptions s).0
  controls :
      (s : Session) (sprint : Value → String) (stamp : String) (e : Frame)
      → Step s (handle_control_frame sprint stamp s e).0
  closes : (s : Session) → Step s (close s)

pub data Reach : Session → Type 0 where
  opened :
      (id : String) (supported : List String) (send_timeout heartbeat_interval : ℤ)
      → Reach (new_session id supported send_timeout heartbeat_interval)
  then_step : {s t : Session} → Reach s → Step s t → Reach t

abbrev pub one_if : Bool → ℕ
one_if true = 1
one_if false = 0

pub record IsTidy (s : Session) : Type 0 where
  pub no_requests : s.closed ≡ true → s.requests ≡ []
  pub no_subscriptions : s.closed ≡ true → s.subscriptions ≡ []
  pub told_once : s.notified ≡ one_if s.closed

without-nil {ℓ} : {A : Type ℓ} (id : String) (l : List (String × A)) → l ≡ [] → without id l ≡ []
unfolding without
without-nil id l e = rw e refl

-- A session that differs in its requests and subscriptions only, and has none if the other had none.
kept :
    (s t : Session)
    → IsTidy s
    → t.closed ≡ s.closed
    → t.notified ≡ s.notified
    → (s.requests ≡ [] → t.requests ≡ [])
    → (s.subscriptions ≡ [] → t.subscriptions ≡ [])
    → IsTidy t
kept s t h c n r b = record {
  no_requests = λ e. r (h.no_requests (sym c ∙ e));
  no_subscriptions = λ e. b (h.no_subscriptions (sym c ∙ e));
  told_once = n ∙ h.told_once ∙ rw c refl;
}

-- What an open session becomes when it stays open.
still_open :
    (s t : Session)
    → IsTidy s
    → s.closed ≡ false
    → t.closed ≡ s.closed
    → t.notified ≡ s.notified
    → IsTidy t
still_open s t h f c n = record {
  no_requests = λ e. absurd (true≢false (sym e ∙ c ∙ f));
  no_subscriptions = λ e. absurd (true≢false (sym e ∙ c ∙ f));
  told_once = n ∙ h.told_once ∙ rw c refl;
}

accept-IsTidy :
    (s : Session) (now : ℕ) (principal : Result String) (values : List String)
    → IsTidy s
    → IsTidy (accept s now principal values).0
unfolding accept
accept-IsTidy s now (err e) values h = h
accept-IsTidy s now (ok p) values h =
    by_choice (negotiate_subprotocol_from_headers values s.supported)
  where
    whole : Session × Result (Unit {0}) → Session
    whole r = r.0

    by_choice :
        (r : Result String)
        → IsTidy (
            whole (elim r [
              | err e ↦ already s (err e)
              | ok subprotocol ↦ if s.closed then (s, err already_closed) else (
                record s {
                  principal = p;
                  subprotocol = subprotocol;
                  accepted_at = now;
                  accepted = true;
                },
                ok tt,
              )
            ]))
    by_choice (err e) = h
    by_choice (ok t) =
        if_cases (λ (r : Session × Result (Unit {0})). IsTidy r.0) s.closed (λ _. h)
          (λ f. still_open s _ h f refl refl)

track_request-IsTidy :
    (s : Session) (id : String) (cancel : Option String)
    → IsTidy s
    → IsTidy (track_request s id cancel).0
unfolding track_request
track_request-IsTidy s id none h =
    if_cases (λ (r : Session × Result (Unit {0})). IsTidy r.0) (trim id == "") (λ _. h) (λ _. h)
track_request-IsTidy s id (some c) h =
    let P : Session × Result (Unit {0}) → Type 0 = λ r. IsTidy r.0 in
    if_cases P (trim id == "") (λ _. h)
      (λ _. if_cases P s.closed (λ _. h) (λ f. still_open s _ h f refl refl))

register_subscription-IsTidy :
    (s : Session) (now : ℕ) (b : SubscriptionBinding)
    → IsTidy s
    → IsTidy (register_subscription s now b).0
unfolding register_subscription
register_subscription-IsTidy s now b h =
    let P : Session × Result SubscriptionBinding → Type 0 = λ r. IsTidy r.0 in
    if_cases P (trim b.topic == "") (λ _. h)
      (λ _. if_cases P s.closed (λ _. h) (λ f. still_open s _ h f refl refl))

cancel_request-IsTidy : (s : Session) (id : String) → IsTidy s → IsTidy (cancel_request s id).0
unfolding cancel_request
cancel_request-IsTidy s id h = elim (Option-cases (lookup id s.requests)) [
  | inl e ↦ rw (e, cancel_request) h
  | inr (c, e) ↦ rw (e, cancel_request) (kept s _ h refl refl (without-nil id s.requests) (λ e. e))
]

remove_subscription-IsTidy :
    (s : Session) (id : String) → IsTidy s → IsTidy (remove_subscription s id).0
unfolding remove_subscription
remove_subscription-IsTidy s id h = elim (Option-cases (lookup id s.subscriptions)) [
  | inl e ↦ rw (e, remove_subscription) h
  | inr (c, e) ↦
      rw (e, remove_subscription) (kept s _ h refl refl (λ e. e) (without-nil id s.subscriptions))
]

close-IsTidy : (s : Session) → IsTidy s → IsTidy (close s)
unfolding close
close-IsTidy s h =
    if_cases IsTidy s.closed (λ _. h)
      (λ f. record {
        no_requests = λ _. refl;
        no_subscriptions = λ _. refl;
        told_once = ground (arith, f, h.told_once);
      })

handle_control_frame-IsTidy :
    (sprint : Value → String) (stamp : String) (s : Session) (e : Frame)
    → IsTidy s
    → IsTidy (handle_control_frame sprint stamp s e).0
unfolding handle_control_frame cancel_frame unsubscribe_frame
handle_control_frame-IsTidy sprint stamp s e h =
    let P : Session × Option Frame → Type 0 = λ r. IsTidy r.0 in
    let kind = first_non_empty (e.action ∷ e.type ∷ []) in
    let removed = remove_subscription s (subscription_of sprint stamp e) in
    if_cases P (lower_is kind "ping") (λ _. h)
      (λ _.
        if_cases P (lower_is kind "heartbeat") (λ _. h)
          (λ _.
            if_cases P (lower_is kind "cancel") (λ _. cancel_request-IsTidy s _ h)
              (λ _.
                if_cases P (lower_is kind "unsubscribe")
                  (λ _.
                    if_cases IsTidy removed.1
                      (λ _. cancel_request-IsTidy removed.0 _ (remove_subscription-IsTidy s _ h))
                      (λ _. remove_subscription-IsTidy s _ h))
                  (λ _. h))))

Step-IsTidy : {s t : Session} → Step s t → IsTidy s → IsTidy t
unfolding finish_request cancel_all_requests clear_subscriptions
Step-IsTidy (accepts s now p values) h = accept-IsTidy s now p values h
Step-IsTidy (tracks s id c) h = track_request-IsTidy s id c h
Step-IsTidy (cancels_one s id) h = cancel_request-IsTidy s id h
Step-IsTidy (finishes s id) h = kept s _ h refl refl (without-nil id s.requests) (λ e. e)
Step-IsTidy (cancels_all s) h = kept s _ h refl refl (λ _. refl) (λ e. e)
Step-IsTidy (registers s now b) h = register_subscription-IsTidy s now b h
Step-IsTidy (removes s id) h = remove_subscription-IsTidy s id h
Step-IsTidy (clears s) h = kept s _ h refl refl (λ e. e) (λ _. refl)
Step-IsTidy (controls s sprint stamp e) h = handle_control_frame-IsTidy sprint stamp s e h
Step-IsTidy (closes s) h = close-IsTidy s h

-- Whatever happened to a session, once it is closed it has no request and no subscription, and the hook for
-- its end was called once if it is closed and never before.
pub Reach-IsTidy : {s : Session} → Reach s → IsTidy s
unfolding new_session
Reach-IsTidy (opened id supported t i) = record {
  no_requests = λ _. refl;
  no_subscriptions = λ _. refl;
  told_once = refl;
}
Reach-IsTidy (then_step r s) = Step-IsTidy s (Reach-IsTidy r)
