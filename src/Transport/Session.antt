-- ===== src/Transport/Session.antt =====
-- go-core/internal/transport/session.go: a session with its requests and subscriptions. A cancel function
-- stands by a name, and `canceled` lists those that were called; `notified` counts the calls of the hook
-- onDisconnect. The values of a header are arguments, as its HTTP map is read by net/http.
pub mod Negotiation
pub mod Closed
pub mod Subscribed
mod Tests
use Prim.Native.String as Str
use sourcevcode_orchestrator.Prelude.{
  ℕ, suc, ◌+◌, String, List, [], ◌∷◌, ◌++◌, map, Option, none, some, Bool, true, false, not, ◌&&◌,
  ◌||◌, ◌≡◌, if◌then◌else◌, ◌==◌, any, keep, length, trim, lower_is, split_commas, decimal, lookup,
  insert, ltb,
}
use sourcevcode_orchestrator.Prelude.Int.{ℤ, pos, ltb_ℤ, pos_part}
use sourcevcode_orchestrator.Domain.Json.{Value, Fields, entry, text, scalar, end, field}
use sourcevcode_orchestrator.Transport.Protocol.{Frame, answer, boolean}

-- NewAuthError, NewProtocolError and errors.New("session already closed").
pub data SessionError : Type 0 where
  auth protocol : String → SessionError
  already_closed : SessionError

pub data Result {ℓ} (A : Type ℓ) : Type ℓ where
  ok : A → Result A
  err : SessionError → Result A

pub record SubscriptionBinding : Type 0 where
  pub id : String
  pub topic : String
  pub filter : List (String × String)
  pub created_at : ℕ

pub record Session : Type 0 where
  pub session_id : String
  pub supported : List String
  pub send_timeout : ℕ
  pub heartbeat_interval : ℕ
  pub principal : String
  pub subprotocol : String
  pub accepted_at : ℕ
  pub accepted : Bool
  pub closed : Bool
  pub requests : List (String × String)
  pub subscriptions : List (String × SubscriptionBinding)
  pub canceled : List String
  pub notified : ℕ

abbrev pub default_ws_subprotocols : List String
default_ws_subprotocols = "chat.v1" ∷ "chat.json" ∷ []

abbrev pub or_default : List String → List String
or_default supported = elim supported [ [] ↦ default_ws_subprotocols | s ∷ rest ↦ s ∷ rest ]

abbrev pub or_duration : ℕ → ℤ → ℕ
or_duration fallback d = if ltb_ℤ (pos 0) d then pos_part d else fallback

unfoldable pub new_session : String → List String → ℤ → ℤ → Session
new_session id supported send_timeout heartbeat_interval = record {
  session_id = id;
  supported = or_default supported;
  send_timeout = or_duration 5_000_000_000 send_timeout;
  heartbeat_interval = or_duration 30_000_000_000 heartbeat_interval;
  principal = "";
  subprotocol = "";
  accepted_at = 0;
  accepted = false;
  closed = false;
  requests = [];
  subscriptions = [];
  canceled = [];
  notified = 0;
}

-- DefaultAuthHandler, on the values of X-Principal and X-User; it never fails.
unfoldable pub default_auth_handler : String → String → String
default_auth_handler x_principal x_user =
    if not (trim x_principal == "")
    then trim x_principal
    else if not (trim x_user == "")
    then trim x_user
    else "anonymous"

-- The texts, trimmed, without the empty ones.
unfoldable pub trimmed_tokens : List String → List String
trimmed_tokens [] = []
trimmed_tokens (t ∷ tokens) =
    let rest = trimmed_tokens tokens in if trim t == "" then rest else trim t ∷ rest

-- What the values of Sec-WebSocket-Protocol ask for.
unfoldable pub requested_tokens : List String → List String
unfolding trimmed_tokens split_commas trim
requested_tokens [] = []
requested_tokens (item ∷ items) =
    let (first, parts) = split_commas item in
    trimmed_tokens (first ∷ parts) ++ requested_tokens items

abbrev pub offers : List String → String → Bool
offers supported item = any (λ s. s == item) supported

unfoldable pub first_offered : List String → List String → Option String
first_offered supported [] = none
first_offered supported (item ∷ requested) =
    let later = first_offered supported requested in
    if offers supported item then some item else later

-- The first of a list that is not empty.
abbrev pub head_of : List String → String
head_of [] = ""
head_of (s ∷ rest) = s

unfoldable pub negotiate_subprotocol : List String → List String → Result String
unfolding first_offered
negotiate_subprotocol requested supported = elim requested [
  | [] ↦ ok (head_of (or_default supported))
  | item ∷ rest ↦ elim (first_offered (or_default supported) (item ∷ rest)) [
    | some s ↦ ok s
    | none ↦ err (protocol "no compatible websocket subprotocol")
  ]
]

unfoldable pub negotiate_subprotocol_from_headers : List String → List String → Result String
unfolding negotiate_subprotocol requested_tokens
negotiate_subprotocol_from_headers values supported =
    negotiate_subprotocol (requested_tokens values) supported

abbrev already : Session → Result (Unit {0}) → Session × Result (Unit {0})
already s r = (s, r)

-- Accept, with the answer of the auth handler; the handshake result repeats the session's fields.
unfoldable pub accept : Session → ℕ → Result String → List String → Session × Result (Unit {0})
unfolding negotiate_subprotocol_from_headers
accept s now auth_answer values = elim auth_answer [
  | err e ↦ already s (err e)
  | ok principal ↦ elim (negotiate_subprotocol_from_headers values s.supported) [
    | err e ↦ already s (err e)
    | ok subprotocol ↦ if s.closed then (s, err already_closed) else (
      record s {
        principal = principal;
        subprotocol = subprotocol;
        accepted_at = now;
        accepted = true;
      },
      ok tt,
    )
  ]
]

unfoldable pub track_request : Session → String → Option String → Session × Result (Unit {0})
unfolding insert trim
track_request s id cancel =
    if trim id == "" then (s, err (protocol "request_id is required")) else elim cancel [
      | none ↦ already s (err (protocol "request cancel func is required"))
      | some c ↦
          if s.closed
          then (s, err already_closed)
          else (record s { requests = insert id c s.requests }, ok tt)
    ]

-- delete(m, key)
unfoldable pub without {ℓ} : {A : Type ℓ} → String → List (String × A) → List (String × A)
without key entries = keep (λ (e : String × _). not (e.0 == key)) entries

unfoldable pub cancel_request : Session → String → Session × Bool
unfolding lookup without
cancel_request s id = elim (lookup id s.requests) [
  | none ↦ (s, false)
  | some c ↦
      (record s { requests = without id s.requests; canceled = s.canceled ++ (c ∷ []) }, true)
]

unfoldable pub finish_request : Session → String → Session
unfolding without
finish_request s id = record s { requests = without id s.requests }

abbrev pub cancels : Session → List String
cancels s = map (λ (r : String × String). r.1) s.requests

unfoldable pub cancel_all_requests : Session → Session × ℕ
cancel_all_requests s =
    (record s { requests = []; canceled = s.canceled ++ cancels s }, length s.requests)

unfoldable pub subscription_id_from_data : String → List (String × String) → String
unfolding decimal
subscription_id_from_data topic filter = elim filter [
  | [] ↦ topic
  | e ∷ rest ↦ Str.◌++◌ topic (Str.◌++◌ ":" (decimal (length (e ∷ rest))))
]

-- The binding that is stored.
abbrev pub completed_binding : ℕ → SubscriptionBinding → SubscriptionBinding
completed_binding now b = record b {
  id = if trim b.id == "" then subscription_id_from_data b.topic b.filter else b.id;
  created_at = if ltb 0 b.created_at then b.created_at else now;
}

unfoldable pub register_subscription :
    Session → ℕ → SubscriptionBinding → Session × Result SubscriptionBinding
unfolding insert trim subscription_id_from_data
register_subscription s now b =
    if trim b.topic == ""
    then (s, err (protocol "subscription topic is required"))
    else if s.closed
    then (s, err already_closed)
    else (let stored = completed_binding now b in
        (record s { subscriptions = insert stored.id stored s.subscriptions }, ok stored))

unfoldable pub remove_subscription : Session → String → Session × Bool
unfolding lookup without
remove_subscription s id = elim (lookup id s.subscriptions) [
  | none ↦ (s, false)
  | some b ↦ (record s { subscriptions = without id s.subscriptions }, true)
]

unfoldable pub clear_subscriptions : Session → Session × ℕ
clear_subscriptions s = (record s { subscriptions = [] }, length s.subscriptions)

-- The source calls the cancel functions and the hook after it has released the lock; here they are part of the
-- one step. Without a hook onDisconnect the count means nothing.
unfoldable pub close : Session → Session
close s = if s.closed then s else record s {
  closed = true;
  requests = [];
  subscriptions = [];
  canceled = s.canceled ++ cancels s;
  notified = suc s.notified;
}

-- firstNonEmpty: the first text with something left of it, trimmed.
unfoldable pub first_non_empty : List String → String
unfolding trim
first_non_empty [] = ""
first_non_empty (v ∷ values) =
    let rest = first_non_empty values in if trim v == "" then rest else trim v

-- `sprint` is fmt.Sprint, of a value that is no text; `stamp` the formatted time.
module _ (sprint : Value → String) (stamp : String) where
  unfoldable pub as_string : Option Value → String
  unfolding trim
  as_string none = ""
  as_string (some (text s)) = trim s
  as_string (some (scalar s)) = if s == "<nil>" then "" else trim (sprint (scalar s))
  as_string (some v) = trim (sprint v)

  abbrev pub target_of : Frame → String
  target_of e = first_non_empty (
      as_string (entry "request_id" e.fields)
      ∷ as_string (entry "target_request_id" e.fields)
      ∷ e.request_id
      ∷ [])

  abbrev pub subscription_of : Frame → String
  subscription_of e =
      first_non_empty
        (as_string (entry "subscription_id" e.fields) ∷ as_string (entry "id" e.fields) ∷ [])

  abbrev pub with_action : Frame → String → Frame → Frame
  with_action e action f = record f { action = action }

  unfoldable pub heartbeat_envelope : Session → Frame → Frame
  heartbeat_envelope s e =
      record (answer e "heartbeat"
        (field "session_id" (text s.session_id) (field "ts" (text stamp) end)) false) {
          request_id = "";
          correlation_id = "";
          action = "";
        }

  unfoldable pub cancel_frame : Session → Frame → Session × Frame
  unfolding cancel_request first_non_empty as_string entry
  cancel_frame s e =
      let id = target_of e in
      let (s', canceled) = cancel_request s id in
      (
        s',
        with_action e "cancel" (
            answer e "control.ack"
              (field "request_id" (text id) (field "canceled" (scalar (boolean canceled)) end))
              true),
      )

  unfoldable pub unsubscribe_frame : Session → Frame → Session × Frame
  unfolding remove_subscription cancel_request first_non_empty as_string entry
  unsubscribe_frame s e =
      let id = subscription_of e in
      let (s', removed) = remove_subscription s id in
      (
        if removed then (cancel_request s' id).0 else s',
        with_action e "unsubscribe" (
            answer e "control.ack"
              (field "subscription_id" (text id) (field "removed" (scalar (boolean removed)) end))
              true),
      )

  -- `none` is a frame that is not a control frame.
  unfoldable pub handle_control_frame : Session → Frame → Session × Option Frame
  unfolding cancel_frame unsubscribe_frame heartbeat_envelope first_non_empty lower_is
  handle_control_frame s e =
      let kind = first_non_empty (e.action ∷ e.type ∷ []) in
      if lower_is kind "ping"
      then (
        s,
        some (
            with_action e "pong"
              (answer e "pong" (field "session_id" (text s.session_id) end) false)),
      )
      else if lower_is kind "heartbeat"
      then (s, some (heartbeat_envelope s e))
      else if lower_is kind "cancel"
      then ((cancel_frame s e).0, some (cancel_frame s e).1)
      else if lower_is kind "unsubscribe"
      then ((unsubscribe_frame s e).0, some (unsubscribe_frame s e).1)
      else (s, none)
