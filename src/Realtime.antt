-- ===== src/Realtime.antt =====
-- go-core/internal/realtime/hub.go: the hub of event streams. What Publish hands to the subscribers after it
-- has released the hub's lock stands in `pending`, and its deliveries are steps of their own. Payloads
-- are values, so cloning them is the identity. The map of subscribers is the list of all that were made,
-- those that are closed included. The clock's reading is an argument.
pub mod History
pub mod Buffers
mod Tests
use Prim.Native.String as Str
use Prim.Native.String.{compare as str_compare}
use text.Mathlib.Text.{is_lt}
use sourcevcode_orchestrator.Prelude.{
  ℕ, zero, suc, ◌+◌, ◌-◌, String, List, [], ◌∷◌, ◌++◌, map, Option, none, some, Bool, true, false,
  not, ◌&&◌, ◌||◌, ◌≡◌, if◌then◌else◌, ◌==◌, ltb, leb, length, drop, keep, lookup, insert, sort_by,
  decimal,
}
use sourcevcode_orchestrator.Prelude.Int.{ℤ, pos, ltb_ℤ, pos_part}
use sourcevcode_orchestrator.Domain.Json.{Fields}

pub record StreamEvent : Type 0 where
  pub id : String
  pub stream : String
  pub topic : String
  pub kind : String
  pub entity_id : String
  pub timestamp : ℕ
  pub payload : Fields

-- `buffer` is what the channel holds; a channel has room for 32 events.
pub record Subscriber : Type 0 where
  pub number : ℕ
  pub topic : String
  pub buffer : List StreamEvent
  pub closed : Bool

pub record Hub : Type 0 where
  pub name : String
  pub history_size : ℕ
  pub next_id : ℕ
  pub subscribers : List Subscriber
  pub history : List (String × List StreamEvent)
  pub dropped : ℕ
  pub pending : List (ℕ × StreamEvent)

unfoldable pub new_hub : String → ℤ → Hub
new_hub name history_size = record {
  name = name;
  history_size = if ltb_ℤ (pos 0) history_size then pos_part history_size else 64;
  next_id = 0;
  subscribers = [];
  history = [];
  dropped = 0;
  pending = [];
}

abbrev pub or_all : String → String
or_all topic = if topic == "" then "all" else topic

abbrev pub events_of : Option (List StreamEvent) → List StreamEvent
events_of none = []
events_of (some events) = events

abbrev pub history_of : Hub → String → List StreamEvent
history_of h topic = events_of (lookup topic h.history)

unfoldable pub append_bounded : List StreamEvent → StreamEvent → ℕ → List StreamEvent
append_bounded events event limit =
    let l = events ++ (event ∷ []) in if leb (length l) limit then l else drop (length l - limit) l

abbrev pub wants : StreamEvent → Subscriber → Bool
wants e s = s.topic == "all" || s.topic == e.topic

abbrev pub event_of : Hub → ℕ → String → String → String → Fields → StreamEvent
event_of h now topic kind entity payload = record {
  id = Str.◌++◌ h.name (Str.◌++◌ "-" (decimal (suc h.next_id)));
  stream = h.name;
  topic = or_all topic;
  kind = kind;
  entity_id = entity;
  timestamp = now;
  payload = payload;
}

-- The locked part of Publish. A closed subscriber is no longer in the map.
unfoldable pub publish : Hub → ℕ → String → String → String → Fields → Hub × StreamEvent
unfolding append_bounded
publish h now topic kind entity payload =
    let event = event_of h now topic kind entity payload in
    let found = keep (wants event) (keep (λ (s : Subscriber). not s.closed) h.subscribers) in
    (
      record h {
        next_id = suc h.next_id;
        history =
            insert event.topic (append_bounded (history_of h event.topic) event h.history_size)
              h.history;
        pending = h.pending ++ map (λ (s : Subscriber). (s.number, event)) found;
      },
      event,
    )

-- subscriber.publish: whether the channel took the event.
abbrev pub has_room : Subscriber → Bool
has_room s = not s.closed && ltb (length s.buffer) 32

abbrev pub same_number : ℕ → Subscriber → Bool
same_number n s = leb n s.number && leb s.number n

-- The subscribers after a delivery to a number, and whether one took it.
unfoldable pub deliver_to : ℕ → StreamEvent → List Subscriber → List Subscriber × Bool
deliver_to n e [] = ([], false)
deliver_to n e (s ∷ subs) =
    let (rest, taken) = deliver_to n e subs in
    if same_number n s
    then (if has_room s
        then (record s { buffer = s.buffer ++ (e ∷ []) } ∷ subs, true)
        else (s ∷ subs, false))
    else (s ∷ rest, taken)

-- One round of the loop of Publish over its subscribers.
unfoldable pub deliver : ℕ → StreamEvent → Hub → Hub
unfolding deliver_to
deliver n e h =
    let (subs, taken) = deliver_to n e h.subscribers in
    record h { subscribers = subs; dropped = if taken then h.dropped else suc h.dropped }

unfoldable pub subscribe : Hub → String → Hub × ℕ
subscribe h topic =
    let n = suc h.next_id in
    (
      record h {
        next_id = n;
        subscribers =
            h.subscribers
            ++ (record { number = n; topic = or_all topic; buffer = []; closed = false } ∷ []);
      },
      n,
    )

unfoldable pub close_number : ℕ → List Subscriber → List Subscriber
close_number n [] = []
close_number n (s ∷ subs) =
    let rest = close_number n subs in
    if same_number n s then record s { closed = true } ∷ subs else s ∷ rest

-- Subscription.Close
unfoldable pub close : ℕ → Hub → Hub
unfolding close_number
close n h = record h { subscribers = close_number n h.subscribers }

-- A receive from the channel of a subscription takes the first event.
unfoldable pub receive_from : ℕ → List Subscriber → List Subscriber
receive_from n [] = []
receive_from n (s ∷ subs) =
    let rest = receive_from n subs in
    if same_number n s then record s { buffer = drop 1 s.buffer } ∷ subs else s ∷ rest

unfoldable pub receive : ℕ → Hub → Hub
unfolding receive_from
receive n h = record h { subscribers = receive_from n h.subscribers }

abbrev earlier : StreamEvent → StreamEvent → Bool
earlier a b = ltb a.timestamp b.timestamp

unfoldable pub all_events : List (String × List StreamEvent) → List StreamEvent
all_events [] = []
all_events ((topic, events) ∷ history) = events ++ all_events history

unfoldable pub snapshot : Hub → String → List StreamEvent
unfolding all_events sort_by
snapshot h topic =
    if topic == "" || topic == "all"
    then sort_by earlier (all_events h.history)
    else history_of h topic

pub record HubStats : Type 0 where
  pub stream : String
  pub subscriber_count : ℕ
  pub history_size : ℕ
  pub topics : List String
  pub history_counts : List (String × ℕ)
  pub dropped_events : ℕ

abbrev topic_less : String → String → Bool
topic_less s t = is_lt (str_compare s t)

unfoldable pub stats : Hub → HubStats
unfolding sort_by
stats h = record {
  stream = h.name;
  subscriber_count = length (keep (λ (s : Subscriber). not s.closed) h.subscribers);
  history_size = h.history_size;
  topics = sort_by topic_less (map (λ (e : String × List StreamEvent). e.0) h.history);
  history_counts = map (λ (e : String × List StreamEvent). (e.0, length e.1)) h.history;
  dropped_events = h.dropped;
}

-- The calls of any clients, in any order. The index lists what has been published.
pub data Reach (h : Hub) : List StreamEvent → Hub → Type 0 where
  here : Reach h [] h
  publishes :
      {log : List StreamEvent} {k : Hub} (now : ℕ) (topic kind entity : String) (payload : Fields)
      (log' : List StreamEvent)
      → Reach h log k
      → log' ≡ log ++ ((publish k now topic kind entity payload).1 ∷ [])
      → Reach h log' (publish k now topic kind entity payload).0
  delivers :
      {log : List StreamEvent} {k : Hub} (xs : List (ℕ × StreamEvent)) (n : ℕ) (e : StreamEvent)
      (ys : List (ℕ × StreamEvent))
      → Reach h log k
      → k.pending ≡ xs ++ (n, e) ∷ ys
      → Reach h log (deliver n e (record k { pending = xs ++ ys }))
  subscribes :
      {log : List StreamEvent} {k : Hub} (topic : String)
      → Reach h log k
      → Reach h log (subscribe k topic).0
  closes : {log : List StreamEvent} {k : Hub} (n : ℕ) → Reach h log k → Reach h log (close n k)
  receives : {log : List StreamEvent} {k : Hub} (n : ℕ) → Reach h log k → Reach h log (receive n k)
