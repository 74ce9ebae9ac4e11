-- ===== src/Realtime/Tests.antt =====
-- A hub with a history of two events, and one subscriber.
use sourcevcode_orchestrator.Prelude.{suc, ◌+◌, [], ◌∷◌, ◌≡◌, refl, last, lookup, insert}
use sourcevcode_orchestrator.Prelude.Int.{pos}
use sourcevcode_orchestrator.Domain.Json.{end}
use sourcevcode_orchestrator.Realtime.{
  Hub, StreamEvent, new_hub, publish, deliver, subscribe, event_of, snapshot, Reach,
}
use sourcevcode_orchestrator.Realtime.History.{on_topic, snapshot-last}
use sourcevcode_orchestrator.Realtime.Buffers.{waiting, deliver-counted}

abbrev fresh : Hub
fresh = new_hub "tasks" (pos 2)

abbrev subscribed : Hub
subscribed = (subscribe fresh "t").0

abbrev first : StreamEvent
first = event_of subscribed 5 "t" "created" "e1" end

abbrev published : Hub
published = (publish subscribed 5 "t" "created" "e1" end).0

reached : Reach fresh (first ∷ []) published
unfolding publish subscribe
reached =
    Reach.publishes 5 "t" "created" "e1" end (first ∷ []) (Reach.subscribes "t" Reach.here) refl

-- The event is on its way to the first subscriber.
its_way : published.pending ≡ (1, first) ∷ []
unfolding publish subscribe new_hub
its_way = refl

its_snapshot : snapshot published "t" ≡ first ∷ []
unfolding snapshot publish subscribe new_hub lookup insert
its_snapshot = refl

snapshot-last_example : snapshot published "t" ≡ last 2 (on_topic "t" (first ∷ []))
unfolding new_hub
snapshot-last_example = snapshot-last "tasks" (pos 2) "t" reached refl refl

deliver-counted_example :
    waiting (deliver 1 first published).subscribers + (deliver 1 first published).dropped
    ≡ suc (waiting published.subscribers + published.dropped)
deliver-counted_example = deliver-counted 1 first published
