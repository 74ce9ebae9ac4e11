-- ===== src/Delivery/Bus/Settled.antt =====
-- The table of unacknowledged envelopes against the history of acknowledgements.
use sourcevcode_orchestrator.Prelude.{
  String, List, [], ◌∷◌, ◌++◌, ◌≡◌, ◌≢◌, refl, inl, inr, Bool, true, false, arith, if◌then◌else◌,
  Bool-cases, eq_iff, is_some, any, ◌==◌, ◌||◌, ap, ◌∙◌, eq_self, subst,
}
use sourcevcode_orchestrator.Domain.Envelope.{
  AckStatus, TaskEnvelope, MessageAck, sent, queued, accepted, dead_lettered, failed,
}
use sourcevcode_orchestrator.Delivery.Bus.{
  MessageBus, message_ack, consume, requeue_front, ack, bury, ack_dead, send_out, record_sent,
  is_terminal_status,
}
use sourcevcode_orchestrator.Delivery.Bus.Steps.{
  Broker, new_broker, Step, publishes, records, acks, buries, acks_dead, takes, returns, drops,
  Reach, here, next,
}

-- Whether an envelope awaits a terminal acknowledgement, after one more entry of its history.
abbrev pub awaits_after : Bool → AckStatus → Bool
awaits_after o sent = true
awaits_after o accepted = false
awaits_after o failed = false
awaits_after o dead_lettered = false
awaits_after o _ = o

abbrev pub awaits_from : Bool → List MessageAck → Bool
awaits_from o [] = o
awaits_from o (a ∷ h) = awaits_from (awaits_after o a.ack_status) h

-- It was sent, and no terminal acknowledgement has come since it was last sent.
abbrev pub awaits : List MessageAck → Bool
awaits h = awaits_from false h

awaits_from-append :
    (o : Bool) (h k : List MessageAck) → awaits_from o (h ++ k) ≡ awaits_from (awaits_from o h) k
awaits_from-append o [] k = refl
awaits_from-append o (a ∷ h) k = awaits_from-append (awaits_after o a.ack_status) h k

-- Whether MarkDeadLetterEnvelope is between its two sections for the task.
abbrev pub is_dying : Broker → String → Bool
is_dying w id = any (λ (d : String × String). d.0 == id) w.burying

-- The table agrees with the history of a task.
abbrev pub Agrees : MessageBus → String → Type 0
Agrees b id = is_some (b.unacked id) ≡ awaits (b.acks id)

abbrev pub IsSettled : Broker → Type 0
IsSettled w = (id : String) → is_dying w id ≡ false → Agrees w.bus id

awaits_after-not-sent :
    (o : Bool) (status : AckStatus)
    → status ≢ sent
    → awaits_after o status ≡ (if is_terminal_status status then false else o)
unfolding is_terminal_status
awaits_after-not-sent o sent h = absurd (h refl)
awaits_after-not-sent o _ h = refl

ack-Agrees :
    (b : MessageBus) (id : String) (status : AckStatus) (by reason : String) (j : String)
    → status ≢ sent
    → Agrees b j
    → Agrees (ack b id status by reason).0 j
unfolding ack
ack-Agrees b id status by reason j h s = ground (
  arith,
  s,
  awaits_from-append false (b.acks id) (message_ack id status by reason ∷ []),
  awaits_after-not-sent (awaits (b.acks id)) status h,
  eq_iff id j,
)

record_sent-Agrees :
    (b : MessageBus) (e : TaskEnvelope) (j : String) → Agrees b j → Agrees (record_sent b e).0 j
unfolding record_sent
record_sent-Agrees b e j s = ground (
  arith,
  s,
  awaits_from-append false (b.acks e.task_id)
      (message_ack e.task_id sent "" "" ∷ message_ack e.task_id queued "" "" ∷ []),
  eq_iff e.task_id j,
)

-- The acknowledgement settles its task, whatever came before it.
ack_dead-settles : (b : MessageBus) (id reason : String) → Agrees (ack_dead b id reason).0 id
unfolding ack_dead ack
ack_dead-settles b id reason = ground (
  arith,
  awaits_from-append false (b.acks id)
      (message_ack id dead_lettered "dead_letter_queue" reason ∷ []),
  eq_self id,
)

consume-Agrees : (b : MessageBus) (topic j : String) → Agrees b j → Agrees (consume b topic).0 j
unfolding consume
consume-Agrees b topic j s = ground (arith, s)

any-middle :
    (id reason j : String) (xs ys : List (String × String))
    → any (λ (d : String × String). d.0 == j) (xs ++ ((id, reason) ∷ ys))
      ≡ (id == j || any (λ (d : String × String). d.0 == j) (xs ++ ys))
any-middle id reason j [] ys = refl
any-middle id reason j (x ∷ xs) ys = ground (arith, any-middle id reason j xs ys)

acks_dead-Agrees :
    (w : Broker) (id reason : String) (xs ys : List (String × String)) (j : String)
    → w.burying ≡ xs ++ ((id, reason) ∷ ys)
    → IsSettled w
    → any (λ (d : String × String). d.0 == j) (xs ++ ys) ≡ false
    → Agrees (ack_dead w.bus id reason).0 j
unfolding ack_dead
acks_dead-Agrees w id reason xs ys j e s clear = elim (Bool-cases (id == j)) [
  | inl t ↦
      subst (Agrees (ack_dead w.bus id reason).0) ((eq_iff id j).0 t)
        (ack_dead-settles w.bus id reason)
  | inr f ↦
      let alive : is_dying w j ≡ false =
        ap (any (λ (d : String × String). d.0 == j)) e
        ∙ any-middle id reason j xs ys
        ∙ ground (arith, f, clear) in
      ack-Agrees w.bus id dead_lettered "dead_letter_queue" reason j (λ q. cc q) (s j alive)
]

Step-IsSettled : {w v : Broker} → Step w v → IsSettled w → IsSettled v
unfolding requeue_front send_out bury
Step-IsSettled (publishes w e h) s j d = s j d
Step-IsSettled (records w e xs ys h) s j d = record_sent-Agrees w.bus e j (s j d)
Step-IsSettled (acks w id status by reason h) s j d =
    ack-Agrees w.bus id status by reason j h (s j d)
Step-IsSettled (buries w e reason) s j d = ground (arith, d, s j)
Step-IsSettled (acks_dead w id reason xs ys h) s j d = acks_dead-Agrees w id reason xs ys j h s d
Step-IsSettled (takes w topic e h) s j d = consume-Agrees w.bus topic j (s j d)
Step-IsSettled (returns w topic e xs ys h) s j d = s j d
Step-IsSettled (drops w d xs ys h) s j c = s j c

Reach-IsSettled_from : {w v : Broker} → IsSettled w → Reach w v → IsSettled v
Reach-IsSettled_from s here = s
Reach-IsSettled_from s (next r st) = Step-IsSettled st (Reach-IsSettled_from s r)

-- After any interleaving of the critical sections of calls on a new bus, provided that no caller of Ack
-- passes the status "sent": unless MarkDeadLetterEnvelope is between its two sections for a task id, the
-- bus keeps an envelope of the id as unacknowledged if and only if the id's history of acknowledgements
-- shows a send with no terminal acknowledgement (accepted, failed, dead-lettered) after it.
pub Reach-IsSettled : {w : Broker} → Reach new_broker w → IsSettled w
Reach-IsSettled = Reach-IsSettled_from (λ id d. refl)
