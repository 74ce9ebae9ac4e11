-- ===== src/Delivery/Bus/Steps.antt =====
-- The bus and its clients as a step relation: any interleaving of the calls that the code makes. A step is one
-- critical section, so other calls come between the two sections of SendEnvelope and of
-- MarkDeadLetterEnvelope.
use sourcevcode_orchestrator.Prelude.{String, List, [], ◌∷◌, ◌++◌, some, false, ◌≡◌, ◌≢◌}
use sourcevcode_orchestrator.Domain.Envelope.{AckStatus, TaskEnvelope, sent}
use sourcevcode_orchestrator.Delivery.Bus.{
  MessageBus, new_message_bus, requeue_front, consume, ack, bury, ack_dead, hops_exceeded, send_out,
  record_sent,
}

-- The bus; the envelopes that consumers hold: taken from a topic, and neither acknowledged nor rejected
-- yet; those that SendEnvelope has published and not recorded; and the task ids, with the reasons, that
-- MarkDeadLetterEnvelope has yet to acknowledge.
pub record Broker : Type 0 where
  pub bus : MessageBus
  pub held : List (String × TaskEnvelope)
  pub sending : List TaskEnvelope
  pub burying : List (String × String)

abbrev pub new_broker : Broker
new_broker = record { bus = new_message_bus; held = []; sending = []; burying = [] }

-- `acks` excludes the status that SendEnvelope alone records. `buries` is also what SendEnvelope does with an
-- envelope that has used up its hops.
pub data Step : Broker → Broker → Type 0 where
  publishes :
      (w : Broker) (e : TaskEnvelope)
      → hops_exceeded e ≡ false
      → Step w (record w { bus = send_out w.bus e; sending = e ∷ w.sending })
  records :
      (w : Broker) (e : TaskEnvelope) (xs ys : List TaskEnvelope)
      → w.sending ≡ xs ++ (e ∷ ys)
      → Step w (record w { bus = (record_sent w.bus e).0; sending = xs ++ ys })
  acks :
      (w : Broker) (id : String) (status : AckStatus) (by reason : String)
      → status ≢ sent
      → Step w (record w { bus = (ack w.bus id status by reason).0 })
  buries :
      (w : Broker) (e : TaskEnvelope) (reason : String)
      → Step w (record w { bus = bury w.bus e; burying = (e.task_id, reason) ∷ w.burying })
  acks_dead :
      (w : Broker) (id reason : String) (xs ys : List (String × String))
      → w.burying ≡ xs ++ ((id, reason) ∷ ys)
      → Step w (record w { bus = (ack_dead w.bus id reason).0; burying = xs ++ ys })
  takes :
      (w : Broker) (topic : String) (e : TaskEnvelope)
      → (consume w.bus topic).1 ≡ some e
      → Step w (record w { bus = (consume w.bus topic).0; held = (topic, e) ∷ w.held })
  returns :
      (w : Broker) (topic : String) (e : TaskEnvelope) (xs ys : List (String × TaskEnvelope))
      → w.held ≡ xs ++ ((topic, e) ∷ ys)
      → Step w (record w { bus = requeue_front w.bus topic e; held = xs ++ ys })
  drops :
      (w : Broker) (d : String × TaskEnvelope) (xs ys : List (String × TaskEnvelope))
      → w.held ≡ xs ++ (d ∷ ys)
      → Step w (record w { held = xs ++ ys })

pub data Reach (s : Broker) : Broker → Type 0 where
  here : Reach s s
  next : {t u : Broker} → Reach s t → Step t u → Reach s u
