-- ===== src/Delivery/Interface.antt =====
-- go-core/internal/delivery/bus.go: what the supervisor takes from a bus, with the two facts about
-- acknowledgements that its theorems use. A bus without the method BrokerManaged has the field false.
use sourcevcode_orchestrator.Prelude.{
  ℕ, String, List, [], ◌∷◌, ◌++◌, Option, ◌≡◌, refl, Bool, false, if◌then◌else◌, ◌==◌,
}
use sourcevcode_orchestrator.Domain.Envelope.{AckStatus, TaskEnvelope, MessageAck}
use sourcevcode_orchestrator.Delivery.Bus.{
  MessageBus, message_ack, send_envelope, receive_for_agent, ack, mark_dead_letter_envelope, depth,
}

pub record Bus : Type 1 where
  pub State : Type 0
  pub send_envelope : State → TaskEnvelope → State × MessageAck
  pub receive_for_agent : State → String → State × Option TaskEnvelope
  pub ack : State → String → AckStatus → String → String → State × MessageAck
  pub ack_history : State → String → List MessageAck
  pub depth : State → String → ℕ
  pub mark_dead_letter_envelope : State → TaskEnvelope → String → State × MessageAck
  pub broker_managed : Bool
  pub ack_returns :
      (b : State) (id : String) (status : AckStatus) (by reason : String)
      → (ack b id status by reason).1 ≡ message_ack id status by reason
  pub ack_records :
      (b : State) (id : String) (status : AckStatus) (by reason : String) (j : String)
      → ack_history (ack b id status by reason).0 j ≡ (
          if id == j
          then ack_history b id ++ message_ack id status by reason ∷ []
          else ack_history b j)

pub in_memory_returns :
    (b : MessageBus) (id : String) (status : AckStatus) (by reason : String)
    → (ack b id status by reason).1 ≡ message_ack id status by reason
unfolding ack
in_memory_returns b id status by reason = refl

pub in_memory_records :
    (b : MessageBus) (id : String) (status : AckStatus) (by reason : String) (j : String)
    → (ack b id status by reason).0.acks j
      ≡ (if id == j then b.acks id ++ message_ack id status by reason ∷ [] else b.acks j)
unfolding ack
in_memory_records b id status by reason j = refl

-- The in-memory bus as such an interface.
abbrev pub in_memory : Bus
in_memory = record {
  State = MessageBus;
  send_envelope = send_envelope;
  receive_for_agent = receive_for_agent;
  ack = ack;
  ack_history = λ b id. b.acks id;
  depth = depth;
  mark_dead_letter_envelope = mark_dead_letter_envelope;
  broker_managed = false;
  ack_returns = in_memory_returns;
  ack_records = in_memory_records;
}
