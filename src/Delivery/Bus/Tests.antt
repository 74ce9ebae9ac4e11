-- ===== src/Delivery/Bus/Tests.antt =====
-- Concrete runs of the bus.
use sourcevcode_orchestrator.Prelude.{String, List, [], ◌∷◌, ◌++◌, none, some, false, ◌≡◌, refl}
use sourcevcode_orchestrator.Prelude.Int.{pos}
use sourcevcode_orchestrator.Domain.Json.{end}
use sourcevcode_orchestrator.Domain.Envelope.{AckStatus, TaskEnvelope}
use sourcevcode_orchestrator.Delivery.Bus.{
  MessageBus, new_message_bus, publish, requeue_front, consume, send_envelope, send_out, forward,
  hops_exceeded, ack,
}
use sourcevcode_orchestrator.Delivery.Bus.Steps.{Broker, new_broker, Reach, Step}
use sourcevcode_orchestrator.Delivery.Bus.Settled.{IsSettled, Reach-IsSettled}
use sourcevcode_orchestrator.Delivery.Bus.Hops.{IsBounded, Reach-IsBounded}
use sourcevcode_orchestrator.Delivery.Bus.Fifo.{
  Op, run, on_topic, published, run_fifo, requeue_front-consume,
}

-- For the agent, with one retry allowed and two hops.
abbrev pub envelope : String → TaskEnvelope
envelope id = record {
  protocol_version = "1";
  task_id = id;
  parent_task_id = "";
  trace_id = "";
  correlation_id = "";
  source_agent = "orchestrator";
  target_agent = "coder";
  target_capability = "code";
  priority = "normal";
  qos_class = "";
  ttl = pos 0;
  deadline = none;
  hop_count = pos 0;
  max_hops = pos 2;
  retry_count = pos 0;
  max_retries = pos 1;
  security_policy = "";
  context_scope = "";
  dependencies = [];
  payload = record {
    objective = id;
    input_data = end;
    context = end;
    acceptance_criteria = [];
    expected_output_format = "";
    artifacts = [];
  };
  is_dead_letter = false;
  created_at = 5;
}

abbrev sent_bus : MessageBus
sent_bus = (send_envelope new_message_bus (envelope "t1")).0

abbrev published_broker : Broker
published_broker = record new_broker {
  bus = send_out new_message_bus (envelope "t1");
  sending = envelope "t1" ∷ [];
}

abbrev sent_broker : Broker
sent_broker = record new_broker { bus = sent_bus }

abbrev acked_broker : Broker
acked_broker = record new_broker { bus = (ack sent_bus "t1" AckStatus.accepted "coder" "").0 }

within_hops : hops_exceeded (envelope "t1") ≡ false
unfolding hops_exceeded
within_hops = refl

-- An envelope is sent, and accepted.
acked : Reach new_broker acked_broker
unfolding send_envelope forward
acked =
    Reach.next
      (Reach.next (Reach.next Reach.here (Step.publishes new_broker (envelope "t1") within_hops))
        (Step.records published_broker (envelope "t1") [] [] refl))
      (Step.acks sent_broker "t1" AckStatus.accepted "coder" "" (λ e. cc e))

Reach-IsSettled_example : IsSettled acked_broker
Reach-IsSettled_example = Reach-IsSettled acked

Reach-IsBounded_example : IsBounded acked_broker
Reach-IsBounded_example = Reach-IsBounded acked

abbrev calls : List Op
calls =
    Op.put "a" (envelope "t1")
    ∷ Op.put "b" (envelope "t2")
    ∷ Op.get "a"
    ∷ Op.put "a" (envelope "t3")
    ∷ []

run_fifo_example :
    on_topic "a" (run new_message_bus calls).1 ++ (run new_message_bus calls).0.queues "a"
    ≡ [] ++ published "a" calls
run_fifo_example = run_fifo "a" calls new_message_bus

delivered_run : on_topic "a" (run new_message_bus calls).1 ≡ envelope "t1" ∷ []
unfolding run publish consume
delivered_run = refl

abbrev loaded : MessageBus
loaded = publish (publish new_message_bus "a" (envelope "t1")) "a" (envelope "t2")

first_consumed : (consume loaded "a").1 ≡ some (envelope "t1")
unfolding consume publish
first_consumed = refl

requeue_front-consume_example :
    (requeue_front (consume loaded "a").0 "a" (envelope "t1")).queues "a" ≡ loaded.queues "a"
requeue_front-consume_example = requeue_front-consume loaded "a" (envelope "t1") first_consumed "a"
