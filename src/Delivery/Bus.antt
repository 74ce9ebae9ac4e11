-- ===== src/Delivery/Bus.antt =====
-- go-core/internal/delivery/message_bus.go. The bus's mutex guards the state, so a method that takes it once
-- is a function from the state before to the state after. SendEnvelope and MarkDeadLetterEnvelope take it
-- twice: each of their two sections is a function, and a step of its own in Bus/Steps. A signal channel has
-- capacity 1 and is the Boolean "a token waits in it"; the channel of a topic is made at first use, with
-- no token. Where a `…Deliveries` goroutine takes an item, `take_task` and the like are what it does to
-- the bus under the lock, and `requeue_…` is the Nack that it hands out.
pub mod Settled
pub mod Fifo
pub mod Hops
pub mod Steps
pub mod Tests
use Prim.Native.String.{◌++◌ as str_append}
use sourcevcode_orchestrator.Prelude.{
  String, List, [], ◌∷◌, ◌++◌, Option, none, some, Bool, true, false, ◌&&◌, if◌then◌else◌, ◌==◌,
  update, length, ℕ,
}
use sourcevcode_orchestrator.Prelude.Int.{pos, ◌+ℤ◌, ltb_ℤ}
use sourcevcode_orchestrator.Domain.Envelope.{
  AckStatus, TaskEnvelope, TaskResultEnvelope, MessageAck, sent, queued, accepted, dead_lettered,
  failed,
}
use sourcevcode_orchestrator.Domain.Task.{Task}

pub record MessageBus : Type 0 where
  pub queues : String → List TaskEnvelope
  pub tasks : List Task
  pub results : List TaskResultEnvelope
  pub acks : String → List MessageAck
  pub unacked : String → Option TaskEnvelope
  pub dead_letters : List TaskEnvelope
  pub queue_signals : String → Bool
  pub task_signal : Bool
  pub result_signal : Bool

abbrev pub new_message_bus : MessageBus
new_message_bus = record {
  queues = λ _. [];
  tasks = [];
  results = [];
  acks = λ _. [];
  unacked = λ _. none;
  dead_letters = [];
  queue_signals = λ _. false;
  task_signal = false;
  result_signal = false;
}

unfoldable pub agent_topic : String → String
agent_topic id =
    if id == "" then "orchestrator.inbox" else str_append (str_append "agent." id) ".inbox"

unfoldable pub publish : MessageBus → String → TaskEnvelope → MessageBus
publish b topic e = record b {
  queues = update b.queues topic (b.queues topic ++ e ∷ []);
  queue_signals = update b.queue_signals topic true;
}

unfoldable pub requeue_front : MessageBus → String → TaskEnvelope → MessageBus
requeue_front b topic e = record b {
  queues = update b.queues topic (e ∷ b.queues topic);
  queue_signals = update b.queue_signals topic true;
}

unfoldable pub consume : MessageBus → String → MessageBus × Option TaskEnvelope
consume b topic = elim (b.queues topic) [
  | [] ↦ (b, none)
  | item ∷ rest ↦ (record b { queues = update b.queues topic rest }, some item)
]

unfoldable pub enqueue_task : MessageBus → Task → MessageBus
enqueue_task b t = record b { tasks = b.tasks ++ t ∷ []; task_signal = true }

unfoldable pub requeue_task_front : MessageBus → Task → MessageBus
requeue_task_front b t = record b { tasks = t ∷ b.tasks; task_signal = true }

unfoldable pub take_task : MessageBus → MessageBus × Option Task
take_task b = elim b.tasks [ [] ↦ (b, none) | item ∷ rest ↦ (record b { tasks = rest }, some item) ]

unfoldable pub publish_result : MessageBus → TaskResultEnvelope → MessageBus
publish_result b r = record b { results = b.results ++ r ∷ []; result_signal = true }

unfoldable pub requeue_result_front : MessageBus → TaskResultEnvelope → MessageBus
requeue_result_front b r = record b { results = r ∷ b.results; result_signal = true }

unfoldable pub take_result : MessageBus → MessageBus × Option TaskResultEnvelope
take_result b = elim b.results [
  | [] ↦ (b, none)
  | item ∷ rest ↦ (record b { results = rest }, some item)
]

-- The statuses at which Ack forgets the envelope; `isTerminalStatus` in supervisor.go is the same test.
unfoldable pub is_terminal_status : AckStatus → Bool
is_terminal_status accepted = true
is_terminal_status failed = true
is_terminal_status dead_lettered = true
is_terminal_status _ = false

abbrev pub message_ack : String → AckStatus → String → String → MessageAck
message_ack id status by reason = record {
  message_id = id;
  ack_status = status;
  received_by = by;
  reason = reason;
}

unfoldable pub ack : MessageBus → String → AckStatus → String → String → MessageBus × MessageAck
unfolding is_terminal_status
ack b id status by reason =
    let a = message_ack id status by reason in
    (
      record b {
        acks = update b.acks id (b.acks id ++ a ∷ []);
        unacked = if is_terminal_status status then update b.unacked id none else b.unacked;
      },
      a,
    )

-- MarkDeadLetterEnvelope under its first lock.
unfoldable pub bury : MessageBus → TaskEnvelope → MessageBus
bury b e = record b {
  dead_letters = b.dead_letters ++ record e { is_dead_letter = true } ∷ [];
  unacked = update b.unacked e.task_id none;
}

-- The acknowledgement of MarkDeadLetterEnvelope, under its second lock.
unfoldable pub ack_dead : MessageBus → String → String → MessageBus × MessageAck
unfolding ack
ack_dead b id reason = ack b id dead_lettered "dead_letter_queue" reason

-- Both, with no other call in between.
unfoldable pub mark_dead_letter_envelope :
    MessageBus → TaskEnvelope → String → MessageBus × MessageAck
unfolding bury ack_dead
mark_dead_letter_envelope b e reason = ack_dead (bury b e) e.task_id reason

-- The guard of SendEnvelope: the envelope has used up its hops.
unfoldable pub hops_exceeded : TaskEnvelope → Bool
hops_exceeded e = ltb_ℤ (pos 0) e.max_hops && (if ltb_ℤ e.hop_count e.max_hops then false else true)

-- The envelope as SendEnvelope forwards it.
unfoldable pub hop : TaskEnvelope → TaskEnvelope
hop e = record e { hop_count = e.hop_count +ℤ pos 1 }

-- SendEnvelope past its guard, under its first lock: the envelope is published.
unfoldable pub send_out : MessageBus → TaskEnvelope → MessageBus
unfolding publish hop agent_topic
send_out b e = publish b (agent_topic (hop e).target_agent) (hop e)

-- Under its second lock, the envelope and its first two acks are recorded.
unfoldable pub record_sent : MessageBus → TaskEnvelope → MessageBus × MessageAck
unfolding hop
record_sent b e =
    let queued_ack = message_ack e.task_id queued "" "" in
    (
      record b {
        unacked = update b.unacked e.task_id (some (hop e));
        acks =
            update b.acks e.task_id
              (b.acks e.task_id ++ message_ack e.task_id sent "" "" ∷ queued_ack ∷ []);
      },
      queued_ack,
    )

-- Both, with no other call in between.
unfoldable pub forward : MessageBus → TaskEnvelope → MessageBus × MessageAck
unfolding send_out record_sent
forward b e = record_sent (send_out b e) e

unfoldable pub send_envelope : MessageBus → TaskEnvelope → MessageBus × MessageAck
unfolding hops_exceeded forward mark_dead_letter_envelope
send_envelope b e =
    if hops_exceeded e then mark_dead_letter_envelope b e "max_hops_exceeded" else forward b e

unfoldable pub receive_for_agent : MessageBus → String → MessageBus × Option TaskEnvelope
unfolding consume agent_topic
receive_for_agent b agent = consume b (agent_topic agent)

abbrev pub ack_history : MessageBus → String → List MessageAck
ack_history b id = b.acks id

abbrev pub depth : MessageBus → String → ℕ
depth b topic = length (b.queues topic)
