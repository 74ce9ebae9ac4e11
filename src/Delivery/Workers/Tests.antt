-- ===== src/Delivery/Workers/Tests.antt =====
-- Concrete runs of the pool, over the in-memory bus.
use sourcevcode_orchestrator.Prelude.{
  suc, ◌+◌, ◌≤◌, String, none, some, false, ◌≡◌, refl, lookup, insert, arith,
}
use sourcevcode_orchestrator.Prelude.Int.{pos, ltb_ℤ}
use sourcevcode_orchestrator.Domain.Envelope.{AckStatus, TaskPayload, TaskEnvelope}
use sourcevcode_orchestrator.Delivery.Bus.{
  new_message_bus, publish, send_envelope, agent_topic, forward, hops_exceeded, hop,
  is_terminal_status,
}
use sourcevcode_orchestrator.Delivery.Bus.Tests.{envelope}
use sourcevcode_orchestrator.Delivery.Interface.{in_memory}
use sourcevcode_orchestrator.Delivery.Record.{DeliveryRecord, HandshakeState, max_retries}
use sourcevcode_orchestrator.Delivery.Supervisor.{
  Supervisor, new_supervisor, dispatch, dispatch_record, after_send, stamp,
}
use sourcevcode_orchestrator.Delivery.Supervisor.Records.{record_of}
use sourcevcode_orchestrator.Delivery.Supervisor.Calls.{SoundRecords}
use sourcevcode_orchestrator.Delivery.Supervisor.Interleavings.{Reach, Step, Reach-SoundRecords}
use sourcevcode_orchestrator.Delivery.Supervisor.Timeouts.{inspect_key}
use sourcevcode_orchestrator.Delivery.Workers.{
  WorkerPool, Handlers, new_worker_pool, process_envelope, poll, retry_or_dead_letter, Run, Round,
  single,
}
use sourcevcode_orchestrator.Delivery.Workers.Accounting.{Balanced, Run-Balanced}
use sourcevcode_orchestrator.Delivery.Workers.Retries.{process-SoundRecords, given_up_again}

abbrev checksum : TaskPayload → String
checksum p = p.objective

abbrev fresh : Supervisor in_memory
fresh = new_supervisor in_memory new_message_bus (pos 30)

abbrev sent : Supervisor in_memory
sent = dispatch checksum fresh 10 (envelope "t1")

-- A handler that always fails, and no dead-letter handler.
abbrev failing : Handlers in_memory
failing = record { handle = λ s e. (s, some "broken"); dead_letter = λ s e reason. s }

abbrev pool : WorkerPool in_memory
pool = new_worker_pool sent "coder" (pos 1) (pos 0)

-- A poll by worker 0, which fails and sends the envelope again.
abbrev polled : WorkerPool in_memory
polled = poll failing checksum pool 20 0

Run-Balanced_example : Balanced 0 0 0 polled
Run-Balanced_example =
    Run-Balanced failing (λ id s e t. t) checksum sent "coder" (pos 1) (pos 0)
      (Run.next Run.here (Round.polls pool 20 0))

sent_soundly : SoundRecords pool.supervisor
unfolding max_retries new_worker_pool
sent_soundly =
    Reach-SoundRecords checksum new_message_bus (pos 30)
      (Reach.next Reach.here (Step.dispatches fresh 10 (envelope "t1") (omega arith)))

process-SoundRecords_example :
    SoundRecords (process_envelope failing checksum pool 20 (single (envelope "t1")) 0).supervisor
process-SoundRecords_example =
    process-SoundRecords failing refl (λ s e k. k) (λ s e reason k. k) checksum pool 20
      (single (envelope "t1")) 0 sent_soundly

-- An envelope that has used its one retry up.
abbrev last_try : TaskEnvelope
last_try = record (envelope "t1") { retry_count = pos 1 }

abbrev last_sent : Supervisor in_memory
last_sent = dispatch checksum fresh 10 last_try

abbrev last_pool : WorkerPool in_memory
last_pool = new_worker_pool last_sent "coder" (pos 1) (pos 0)

abbrev last_record : DeliveryRecord
last_record = record {
  envelope = last_try;
  status = AckStatus.queued;
  sent_at = 10;
  last_progress_at = 10;
  received_at = none;
  completed_at = none;
  received_by = "";
  last_reason = "";
  retry_count = pos 1;
  last_audited_status = "";
  handshake_state = HandshakeState.syn;
  payload_checksum = "t1";
  payload_validated = false;
}

is_tracked : record_of last_pool.supervisor "t1" ≡ some last_record
unfolding dispatch stamp dispatch_record after_send lookup insert send_envelope forward
    hops_exceeded hop publish agent_topic is_terminal_status new_supervisor new_worker_pool
is_tracked = refl

is_open : is_terminal_status AckStatus.queued ≡ false
unfolding is_terminal_status
is_open = refl

is_spent : ltb_ℤ last_record.retry_count (max_retries last_record.envelope) ≡ false
unfolding max_retries
is_spent = refl

late : 20 + last_pool.supervisor.ack_timeout ≤ 50
unfolding dispatch new_supervisor new_worker_pool
late = omega arith

given_up_again_example :
    let q = retry_or_dead_letter failing last_pool 20 (single last_try) "broken" in
    (q.metrics.dead_lettered ≡ suc last_pool.metrics.dead_lettered)
    × ((inspect_key q.supervisor 50 "t1").1
        ≡ record { overdue = 1; retried = 0; dead_lettered = 1 })
given_up_again_example =
    given_up_again refl failing last_pool 20 50 (single last_try) "broken" last_record is_tracked
      is_open is_spent (λ s. refl) late
