-- ===== src/Delivery/Supervisor/Tests.antt =====
-- Concrete runs of the supervisor, over the in-memory bus.
use sourcevcode_orchestrator.Prelude.{
  ◌<◌, String, [], ◌∷◌, none, some, false, ◌≡◌, refl, lookup, insert, arith, ◌==◌, if◌then◌else◌,
}
use sourcevcode_orchestrator.Prelude.Int.{pos, ◌+ℤ◌}
use sourcevcode_orchestrator.Domain.Envelope.{AckStatus, TaskPayload}
use sourcevcode_orchestrator.Delivery.Bus.{
  new_message_bus, publish, send_envelope, agent_topic, forward, hops_exceeded, hop,
  is_terminal_status,
}
use sourcevcode_orchestrator.Delivery.Bus.Tests.{envelope}
use sourcevcode_orchestrator.Delivery.Interface.{in_memory}
use sourcevcode_orchestrator.Delivery.Record.{DeliveryRecord, HandshakeState, max_retries}
use sourcevcode_orchestrator.Delivery.Supervisor.{
  Supervisor, new_supervisor, dispatch, dispatch_record, after_send, stamp, confirm_payload,
  establish_delivery,
}
use sourcevcode_orchestrator.Delivery.Supervisor.Records.{record_of}
use sourcevcode_orchestrator.Delivery.Supervisor.Calls.{SoundRecords}
use sourcevcode_orchestrator.Delivery.Supervisor.Interleavings.{Reach, Step, Reach-SoundRecords}
use sourcevcode_orchestrator.Delivery.Supervisor.Timeouts.{inspect_timeouts}
use sourcevcode_orchestrator.Delivery.Supervisor.Inspected.{inspected}
use sourcevcode_orchestrator.Delivery.Supervisor.Retries.{record_of-inspect_timeouts}
use sourcevcode_orchestrator.Delivery.Supervisor.Expiry.{Spaced, inspections, inspections_expire}
use sourcevcode_orchestrator.Delivery.Supervisor.Health.{delivery_health_snapshot}
use sourcevcode_orchestrator.Delivery.Supervisor.Health.Counts.{
  IsCounted, replayed, health-IsCounted,
}
use sourcevcode_orchestrator.Delivery.Supervisor.Handshake.{confirm-establish, confirm-dispatch}

-- A checksum that is injective on the payloads used here.
abbrev checksum : TaskPayload → String
checksum p = p.objective

abbrev fresh : Supervisor in_memory
fresh = new_supervisor in_memory new_message_bus (pos 30)

abbrev dispatched : Supervisor in_memory
dispatched = dispatch checksum fresh 10 (envelope "t1")

reached : Reach checksum fresh dispatched
unfolding max_retries
reached = Reach.next Reach.here (Step.dispatches fresh 10 (envelope "t1") (omega arith))

Reach-SoundRecords_example : SoundRecords dispatched
Reach-SoundRecords_example = Reach-SoundRecords checksum new_message_bus (pos 30) reached

tracked_soundly : SoundRecords dispatched
tracked_soundly = Reach-SoundRecords checksum new_message_bus (pos 30) reached

abbrev sent_record : DeliveryRecord
sent_record = record {
  envelope = envelope "t1";
  status = AckStatus.queued;
  sent_at = 10;
  last_progress_at = 10;
  received_at = none;
  completed_at = none;
  received_by = "";
  last_reason = "";
  retry_count = pos 0;
  last_audited_status = "";
  handshake_state = HandshakeState.syn;
  payload_checksum = "t1";
  payload_validated = false;
}

is_tracked : record_of dispatched "t1" ≡ some sent_record
unfolding dispatch stamp dispatch_record after_send lookup insert send_envelope forward
    hops_exceeded hop publish agent_topic is_terminal_status new_supervisor
is_tracked = refl

has_timeout : 0 < dispatched.ack_timeout
unfolding dispatch new_supervisor
has_timeout = omega arith

record_of-inspect_timeouts_example :
    record_of (inspect_timeouts dispatched 50).0 "t1"
    ≡ some (inspected false dispatched.ack_timeout 50 sent_record)
record_of-inspect_timeouts_example =
    record_of-inspect_timeouts 50 "t1" dispatched sent_record tracked_soundly has_timeout is_tracked

is_open : is_terminal_status AckStatus.queued ≡ false
unfolding is_terminal_status
is_open = refl

one_left : max_retries sent_record.envelope ≡ sent_record.retry_count +ℤ pos 1
unfolding max_retries ◌+ℤ◌
one_left = refl

spaced : Spaced dispatched.ack_timeout 10 (40 ∷ 75 ∷ [])
unfolding dispatch new_supervisor
spaced = (omega arith, (omega arith, tt))

inspections_expire_example :
    (q : DeliveryRecord) × (record_of (inspections (40 ∷ 75 ∷ []) dispatched) "t1" ≡ some q)
    × (q.status ≡ AckStatus.dead_lettered)
    × (q.retry_count ≡ max_retries sent_record.envelope)
inspections_expire_example =
    inspections_expire "t1" dispatched sent_record 1 (40 ∷ 75 ∷ []) refl tracked_soundly has_timeout
      is_tracked is_open one_left spaced (omega arith)

confirm-establish_example :
    let s' = (confirm_payload checksum dispatched 20 "t1" "coder" (envelope "t2")).0 in
    let valid = checksum (envelope "t2").payload == sent_record.payload_checksum in
    let done = establish_delivery s' 25 "t1" "coder" in
    (done.1.ack_status ≡ (if valid then AckStatus.received else AckStatus.failed))
    × (q : DeliveryRecord) × (record_of done.0 "t1" ≡ some q)
    × (q.handshake_state ≡ (if valid then HandshakeState.established else HandshakeState.invalid))
    × (q.status ≡ (if valid then AckStatus.validated else AckStatus.failed))
    × (q.completed_at ≡ (if valid then none else some 25))
confirm-establish_example =
    confirm-establish checksum dispatched 20 25 "t1" "coder" (envelope "t2") sent_record is_tracked

confirm-dispatch_example :
    (confirm_payload checksum dispatched 20 "t1" "coder" (envelope "t2")).1 ≡ ("t2" == "t1")
confirm-dispatch_example =
    confirm-dispatch checksum fresh 10 20 (envelope "t1") (envelope "t2") "coder"

health-IsCounted_example :
    IsCounted (replayed dispatched 50 dispatched.records) (delivery_health_snapshot dispatched 50)
health-IsCounted_example = health-IsCounted dispatched 50
