-- ===== src/Delivery/Supervisor/Sound.antt =====
-- The invariant of a delivery record, and that every write of the supervisor keeps it.
use sourcevcode_orchestrator.Prelude.{
  ◌&&◌, not, false, ℕ, String, List, [], ◌∷◌, ◌≡◌, refl, true, arith, is_some,
}
use sourcevcode_orchestrator.Prelude.Int.{ltb_ℤ, ◌+ℤ◌, ◌≤ℤ◌}
use sourcevcode_orchestrator.Domain.Envelope.{AckStatus, TaskEnvelope, TaskPayload, MessageAck}
use sourcevcode_orchestrator.Delivery.Bus.{is_terminal_status}
use sourcevcode_orchestrator.Delivery.Record.{
  DeliveryRecord, max_retries, apply_status, apply_history,
}
use sourcevcode_orchestrator.Delivery.Supervisor.{
  stamp, dispatch_record, after_send, ack_record, acknowledged,
}
use sourcevcode_orchestrator.Delivery.Supervisor.Timeouts.{retried_record}

pub record IsSound (id : String) (r : DeliveryRecord) : Type 0 where
  pub keyed : r.envelope.task_id ≡ id
  pub counted : r.retry_count ≡ r.envelope.retry_count
  pub within : r.retry_count ≤ℤ max_retries r.envelope
  pub completed : (is_terminal_status r.status && not (is_some r.completed_at)) ≡ false

apply_status-IsSound :
    (status : AckStatus) (now : ℕ) (a : MessageAck) (id : String) (r : DeliveryRecord)
    → IsSound id r
    → IsSound id (apply_status status now a r)
unfolding apply_status is_terminal_status
apply_status-IsSound AckStatus.unset now a id r h = h
apply_status-IsSound _ now a id r h = record {
  keyed = h.keyed;
  counted = h.counted;
  within = h.within;
  completed = ground arith;
}

pub apply_history-IsSound :
    (history : List MessageAck) (now : ℕ) (id : String) (r : DeliveryRecord)
    → IsSound id r
    → IsSound id (apply_history now r history)
unfolding apply_history
apply_history-IsSound [] now id r h = h
apply_history-IsSound (a ∷ history) now id r h =
    apply_history-IsSound history now id (apply_status a.ack_status now a r)
      (apply_status-IsSound a.ack_status now a id r h)

pub ack_record-IsSound :
    (now : ℕ) (status : AckStatus) (by reason id : String) (r : DeliveryRecord)
    → IsSound id r
    → IsSound id (ack_record now status by reason r)
unfolding ack_record acknowledged is_terminal_status
ack_record-IsSound now status by reason id r h = record {
  keyed = ground arith;
  counted = ground arith;
  within = ground arith;
  completed = ground arith;
}

pub stamp-retries :
    (now : ℕ) (e : TaskEnvelope)
    → e.retry_count ≤ℤ max_retries e
    → (stamp now e).retry_count ≤ℤ max_retries (stamp now e)
unfolding stamp max_retries
stamp-retries now e h = ground arith

pub sent-IsSound :
    (checksum : TaskPayload → String) (now : ℕ) (a : MessageAck) (e : TaskEnvelope)
    → e.retry_count ≤ℤ max_retries e
    → IsSound e.task_id (after_send now a (dispatch_record checksum now e))
unfolding after_send dispatch_record
sent-IsSound checksum now a e h = record {
  keyed = refl;
  counted = refl;
  within = h;
  completed = ground arith;
}

pub retried_record-IsSound :
    (now : ℕ) (id : String) (r : DeliveryRecord)
    → ltb_ℤ r.retry_count (max_retries r.envelope) ≡ true
    → IsSound id r
    → IsSound id (retried_record now r)
unfolding retried_record max_retries ◌+ℤ◌
retried_record-IsSound now id r t h = record {
  keyed = h.keyed;
  counted = refl;
  within = ground arith;
  completed = h.completed;
}

-- A write to the other fields.
pub touch-IsSound :
    (id : String) (q r : DeliveryRecord)
    → q.envelope ≡ r.envelope
    → q.retry_count ≡ r.retry_count
    → q.status ≡ r.status
    → q.completed_at ≡ r.completed_at
    → IsSound id r
    → IsSound id q
touch-IsSound id q r e n t c h = record {
  keyed = rw e h.keyed;
  counted = rw (e, n) h.counted;
  within = rw (e, n) h.within;
  completed = rw (t, c) h.completed;
}
