-- ===== src/Delivery/Record.antt =====
-- go-core/internal/delivery/supervisor.go: the record of one delivery, and the replay of its history of
-- acknowledgements.
use sourcevcode_orchestrator.Prelude.{
  ℕ, String, List, [], ◌∷◌, Option, none, some, Bool, true, if◌then◌else◌,
}
use sourcevcode_orchestrator.Prelude.Int.{ℤ, pos, ltb_ℤ}
use sourcevcode_orchestrator.Domain.Envelope.{AckStatus, TaskEnvelope, MessageAck}

-- The texts that the supervisor writes to HandshakeState.
pub data HandshakeState : Type 0 where
  syn syn_ack ack_valid invalid retrying dead_letter failed established broker_managed_timeout :
      HandshakeState

pub record DeliveryRecord : Type 0 where
  pub envelope : TaskEnvelope
  pub status : AckStatus
  pub sent_at : ℕ
  pub last_progress_at : ℕ
  pub received_at : Option ℕ
  pub completed_at : Option ℕ
  pub received_by : String
  pub last_reason : String
  pub retry_count : ℤ
  pub last_audited_status : String
  pub handshake_state : HandshakeState
  pub payload_checksum : String
  pub payload_validated : Bool

unfoldable pub max_retries : TaskEnvelope → ℤ
max_retries e = if ltb_ℤ (pos 0) e.max_retries then e.max_retries else pos 3

-- The time that stands there, or now.
abbrev pub or_now : Option ℕ → ℕ → Option ℕ
or_now none now = some now
or_now (some t) now = some t

abbrev pub syn_to_syn_ack : HandshakeState → HandshakeState
syn_to_syn_ack syn = syn_ack
syn_to_syn_ack h = h

abbrev pub established_if : Bool → HandshakeState → HandshakeState
established_if validated h = if validated then established else h

-- The switch of applyHistory, for one acknowledgement.
unfoldable pub apply_status : AckStatus → ℕ → MessageAck → DeliveryRecord → DeliveryRecord
apply_status AckStatus.unset now a r = r
apply_status AckStatus.sent now a r = record r { status = AckStatus.sent }
apply_status AckStatus.queued now a r = record r { status = AckStatus.queued }
apply_status AckStatus.received now a r = record r {
  status = AckStatus.received;
  received_by = a.received_by;
  last_progress_at = now;
  received_at = or_now r.received_at now;
  handshake_state = syn_to_syn_ack r.handshake_state;
}
apply_status AckStatus.validated now a r = record r {
  status = AckStatus.validated;
  received_by = a.received_by;
  last_reason = a.reason;
  last_progress_at = now;
  payload_validated = true;
  handshake_state = ack_valid;
}
apply_status AckStatus.retrying now a r = record r {
  status = AckStatus.retrying;
  received_by = a.received_by;
  last_reason = a.reason;
  last_progress_at = now;
  handshake_state = HandshakeState.retrying;
}
apply_status AckStatus.accepted now a r = record r {
  status = AckStatus.accepted;
  received_by = a.received_by;
  last_reason = a.reason;
  last_progress_at = now;
  completed_at = or_now r.completed_at now;
  handshake_state = established_if r.payload_validated r.handshake_state;
}
apply_status AckStatus.dead_lettered now a r = record r {
  status = AckStatus.dead_lettered;
  received_by = a.received_by;
  last_reason = a.reason;
  last_progress_at = now;
  handshake_state = dead_letter;
  completed_at = or_now r.completed_at now;
}
apply_status AckStatus.failed now a r = record r {
  status = AckStatus.failed;
  received_by = a.received_by;
  last_reason = a.reason;
  last_progress_at = now;
  completed_at = or_now r.completed_at now;
}

unfoldable pub apply_history : ℕ → DeliveryRecord → List MessageAck → DeliveryRecord
unfolding apply_status
apply_history now r [] = r
apply_history now r (a ∷ h) = apply_history now (apply_status a.ack_status now a r) h
