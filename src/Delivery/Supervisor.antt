-- ===== src/Delivery/Supervisor.antt =====
-- go-core/internal/delivery/supervisor.go. The supervisor over any bus. `payload_checksum` stands for
-- the JSON encoding of a payload and its SHA-256 digest, `now` for every reading of the clock during one
-- call. `records` lists the entries of the Go map in some order; a record behind its pointer is the
-- entry of its key. The audit hook has no effect in the source and is left out.
pub mod Calls
pub mod Handshake
pub mod Health
pub mod Interleavings
pub mod Overlap
pub mod Inspected
pub mod Records
pub mod Expiry
pub mod Retries
pub mod Sound
pub mod Timeouts
mod Tests
use sourcevcode_orchestrator.Prelude.{
  ℕ, zero, suc, ◌+◌, ◌-◌, String, List, [], ◌∷◌, ◌++◌, map, Option, none, some, Bool, true, false,
  if◌then◌else◌, ◌==◌, ◌&&◌, not, ltb, lookup, insert, keep,
}
use sourcevcode_orchestrator.Prelude.Int.{ℤ, pos, ltb_ℤ, ◌+ℤ◌, pos_part}
use sourcevcode_orchestrator.Domain.Envelope.{AckStatus, TaskEnvelope, TaskPayload, MessageAck}
use sourcevcode_orchestrator.Delivery.Bus.{agent_topic, is_terminal_status, message_ack}
use sourcevcode_orchestrator.Delivery.Interface.{Bus}
use sourcevcode_orchestrator.Delivery.Record.{
  DeliveryRecord, HandshakeState, syn, syn_ack, ack_valid, invalid, dead_letter, established,
  broker_managed_timeout, max_retries, or_now, apply_history,
}

pub record Snapshot : Type 0 where
  pub task_id : String
  pub target_agent : String
  pub status : AckStatus
  pub retry_count : ℤ
  pub max_retries : ℤ
  pub received_by : String
  pub last_reason : String
  pub sent_at : ℕ
  pub ack_history : List AckStatus
  pub queue_depth : ℕ
  pub handshake_state : HandshakeState
  pub payload_validated : Bool
  pub payload_checksum : String
  pub received_at : Option ℕ
  pub completed_at : Option ℕ

pub record Inspection : Type 0 where
  pub overdue : ℕ
  pub retried : ℕ
  pub dead_lettered : ℕ

-- The zero MessageAck{}.
abbrev pub no_ack : MessageAck
no_ack = message_ack "" AckStatus.unset "" ""

-- The handshake state that Dispatch sets where SendEnvelope ended the delivery.
abbrev pub dispatch_handshake : AckStatus → HandshakeState → HandshakeState
dispatch_handshake AckStatus.dead_lettered h = dead_letter
dispatch_handshake AckStatus.failed h = HandshakeState.failed
dispatch_handshake _ h = h

-- Dispatch, on the record, after SendEnvelope returned.
unfoldable pub after_send : ℕ → MessageAck → DeliveryRecord → DeliveryRecord
unfolding is_terminal_status
after_send now a r = record r {
  status = a.ack_status;
  last_progress_at = now;
  last_reason = if a.reason == "" then r.last_reason else a.reason;
  completed_at = if is_terminal_status a.ack_status then some now else r.completed_at;
  handshake_state = dispatch_handshake a.ack_status r.handshake_state;
}

-- The switch of Supervisor.Ack.
unfoldable pub acknowledged : AckStatus → ℕ → DeliveryRecord → DeliveryRecord
acknowledged AckStatus.received now r = record r {
  received_at = or_now r.received_at now;
  handshake_state = elim r.handshake_state [ syn ↦ syn_ack | h ↦ h ];
}
acknowledged AckStatus.validated now r = record r {
  payload_validated = true;
  handshake_state = ack_valid;
}
acknowledged AckStatus.retrying now r = record r { handshake_state = HandshakeState.retrying }
acknowledged AckStatus.dead_lettered now r = record r { handshake_state = dead_letter }
acknowledged _ now r = r

-- Supervisor.Ack, on the record.
unfoldable pub ack_record : ℕ → AckStatus → String → String → DeliveryRecord → DeliveryRecord
unfolding is_terminal_status acknowledged
ack_record now status by reason r =
    let r' : DeliveryRecord = acknowledged status now (record r {
      status = status;
      received_by = by;
      last_reason = reason;
      last_progress_at = now;
    }) in
    record r' { completed_at = if is_terminal_status status then some now else r'.completed_at }

pub record Supervisor (bus : Bus) : Type 0 where
  pub state : bus.State
  pub records : List (String × DeliveryRecord)
  pub ack_timeout : ℕ

-- NewSupervisor with a bus; a timeout of nanoseconds that is not positive becomes 30 seconds.
unfoldable pub new_supervisor : (bus : Bus) → bus.State → ℤ → Supervisor bus
new_supervisor bus b timeout = record {
  state = b;
  records = [];
  ack_timeout = if ltb_ℤ (pos 0) timeout then pos_part timeout else 30_000_000_000;
}

-- CreatedAt is set where it is the zero time.
unfoldable pub stamp : ℕ → TaskEnvelope → TaskEnvelope
stamp now e = if ltb 0 e.created_at then e else record e { created_at = now }

-- FetchAgentMailbox, on the record of a received envelope.
unfoldable pub received_record : ℕ → String → List MessageAck → DeliveryRecord → DeliveryRecord
received_record now agent history r =
    apply_history now
      (record r {
        received_by = agent;
        received_at = some now;
        last_progress_at = now;
        handshake_state = syn_ack;
      })
      history

abbrev pub mismatched : DeliveryRecord → DeliveryRecord
mismatched r = record r {
  payload_validated = false;
  handshake_state = invalid;
  last_reason = "payload_checksum_mismatch";
}

abbrev pub matched : ℕ → DeliveryRecord → DeliveryRecord
matched now r = record r {
  payload_validated = true;
  handshake_state = ack_valid;
  last_progress_at = now;
}

abbrev pub not_validated : ℕ → DeliveryRecord → DeliveryRecord
not_validated now r = record r {
  status = AckStatus.failed;
  last_reason = "payload_not_validated";
  handshake_state = invalid;
  completed_at = some now;
  last_progress_at = now;
}

-- The record that Dispatch stores before it sends.
unfoldable pub dispatch_record : (TaskPayload → String) → ℕ → TaskEnvelope → DeliveryRecord
dispatch_record checksum now e = record {
  envelope = e;
  status = AckStatus.sent;
  sent_at = now;
  last_progress_at = now;
  received_at = none;
  completed_at = none;
  received_by = "";
  last_reason = "";
  retry_count = e.retry_count;
  last_audited_status = "";
  handshake_state = syn;
  payload_checksum = checksum e.payload;
  payload_validated = false;
}

module _ {bus : Bus} where
  -- applyHistory on a copy of the record, and snapshotLocked.
  unfoldable pub view : Supervisor bus → ℕ → DeliveryRecord → Snapshot
  view s now r =
      let history = bus.ack_history s.state r.envelope.task_id in
      let r' = apply_history now r history in
      record {
        task_id = r'.envelope.task_id;
        target_agent = r'.envelope.target_agent;
        status = r'.status;
        retry_count = r'.retry_count;
        max_retries = max_retries r'.envelope;
        received_by = r'.received_by;
        last_reason = r'.last_reason;
        sent_at = r'.sent_at;
        ack_history = map (λ (a : MessageAck). a.ack_status) history;
        queue_depth = bus.depth s.state (agent_topic r'.envelope.target_agent);
        handshake_state = r'.handshake_state;
        payload_validated = r'.payload_validated;
        payload_checksum = r'.payload_checksum;
        received_at = r'.received_at;
        completed_at = r'.completed_at;
      }

  -- Refresh and Snapshot have one body; `none` is the empty map. Both change nothing.
  unfoldable pub snapshot : Supervisor bus → ℕ → String → Option Snapshot
  unfolding view
  snapshot s now id = elim (lookup id s.records) [ none ↦ none | some r ↦ some (view s now r) ]

  -- Writes the record of a key, where there is one.
  unfoldable pub modify :
      String → (DeliveryRecord → DeliveryRecord) → Supervisor bus → Supervisor bus
  modify id f s = elim (lookup id s.records) [
    | none ↦ s
    | some r ↦ record s { records = insert id (f r) s.records }
  ]

  -- The loop of FetchAgentMailbox, over the items that still fit.
  unfoldable pub fetch : ℕ → Supervisor bus → ℕ → String → Supervisor bus × List TaskEnvelope
  unfolding modify received_record
  fetch zero s now agent = (s, [])
  fetch (suc n) s now agent =
      let (b, found) = bus.receive_for_agent s.state agent in
      elim found [
        | none ↦ (record s { state = b }, [])
        | some e ↦
            let history = bus.ack_history b e.task_id in
            let s' : Supervisor bus =
              modify e.task_id (received_record now agent history) (record s { state = b }) in
            let (s'', items) = fetch n s' now agent in (s'', e ∷ items)
      ]

  unfoldable pub fetch_agent_mailbox :
      Supervisor bus → ℕ → String → ℤ → Supervisor bus × List TaskEnvelope
  unfolding fetch
  fetch_agent_mailbox s now agent limit =
      fetch (if ltb_ℤ (pos 0) limit then pos_part limit else 1) s now agent

  unfoldable pub ack :
      Supervisor bus → ℕ → String → AckStatus → String → String → Supervisor bus × MessageAck
  unfolding modify
  ack s now id status by reason =
      let (b, a) = bus.ack s.state id status by reason in
      (modify id (ack_record now status by reason) (record s { state = b }), a)

  unfoldable pub establish_delivery :
      Supervisor bus → ℕ → String → String → Supervisor bus × MessageAck
  unfolding modify
  establish_delivery s now id agent = elim (lookup id s.records) [
    | none ↦ (s, no_ack)
    | some r ↦
        if r.payload_validated
        then (let (b, a) = bus.ack s.state id AckStatus.received agent "delivery_established" in
            (
              modify id (λ q. record q { handshake_state = established; last_progress_at = now })
                  (record s { state = b }),
              a,
            ))
        else (let (b, a) = bus.ack s.state id AckStatus.failed agent "payload_not_validated" in
            (modify id (not_validated now) (record s { state = b }), a))
  ]

module _ {bus : Bus} (payload_checksum : TaskPayload → String) where
  unfoldable pub dispatch : Supervisor bus → ℕ → TaskEnvelope → Supervisor bus
  unfolding stamp dispatch_record after_send
  dispatch s now envelope =
      let e = stamp now envelope in
      let (b, a) = bus.send_envelope s.state e in
      record s {
        state = b;
        records =
            insert e.task_id (after_send now a (dispatch_record payload_checksum now e)) s.records;
      }

  unfoldable pub confirm_payload :
      Supervisor bus → ℕ → String → String → TaskEnvelope → Supervisor bus × Bool
  unfolding modify ack
  confirm_payload s now id agent e = elim (lookup id s.records) [
    | none ↦ (s, false)
    | some r ↦
        if payload_checksum e.payload == r.payload_checksum
        then (
          (ack (modify id (matched now) s) now id AckStatus.validated agent
              "payload_checksum_ok").0,
          true,
        )
        else (modify id mismatched s, false)
  ]
