-- ===== src/Delivery/Workers.antt =====
-- go-core/internal/delivery/worker_pool.go: the workers of an agent, over the supervisor. Locks are held for
-- single calls, so a worker is a sequence of calls; `now` stands for every reading of the clock while one
-- delivery is processed. What the handlers of the application do to the supervisor meanwhile is
-- their result. A delivery's Ack and Nack are calls that `settled` lists. Left out is the average latency,
-- a float.
pub mod Accounting
pub mod Retries
mod Tests
use sourcevcode_orchestrator.Prelude.{
  ℕ, zero, suc, ◌+◌, ◌-◌, String, List, [], ◌∷◌, ◌++◌, Option, none, some, Bool, true, false,
  if◌then◌else◌, ◌==◌, lookup, decimal,
}
use sourcevcode_orchestrator.Prelude.Int.{ℤ, pos, ltb_ℤ, ◌+ℤ◌, pos_part}
use sourcevcode_orchestrator.Domain.Envelope.{AckStatus, TaskEnvelope, TaskPayload, MessageAck}
use sourcevcode_orchestrator.Delivery.Interface.{Bus}
use sourcevcode_orchestrator.Delivery.Record.{
  DeliveryRecord, HandshakeState, dead_letter, max_retries,
}
use sourcevcode_orchestrator.Delivery.Supervisor.{
  Supervisor, modify, ack, confirm_payload, establish_delivery, fetch_agent_mailbox,
}
use Prim.Native.String as Str

-- Whether the delivery came with the functions Ack and Nack.
pub record EnvelopeDelivery : Type 0 where
  pub envelope : TaskEnvelope
  pub has_ack : Bool
  pub has_nack : Bool

-- An envelope of the mailbox comes without the two.
abbrev pub single : TaskEnvelope → EnvelopeDelivery
single e = record { envelope = e; has_ack = false; has_nack = false }

-- Ack(), or Nack(requeue).
pub data Settlement : Type 0 where
  acked : String → Settlement
  rejected : String → Bool → Settlement

pub record WorkerPoolMetrics : Type 0 where
  pub agent_id : String
  pub concurrency : ℕ
  pub active_workers : ℕ
  pub processed : ℕ
  pub succeeded : ℕ
  pub failed : ℕ
  pub retried : ℕ
  pub dead_lettered : ℕ
  pub validation_failures : ℕ
  pub idle_polls : ℕ
  pub last_task_id : String
  pub last_error : String
  pub last_processed_at : Option ℕ

pub record WorkerPool (bus : Bus) : Type 0 where
  pub supervisor : Supervisor bus
  pub agent_id : String
  pub concurrency : ℕ
  pub poll_interval : ℕ
  pub started : Bool
  pub metrics : WorkerPoolMetrics
  pub settled : List Settlement

-- The handler of the application returns its error, if any. A pool without a dead-letter handler has
-- the one that changes nothing.
pub record Handlers (bus : Bus) : Type 0 where
  pub handle : Supervisor bus → TaskEnvelope → Supervisor bus × Option String
  pub dead_letter : Supervisor bus → TaskEnvelope → String → Supervisor bus

abbrev pub no_metrics : String → ℕ → WorkerPoolMetrics
no_metrics agent concurrency = record {
  agent_id = agent;
  concurrency = concurrency;
  active_workers = 0;
  processed = 0;
  succeeded = 0;
  failed = 0;
  retried = 0;
  dead_lettered = 0;
  validation_failures = 0;
  idle_polls = 0;
  last_task_id = "";
  last_error = "";
  last_processed_at = none;
}

abbrev pub at_least_one : ℤ → ℕ
at_least_one n = if ltb_ℤ (pos 0) n then pos_part n else 1

unfoldable pub new_worker_pool : {bus : Bus} → Supervisor bus → String → ℤ → ℤ → WorkerPool bus
new_worker_pool s agent concurrency interval = record {
  supervisor = s;
  agent_id = agent;
  concurrency = at_least_one concurrency;
  poll_interval = if ltb_ℤ (pos 0) interval then pos_part interval else 250_000_000;
  started = false;
  metrics = no_metrics agent (at_least_one concurrency);
  settled = [];
}

abbrev pub record_work_started : WorkerPoolMetrics → WorkerPoolMetrics
record_work_started m = record m {
  active_workers = suc m.active_workers;
  processed = suc m.processed;
}

abbrev pub record_work_finished : ℕ → String → WorkerPoolMetrics → WorkerPoolMetrics
record_work_finished now id m = record m {
  active_workers = m.active_workers - 1;
  last_task_id = id;
  last_processed_at = some now;
}

abbrev pub record_idle_poll : WorkerPoolMetrics → WorkerPoolMetrics
record_idle_poll m = record m { idle_polls = suc m.idle_polls }

abbrev pub record_success : String → WorkerPoolMetrics → WorkerPoolMetrics
record_success id m = record m { succeeded = suc m.succeeded; last_task_id = id; last_error = "" }

abbrev pub record_failure : String → String → WorkerPoolMetrics → WorkerPoolMetrics
record_failure id reason m = record m {
  failed = suc m.failed;
  last_task_id = id;
  last_error = reason;
}

abbrev pub record_retried : String → String → WorkerPoolMetrics → WorkerPoolMetrics
record_retried id reason m = record m {
  retried = suc m.retried;
  last_task_id = id;
  last_error = reason;
}

abbrev pub record_dead_lettered : String → String → WorkerPoolMetrics → WorkerPoolMetrics
record_dead_lettered id reason m = record m {
  dead_lettered = suc m.dead_lettered;
  last_task_id = id;
  last_error = reason;
}

abbrev pub record_validation_failure : String → WorkerPoolMetrics → WorkerPoolMetrics
record_validation_failure id m = record m {
  validation_failures = suc m.validation_failures;
  last_task_id = id;
  last_error = "payload_validation_failed";
}

-- What retryOrDeadLetter writes to the record: on a bus whose broker redelivers, on any other bus, and
-- when the retries are used up.
abbrev pub counted_retry : ℕ → String → DeliveryRecord → DeliveryRecord
counted_retry now reason r = record r {
  retry_count = r.retry_count +ℤ pos 1;
  last_reason = reason;
  last_progress_at = now;
  handshake_state = HandshakeState.retrying;
}

unfoldable pub resent_record : ℕ → String → DeliveryRecord → DeliveryRecord
resent_record now reason r = record r {
  envelope = record r.envelope { retry_count = r.envelope.retry_count +ℤ pos 1 };
  retry_count = r.envelope.retry_count +ℤ pos 1;
  last_reason = reason;
  last_progress_at = now;
  handshake_state = HandshakeState.retrying;
}

abbrev pub given_up : ℕ → String → DeliveryRecord → DeliveryRecord
given_up now reason r = record r {
  last_reason = reason;
  last_progress_at = now;
  handshake_state = dead_letter;
}

module _ {bus : Bus} where
  abbrev pub measured : (WorkerPoolMetrics → WorkerPoolMetrics) → WorkerPool bus → WorkerPool bus
  measured f p = record p { metrics = f p.metrics }

  abbrev pub with_supervisor : Supervisor bus → WorkerPool bus → WorkerPool bus
  with_supervisor s p = record p { supervisor = s }

  -- `if delivery.Nack != nil { _ = delivery.Nack(requeue) }`
  abbrev pub reject : EnvelopeDelivery → Bool → WorkerPool bus → WorkerPool bus
  reject d requeue p = record p {
    settled =
        if d.has_nack then p.settled ++ (rejected d.envelope.task_id requeue ∷ []) else p.settled;
  }

  abbrev pub accept : EnvelopeDelivery → WorkerPool bus → WorkerPool bus
  accept d p = record p {
    settled = if d.has_ack then p.settled ++ (acked d.envelope.task_id ∷ []) else p.settled;
  }

  -- Start, with the number of workers that it launches.
  unfoldable pub start : WorkerPool bus → WorkerPool bus × ℕ
  start p = if p.started then (p, 0) else (record p { started = true }, p.concurrency)

-- ack.Reason, or the text that stands for a missing one.
abbrev pub handshake_reason : MessageAck → String
handshake_reason a = if a.reason == "" then "delivery_handshake_failed" else a.reason

abbrev pub worker_reason : ℕ → String → String
worker_reason worker err = Str.◌++◌ "worker_" (Str.◌++◌ (decimal worker) (Str.◌++◌ ": " err))

abbrev pub is_failed : AckStatus → Bool
is_failed AckStatus.failed = true
is_failed _ = false

module _ {bus : Bus} (h : Handlers bus) where
  unfoldable pub handle_dead_letter :
      WorkerPool bus → ℕ → EnvelopeDelivery → String → WorkerPool bus
  handle_dead_letter p now d reason =
      let id = d.envelope.task_id in
      let s = (ack p.supervisor now id AckStatus.dead_lettered p.agent_id reason).0 in
      measured (record_dead_lettered id reason)
        (reject d false (with_supervisor (h.dead_letter s d.envelope reason) p))

  unfoldable pub retry_managed :
      WorkerPool bus → ℕ → EnvelopeDelivery → String → DeliveryRecord → WorkerPool bus
  unfolding handle_dead_letter
  retry_managed p now d reason r =
      let id = d.envelope.task_id in
      if ltb_ℤ r.retry_count (max_retries r.envelope)
      then (let s = modify id (counted_retry now reason) p.supervisor in
          measured (record_retried id reason) (
            reject d true
              (with_supervisor (ack s now id AckStatus.retrying p.agent_id reason).0 p)))
      else handle_dead_letter (with_supervisor (modify id (given_up now reason) p.supervisor) p) now
          d reason

  -- The retried envelope is sent again, and the dead one is marked on the bus.
  unfoldable pub retry_direct :
      WorkerPool bus → ℕ → EnvelopeDelivery → String → DeliveryRecord → WorkerPool bus
  unfolding resent_record
  retry_direct p now d reason r =
      let id = d.envelope.task_id in
      if ltb_ℤ r.retry_count (max_retries r.envelope)
      then (let s : Supervisor bus =
            (ack (modify id (resent_record now reason) p.supervisor) now id AckStatus.retrying
              p.agent_id reason).0 in
          let b = (bus.send_envelope s.state (resent_record now reason r).envelope).0 in
          measured (record_retried id reason) (with_supervisor (record s { state = b }) p))
      else (let s : Supervisor bus = modify id (given_up now reason) p.supervisor in
          let b = (bus.mark_dead_letter_envelope s.state r.envelope reason).0 in
          measured (record_dead_lettered id reason)
            (with_supervisor (h.dead_letter (record s { state = b }) r.envelope reason) p))

  unfoldable pub retry_or_dead_letter :
      WorkerPool bus → ℕ → EnvelopeDelivery → String → WorkerPool bus
  unfolding retry_managed retry_direct
  retry_or_dead_letter p now d reason = elim (lookup d.envelope.task_id p.supervisor.records) [
    | none ↦ if bus.broker_managed then reject d true p else p
    | some r ↦
        if bus.broker_managed then retry_managed p now d reason r else retry_direct p now d reason r
  ]

  unfoldable pub failure : WorkerPool bus → ℕ → EnvelopeDelivery → String → WorkerPool bus
  unfolding retry_or_dead_letter
  failure p now d reason =
      retry_or_dead_letter (measured (record_failure d.envelope.task_id reason) p) now d reason

  unfoldable pub invalid_payload : WorkerPool bus → ℕ → EnvelopeDelivery → WorkerPool bus
  unfolding handle_dead_letter
  invalid_payload p now d =
      let id = d.envelope.task_id in
      let s = (ack p.supervisor now id AckStatus.failed p.agent_id "payload_validation_failed").0 in
      handle_dead_letter (measured (record_validation_failure id) (with_supervisor s p)) now d
        "payload_validation_failed"

  unfoldable pub completed : WorkerPool bus → ℕ → EnvelopeDelivery → WorkerPool bus
  completed p now d =
      let id = d.envelope.task_id in
      let s = (ack p.supervisor now id AckStatus.accepted p.agent_id "worker_completed").0 in
      measured (record_success id) (accept d (with_supervisor s p))

  -- The call of the handler and what follows it.
  unfoldable pub handled : WorkerPool bus → ℕ → EnvelopeDelivery → ℕ → WorkerPool bus
  unfolding failure completed
  handled p now d worker =
      let (s, err) = h.handle p.supervisor d.envelope in
      elim err [
        | some e ↦ failure (with_supervisor s p) now d (worker_reason worker e)
        | none ↦ completed (with_supervisor s p) now d
      ]

  unfoldable pub confirmed : WorkerPool bus → ℕ → EnvelopeDelivery → ℕ → WorkerPool bus
  unfolding handled failure
  confirmed p now d worker =
      let (s, a) = establish_delivery p.supervisor now d.envelope.task_id p.agent_id in
      if is_failed a.ack_status
      then failure (with_supervisor s p) now d (handshake_reason a)
      else handled (with_supervisor s p) now d worker

  module _ (checksum : TaskPayload → String) where
    unfoldable pub attempt : WorkerPool bus → ℕ → EnvelopeDelivery → ℕ → WorkerPool bus
    unfolding confirmed invalid_payload
    attempt p now d worker =
        let (s, valid) =
          confirm_payload checksum p.supervisor now d.envelope.task_id p.agent_id d.envelope in
        if valid
        then confirmed (with_supervisor s p) now d worker
        else invalid_payload (with_supervisor s p) now d

    unfoldable pub process_envelope : WorkerPool bus → ℕ → EnvelopeDelivery → ℕ → WorkerPool bus
    unfolding attempt
    process_envelope p now d worker =
        measured (record_work_finished now d.envelope.task_id)
          (attempt (measured record_work_started p) now d worker)

    unfoldable pub process_all : WorkerPool bus → ℕ → List TaskEnvelope → ℕ → WorkerPool bus
    unfolding process_envelope
    process_all p now [] worker = p
    process_all p now (e ∷ mailbox) worker =
        process_all (process_envelope p now (single e) worker) now mailbox worker

    -- One round of the loop of runWorker.
    unfoldable pub poll : WorkerPool bus → ℕ → ℕ → WorkerPool bus
    unfolding process_all
    poll p now worker =
        let (s, mailbox) = fetch_agent_mailbox p.supervisor now p.agent_id (pos 1) in
        elim mailbox [
          | [] ↦ measured record_idle_poll (with_supervisor s p)
          | e ∷ rest ↦ process_all (with_supervisor s p) now (e ∷ rest) worker
        ]

    -- What the goroutines of the pool do, round by round: a poll of the mailbox by a worker, or a
    -- delivery of the stream, while other clients change the supervisor and its bus.
    pub data Round : WorkerPool bus → WorkerPool bus → Type 0 where
      polls : (p : WorkerPool bus) (now worker : ℕ) → Round p (poll p now worker)
      delivers :
          (p : WorkerPool bus) (now : ℕ) (d : EnvelopeDelivery) (worker : ℕ)
          → Round p (process_envelope p now d worker)
      others : (p : WorkerPool bus) (s : Supervisor bus) → Round p (with_supervisor s p)

    pub data Run (p : WorkerPool bus) : WorkerPool bus → Type 0 where
      here : Run p p
      next : {q r : WorkerPool bus} → Run p q → Round q r → Run p r
