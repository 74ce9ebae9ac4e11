-- ===== src/Delivery/Supervisor/Timeouts.antt =====
-- go-core/internal/delivery/supervisor.go, InspectTimeouts: the records that made no progress for the
-- acknowledgement timeout are retried, or dead-lettered when their retries are used up.
use sourcevcode_orchestrator.Prelude.{
  ℕ, ◌+◌, String, List, [], ◌∷◌, none, some, Bool, true, false, if◌then◌else◌, ltb, lookup, map,
}
use sourcevcode_orchestrator.Prelude.Int.{pos, ltb_ℤ, ◌+ℤ◌}
use sourcevcode_orchestrator.Domain.Envelope.{AckStatus}
use sourcevcode_orchestrator.Delivery.Bus.{is_terminal_status}
use sourcevcode_orchestrator.Delivery.Interface.{Bus}
use sourcevcode_orchestrator.Delivery.Record.{
  DeliveryRecord, HandshakeState, dead_letter, broker_managed_timeout, max_retries,
}
use sourcevcode_orchestrator.Delivery.Supervisor.{Supervisor, Inspection, modify, ack}

abbrev pub nothing : Inspection
nothing = record { overdue = 0; retried = 0; dead_lettered = 0 }

abbrev pub add : Inspection → Inspection → Inspection
add a b = record {
  overdue = a.overdue + b.overdue;
  retried = a.retried + b.retried;
  dead_lettered = a.dead_lettered + b.dead_lettered;
}

-- `!isTerminalStatus(status)` and `now.Sub(LastProgressAt) >= ackTimeout`.
unfoldable pub is_overdue : ℕ → ℕ → DeliveryRecord → Bool
unfolding is_terminal_status
is_overdue timeout now r =
    if is_terminal_status r.status
    then false
    else if ltb now (r.last_progress_at + timeout)
    then false
    else true

abbrev pub observed : ℕ → DeliveryRecord → DeliveryRecord
observed now r = record r { last_progress_at = now; handshake_state = broker_managed_timeout }

-- Its envelope's retry counter goes up, and its own follows.
unfoldable pub retried_record : ℕ → DeliveryRecord → DeliveryRecord
retried_record now r = record r {
  envelope = record r.envelope { retry_count = r.envelope.retry_count +ℤ pos 1 };
  retry_count = r.envelope.retry_count +ℤ pos 1;
  last_progress_at = now;
  handshake_state = HandshakeState.retrying;
}

unfoldable pub dead_record : ℕ → DeliveryRecord → DeliveryRecord
dead_record now r = record r {
  status = AckStatus.dead_lettered;
  last_reason = "ack_timeout";
  handshake_state = dead_letter;
  completed_at = some now;
  last_progress_at = now;
}

module _ {bus : Bus} where
  unfoldable pub retry : Supervisor bus → ℕ → String → DeliveryRecord → Supervisor bus
  unfolding retried_record modify ack
  retry s now id r =
      let e = (retried_record now r).envelope in
      let s' : Supervisor bus =
        (ack (modify id (retried_record now) s) now e.task_id AckStatus.retrying e.target_agent
          "ack_timeout").0 in
      record s' { state = (bus.send_envelope s'.state e).0 }

  unfoldable pub give_up : Supervisor bus → ℕ → String → DeliveryRecord → Supervisor bus
  unfolding dead_record modify
  give_up s now id r =
      modify id (dead_record now)
        (record s { state = (bus.mark_dead_letter_envelope s.state r.envelope "ack_timeout").0 })

  -- One round of the loop, on the record of a key.
  unfoldable pub inspect_record :
      Supervisor bus → ℕ → String → DeliveryRecord → Supervisor bus × Inspection
  unfolding is_overdue retry give_up
  inspect_record s now id r =
      if is_overdue s.ack_timeout now r
      then (if bus.broker_managed
          then (modify id (observed now) s, record { overdue = 1; retried = 0; dead_lettered = 0 })
          else (if ltb_ℤ r.retry_count (max_retries r.envelope)
              then (retry s now id r, record { overdue = 1; retried = 1; dead_lettered = 0 })
              else (give_up s now id r, record { overdue = 1; retried = 0; dead_lettered = 1 })))
      else (s, nothing)

  unfoldable pub inspect_key : Supervisor bus → ℕ → String → Supervisor bus × Inspection
  unfolding inspect_record
  inspect_key s now id = elim (lookup id s.records) [
    | none ↦ (s, nothing)
    | some r ↦ inspect_record s now id r
  ]

  unfoldable pub inspect_keys : Supervisor bus → ℕ → List String → Supervisor bus × Inspection
  unfolding inspect_key
  inspect_keys s now [] = (s, nothing)
  inspect_keys s now (id ∷ ids) =
      let (s', n) = inspect_key s now id in let (s'', m) = inspect_keys s' now ids in (s'', add n m)

  unfoldable pub inspect_timeouts : Supervisor bus → ℕ → Supervisor bus × Inspection
  unfolding inspect_keys
  inspect_timeouts s now = inspect_keys s now (map (λ (e : String × DeliveryRecord). e.0) s.records)
