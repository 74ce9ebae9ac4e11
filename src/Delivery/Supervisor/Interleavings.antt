-- ===== src/Delivery/Supervisor/Interleavings.antt =====
-- The supervisor under any interleaving of its calls and of the rounds of its inspections. The source holds no
-- lock over a whole round: two inspections that look at one record at once are not covered.
use sourcevcode_orchestrator.Prelude.{map, List, [], ◌∷◌, ℕ, String, lookup}
use sourcevcode_orchestrator.Prelude.Int.{ℤ, ◌≤ℤ◌}
use sourcevcode_orchestrator.Domain.Envelope.{AckStatus, TaskEnvelope, TaskPayload}
use sourcevcode_orchestrator.Delivery.Interface.{Bus}
use sourcevcode_orchestrator.Delivery.Record.{DeliveryRecord, max_retries}
use sourcevcode_orchestrator.Delivery.Supervisor.{
  Supervisor, fetch_agent_mailbox, ack, establish_delivery, dispatch, confirm_payload,
  new_supervisor,
}
use sourcevcode_orchestrator.Delivery.Supervisor.Timeouts.{
  inspect_key, inspect_keys, inspect_timeouts,
}
use sourcevcode_orchestrator.Delivery.Supervisor.Calls.{
  SoundRecords, ack-SoundRecords, fetch-SoundRecords, establish_delivery-SoundRecords,
  inspect_key-SoundRecords, dispatch-SoundRecords, confirm_payload-SoundRecords,
}

new-SoundRecords :
    (bus : Bus) (b : bus.State) (timeout : ℤ) → SoundRecords (new_supervisor bus b timeout)
unfolding new_supervisor lookup
new-SoundRecords bus b timeout id r e = absurd (cc e)

module _ {bus : Bus} (checksum : TaskPayload → String) where
  -- One call of the supervisor, one round of InspectTimeouts on one record, or any change of the bus by its
  -- other clients. Other calls come between the rounds of an inspection, none during a round.
  pub data Step : Supervisor bus → Supervisor bus → Type 0 where
    dispatches :
        (s : Supervisor bus) (now : ℕ) (e : TaskEnvelope)
        → e.retry_count ≤ℤ max_retries e
        → Step s (dispatch checksum s now e)
    fetches :
        (s : Supervisor bus) (now : ℕ) (agent : String) (limit : ℤ)
        → Step s (fetch_agent_mailbox s now agent limit).0
    confirms :
        (s : Supervisor bus) (now : ℕ) (id agent : String) (e : TaskEnvelope)
        → Step s (confirm_payload checksum s now id agent e).0
    acks :
        (s : Supervisor bus) (now : ℕ) (id : String) (status : AckStatus) (by reason : String)
        → Step s (ack s now id status by reason).0
    establishes :
        (s : Supervisor bus) (now : ℕ) (id agent : String)
        → Step s (establish_delivery s now id agent).0
    inspects : (s : Supervisor bus) (now : ℕ) (id : String) → Step s (inspect_key s now id).0
    bus_moves : (s : Supervisor bus) (b : bus.State) → Step s (record s { state = b })

  pub data Reach (s : Supervisor bus) : Supervisor bus → Type 0 where
    here : Reach s s
    next : {t u : Supervisor bus} → Reach s t → Step t u → Reach s u

  inspect_keys-Reach :
      (ids : List String) (now : ℕ) {s t : Supervisor bus}
      → Reach s t
      → Reach s (inspect_keys t now ids).0
  unfolding inspect_keys
  inspect_keys-Reach [] now r = r
  inspect_keys-Reach (id ∷ ids) now {t = t} r =
      inspect_keys-Reach ids now (next r (Step.inspects t now id))

  -- InspectTimeouts is a sequence of such rounds.
  pub inspect_timeouts-Reach : (s : Supervisor bus) (now : ℕ) → Reach s (inspect_timeouts s now).0
  unfolding inspect_timeouts
  inspect_timeouts-Reach s now =
      inspect_keys-Reach (map (λ (e : String × DeliveryRecord). e.0) s.records) now here

  Step-SoundRecords : {s t : Supervisor bus} → Step s t → SoundRecords s → SoundRecords t
  unfolding fetch_agent_mailbox
  Step-SoundRecords (dispatches s now e w) h = dispatch-SoundRecords checksum s now e w h
  Step-SoundRecords (fetches s now agent limit) h = fetch-SoundRecords _ s now agent h
  Step-SoundRecords (confirms s now id agent e) h =
      confirm_payload-SoundRecords checksum s now id agent e h
  Step-SoundRecords (acks s now id status by reason) h =
      ack-SoundRecords s now id status by reason h
  Step-SoundRecords (establishes s now id agent) h =
      establish_delivery-SoundRecords s now id agent h
  Step-SoundRecords (inspects s now id) h = inspect_key-SoundRecords s now id h
  Step-SoundRecords (bus_moves s b) h = h

  Reach-SoundRecords_from : {s t : Supervisor bus} → SoundRecords s → Reach s t → SoundRecords t
  Reach-SoundRecords_from h here = h
  Reach-SoundRecords_from h (next r st) = Step-SoundRecords st (Reach-SoundRecords_from h r)

  -- After any sequence of the supervisor's calls, of the rounds of its inspections and of changes of the
  -- bus, each of them atomic, provided that no envelope is dispatched with more retries than its limit:
  -- every record stands under the task id of its envelope, its retry counter is that of the envelope and
  -- never exceeds the envelope's limit, and a record in a terminal status has a completion time.
  pub Reach-SoundRecords :
      (b : bus.State) (timeout : ℤ) {t : Supervisor bus}
      → Reach (new_supervisor bus b timeout) t
      → SoundRecords t
  Reach-SoundRecords b timeout = Reach-SoundRecords_from (new-SoundRecords bus b timeout)
