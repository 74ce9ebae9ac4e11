-- ===== src/Delivery/Workers/Retries.antt =====
-- Retries and dead letters of the pool, on a bus that redelivers nothing by itself.
use sourcevcode_orchestrator.Prelude.{
  ℕ, suc, ◌+◌, ◌≤◌, String, some, true, false, ◌≡◌, refl, sym, subst, ◌∙◌, arith, inl, inr,
  Option-cases, true≢false, if_cases, some_inj,
}
use sourcevcode_orchestrator.Prelude.Int.{ltb_ℤ, ◌+ℤ◌}
use sourcevcode_orchestrator.Domain.Envelope.{AckStatus, TaskEnvelope, TaskPayload}
use sourcevcode_orchestrator.Delivery.Bus.{is_terminal_status}
use sourcevcode_orchestrator.Delivery.Interface.{Bus}
use sourcevcode_orchestrator.Delivery.Record.{DeliveryRecord, max_retries}
use sourcevcode_orchestrator.Delivery.Supervisor.{
  Supervisor, Inspection, modify, confirm_payload, establish_delivery,
}
use sourcevcode_orchestrator.Delivery.Supervisor.Records.{
  record_of, EachRecord-modify, modify-found, ack_timeout-modify,
}
use sourcevcode_orchestrator.Delivery.Supervisor.Sound.{IsSound, touch-IsSound}
use sourcevcode_orchestrator.Delivery.Supervisor.Calls.{
  SoundRecords, ack-SoundRecords, establish_delivery-SoundRecords, confirm_payload-SoundRecords,
}
use sourcevcode_orchestrator.Delivery.Supervisor.Timeouts.{is_overdue, inspect_key, inspect_record}
use sourcevcode_orchestrator.Delivery.Supervisor.Expiry.{overdue}
use sourcevcode_orchestrator.Delivery.Workers.{
  WorkerPool, EnvelopeDelivery, Handlers, measured, with_supervisor, record_work_started,
  record_failure, resent_record, given_up, handle_dead_letter, retry_direct, retry_or_dead_letter,
  failure, invalid_payload, completed, handled, confirmed, attempt, process_envelope, is_failed,
  handshake_reason, worker_reason,
}

resent_record-IsSound :
    (now : ℕ) (reason id : String) (r : DeliveryRecord)
    → ltb_ℤ r.retry_count (max_retries r.envelope) ≡ true
    → IsSound id r
    → IsSound id (resent_record now reason r)
unfolding resent_record max_retries ◌+ℤ◌
resent_record-IsSound now reason id r t h = record {
  keyed = h.keyed;
  counted = refl;
  within = ground arith;
  completed = h.completed;
}

module _ {bus : Bus} (h : Handlers bus) (direct : bus.broker_managed ≡ false)
    (handle_sound : (s : Supervisor bus) (e : TaskEnvelope)
      → SoundRecords s
      → SoundRecords (h.handle s e).0)
    (dead_sound : (s : Supervisor bus) (e : TaskEnvelope) (reason : String)
      → SoundRecords s
      → SoundRecords (h.dead_letter s e reason)) where
  abbrev SoundPool : WorkerPool bus → Type 0
  SoundPool p = SoundRecords p.supervisor

  dead_letter-SoundPool :
      (p : WorkerPool bus) (now : ℕ) (d : EnvelopeDelivery) (reason : String)
      → SoundPool p
      → SoundPool (handle_dead_letter h p now d reason)
  unfolding handle_dead_letter
  dead_letter-SoundPool p now d reason k = dead_sound _ d.envelope reason (
      ack-SoundRecords p.supervisor now d.envelope.task_id AckStatus.dead_lettered p.agent_id reason
        k)

  retry_direct-SoundPool :
      (p : WorkerPool bus) (now : ℕ) (d : EnvelopeDelivery) (reason : String) (r : DeliveryRecord)
      → record_of p.supervisor d.envelope.task_id ≡ some r
      → SoundPool p
      → SoundPool (retry_direct h p now d reason r)
  unfolding retry_direct
  retry_direct-SoundPool p now d reason r e k =
      if_cases SoundPool (ltb_ℤ r.retry_count (max_retries r.envelope))
        (λ t.
          ack-SoundRecords (modify d.envelope.task_id (resent_record now reason) p.supervisor) now
            d.envelope.task_id AckStatus.retrying p.agent_id reason
            (EachRecord-modify IsSound d.envelope.task_id (resent_record now reason) p.supervisor
              (λ q f.
                let same : r ≡ q = some_inj (sym e ∙ f) in
                resent_record-IsSound now reason d.envelope.task_id q (
                  subst
                    (λ (x : DeliveryRecord). ltb_ℤ x.retry_count (max_retries x.envelope) ≡ true)
                    same t))
              k))
        (λ _. dead_sound _ r.envelope reason (
          EachRecord-modify IsSound d.envelope.task_id (given_up now reason) p.supervisor
            (λ q _. touch-IsSound d.envelope.task_id (given_up now reason q) q refl refl refl refl)
            k))

  failure-SoundPool :
      (p : WorkerPool bus) (now : ℕ) (d : EnvelopeDelivery) (reason : String)
      → SoundPool p
      → SoundPool (failure h p now d reason)
  unfolding failure retry_or_dead_letter
  failure-SoundPool p now d reason k =
      elim (Option-cases (record_of p.supervisor d.envelope.task_id)) [
        | inl e ↦ rw (e, retry_or_dead_letter, direct) k
        | inr (r, e) ↦
            rw (e, retry_or_dead_letter, direct)
              (retry_direct-SoundPool (measured (record_failure d.envelope.task_id reason) p) now d
                reason r e k)
      ]

  handled-SoundPool :
      (p : WorkerPool bus) (now : ℕ) (d : EnvelopeDelivery) (worker : ℕ)
      → SoundPool p
      → SoundPool (handled h p now d worker)
  unfolding handled completed
  handled-SoundPool p now d worker k =
      let s = (h.handle p.supervisor d.envelope).0 in
      let k' = handle_sound p.supervisor d.envelope k in
      elim (Option-cases (h.handle p.supervisor d.envelope).1) [
        | inl e ↦
            rw (e, handled)
              (ack-SoundRecords s now d.envelope.task_id AckStatus.accepted p.agent_id
                "worker_completed" k')
        | inr (x, e) ↦
            rw (e, handled)
              (failure-SoundPool (with_supervisor s p) now d (worker_reason worker x) k')
      ]

  confirmed-SoundPool :
      (p : WorkerPool bus) (now : ℕ) (d : EnvelopeDelivery) (worker : ℕ)
      → SoundPool p
      → SoundPool (confirmed h p now d worker)
  unfolding confirmed
  confirmed-SoundPool p now d worker k =
      let (s, a) = establish_delivery p.supervisor now d.envelope.task_id p.agent_id in
      let k' = establish_delivery-SoundRecords p.supervisor now d.envelope.task_id p.agent_id k in
      if_cases SoundPool (is_failed a.ack_status)
        (λ _. failure-SoundPool (with_supervisor s p) now d (handshake_reason a) k')
        (λ _. handled-SoundPool (with_supervisor s p) now d worker k')

  -- Processing a delivery keeps every record under the task id of its envelope, its retry counter equal to the
  -- envelope's and within the limit, and completed where its status is terminal. The bus is not managed
  -- by a broker, and the handlers keep the same.
  pub process-SoundRecords :
      (checksum : TaskPayload → String) (p : WorkerPool bus) (now : ℕ) (d : EnvelopeDelivery)
      (worker : ℕ)
      → SoundRecords p.supervisor
      → SoundRecords (process_envelope h checksum p now d worker).supervisor
  unfolding process_envelope attempt invalid_payload
  process-SoundRecords checksum p now d worker k =
      let q = confirm_payload checksum p.supervisor now d.envelope.task_id p.agent_id d.envelope in
      let k' =
        confirm_payload-SoundRecords checksum p.supervisor now d.envelope.task_id p.agent_id
          d.envelope k in
      if_cases SoundPool q.1
        (λ _.
          confirmed-SoundPool (with_supervisor q.0 (measured record_work_started p)) now d worker
            k')
        (λ _. dead_sound _ d.envelope "payload_validation_failed" (
          ack-SoundRecords _ now d.envelope.task_id AckStatus.dead_lettered p.agent_id _ (
            ack-SoundRecords q.0 now d.envelope.task_id AckStatus.failed p.agent_id
              "payload_validation_failed" k')))

abbrev IsSecond : Inspection → Type 0
IsSecond n = n ≡ record { overdue = 1; retried = 0; dead_lettered = 1 }

module _ {bus : Bus} (direct : bus.broker_managed ≡ false) where
  inspect_spent :
      (s : Supervisor bus) (later : ℕ) (id : String) (r : DeliveryRecord)
      → record_of s id ≡ some r
      → is_terminal_status r.status ≡ false
      → ltb_ℤ r.retry_count (max_retries r.envelope) ≡ false
      → r.last_progress_at + s.ack_timeout ≤ later
      → IsSecond (inspect_key s later id).1
  unfolding inspect_key inspect_record is_overdue
  inspect_spent s later id r e open_status spent enough =
      rw (e, inspect_key)
        (if_cases (λ (q : Supervisor bus × Inspection). IsSecond q.1)
          (is_overdue s.ack_timeout later r)
          (λ _.
            if_cases (λ (q : Supervisor bus × Inspection). IsSecond q.1) bus.broker_managed
              (λ t. absurd (true≢false (sym t ∙ direct)))
              (λ _.
                if_cases (λ (q : Supervisor bus × Inspection). IsSecond q.1)
                  (ltb_ℤ r.retry_count (max_retries r.envelope))
                  (λ t. absurd (true≢false (sym t ∙ spent))) (λ _. refl)))
          (λ f. absurd (true≢false (sym (overdue s.ack_timeout later r open_status enough) ∙ f))))

  -- A delivery that the pool gives up, on a bus that no broker manages, is given up a second time by an
  -- inspection after the acknowledgement timeout: the pool leaves the status of the record as it was,
  -- and not terminal. The dead-letter handler does nothing to the supervisor.
  pub given_up_again :
      (h : Handlers bus) (p : WorkerPool bus) (now later : ℕ) (d : EnvelopeDelivery)
      (reason : String) (r : DeliveryRecord)
      → record_of p.supervisor d.envelope.task_id ≡ some r
      → is_terminal_status r.status ≡ false
      → ltb_ℤ r.retry_count (max_retries r.envelope) ≡ false
      → ((s : Supervisor bus) → h.dead_letter s r.envelope reason ≡ s)
      → now + p.supervisor.ack_timeout ≤ later
      → let q = retry_or_dead_letter h p now d reason in
        (q.metrics.dead_lettered ≡ suc p.metrics.dead_lettered)
        × ((inspect_key q.supervisor later d.envelope.task_id).1
            ≡ record { overdue = 1; retried = 0; dead_lettered = 1 })
  unfolding retry_or_dead_letter retry_direct
  given_up_again h p now later d reason r e open_status spent quiet enough =
      let id = d.envelope.task_id in
      let s : Supervisor bus = modify id (given_up now reason) p.supervisor in
      let dead : Supervisor bus = record s {
        state = (bus.mark_dead_letter_envelope s.state r.envelope reason).0;
      } in
      rw (e, retry_or_dead_letter)
        (if_cases Twice bus.broker_managed (λ t. absurd (true≢false (sym t ∙ direct)))
          (λ _.
            if_cases Twice (ltb_ℤ r.retry_count (max_retries r.envelope))
              (λ t. absurd (true≢false (sym t ∙ spent)))
              (λ _. (
                refl,
                subst (λ (x : Supervisor bus). IsSecond (inspect_key x later id).1)
                    (sym (quiet dead))
                    (inspect_spent dead later id (given_up now reason r)
                      (modify-found id (given_up now reason) p.supervisor r e) open_status spent
                      (subst (λ (t : ℕ). now + t ≤ later)
                        (sym (ack_timeout-modify id (given_up now reason) p.supervisor)) enough)),
              ))))
    where
      Twice : WorkerPool bus → Type 0
      Twice q =
          (q.metrics.dead_lettered ≡ suc p.metrics.dead_lettered)
          × IsSecond (inspect_key q.supervisor later d.envelope.task_id).1
