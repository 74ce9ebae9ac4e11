-- ===== src/Delivery/Workers/Accounting.antt =====
-- The pool's counters: every delivery ends in one of them.
use sourcevcode_orchestrator.Prelude.{
  ℕ, ◌+◌, String, List, [], ◌∷◌, Option, Bool, true, ◌≡◌, refl, sym, ap, ◌∙◌, arith, inl, inr,
  Bool-cases, Option-cases, if_cases, is_some, lookup-insert, ◌==◌,
}
use sourcevcode_orchestrator.Prelude.Int.{ℤ, ltb_ℤ, pos}
use sourcevcode_orchestrator.Domain.Envelope.{AckStatus, TaskEnvelope, TaskPayload}
use sourcevcode_orchestrator.Delivery.Interface.{Bus}
use sourcevcode_orchestrator.Delivery.Record.{DeliveryRecord, max_retries}
use sourcevcode_orchestrator.Delivery.Supervisor.{
  Supervisor, modify, ack, confirm_payload, establish_delivery, fetch_agent_mailbox, matched,
  not_validated,
}
use sourcevcode_orchestrator.Delivery.Supervisor.Records.{record_of}
use sourcevcode_orchestrator.Delivery.Workers.{
  WorkerPool, WorkerPoolMetrics, EnvelopeDelivery, single, Handlers, measured, with_supervisor,
  new_worker_pool, record_work_started, record_failure, record_validation_failure,
  handle_dead_letter, retry_managed, retry_direct, retry_or_dead_letter, failure, invalid_payload,
  completed, handled, confirmed, attempt, process_envelope, process_all, poll, Round, Run,
  is_failed, given_up, handshake_reason, worker_reason,
}

-- With `active` deliveries at work: all that were begun but `undecided` have succeeded, failed or been
-- found invalid; and of the latter two kinds all but `owed` were retried or dead-lettered.
pub record IsBalanced (active undecided owed : ℕ) (m : WorkerPoolMetrics) : Type 0 where
  pub at_work : m.active_workers ≡ active
  pub decided : m.processed ≡ m.succeeded + m.failed + m.validation_failures + undecided
  pub settled : m.failed + m.validation_failures ≡ m.retried + m.dead_lettered + owed

-- The supervisor has a record of the id.
abbrev pub is_tracked : {bus : Bus} → String → Supervisor bus → Bool
is_tracked id s = is_some (record_of s id)

module _ {bus : Bus} (id : String) where
  tracked-modify :
      (k : String) (f : DeliveryRecord → DeliveryRecord) (s : Supervisor bus)
      → is_tracked id s ≡ true
      → is_tracked id (modify k f s) ≡ true
  unfolding modify
  tracked-modify k f s t = elim (Option-cases (record_of s k)) [
    | inl e ↦ rw (e, modify) t
    | inr (r, e) ↦
        rw (e, modify)
          (rw (lookup-insert k id (f r) s.records) (
            if_cases (λ (o : Option DeliveryRecord). is_some o ≡ true) (k == id) (λ _. refl)
              (λ _. t)))
  ]

  tracked-ack :
      (s : Supervisor bus) (now : ℕ) (k : String) (status : AckStatus) (by reason : String)
      → is_tracked id s ≡ true
      → is_tracked id (ack s now k status by reason).0 ≡ true
  unfolding ack
  tracked-ack s now k status by reason t = tracked-modify k _ (record s { state = _ }) t

  tracked-confirm :
      (checksum : TaskPayload → String) (s : Supervisor bus) (now : ℕ) (agent : String)
      (e : TaskEnvelope)
      → (confirm_payload checksum s now id agent e).1 ≡ true
      → is_tracked id (confirm_payload checksum s now id agent e).0 ≡ true
  unfolding confirm_payload
  tracked-confirm checksum s now agent e = elim (Option-cases (record_of s id)) [
    | inl p ↦ rw (p, confirm_payload) (λ q. cc q)
    | inr (r, p) ↦
        rw (p, confirm_payload)
          (if_cases (λ (q : Supervisor bus × Bool). q.1 ≡ true → is_tracked id q.0 ≡ true)
            (checksum e.payload == r.payload_checksum)
            (λ _ _.
              tracked-ack (modify id (matched now) s) now id AckStatus.validated agent
                "payload_checksum_ok" (tracked-modify id (matched now) s (ap is_some p)))
            (λ _ q. cc q))
  ]

  tracked-establish :
      (s : Supervisor bus) (now : ℕ) (agent : String)
      → is_tracked id s ≡ true
      → is_tracked id (establish_delivery s now id agent).0 ≡ true
  unfolding establish_delivery
  tracked-establish s now agent t = elim (Option-cases (record_of s id)) [
    | inl e ↦ rw (e, establish_delivery) t
    | inr (r, e) ↦
        rw (e, establish_delivery)
          (elim (Bool-cases r.payload_validated) [
            | inl v ↦ rw v (tracked-modify id _ (record s { state = _ }) t)
            | inr v ↦ rw v (tracked-modify id (not_validated now) (record s { state = _ }) t)
          ])
  ]

module _ {bus : Bus} where
  abbrev pub Balanced : ℕ → ℕ → ℕ → WorkerPool bus → Type 0
  Balanced active undecided owed p = IsBalanced active undecided owed p.metrics

module _ {bus : Bus} (h : Handlers bus) where
  dead_letter-Balanced :
      (p : WorkerPool bus) (now : ℕ) (d : EnvelopeDelivery) (reason : String)
      → Balanced 1 0 1 p
      → Balanced 1 0 0 (handle_dead_letter h p now d reason)
  unfolding handle_dead_letter
  dead_letter-Balanced p now d reason b = record {
    at_work = b.at_work;
    decided = b.decided;
    settled = omega (arith, b.settled);
  }

  retry_managed-Balanced :
      (p : WorkerPool bus) (now : ℕ) (d : EnvelopeDelivery) (reason : String) (r : DeliveryRecord)
      → Balanced 1 0 1 p
      → Balanced 1 0 0 (retry_managed h p now d reason r)
  unfolding retry_managed
  retry_managed-Balanced p now d reason r b =
      if_cases (Balanced 1 0 0) (ltb_ℤ r.retry_count (max_retries r.envelope))
        (λ _. record {
          at_work = b.at_work;
          decided = b.decided;
          settled = omega (arith, b.settled);
        })
        (λ _.
          dead_letter-Balanced
            (with_supervisor (modify d.envelope.task_id (given_up now reason) p.supervisor) p) now d
            reason b)

  retry_direct-Balanced :
      (p : WorkerPool bus) (now : ℕ) (d : EnvelopeDelivery) (reason : String) (r : DeliveryRecord)
      → Balanced 1 0 1 p
      → Balanced 1 0 0 (retry_direct h p now d reason r)
  unfolding retry_direct
  retry_direct-Balanced p now d reason r b =
      if_cases (Balanced 1 0 0) (ltb_ℤ r.retry_count (max_retries r.envelope))
        (λ _. record {
          at_work = b.at_work;
          decided = b.decided;
          settled = omega (arith, b.settled);
        })
        (λ _. record {
          at_work = b.at_work;
          decided = b.decided;
          settled = omega (arith, b.settled);
        })

  failure-Balanced :
      (p : WorkerPool bus) (now : ℕ) (d : EnvelopeDelivery) (reason : String)
      → is_tracked d.envelope.task_id p.supervisor ≡ true
      → Balanced 1 1 0 p
      → Balanced 1 0 0 (failure h p now d reason)
  unfolding failure retry_or_dead_letter
  failure-Balanced p now d reason t b =
      let b' : Balanced 1 0 1 (measured (record_failure d.envelope.task_id reason) p) = record {
        at_work = b.at_work;
        decided = omega (arith, b.decided);
        settled = omega (arith, b.settled);
      } in
      elim (Option-cases (record_of p.supervisor d.envelope.task_id)) [
        | inl e ↦ absurd (cc (sym t ∙ ap is_some e))
        | inr (r, e) ↦
            rw (e, retry_or_dead_letter)
              (if_cases (Balanced 1 0 0) bus.broker_managed
                (λ _.
                  retry_managed-Balanced (measured (record_failure d.envelope.task_id reason) p) now
                    d reason r b')
                (λ _.
                  retry_direct-Balanced (measured (record_failure d.envelope.task_id reason) p) now
                    d reason r b'))
      ]

  invalid-Balanced :
      (p : WorkerPool bus) (now : ℕ) (d : EnvelopeDelivery)
      → Balanced 1 1 0 p
      → Balanced 1 0 0 (invalid_payload h p now d)
  unfolding invalid_payload
  invalid-Balanced p now d b =
      let id = d.envelope.task_id in
      let s = (ack p.supervisor now id AckStatus.failed p.agent_id "payload_validation_failed").0 in
      dead_letter-Balanced (measured (record_validation_failure id) (with_supervisor s p)) now d
        "payload_validation_failed"
        (record {
          at_work = b.at_work;
          decided = omega (arith, b.decided);
          settled = omega (arith, b.settled);
        })

  module _
      (keeps : (id : String) (s : Supervisor bus) (e : TaskEnvelope)
        → is_tracked id s ≡ true
        → is_tracked id (h.handle s e).0 ≡ true) where
    handled-Balanced :
        (p : WorkerPool bus) (now : ℕ) (d : EnvelopeDelivery) (worker : ℕ)
        → is_tracked d.envelope.task_id p.supervisor ≡ true
        → Balanced 1 1 0 p
        → Balanced 1 0 0 (handled h p now d worker)
    unfolding handled completed
    handled-Balanced p now d worker t b =
        let s = (h.handle p.supervisor d.envelope).0 in
        elim (Option-cases (h.handle p.supervisor d.envelope).1) [
          | inl e ↦
              rw (e, handled)
                (record {
                  at_work = b.at_work;
                  decided = omega (arith, b.decided);
                  settled = b.settled;
                })
          | inr (x, e) ↦
              rw (e, handled)
                (failure-Balanced (with_supervisor s p) now d (worker_reason worker x)
                  (keeps d.envelope.task_id p.supervisor d.envelope t) b)
        ]

    confirmed-Balanced :
        (p : WorkerPool bus) (now : ℕ) (d : EnvelopeDelivery) (worker : ℕ)
        → is_tracked d.envelope.task_id p.supervisor ≡ true
        → Balanced 1 1 0 p
        → Balanced 1 0 0 (confirmed h p now d worker)
    unfolding confirmed
    confirmed-Balanced p now d worker t b =
        let (s, a) = establish_delivery p.supervisor now d.envelope.task_id p.agent_id in
        let t' = tracked-establish d.envelope.task_id p.supervisor now p.agent_id t in
        if_cases (Balanced 1 0 0) (is_failed a.ack_status)
          (λ _. failure-Balanced (with_supervisor s p) now d (handshake_reason a) t' b)
          (λ _. handled-Balanced (with_supervisor s p) now d worker t' b)

    module _ (checksum : TaskPayload → String) where
      attempt-Balanced :
          (p : WorkerPool bus) (now : ℕ) (d : EnvelopeDelivery) (worker : ℕ)
          → Balanced 1 1 0 p
          → Balanced 1 0 0 (attempt h checksum p now d worker)
      unfolding attempt
      attempt-Balanced p now d worker b =
          let q =
            confirm_payload checksum p.supervisor now d.envelope.task_id p.agent_id d.envelope in
          if_cases (Balanced 1 0 0) q.1
            (λ v.
              confirmed-Balanced (with_supervisor q.0 p) now d worker
                (tracked-confirm d.envelope.task_id checksum p.supervisor now p.agent_id d.envelope
                  v)
                b)
            (λ _. invalid-Balanced (with_supervisor q.0 p) now d b)

      process-Balanced :
          (p : WorkerPool bus) (now : ℕ) (d : EnvelopeDelivery) (worker : ℕ)
          → Balanced 0 0 0 p
          → Balanced 0 0 0 (process_envelope h checksum p now d worker)
      unfolding process_envelope
      process-Balanced p now d worker b =
          let q = attempt-Balanced (measured record_work_started p) now d worker (record {
            at_work = omega (arith, b.at_work);
            decided = omega (arith, b.decided);
            settled = b.settled;
          }) in
          record { at_work = omega (arith, q.at_work); decided = q.decided; settled = q.settled }

      process_all-Balanced :
          (mailbox : List TaskEnvelope) (p : WorkerPool bus) (now worker : ℕ)
          → Balanced 0 0 0 p
          → Balanced 0 0 0 (process_all h checksum p now mailbox worker)
      unfolding process_all
      process_all-Balanced [] p now worker b = b
      process_all-Balanced (e ∷ mailbox) p now worker b =
          let d = single e in
          process_all-Balanced mailbox (process_envelope h checksum p now d worker) now worker
            (process-Balanced p now d worker b)

      poll-Balanced :
          (p : WorkerPool bus) (now worker : ℕ)
          → Balanced 0 0 0 p
          → Balanced 0 0 0 (poll h checksum p now worker)
      unfolding poll
      poll-Balanced p now worker b =
          by_mailbox (fetch_agent_mailbox p.supervisor now p.agent_id (pos 1)).1 refl
        where
          by_mailbox :
              (l : List TaskEnvelope)
              → (fetch_agent_mailbox p.supervisor now p.agent_id (pos 1)).1 ≡ l
              → Balanced 0 0 0 (poll h checksum p now worker)
          by_mailbox [] e =
              rw (e, poll)
                (record { at_work = b.at_work; decided = b.decided; settled = b.settled })
          by_mailbox (x ∷ l) e =
              rw (e, poll)
                (process_all-Balanced (x ∷ l)
                  (with_supervisor (fetch_agent_mailbox p.supervisor now p.agent_id (pos 1)).0 p)
                  now worker b)

      Round-Balanced :
          {p q : WorkerPool bus} → Round h checksum p q → Balanced 0 0 0 p → Balanced 0 0 0 q
      Round-Balanced (Round.polls p now worker) b = poll-Balanced p now worker b
      Round-Balanced (Round.delivers p now d worker) b = process-Balanced p now d worker b
      Round-Balanced (Round.others p s) b = b

      -- Between the rounds of the workers, whatever the handlers answer and other clients of the supervisor
      -- do: no worker is counted as active, every processed delivery was counted as succeeded, failed or
      -- invalid, and every failed or invalid one was retried or dead-lettered. The handler does not make the
      -- supervisor forget a record.
      pub Run-Balanced :
          (s : Supervisor bus) (agent : String) (concurrency interval : ℤ) {p : WorkerPool bus}
          → Run h checksum (new_worker_pool s agent concurrency interval) p
          → Balanced 0 0 0 p
      unfolding new_worker_pool
      Run-Balanced s agent concurrency interval Run.here = record {
        at_work = refl;
        decided = refl;
        settled = refl;
      }
      Run-Balanced s agent concurrency interval (Run.next r st) =
          Round-Balanced st (Run-Balanced s agent concurrency interval r)
