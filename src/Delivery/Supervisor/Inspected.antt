-- ===== src/Delivery/Supervisor/Inspected.antt =====
-- InspectTimeouts, record by record.
use sourcevcode_orchestrator.Prelude.{
  ℕ, ◌<◌, String, some, ◌≡◌, refl, ◌∙◌, ◌≢◌, Bool, true, false, arith, if◌then◌else◌, Option-cases,
  if_cases, if_both, inl, inr,
}
use sourcevcode_orchestrator.Prelude.Int.{ltb_ℤ}
use sourcevcode_orchestrator.Domain.Envelope.{AckStatus}
use sourcevcode_orchestrator.Delivery.Bus.{is_terminal_status}
use sourcevcode_orchestrator.Delivery.Interface.{Bus}
use sourcevcode_orchestrator.Delivery.Record.{DeliveryRecord, max_retries}
use sourcevcode_orchestrator.Delivery.Supervisor.{Supervisor, ack_record, acknowledged, modify, ack}
use sourcevcode_orchestrator.Delivery.Supervisor.Records.{
  record_of, modify-found, modify-other, ack_timeout-modify, modify-found_at, modify-other_at,
}
use sourcevcode_orchestrator.Delivery.Supervisor.Calls.{SoundRecords}
use sourcevcode_orchestrator.Delivery.Supervisor.Timeouts.{
  is_overdue, observed, retried_record, dead_record, retry, give_up, inspect_record, inspect_key,
}

-- A retried record, after the acknowledgement "retrying" that goes with the retry.
abbrev pub resent : ℕ → DeliveryRecord → DeliveryRecord
resent now r =
    ack_record now AckStatus.retrying r.envelope.target_agent "ack_timeout" (retried_record now r)

-- What one inspection makes of a record, by itself.
abbrev pub inspected : Bool → ℕ → ℕ → DeliveryRecord → DeliveryRecord
inspected managed timeout now r =
    if is_overdue timeout now r
    then (if managed
        then observed now r
        else if ltb_ℤ r.retry_count (max_retries r.envelope)
        then resent now r
        else dead_record now r)
    else r

not_overdue_now :
    (timeout now : ℕ) (r : DeliveryRecord)
    → 0 < timeout
    → r.last_progress_at ≡ now
    → is_overdue timeout now r ≡ false
unfolding is_overdue
not_overdue_now timeout now r h e = ground arith

pub not_overdue_terminal :
    (timeout now : ℕ) (r : DeliveryRecord)
    → is_terminal_status r.status ≡ true
    → is_overdue timeout now r ≡ false
unfolding is_overdue
not_overdue_terminal timeout now r h = rw h

-- A second inspection at the same time finds nothing to do.
pub inspected_idem :
    (managed : Bool) (timeout now : ℕ) (r : DeliveryRecord)
    → 0 < timeout
    → inspected managed timeout now (inspected managed timeout now r)
      ≡ inspected managed timeout now r
unfolding retried_record dead_record ack_record acknowledged
inspected_idem managed timeout now r h =
    if_cases IsDone (is_overdue timeout now r)
      (λ _.
        if_cases IsDone managed
          (λ _. done (observed now r) (not_overdue_now timeout now (observed now r) h refl))
          (λ _.
            if_cases IsDone (ltb_ℤ r.retry_count (max_retries r.envelope))
              (λ _. done (resent now r) (not_overdue_now timeout now (resent now r) h refl))
              (λ _.
                done (dead_record now r) (not_overdue_now timeout now (dead_record now r) h refl))))
      (λ e. done r e)
  where
    IsDone : DeliveryRecord → Type 0
    IsDone q = inspected managed timeout now q ≡ q

    done : (q : DeliveryRecord) → is_overdue timeout now q ≡ false → IsDone q
    done q e = rw e

module _ {bus : Bus} (s : Supervisor bus) (now : ℕ) (id : String) (r : DeliveryRecord) where
  pub retry_found :
      record_of s id ≡ some r
      → r.envelope.task_id ≡ id
      → record_of (retry s now id r) id ≡ some (resent now r)
  unfolding retry ack retried_record
  retry_found e k =
      modify-found_at (ack_record now AckStatus.retrying r.envelope.target_agent "ack_timeout")
        (record (modify id (retried_record now) s) { state = _ }) k (retried_record now r)
        (modify-found id (retried_record now) s r e)

  retry_other :
      (j : String)
      → r.envelope.task_id ≡ id
      → id ≢ j
      → record_of (retry s now id r) j ≡ record_of s j
  unfolding retry ack retried_record
  retry_other j k n =
      modify-other_at (ack_record now AckStatus.retrying r.envelope.target_agent "ack_timeout")
        (record (modify id (retried_record now) s) { state = _ }) k j n
      ∙ modify-other id (retried_record now) s j n

  inspect_record_found :
      record_of s id ≡ some r
      → r.envelope.task_id ≡ id
      → record_of (inspect_record s now id r).0 id
        ≡ some (inspected bus.broker_managed s.ack_timeout now r)
  unfolding inspect_record give_up
  inspect_record_found e k =
      if_both Holds (is_overdue s.ack_timeout now r)
        (λ _.
          if_both Holds bus.broker_managed (λ _. modify-found id (observed now) s r e)
            (λ _.
              if_both Holds (ltb_ℤ r.retry_count (max_retries r.envelope)) (λ _. retry_found e k)
                (λ _. modify-found id (dead_record now) (record s { state = _ }) r e)))
        (λ _. e)
    where
      Holds : {A : Type 0} → Supervisor bus × A → DeliveryRecord → Type 0
      Holds q x = record_of q.0 id ≡ some x

  inspect_record_other :
      (j : String)
      → r.envelope.task_id ≡ id
      → id ≢ j
      → record_of (inspect_record s now id r).0 j ≡ record_of s j
  unfolding inspect_record give_up
  inspect_record_other j k n =
      if_cases Same (is_overdue s.ack_timeout now r)
        (λ _.
          if_cases Same bus.broker_managed (λ _. modify-other id (observed now) s j n)
            (λ _.
              if_cases Same (ltb_ℤ r.retry_count (max_retries r.envelope)) (λ _. retry_other j k n)
                (λ _. modify-other id (dead_record now) (record s { state = _ }) j n)))
        (λ _. refl)
    where
      Same : {A : Type 0} → Supervisor bus × A → Type 0
      Same q = record_of q.0 j ≡ record_of s j

  ack_timeout-inspect_record : (inspect_record s now id r).0.ack_timeout ≡ s.ack_timeout
  unfolding inspect_record retry ack give_up
  ack_timeout-inspect_record =
      if_cases Same (is_overdue s.ack_timeout now r)
        (λ _.
          if_cases Same bus.broker_managed (λ _. ack_timeout-modify id (observed now) s)
            (λ _.
              if_cases Same (ltb_ℤ r.retry_count (max_retries r.envelope))
                (λ _. ack_timeout-modify _ _ _ ∙ ack_timeout-modify id (retried_record now) s)
                (λ _. ack_timeout-modify id (dead_record now) _)))
        (λ _. refl)
    where
      Same : {A : Type 0} → Supervisor bus × A → Type 0
      Same q = q.0.ack_timeout ≡ s.ack_timeout

module _ {bus : Bus} (s : Supervisor bus) (now : ℕ) (id : String) (sound : SoundRecords s) where
  pub ack_timeout-inspect_key : (inspect_key s now id).0.ack_timeout ≡ s.ack_timeout
  unfolding inspect_key
  ack_timeout-inspect_key = elim (Option-cases (record_of s id)) [
    | inl e ↦ rw (e, inspect_key)
    | inr (r, e) ↦ rw (e, inspect_key) (ack_timeout-inspect_record s now id r)
  ]

  pub inspect_key_found :
      (r : DeliveryRecord)
      → record_of s id ≡ some r
      → record_of (inspect_key s now id).0 id
        ≡ some (inspected bus.broker_managed s.ack_timeout now r)
  unfolding inspect_key
  inspect_key_found r e =
      rw (e, inspect_key) (inspect_record_found s now id r e (sound id r e).keyed)

  pub inspect_key_other :
      (j : String) → id ≢ j → record_of (inspect_key s now id).0 j ≡ record_of s j
  unfolding inspect_key
  inspect_key_other j n = elim (Option-cases (record_of s id)) [
    | inl e ↦ rw (e, inspect_key)
    | inr (r, e) ↦ rw (e, inspect_key) (inspect_record_other s now id r j (sound id r e).keyed n)
  ]
