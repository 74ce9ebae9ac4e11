-- ===== src/Delivery/Supervisor/Calls.antt =====
-- Every call of the supervisor keeps its records sound, whatever the bus answers.
use sourcevcode_orchestrator.Prelude.{
  arith, ℕ, zero, suc, String, List, [], ◌∷◌, some, ◌≡◌, refl, sym, subst, ◌∙◌, Bool, true, ◌==◌,
  some_inj, Option-cases, Bool-cases, if_cases, inl, inr,
}
use sourcevcode_orchestrator.Prelude.Int.{ltb_ℤ, ◌≤ℤ◌}
use sourcevcode_orchestrator.Domain.Envelope.{AckStatus, TaskEnvelope, TaskPayload}
use sourcevcode_orchestrator.Delivery.Interface.{Bus}
use sourcevcode_orchestrator.Delivery.Record.{DeliveryRecord, established, max_retries}
use sourcevcode_orchestrator.Delivery.Supervisor.{
  Supervisor, stamp, mismatched, matched, not_validated, ack_record, modify, fetch, ack,
  establish_delivery, dispatch, confirm_payload,
}
use sourcevcode_orchestrator.Delivery.Supervisor.Records.{
  record_of, EachRecord, EachRecord-modify, EachRecord-insert,
}
use sourcevcode_orchestrator.Delivery.Supervisor.Timeouts.{
  is_overdue, observed, retried_record, dead_record, retry, give_up, inspect_record, inspect_key,
  inspect_keys,
}
use sourcevcode_orchestrator.Delivery.Supervisor.Sound.{
  IsSound, apply_history-IsSound, ack_record-IsSound, stamp-retries, sent-IsSound,
  retried_record-IsSound, touch-IsSound,
}

module _ {bus : Bus} where
  abbrev pub SoundRecords : Supervisor bus → Type 0
  SoundRecords = EachRecord IsSound

  pub ack-SoundRecords :
      (s : Supervisor bus) (now : ℕ) (id : String) (status : AckStatus) (by reason : String)
      → SoundRecords s
      → SoundRecords (ack s now id status by reason).0
  unfolding ack
  ack-SoundRecords s now id status by reason h =
      EachRecord-modify IsSound id (ack_record now status by reason) _
        (λ r _. ack_record-IsSound now status by reason id r) h

  pub fetch-SoundRecords :
      (n : ℕ) (s : Supervisor bus) (now : ℕ) (agent : String)
      → SoundRecords s
      → SoundRecords (fetch n s now agent).0
  unfolding fetch
  fetch-SoundRecords zero s now agent h = h
  fetch-SoundRecords (suc n) s now agent h =
      elim (Option-cases (bus.receive_for_agent s.state agent).1) [
        | inl e ↦ rw (e, fetch) h
        | inr (x, e) ↦
            rw (e, fetch)
              (fetch-SoundRecords n _ now agent (
                EachRecord-modify IsSound x.task_id _
                  (record s { state = (bus.receive_for_agent s.state agent).0 })
                  (λ r _ p.
                    apply_history-IsSound _ now x.task_id _
                      (touch-IsSound x.task_id _ r refl refl refl refl p))
                  h))
      ]

  pub establish_delivery-SoundRecords :
      (s : Supervisor bus) (now : ℕ) (id agent : String)
      → SoundRecords s
      → SoundRecords (establish_delivery s now id agent).0
  unfolding establish_delivery
  establish_delivery-SoundRecords s now id agent h = elim (Option-cases (record_of s id)) [
    | inl e ↦ rw (e, establish_delivery) h
    | inr (r, e) ↦
        rw (e, establish_delivery)
          (elim (Bool-cases r.payload_validated) [
            | inl v ↦ rw v (
                EachRecord-modify IsSound id
                  (λ q. record q { handshake_state = established; last_progress_at = now })
                  (record s { state = _ }) (λ q _. touch-IsSound id _ q refl refl refl refl) h)
            | inr v ↦ rw v (
                EachRecord-modify IsSound id (not_validated now) (record s { state = _ })
                  (λ q _ p. record {
                    keyed = p.keyed;
                    counted = p.counted;
                    within = p.within;
                    completed = ground arith;
                  })
                  h)
          ])
  ]

  retry-SoundRecords :
      (s : Supervisor bus) (now : ℕ) (id : String) (r : DeliveryRecord)
      → record_of s id ≡ some r
      → ltb_ℤ r.retry_count (max_retries r.envelope) ≡ true
      → SoundRecords s
      → SoundRecords (retry s now id r)
  unfolding retry
  retry-SoundRecords s now id r e t h =
      ack-SoundRecords (modify id (retried_record now) s) now _ AckStatus.retrying _ "ack_timeout" (
        EachRecord-modify IsSound id (retried_record now) s
          (λ q f p.
            let same : r ≡ q = some_inj (sym e ∙ f) in
            retried_record-IsSound now id q
              (subst (λ (x : DeliveryRecord). ltb_ℤ x.retry_count (max_retries x.envelope) ≡ true)
                same t)
              p)
          h)

  give_up-SoundRecords :
      (s : Supervisor bus) (now : ℕ) (id : String) (r : DeliveryRecord)
      → SoundRecords s
      → SoundRecords (give_up s now id r)
  unfolding give_up
  give_up-SoundRecords s now id r h =
      EachRecord-modify IsSound id (dead_record now) (record s { state = _ })
        (λ q _ p. record {
          keyed = p.keyed;
          counted = p.counted;
          within = p.within;
          completed = ground arith;
        })
        h

  abbrev SoundResult {ℓ} : {A : Type ℓ} → Supervisor bus × A → Type 0
  SoundResult q = SoundRecords q.0

  inspect_record-SoundRecords :
      (s : Supervisor bus) (now : ℕ) (id : String) (r : DeliveryRecord)
      → record_of s id ≡ some r
      → SoundRecords s
      → SoundRecords (inspect_record s now id r).0
  unfolding inspect_record
  inspect_record-SoundRecords s now id r e h =
      if_cases SoundResult (is_overdue s.ack_timeout now r)
        (λ _.
          if_cases SoundResult bus.broker_managed
            (λ _.
              EachRecord-modify IsSound id (observed now) s
                (λ q _. touch-IsSound id _ q refl refl refl refl) h)
            (λ _.
              if_cases SoundResult (ltb_ℤ r.retry_count (max_retries r.envelope))
                (λ t. retry-SoundRecords s now id r e t h)
                (λ _. give_up-SoundRecords s now id r h)))
        (λ _. h)

  pub inspect_key-SoundRecords :
      (s : Supervisor bus) (now : ℕ) (id : String)
      → SoundRecords s
      → SoundRecords (inspect_key s now id).0
  unfolding inspect_key
  inspect_key-SoundRecords s now id h = elim (Option-cases (record_of s id)) [
    | inl e ↦ rw (e, inspect_key) h
    | inr (r, e) ↦ rw (e, inspect_key) (inspect_record-SoundRecords s now id r e h)
  ]

  pub inspect_keys-SoundRecords :
      (ids : List String) (s : Supervisor bus) (now : ℕ)
      → SoundRecords s
      → SoundRecords (inspect_keys s now ids).0
  unfolding inspect_keys
  inspect_keys-SoundRecords [] s now h = h
  inspect_keys-SoundRecords (id ∷ ids) s now h =
      inspect_keys-SoundRecords ids (inspect_key s now id).0 now
        (inspect_key-SoundRecords s now id h)

module _ {bus : Bus} (checksum : TaskPayload → String) where
  pub dispatch-SoundRecords :
      (s : Supervisor bus) (now : ℕ) (e : TaskEnvelope)
      → e.retry_count ≤ℤ max_retries e
      → SoundRecords s
      → SoundRecords (dispatch checksum s now e)
  unfolding dispatch
  dispatch-SoundRecords s now e w h =
      let sent = bus.send_envelope s.state (stamp now e) in
      EachRecord-insert IsSound _ _ s sent.0
        (sent-IsSound checksum now sent.1 (stamp now e) (stamp-retries now e w)) h

  pub confirm_payload-SoundRecords :
      (s : Supervisor bus) (now : ℕ) (id agent : String) (e : TaskEnvelope)
      → SoundRecords s
      → SoundRecords (confirm_payload checksum s now id agent e).0
  unfolding confirm_payload
  confirm_payload-SoundRecords s now id agent e h = elim (Option-cases (record_of s id)) [
    | inl p ↦ rw (p, confirm_payload) h
    | inr (r, p) ↦
        rw (p, confirm_payload)
          (if_cases (λ (q : Supervisor bus × Bool). SoundRecords q.0)
            (checksum e.payload == r.payload_checksum)
            (λ _.
              ack-SoundRecords (modify id (matched now) s) now id AckStatus.validated agent
                "payload_checksum_ok"
                (EachRecord-modify IsSound id (matched now) s
                  (λ q _. touch-IsSound id _ q refl refl refl refl) h))
            (λ _.
              EachRecord-modify IsSound id mismatched s
                (λ q _. touch-IsSound id _ q refl refl refl refl) h))
  ]
