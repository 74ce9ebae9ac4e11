-- ===== src/Delivery/Supervisor/Handshake.antt =====
-- The handshake of a delivery: dispatch, ConfirmPayload, EstablishDelivery.
use sourcevcode_orchestrator.Prelude.{
  ℕ, String, some, ◌≡◌, refl, ap, ◌∙◌, Bool, true, false, arith, if◌then◌else◌, ◌==◌, lookup-insert,
  Bool-cases, inl, inr, eq_self,
}
use sourcevcode_orchestrator.Domain.Envelope.{AckStatus, TaskEnvelope, TaskPayload, MessageAck}
use sourcevcode_orchestrator.Delivery.Bus.{message_ack}
use sourcevcode_orchestrator.Delivery.Interface.{Bus}
use sourcevcode_orchestrator.Delivery.Record.{DeliveryRecord, established, invalid}
use sourcevcode_orchestrator.Delivery.Supervisor.{
  Supervisor, stamp, mismatched, matched, not_validated, dispatch_record, after_send, ack_record,
  acknowledged, modify, ack, establish_delivery, dispatch, confirm_payload,
}
use sourcevcode_orchestrator.Delivery.Supervisor.Records.{record_of, modify-found}

module _ {bus : Bus} (checksum : TaskPayload → String) where
  module _ (s : Supervisor bus) (now : ℕ) (id agent : String) (e : TaskEnvelope) where
    confirm_match :
        (r : DeliveryRecord)
        → record_of s id ≡ some r
        → (checksum e.payload == r.payload_checksum) ≡ true
        → (confirm_payload checksum s now id agent e) ≡ (
          (ack
              (modify id (matched now) s)
              now
              id
              AckStatus.validated
              agent
              "payload_checksum_ok").0,
          true,
        )
    unfolding confirm_payload
    confirm_match r p v = rw (p, confirm_payload) (rw v)

    confirm_mismatch :
        (r : DeliveryRecord)
        → record_of s id ≡ some r
        → (checksum e.payload == r.payload_checksum) ≡ false
        → confirm_payload checksum s now id agent e ≡ (modify id mismatched s, false)
    unfolding confirm_payload
    confirm_mismatch r p v = rw (p, confirm_payload) (rw v)

    -- The answer of ConfirmPayload, and the record after it.
    confirm_payload_record :
        (r : DeliveryRecord)
        → record_of s id ≡ some r
        → ((confirm_payload checksum s now id agent e).1
            ≡ (checksum e.payload == r.payload_checksum))
          × (q : DeliveryRecord) × (record_of (confirm_payload checksum s now id agent e).0 id
              ≡ some q)
          × (q.payload_validated ≡ (checksum e.payload == r.payload_checksum))
          × (q.status ≡ (
              if checksum e.payload == r.payload_checksum then AckStatus.validated else r.status))
          × (q.completed_at ≡ r.completed_at)
    unfolding ack ack_record acknowledged
    confirm_payload_record r p = elim (Bool-cases (checksum e.payload == r.payload_checksum)) [
      | inl v ↦
          rw (confirm_match r p v, v)
            (
              refl,
              ack_record now AckStatus.validated agent "payload_checksum_ok" (matched now r),
              modify-found id (ack_record now AckStatus.validated agent "payload_checksum_ok") _
                  (matched now r) (modify-found id (matched now) s r p),
              refl,
              refl,
              refl,
            )
      | inr v ↦
          rw (confirm_mismatch r p v, v)
            (refl, mismatched r, modify-found id mismatched s r p, refl, refl, refl)
    ]

module _ {bus : Bus} (s : Supervisor bus) (now : ℕ) (id agent : String) where
  kept_ack : MessageAck
  kept_ack = message_ack id AckStatus.received agent "delivery_established"

  refused_ack : MessageAck
  refused_ack = message_ack id AckStatus.failed agent "payload_not_validated"

  abbrev pub established_record : DeliveryRecord → DeliveryRecord
  established_record r = record r { handshake_state = established; last_progress_at = now }

  -- EstablishDelivery on a tracked delivery: the acknowledgement that it returns and the record after it.
  establish_delivery_record :
      (r : DeliveryRecord)
      → record_of s id ≡ some r
      → ((establish_delivery s now id agent).1
          ≡ (if r.payload_validated then kept_ack else refused_ack))
        × (record_of (establish_delivery s now id agent).0 id
            ≡ some (if r.payload_validated then established_record r else not_validated now r))
  unfolding establish_delivery kept_ack refused_ack
  establish_delivery_record r p = rw (p, establish_delivery) (go r.payload_validated)
    where
      keeps : Supervisor bus × MessageAck
      keeps =
          let (b, a) = bus.ack s.state id AckStatus.received agent "delivery_established" in
          (modify id established_record (record s { state = b }), a)

      refuses : Supervisor bus × MessageAck
      refuses =
          let (b, a) = bus.ack s.state id AckStatus.failed agent "payload_not_validated" in
          (modify id (not_validated now) (record s { state = b }), a)

      go :
          (v : Bool)
          → ((if v then keeps else refuses).1 ≡ (if v then kept_ack else refused_ack))
            × (record_of (if v then keeps else refuses).0 id
                ≡ some (if v then established_record r else not_validated now r))
      go true = (
        bus.ack_returns s.state id AckStatus.received agent "delivery_established",
        modify-found id established_record (record s { state = _ }) r p,
      )
      go false = (
        bus.ack_returns s.state id AckStatus.failed agent "payload_not_validated",
        modify-found id (not_validated now) (record s { state = _ }) r p,
      )

stamp_same :
    (now : ℕ) (e : TaskEnvelope)
    → ((stamp now e).task_id ≡ e.task_id) × ((stamp now e).payload ≡ e.payload)
unfolding stamp
stamp_same now e = ground arith

module _ {bus : Bus} (checksum : TaskPayload → String) where
  -- For a tracked delivery, ConfirmPayload followed by EstablishDelivery: an agent that confirms a
  -- payload of the recorded checksum gets the acknowledgement "received", the record is established,
  -- in status validated, with the completion time that it had; with any other payload the agent gets
  -- the acknowledgement "failed", and the record is invalid, in status failed and completed.
  pub confirm-establish :
      (s : Supervisor bus) (now later : ℕ) (id agent : String) (e : TaskEnvelope)
      (r : DeliveryRecord)
      → record_of s id ≡ some r
      → let s' = (confirm_payload checksum s now id agent e).0 in
        let valid = checksum e.payload == r.payload_checksum in
        let done = establish_delivery s' later id agent in
        (done.1.ack_status ≡ (if valid then AckStatus.received else AckStatus.failed))
        × (q : DeliveryRecord) × (record_of done.0 id ≡ some q)
        × (q.handshake_state ≡ (if valid then established else invalid))
        × (q.status ≡ (if valid then AckStatus.validated else AckStatus.failed))
        × (q.completed_at ≡ (if valid then r.completed_at else some later))
  unfolding kept_ack refused_ack
  confirm-establish s now later id agent e r p =
      let (answer, q, found, flag, status, completed) =
        confirm_payload_record checksum s now id agent e r p in
      let s' = (confirm_payload checksum s now id agent e).0 in
      let (a, t) = establish_delivery_record s' later id agent q found in
      (
        ground (arith, a, flag),
        _,
        t,
        ground (arith, flag),
        ground (arith, flag, status),
        ground (arith, flag, completed),
      )

  record_of-dispatch :
      (s : Supervisor bus) (now : ℕ) (e : TaskEnvelope)
      → (q : DeliveryRecord) × (record_of (dispatch checksum s now e) e.task_id ≡ some q)
        × (q.payload_checksum ≡ checksum e.payload)
  unfolding dispatch after_send dispatch_record
  record_of-dispatch s now e =
      let (id, payload) = stamp_same now e in
      let a = (bus.send_envelope s.state (stamp now e)).1 in
      let q = after_send now a (dispatch_record checksum now (stamp now e)) in
      (
        q,
        lookup-insert (stamp now e).task_id e.task_id q s.records ∙ found q id,
        ap checksum payload,
      )
    where
      found :
          (q : DeliveryRecord)
          → (stamp now e).task_id ≡ e.task_id
          → (if (stamp now e).task_id == e.task_id then some q else record_of s e.task_id) ≡ some q
      found q id = rw (id, eq_self)

  -- ConfirmPayload right after Dispatch of an envelope accepts exactly the payloads that have the
  -- checksum of the dispatched payload.
  pub confirm-dispatch :
      (s : Supervisor bus) (now later : ℕ) (e received : TaskEnvelope) (agent : String)
      → (confirm_payload checksum (dispatch checksum s now e) later e.task_id agent received).1
        ≡ (checksum received.payload == checksum e.payload)
  confirm-dispatch s now later e received agent =
      let (q, found, sum) = record_of-dispatch s now e in
      (confirm_payload_record checksum (dispatch checksum s now e) later e.task_id agent received q
        found).0
      ∙ ap (λ (t : String). checksum received.payload == t) sum
