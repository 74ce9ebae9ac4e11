-- ===== src/Delivery/Supervisor/Retries.antt =====
-- InspectTimeouts as a whole, and the end of a delivery that makes no progress.
use sourcevcode_orchestrator.Prelude.{
  ℕ, ◌<◌, String, List, [], ◌∷◌, some, ◌≡◌, refl, ap, subst, ◌∙◌, Bool, true, arith, if◌then◌else◌,
  ◌==◌, lookup, any, inl, inr, map, str_cases, eq_iff, eq_self, if_cases,
}
use sourcevcode_orchestrator.Delivery.Interface.{Bus}
use sourcevcode_orchestrator.Delivery.Record.{DeliveryRecord}
use sourcevcode_orchestrator.Delivery.Supervisor.{Supervisor}
use sourcevcode_orchestrator.Delivery.Supervisor.Records.{record_of}
use sourcevcode_orchestrator.Delivery.Supervisor.Calls.{
  SoundRecords, inspect_key-SoundRecords, inspect_keys-SoundRecords,
}
use sourcevcode_orchestrator.Delivery.Supervisor.Timeouts.{
  inspect_key, inspect_keys, inspect_timeouts,
}
use sourcevcode_orchestrator.Delivery.Supervisor.Inspected.{
  inspected, inspected_idem, ack_timeout-inspect_key, inspect_key_found, inspect_key_other,
}

abbrev has : String → List String → Bool
has j = any (λ k. k == j)

abbrev keys : List (String × DeliveryRecord) → List String
keys = map (λ (e : String × DeliveryRecord). e.0)

has-keys :
    (j : String) (m : List (String × DeliveryRecord)) (r : DeliveryRecord)
    → lookup j m ≡ some r
    → has j (keys m) ≡ true
unfolding lookup
has-keys j [] r e = cc e
has-keys j ((k, q) ∷ m) r e = ground (arith, has-keys j m r)

module _ {bus : Bus} (now : ℕ) (j : String) where
  record_of-inspect_keys :
      (ids : List String) (s : Supervisor bus) (r : DeliveryRecord)
      → SoundRecords s
      → 0 < s.ack_timeout
      → record_of s j ≡ some r
      → record_of (inspect_keys s now ids).0 j
        ≡ some (if has j ids then inspected bus.broker_managed s.ack_timeout now r else r)
  unfolding inspect_keys
  record_of-inspect_keys [] s r h t e = e
  record_of-inspect_keys (id ∷ ids) s r h t e =
      let m = bus.broker_managed in
      let s' : Supervisor bus = (inspect_key s now id).0 in
      let h' = inspect_key-SoundRecords s now id h in
      let kept : s'.ack_timeout ≡ s.ack_timeout = ack_timeout-inspect_key s now id h in
      let t' : 0 < s'.ack_timeout = rw kept t in
      elim (str_cases id j) [
        | inl same ↦
            let f = inspected m s.ack_timeout now in
            let found =
              subst (λ i. record_of s i ≡ some r → record_of s' i ≡ some (f r)) same
                (inspect_key_found s now id h r) e in
            let once =
              if_cases (λ q. q ≡ f r) (has j ids)
                (λ _.
                  ap (λ n. inspected m n now (f r)) kept ∙ inspected_idem m s.ack_timeout now r t)
                (λ _. refl) in
            record_of-inspect_keys ids s' (f r) h' t' found ∙ ap some once ∙ rw (same, eq_self)
        | inr other ↦
            let found = inspect_key_other s now id h j other ∙ e in
            record_of-inspect_keys ids s' r h' t' found
            ∙ ap (λ n. some (if has j ids then inspected m n now r else r)) kept
            ∙ ground (arith, eq_iff id j)
      ]

  -- InspectTimeouts inspects every record once, whatever the order of the map: afterwards the record of
  -- a key is what one inspection makes of the record before, for a table of sound records and a positive
  -- acknowledgement timeout.
  pub record_of-inspect_timeouts :
      (s : Supervisor bus) (r : DeliveryRecord)
      → SoundRecords s
      → 0 < s.ack_timeout
      → record_of s j ≡ some r
      → record_of (inspect_timeouts s now).0 j
        ≡ some (inspected bus.broker_managed s.ack_timeout now r)
  unfolding inspect_timeouts
  record_of-inspect_timeouts s r h t e =
      record_of-inspect_keys (keys s.records) s r h t e ∙ rw (has-keys j s.records r e)

module _ {bus : Bus} (now : ℕ) where
  ack_timeout-inspect_keys :
      (ids : List String) (s : Supervisor bus)
      → SoundRecords s
      → (inspect_keys s now ids).0.ack_timeout ≡ s.ack_timeout
  unfolding inspect_keys
  ack_timeout-inspect_keys [] s h = refl
  ack_timeout-inspect_keys (id ∷ ids) s h =
      ack_timeout-inspect_keys ids (inspect_key s now id).0 (inspect_key-SoundRecords s now id h)
      ∙ ack_timeout-inspect_key s now id h

  pub inspect_timeouts_keeps :
      (s : Supervisor bus)
      → SoundRecords s
      → SoundRecords (inspect_timeouts s now).0
        × ((inspect_timeouts s now).0.ack_timeout ≡ s.ack_timeout)
  unfolding inspect_timeouts
  inspect_timeouts_keeps s h = (
    inspect_keys-SoundRecords (keys s.records) s now h,
    ack_timeout-inspect_keys (keys s.records) s h,
  )
