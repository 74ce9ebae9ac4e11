-- ===== src/Delivery/Supervisor/Expiry.antt =====
-- A delivery that makes no progress ends: repeated inspections retry it up to its limit and then
-- dead-letter it.
use sourcevcode_orchestrator.Prelude.{
  ℕ, zero, suc, ◌+◌, ◌≤◌, ◌<◌, String, List, [], ◌∷◌, some, ◌≡◌, refl, ap, sym, subst, ◌∙◌, true,
  false, arith, length,
}
use sourcevcode_orchestrator.Prelude.Int.{ℤ, pos, ltb_ℤ, ◌+ℤ◌, int_laws}
use sourcevcode_orchestrator.Domain.Envelope.{AckStatus}
use sourcevcode_orchestrator.Delivery.Bus.{is_terminal_status}
use sourcevcode_orchestrator.Delivery.Interface.{Bus}
use sourcevcode_orchestrator.Delivery.Record.{DeliveryRecord, max_retries}
use sourcevcode_orchestrator.Delivery.Supervisor.{Supervisor, ack_record, acknowledged}
use sourcevcode_orchestrator.Delivery.Supervisor.Records.{record_of}
use sourcevcode_orchestrator.Delivery.Supervisor.Calls.{SoundRecords}
use sourcevcode_orchestrator.Delivery.Supervisor.Timeouts.{
  is_overdue, retried_record, dead_record, inspect_timeouts,
}
use sourcevcode_orchestrator.Delivery.Supervisor.Inspected.{inspected, resent, not_overdue_terminal}
use sourcevcode_orchestrator.Delivery.Supervisor.Retries.{
  record_of-inspect_timeouts, inspect_timeouts_keeps,
}

ltb-zero : (a b : ℤ) → b ≡ a +ℤ pos 0 → ltb_ℤ a b ≡ false
unfolding ◌+ℤ◌
ltb-zero a b e = rw e (ground arith)

ltb-suc : (n : ℕ) (a b : ℤ) → b ≡ a +ℤ pos (suc n) → ltb_ℤ a b ≡ true
unfolding ◌+ℤ◌
ltb-suc n a b e = rw e (ground arith)

add-suc : (n : ℕ) (a : ℤ) → a +ℤ pos (suc n) ≡ a +ℤ pos 1 +ℤ pos n
add-suc n a = omega int_laws

add-zero : (a : ℤ) → a +ℤ pos 0 ≡ a
add-zero a = omega int_laws

-- InspectTimeouts at each of the times, with nothing else between.
pub inspections : {bus : Bus} → List ℕ → Supervisor bus → Supervisor bus
inspections [] s = s
inspections (t ∷ ts) s = inspections ts (inspect_timeouts s t).0

-- Each time is at least the timeout after the one before.
abbrev pub Spaced : ℕ → ℕ → List ℕ → Type 0
Spaced timeout last [] = Unit {0}
Spaced timeout last (t ∷ ts) = (last + timeout ≤ t) × Spaced timeout t ts

-- A record that an inspection will act on, with n retries left.
record IsStuck (n : ℕ) (r : DeliveryRecord) : Type 0 where
  open_status : is_terminal_status r.status ≡ false
  counted : r.retry_count ≡ r.envelope.retry_count
  left : max_retries r.envelope ≡ r.retry_count +ℤ pos n

pub overdue :
    (timeout now : ℕ) (r : DeliveryRecord)
    → is_terminal_status r.status ≡ false
    → r.last_progress_at + timeout ≤ now
    → is_overdue timeout now r ≡ true
unfolding is_overdue
overdue timeout now r o h = ground arith

inspected-zero :
    (timeout now : ℕ) (r : DeliveryRecord)
    → IsStuck 0 r
    → r.last_progress_at + timeout ≤ now
    → inspected false timeout now r ≡ dead_record now r
inspected-zero timeout now r h d =
    rw (overdue timeout now r h.open_status d)
      (rw (ltb-zero r.retry_count (max_retries r.envelope) h.left))

inspected-suc :
    (timeout now n : ℕ) (r : DeliveryRecord)
    → IsStuck (suc n) r
    → r.last_progress_at + timeout ≤ now
    → inspected false timeout now r ≡ resent now r
inspected-suc timeout now n r h d =
    rw (overdue timeout now r h.open_status d)
      (rw (ltb-suc n r.retry_count (max_retries r.envelope) h.left))

resent-IsStuck : (now n : ℕ) (r : DeliveryRecord) → IsStuck (suc n) r → IsStuck n (resent now r)
unfolding retried_record ack_record acknowledged max_retries is_terminal_status
resent-IsStuck now n r h = record {
  open_status = refl;
  counted = refl;
  left = h.left ∙ ap (λ c. c +ℤ pos (suc n)) h.counted ∙ add-suc n r.envelope.retry_count;
}

-- A dead-lettered record stays as it is.
inspected-terminal :
    (timeout now : ℕ) (r : DeliveryRecord)
    → is_terminal_status r.status ≡ true
    → inspected false timeout now r ≡ r
inspected-terminal timeout now r h = rw (not_overdue_terminal timeout now r h)

module _ {bus : Bus} (j : String) (unmanaged : bus.broker_managed ≡ false) where
  inspect_once :
      (s : Supervisor bus) (t : ℕ) (r : DeliveryRecord)
      → SoundRecords s
      → 0 < s.ack_timeout
      → record_of s j ≡ some r
      → record_of (inspect_timeouts s t).0 j ≡ some (inspected false s.ack_timeout t r)
  inspect_once s t r h pos_timeout e =
      record_of-inspect_timeouts t j s r h pos_timeout e
      ∙ ap (λ m. some (inspected m s.ack_timeout t r)) unmanaged

  stays :
      (ts : List ℕ) (s : Supervisor bus) (r : DeliveryRecord)
      → SoundRecords s
      → 0 < s.ack_timeout
      → record_of s j ≡ some r
      → is_terminal_status r.status ≡ true
      → record_of (inspections ts s) j ≡ some r
  unfolding inspections
  stays [] s r h p e d = e
  stays (t ∷ ts) s r h p e d =
      let (h', kept) = inspect_timeouts_keeps t s h in
      stays ts (inspect_timeouts s t).0 r h' (rw kept p)
        (inspect_once s t r h p e ∙ ap some (inspected-terminal s.ack_timeout t r d)) d

  expires :
      (n : ℕ) (ts : List ℕ) (s : Supervisor bus) (r : DeliveryRecord)
      → SoundRecords s
      → 0 < s.ack_timeout
      → record_of s j ≡ some r
      → IsStuck n r
      → Spaced s.ack_timeout r.last_progress_at ts
      → n < length ts
      → (q : DeliveryRecord) × (record_of (inspections ts s) j ≡ some q)
        × (q.status ≡ AckStatus.dead_lettered)
        × (q.retry_count ≡ max_retries r.envelope)
  unfolding inspections dead_record retried_record ack_record acknowledged max_retries
      is_terminal_status
  expires n [] s r h p e k d l = absurd (omega arith)
  expires zero (t ∷ ts) s r h p e k d l =
      let (h', kept) = inspect_timeouts_keeps t s h in
      (
        dead_record t r,
        stays ts (inspect_timeouts s t).0 (dead_record t r) h' (rw kept p)
            (inspect_once s t r h p e ∙ ap some (inspected-zero s.ack_timeout t r k d.0)) refl,
        refl,
        sym (k.left ∙ add-zero r.retry_count),
      )
  expires (suc n) (t ∷ ts) s r h p e k d l =
      let (h', kept) = inspect_timeouts_keeps t s h in
      expires n ts (inspect_timeouts s t).0 (resent t r) h' (rw kept p)
        (inspect_once s t r h p e ∙ ap some (inspected-suc s.ack_timeout t n r k d.0))
        (resent-IsStuck t n r k) (subst (λ m. Spaced m t ts) (sym kept) d.1) (omega arith)

-- On a bus without a managing broker, a tracked delivery that is not in a terminal status and has n
-- retries left is dead-lettered after n + 1 inspections, or more, each at least the acknowledgement
-- timeout after the one before and the first that long after its last progress, if nothing else happens
-- between them; then it has used exactly its limit of retries. The table's records are sound and the
-- timeout is positive.
pub inspections_expire :
    {bus : Bus} (j : String) (s : Supervisor bus) (r : DeliveryRecord) (n : ℕ) (ts : List ℕ)
    → bus.broker_managed ≡ false
    → SoundRecords s
    → 0 < s.ack_timeout
    → record_of s j ≡ some r
    → is_terminal_status r.status ≡ false
    → max_retries r.envelope ≡ r.retry_count +ℤ pos n
    → Spaced s.ack_timeout r.last_progress_at ts
    → n < length ts
    → (q : DeliveryRecord) × (record_of (inspections ts s) j ≡ some q)
      × (q.status ≡ AckStatus.dead_lettered)
      × (q.retry_count ≡ max_retries r.envelope)
inspections_expire j s r n ts unmanaged h p e o left d l =
    expires j unmanaged n ts s r h p e
      (record { open_status = o; counted = (h j r e).counted; left = left }) d l
