-- ===== src/Delivery/Supervisor/Health/Counts.antt =====
-- The counters of a health snapshot.
use sourcevcode_orchestrator.Prelude.{
  ℕ, ◌+◌, ◌-◌, String, List, [], ◌∷◌, Option, none, some, Bool, true, false, ◌&&◌, ◌≡◌, refl, ap,
  ◌∙◌, arith, inl, inr, length, lookup, lookup-insert, Bool-cases, ◌==◌, eq_iff,
}
use sourcevcode_orchestrator.Domain.Envelope.{AckStatus}
use sourcevcode_orchestrator.Delivery.Bus.{agent_topic}
use sourcevcode_orchestrator.Delivery.Interface.{Bus}
use sourcevcode_orchestrator.Delivery.Record.{DeliveryRecord, apply_history}
use sourcevcode_orchestrator.Delivery.Supervisor.{Supervisor}
use sourcevcode_orchestrator.Delivery.Supervisor.Health.{
  AgentHealth, Health, no_health, count_agent, count_total, agent_health, count_record,
  count_records, delivery_health_snapshot,
}

-- The four outcomes that are counted.
pub data Outcome : Type 0 where
  pending accepted failed dead_lettered : Outcome

abbrev pub has_outcome : Outcome → AckStatus → Bool
has_outcome accepted AckStatus.accepted = true
has_outcome failed AckStatus.failed = true
has_outcome dead_lettered AckStatus.dead_lettered = true
has_outcome pending AckStatus.accepted = false
has_outcome pending AckStatus.failed = false
has_outcome pending AckStatus.dead_lettered = false
has_outcome pending _ = true
has_outcome _ _ = false

abbrev pub total_of : Outcome → Health → ℕ
total_of pending h = h.pending
total_of accepted h = h.accepted
total_of failed h = h.failed
total_of dead_lettered h = h.dead_lettered

-- The counter of an agent, 0 for an agent without an entry.
abbrev pub counter_of : Outcome → Option AgentHealth → ℕ
counter_of o none = 0
counter_of pending (some m) = m.pending
counter_of accepted (some m) = m.accepted
counter_of failed (some m) = m.failed
counter_of dead_lettered (some m) = m.dead_lettered

abbrev pub one_if : Bool → ℕ
one_if true = 1
one_if false = 0

-- The number of records that pass a test.
abbrev pub count_if : (DeliveryRecord → Bool) → List DeliveryRecord → ℕ
count_if p [] = 0
count_if p (r ∷ rest) = one_if (p r) + count_if p rest

abbrev pub ends_in : Outcome → DeliveryRecord → Bool
ends_in o r = has_outcome o r.status

abbrev pub is_of : String → Outcome → DeliveryRecord → Bool
is_of agent o r = r.envelope.target_agent == agent && has_outcome o r.status

-- The counters of a snapshot of these records.
pub record IsCounted (l : List DeliveryRecord) (h : Health) : Type 0 where
  pub all_tracked : h.tracked ≡ length l
  pub totals : (o : Outcome) → total_of o h ≡ count_if (ends_in o) l
  pub agents :
      (agent : String) (o : Outcome)
      → counter_of o (lookup agent h.by_agent) ≡ count_if (is_of agent o) l

count_total-one :
    (o : Outcome) (st : AckStatus) (lag : ℕ) (h : Health)
    → total_of o (count_total st lag h) ≡ one_if (has_outcome o st) + total_of o h
count_total-one o st lag h = ground arith

count_agent-one :
    (o : Outcome) (st : AckStatus) (depth : ℕ) (m : Option AgentHealth)
    → counter_of o (some (count_agent st (agent_health depth m)))
      ≡ one_if (has_outcome o st) + counter_of o m
count_agent-one o st depth m = ground arith

total-count_record :
    (o : Outcome) (now depth : ℕ) (h : Health) (r : DeliveryRecord)
    → total_of o (count_record now depth h r) ≡ one_if (ends_in o r) + total_of o h
unfolding count_record
total-count_record o now depth h r =
    same o ∙ count_total-one o r.status (now - r.last_progress_at) h
  where
    same :
        (p : Outcome)
        → total_of p (count_record now depth h r)
          ≡ total_of p (count_total r.status (now - r.last_progress_at) h)
    same pending = refl
    same accepted = refl
    same failed = refl
    same dead_lettered = refl

counter-count_record :
    (agent : String) (o : Outcome) (now depth : ℕ) (h : Health) (r : DeliveryRecord)
    → counter_of o (lookup agent (count_record now depth h r).by_agent)
      ≡ one_if (is_of agent o r) + counter_of o (lookup agent h.by_agent)
unfolding count_record
counter-count_record agent o now depth h r =
    let k = r.envelope.target_agent in
    let m = count_agent r.status (agent_health depth (lookup k h.by_agent)) in
    rw (lookup-insert k agent m h.by_agent) (elim (Bool-cases (k == agent)) [
      | inl t ↦ rw t (
          count_agent-one o r.status depth (lookup k h.by_agent)
          ∙ ap (λ a. one_if (has_outcome o r.status) + counter_of o (lookup a h.by_agent))
              ((eq_iff k agent).0 t))
      | inr f ↦ rw f (omega arith)
    ])

module _ {bus : Bus} (s : Supervisor bus) (now : ℕ) where
  -- The records with the history of their acknowledgements applied.
  abbrev pub replayed : List (String × DeliveryRecord) → List DeliveryRecord
  replayed [] = []
  replayed (e ∷ rest) =
      apply_history now e.1 (bus.ack_history s.state e.1.envelope.task_id) ∷ replayed rest

  -- What a fold of the records adds to a measure of the health, one record at a time.
  count_records-adds :
      (f : Health → ℕ) (p : DeliveryRecord → Bool)
      → ((depth : ℕ) (h : Health) (r : DeliveryRecord)
          → f (count_record now depth h r) ≡ one_if (p r) + f h)
      → (l : List (String × DeliveryRecord)) (h : Health)
      → f (count_records s now h l) ≡ count_if p (replayed l) + f h
  unfolding count_records
  count_records-adds f p step [] h = omega arith
  count_records-adds f p step (e ∷ rest) h =
      let r = apply_history now e.1 (bus.ack_history s.state e.1.envelope.task_id) in
      let depth = bus.depth s.state (agent_topic r.envelope.target_agent) in
      let below = count_records-adds f p step rest (count_record now depth h r) in
      omega (arith, below, step depth h r)

  tracked-count_record :
      (depth : ℕ) (h : Health) (r : DeliveryRecord)
      → (count_record now depth h r).tracked ≡ one_if true + h.tracked
  unfolding count_record
  tracked-count_record depth h r = omega arith

  count_if-all : (l : List DeliveryRecord) → count_if (λ _. true) l ≡ length l
  count_if-all [] = refl
  count_if-all (r ∷ l) = omega (arith, count_if-all l)

  -- With the history of its acknowledgements applied to each record, a health snapshot tracks all records;
  -- each of its totals (pending, accepted, failed, dead-lettered) is the number of the records with that
  -- outcome, and each counter of an agent the number of those whose envelope is for that agent. An agent
  -- without an entry has no records, and a record that is not terminal is pending.
  pub health-IsCounted : IsCounted (replayed s.records) (delivery_health_snapshot s now)
  unfolding delivery_health_snapshot lookup
  health-IsCounted =
      let l = replayed s.records in
      record {
        all_tracked =
            let k =
              count_records-adds (λ h. h.tracked) (λ _. true) tracked-count_record s.records
                no_health in
            omega (arith, k, count_if-all l);
        totals = λ o.
            let k =
              count_records-adds (total_of o) (ends_in o)
                (λ depth h r. total-count_record o now depth h r) s.records no_health in
            k ∙ none_yet o (count_if (ends_in o) l);
        agents = λ agent o.
            let k =
              count_records-adds (λ h. counter_of o (lookup agent h.by_agent)) (is_of agent o)
                (λ depth h r. counter-count_record agent o now depth h r) s.records no_health in
            omega (arith, k);
      }
    where
      none_yet : (o : Outcome) (n : ℕ) → n + total_of o no_health ≡ n
      none_yet o n = ground arith
