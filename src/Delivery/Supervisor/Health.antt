-- ===== src/Delivery/Supervisor/Health.antt =====
-- go-core/internal/delivery/supervisor.go: DeliveryHealthSnapshot and MailboxSnapshot, which change nothing. The
-- lag is in nanoseconds; a negative one, which the source never keeps, is 0.
pub mod Counts
use sourcevcode_orchestrator.Prelude.{
  ℕ, suc, ◌-◌, String, List, [], ◌∷◌, Option, none, some, Bool, if◌then◌else◌, ◌==◌, not, ◌&&◌, ltb,
  lookup, insert,
}
use sourcevcode_orchestrator.Domain.Envelope.{AckStatus}
use sourcevcode_orchestrator.Delivery.Bus.{agent_topic, is_terminal_status}
use sourcevcode_orchestrator.Delivery.Interface.{Bus}
use sourcevcode_orchestrator.Delivery.Record.{DeliveryRecord, apply_history}
use sourcevcode_orchestrator.Delivery.Supervisor.{Supervisor}

pub record AgentHealth : Type 0 where
  pub queue_depth : ℕ
  pub pending : ℕ
  pub accepted : ℕ
  pub failed : ℕ
  pub dead_lettered : ℕ

pub record Health : Type 0 where
  pub tracked : ℕ
  pub pending : ℕ
  pub accepted : ℕ
  pub failed : ℕ
  pub dead_lettered : ℕ
  pub max_lag : ℕ
  pub by_agent : List (String × AgentHealth)

abbrev pub no_health : Health
no_health = record {
  tracked = 0;
  pending = 0;
  accepted = 0;
  failed = 0;
  dead_lettered = 0;
  max_lag = 0;
  by_agent = [];
}

-- The switch over the counters of an agent.
abbrev pub count_agent : AckStatus → AgentHealth → AgentHealth
count_agent AckStatus.accepted m = record m { accepted = suc m.accepted }
count_agent AckStatus.failed m = record m { failed = suc m.failed }
count_agent AckStatus.dead_lettered m = record m { dead_lettered = suc m.dead_lettered }
count_agent _ m = record m { pending = suc m.pending }

-- The switch over the totals.
abbrev pub count_total : AckStatus → ℕ → Health → Health
count_total AckStatus.accepted lag h = record h { accepted = suc h.accepted }
count_total AckStatus.failed lag h = record h { failed = suc h.failed }
count_total AckStatus.dead_lettered lag h = record h { dead_lettered = suc h.dead_lettered }
count_total _ lag h = record h {
  pending = suc h.pending;
  max_lag = if ltb h.max_lag lag then lag else h.max_lag;
}

-- The counters of an agent, new where it has none.
abbrev pub agent_health : ℕ → Option AgentHealth → AgentHealth
agent_health depth none = record {
  queue_depth = depth;
  pending = 0;
  accepted = 0;
  failed = 0;
  dead_lettered = 0;
}
agent_health depth (some m) = m

-- One round of the loop, after the replay of the history.
unfoldable pub count_record : ℕ → ℕ → Health → DeliveryRecord → Health
count_record now depth h r =
    let agent = r.envelope.target_agent in
    let t : Health = count_total r.status (now - r.last_progress_at) h in
    record t {
      tracked = suc h.tracked;
      by_agent =
          insert agent (count_agent r.status (agent_health depth (lookup agent h.by_agent)))
            h.by_agent;
    }

unfoldable pub open_ids : String → List (String × DeliveryRecord) → List String
unfolding is_terminal_status
open_ids agent [] = []
open_ids agent (e ∷ rest) =
    let below = open_ids agent rest in
    if e.1.envelope.target_agent == agent && not (is_terminal_status e.1.status)
    then e.0 ∷ below
    else below

module _ {bus : Bus} where
  unfoldable pub count_records :
      Supervisor bus → ℕ → Health → List (String × DeliveryRecord) → Health
  unfolding count_record
  count_records s now h [] = h
  count_records s now h (e ∷ rest) =
      let r = apply_history now e.1 (bus.ack_history s.state e.1.envelope.task_id) in
      count_records s now
        (count_record now (bus.depth s.state (agent_topic r.envelope.target_agent)) h r) rest

  unfoldable pub delivery_health_snapshot : Supervisor bus → ℕ → Health
  unfolding count_records
  delivery_health_snapshot s now = count_records s now no_health s.records

  -- The depth of the agent's queue, and the ids of its open deliveries.
  unfoldable pub mailbox_snapshot : Supervisor bus → String → ℕ × List String
  unfolding open_ids
  mailbox_snapshot s agent = (bus.depth s.state (agent_topic agent), open_ids agent s.records)
