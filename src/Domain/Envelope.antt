-- ===== src/Domain/Envelope.antt =====
-- go-core/internal/domain/delivery.go. `unset` is the zero value "" of AckStatus. Counters are Go ints,
-- which a request may set below zero; times are nanoseconds since the zero time.
use sourcevcode_orchestrator.Prelude.{ℕ, String, Bool, List, Option}
use sourcevcode_orchestrator.Prelude.Int.{ℤ}
use sourcevcode_orchestrator.Domain.Json.{Fields}
use sourcevcode_orchestrator.Domain.Task.{TaskStatus, AgentResult}

pub data AckStatus : Type 0 where
  unset sent queued received validated retrying accepted dead_lettered failed : AckStatus

pub record TaskPayload : Type 0 where
  pub objective : String
  pub input_data : Fields
  pub context : Fields
  pub acceptance_criteria : List String
  pub expected_output_format : String
  pub artifacts : List String

pub record TaskEnvelope : Type 0 where
  pub protocol_version : String
  pub task_id : String
  pub parent_task_id : String
  pub trace_id : String
  pub correlation_id : String
  pub source_agent : String
  pub target_agent : String
  pub target_capability : String
  pub priority : String
  pub qos_class : String
  pub ttl : ℤ
  pub deadline : Option ℕ
  pub hop_count : ℤ
  pub max_hops : ℤ
  pub retry_count : ℤ
  pub max_retries : ℤ
  pub security_policy : String
  pub context_scope : String
  pub dependencies : List String
  pub payload : TaskPayload
  pub is_dead_letter : Bool
  pub created_at : ℕ

pub record TaskResultEnvelope : Type 0 where
  pub task_id : String
  pub parent_task_id : String
  pub trace_id : String
  pub correlation_id : String
  pub source_agent : String
  pub target_agent : String
  pub status : TaskStatus
  pub result : AgentResult
  pub created_at : ℕ

pub record MessageAck : Type 0 where
  pub message_id : String
  pub ack_status : AckStatus
  pub received_by : String
  pub reason : String
