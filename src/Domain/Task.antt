-- ===== src/Domain/Task.antt =====
-- go-core/internal/domain/types.go: tasks and their results. `unset` is the zero value "" of a string
-- type. Times are nanoseconds since the zero time. The floating-point cost and confidence stand in
-- fixed-point units (twentieths and thousandths); no modelled code computes with them.
use sourcevcode_orchestrator.Prelude.{ℕ, String, Bool, List, Option}
use sourcevcode_orchestrator.Prelude.Int.{ℤ}
use sourcevcode_orchestrator.Domain.Json.{Fields}

pub data TaskType : Type 0 where
  unset plan code review test docs fix research : TaskType

pub data Priority : Type 0 where
  unset low normal high critical : Priority

pub data TaskStatus : Type 0 where
  unset queued accepted rejected waiting_input running completed dead_lettered done failed :
      TaskStatus

pub data Complexity : Type 0 where
  unset low medium high critical : Complexity

pub record TaskInput : Type 0 where
  pub description : String
  pub files : List String
  pub constraints : List String
  pub acceptance_criteria : List String

pub record TaskContext : Type 0 where
  pub project : String
  pub repo_path : String
  pub branch : String

pub record Task : Type 0 where
  pub id : String
  pub session_id : String
  pub parent_task_id : String
  pub type : TaskType
  pub priority : Priority
  pub required_capability : String
  pub assigned_provider : String
  pub assigned_model : String
  pub complexity : Complexity
  pub memory_scope : String
  pub memory_keys : List String
  pub cache_policy : String
  pub input : TaskInput
  pub context : TaskContext
  pub dependencies : List String
  pub branch_id : String
  pub draft_layer : String
  pub checkpoint_policy : String
  pub review_depth : ℤ
  pub resume_token : String
  pub estimated_cost : ℕ
  pub execution_contract : Fields
  pub repo_fingerprint : String
  pub routing_hints : Fields
  pub created_at : ℕ

pub record TaskAcceptance : Type 0 where
  pub task_id : String
  pub status : TaskStatus
  pub agent_id : String
  pub complexity : Complexity
  pub reason : String
  pub capability : String
  pub provider : String
  pub model_name : String
  pub requires_secondary_review : Bool
  pub accepted_at : ℕ

pub record ResultOutput : Type 0 where
  pub summary : String
  pub files_changed : List String
  pub commands_run : List String
  pub test_results : List Fields
  pub artifacts : Fields

pub record AgentResult : Type 0 where
  pub task_id : String
  pub agent_id : String
  pub status : TaskStatus
  pub confidence : ℕ
  pub errors : List String
  pub next_recommendations : List String
  pub provider : String
  pub model_name : String
  pub output : ResultOutput
  pub completed_at : ℕ

-- Without the field Plan, which no modelled code reads.
pub record WorkflowRecord : Type 0 where
  pub task : Task
  pub acceptance : TaskAcceptance
  pub result : Option AgentResult
  pub updated_at : ℕ
