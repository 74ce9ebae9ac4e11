-- ===== src/Domain/Plan.antt =====
-- go-core/internal/domain/types.go: plan steps and plan artifacts. Costs and weights are floats in the
-- source, sums of multiples of 0.05; here they are numbers of twentieths.
use sourcevcode_orchestrator.Prelude.{ℕ, String, List}
use sourcevcode_orchestrator.Prelude.Int.{ℤ}
use sourcevcode_orchestrator.Domain.Json.{Items, Fields}
use sourcevcode_orchestrator.Domain.Task.{Complexity}

pub record PlanStep : Type 0 where
  pub id : String
  pub title : String
  pub capability : String
  pub worker_class : String
  pub cluster_id : String
  pub context_budget : ℤ
  pub conflict_keys : List String
  pub dependencies : List String
  pub files : List String

pub record PlanTaskArtifact : Type 0 where
  pub task_id : String
  pub title : String
  pub capability : String
  pub worker_class : String
  pub cluster_id : String
  pub context_budget : ℤ
  pub conflict_keys : List String
  pub provider : String
  pub model_name : String
  pub files : List String
  pub dependencies : List String
  pub branch_id : String
  pub draft_layer : String
  pub estimated_cost : ℕ
  pub weight : ℕ
  pub execution_contract : Fields

-- The fields that the planner reads. The support lanes pass through as the items of a slice.
pub record ModelSelection : Type 0 where
  pub provider : String
  pub model_name : String
  pub complexity : Complexity
  pub support_lanes : Items
  pub selection_trace : Fields

pub record ExecutionPlan : Type 0 where
  pub task_id : String
  pub complexity : Complexity
  pub primary_capability : String
  pub selection : ModelSelection
  pub steps : List PlanStep
  pub created_at : ℕ

pub record PlanArtifact : Type 0 where
  pub root_task_id : String
  pub primary_capability : String
  pub task_count : ℕ
  pub tasks : List PlanTaskArtifact
  pub parallel_groups : List (List String)
  pub handoffs : List Fields
  pub created_at : ℕ

pub data ParallelPlanStatus : Type 0 where
  planned running blocked failed completed : ParallelPlanStatus
