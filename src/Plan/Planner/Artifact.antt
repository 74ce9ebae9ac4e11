-- ===== src/Plan/Planner/Artifact.antt =====
-- go-core/internal/kernel/advanced_planner.go: buildPlanArtifact, which turns the steps of a plan into the
-- artifacts that the executor runs, and the checkpoint that PreviewExecutionPlan saves of them. Costs are
-- in twentieths: 1.5 is 30, 0.35 a file is 7.
use Prim.Native.String.{compare as str_compare}
use package.text.Mathlib.Text.{is_lt}
use sourcevcode_orchestrator.Prelude.{
  ℕ, ◌+◌, ◌*◌, String, List, [], ◌∷◌, ◌++◌, map, Option, none, some, Bool, true, false, ◌||◌, ltb,
  if◌then◌else◌, ◌==◌, length, trim, lower_is, contains_by, insert, lookup, sort_by,
}
use sourcevcode_orchestrator.Prelude.Int.{ℤ, pos, ltb_ℤ}
use sourcevcode_orchestrator.Domain.Json.{Fields, text, number, list, end, field}
use sourcevcode_orchestrator.Domain.Task.{Task, Complexity}
use sourcevcode_orchestrator.Domain.Plan.{
  PlanStep, PlanTaskArtifact, PlanArtifact, ExecutionPlan, ParallelPlanStatus,
}
use sourcevcode_orchestrator.Plan.Executor.{first_non_empty_string, ParallelPlanCheckpoint}
use sourcevcode_orchestrator.Plan.Tasks.{texts}
use sourcevcode_orchestrator.Plan.Planner.Steps.{
  worker_class_for_capability, step_context_budget, step_ids,
}

unfoldable pub should_use_dynamic_step_routing : PlanStep → Bool
should_use_dynamic_step_routing step =
    if lower_is (trim step.capability) "plan" || lower_is (trim step.capability) "analysis"
    then true
    else elim step.dependencies [ [] ↦ true | _ ∷ _ ↦ false ]

unfoldable pub step_assignment : Task → ExecutionPlan → PlanStep → String × String
unfolding should_use_dynamic_step_routing first_non_empty_string
step_assignment task plan step = if should_use_dynamic_step_routing step then ("", "") else (
  first_non_empty_string (task.assigned_provider ∷ plan.selection.provider ∷ []),
  first_non_empty_string (task.assigned_model ∷ plan.selection.model_name ∷ []),
)

unfoldable pub draft_layer : PlanStep → String
unfolding contains_by
draft_layer step = elim step.dependencies [
  | [] ↦ "analysis"
  | _ ∷ _ ↦
      if step.capability == "review" || step.capability == "docs"
      then "review"
      else if contains_by (λ c. c) step.id "test"
      then "verification"
      else if contains_by (λ c. c) step.id "branch-"
      then "parallel"
      else "execution"
]

unfoldable pub base_cost : Complexity → ℕ
base_cost Complexity.medium = 30
base_cost Complexity.high = 50
base_cost Complexity.critical = 80
base_cost _ = 20

abbrev pub checks_work : PlanStep → Bool
checks_work step = step.capability == "review" || step.capability == "test"

unfoldable pub estimate_plan_step_cost : Task → ExecutionPlan → PlanStep → ℕ
unfolding base_cost
estimate_plan_step_cost task plan step =
    base_cost plan.complexity
    + length step.files * 7
    + length step.dependencies * 5
    + length task.input.acceptance_criteria * 3
    + (if checks_work step then 10 else 0)

unfoldable pub critical_weight : Complexity → ℕ
critical_weight Complexity.critical = 15
critical_weight _ = 0

unfoldable pub estimate_plan_step_weight : Task → ExecutionPlan → PlanStep → ℕ
unfolding estimate_plan_step_cost critical_weight
estimate_plan_step_weight task plan step =
    estimate_plan_step_cost task plan step
    + length step.files * 8
    + length step.dependencies * 4
    + (if checks_work step then 7 else 0)
    + critical_weight plan.complexity

unfoldable pub context_budget_of : PlanStep → ℤ
unfolding step_context_budget
context_budget_of step =
    if ltb_ℤ (pos 0) step.context_budget
    then step.context_budget
    else pos (step_context_budget step.capability step.files)

unfoldable pub conflict_keys_of : PlanStep → List String
conflict_keys_of step = elim step.conflict_keys [ [] ↦ step.files | k ∷ ks ↦ k ∷ ks ]

unfoldable pub worker_class_of : PlanStep → String
unfolding first_non_empty_string worker_class_for_capability
worker_class_of step =
    first_non_empty_string (step.worker_class ∷ worker_class_for_capability step.capability ∷ [])

unfoldable pub cluster_id_of : PlanStep → String
unfolding first_non_empty_string
cluster_id_of step = first_non_empty_string (step.cluster_id ∷ step.id ∷ [])

unfoldable pub task_contract : Task → PlanStep → Fields
unfolding texts first_non_empty_string
task_contract task step = field "review_depth" (number task.review_depth) (
    field "checkpoint_policy"
      (text (first_non_empty_string (task.checkpoint_policy ∷ "on_plan_preview" ∷ [])))
      (field "resume_token" (text (first_non_empty_string (task.resume_token ∷ step.id ∷ []))) (
        field "repo_fingerprint" (text task.repo_fingerprint)
          (field "acceptance_criteria" (list (texts task.input.acceptance_criteria)) end))))

unfoldable pub step_contract : Task → ExecutionPlan → PlanStep → Fields
unfolding worker_class_of cluster_id_of context_budget_of conflict_keys_of step_assignment texts
    task_contract
step_contract task plan step = field "root_task_id" (text task.id) (
    field "session_id" (text task.session_id) (
      field "step_id" (text step.id) (
        field "required_capability" (text step.capability) (
          field "worker_class" (text (worker_class_of step)) (
            field "cluster_id" (text (cluster_id_of step)) (
              field "context_budget" (number (context_budget_of step)) (
                field "conflict_keys" (list (texts (conflict_keys_of step))) (
                  field "selected_provider" (text (step_assignment task plan step).0) (
                    field "selected_model" (text (step_assignment task plan step).1)
                      (task_contract task step))))))))))

unfoldable pub plan_task : Task → ExecutionPlan → PlanStep → PlanTaskArtifact
unfolding worker_class_of cluster_id_of context_budget_of conflict_keys_of step_assignment
    draft_layer estimate_plan_step_cost estimate_plan_step_weight step_contract
plan_task task plan step = record {
  task_id = step.id;
  title = step.title;
  capability = step.capability;
  worker_class = worker_class_of step;
  cluster_id = cluster_id_of step;
  context_budget = context_budget_of step;
  conflict_keys = conflict_keys_of step;
  provider = (step_assignment task plan step).0;
  model_name = (step_assignment task plan step).1;
  files = step.files;
  dependencies = step.dependencies;
  branch_id = cluster_id_of step;
  draft_layer = draft_layer step;
  estimated_cost = estimate_plan_step_cost task plan step;
  weight = estimate_plan_step_weight task plan step;
  execution_contract = step_contract task plan step;
}

unfoldable pub handoff : String → String → Fields
handoff id dependency =
    field "from" (text dependency) (field "to" (text id) (field "kind" (text "dependency") end))

unfoldable pub handoffs_of : List PlanStep → List Fields
unfolding handoff
handoffs_of [] = []
handoffs_of (step ∷ steps) = map (handoff step.id) step.dependencies ++ handoffs_of steps

abbrev pub or_nil : Option (List String) → List String
or_nil none = []
or_nil (some l) = l

abbrev text_less : String → String → Bool
text_less s t = is_lt (str_compare s t)

-- The map of the groups, after the loop over the steps.
unfoldable pub grouped : List PlanStep → List (String × List String) → List (String × List String)
unfolding insert lookup
grouped [] groups = groups
grouped (step ∷ steps) groups = elim step.dependencies [
  | key ∷ [] ↦ grouped steps (insert key (or_nil (lookup key groups) ++ step.id ∷ []) groups)
  | _ ↦ grouped steps groups
]

unfoldable pub shared_keys : List (String × List String) → List String
shared_keys [] = []
shared_keys ((key, items) ∷ groups) =
    let rest = shared_keys groups in if ltb 1 (length items) then key ∷ rest else rest

unfoldable pub parallel_groups : List PlanStep → List (List String)
unfolding grouped shared_keys sort_by lookup
parallel_groups steps =
    let groups = grouped steps [] in
    map (λ key. sort_by text_less (or_nil (lookup key groups)))
      (sort_by text_less (shared_keys groups))

unfoldable pub build_plan_artifact : ℕ → Task → ExecutionPlan → PlanArtifact
unfolding plan_task parallel_groups handoffs_of
build_plan_artifact now task plan = record {
  root_task_id = task.id;
  primary_capability = plan.primary_capability;
  task_count = length plan.steps;
  tasks = map (plan_task task plan) plan.steps;
  parallel_groups = parallel_groups plan.steps;
  handoffs = handoffs_of plan.steps;
  created_at = now;
}

-- What the executor reads of the checkpoint that PreviewExecutionPlan saves.
unfoldable pub preview_checkpoint : Task → ExecutionPlan → ParallelPlanCheckpoint
unfolding plan_task
preview_checkpoint task plan = record {
  root_task_id = task.id;
  tasks = map (plan_task task plan) plan.steps;
  pending_task_ids = step_ids plan.steps;
  completed_task_ids = [];
  results_by_task_id = [];
  batch_no = 1;
  status = ParallelPlanStatus.planned;
}
