-- ===== src/Plan/Tasks.antt =====
-- go-core/internal/kernel/advanced_planner.go: the task that the executor submits for an artifact. A list of
-- texts in a map of Go `any` values is a list of texts; the Boolean true is the scalar of that name.
pub mod Contract
mod Tests
use sourcevcode_orchestrator.Prelude.{
  ℕ, String, List, [], ◌∷◌, Bool, ◌||◌, if◌then◌else◌, ◌==◌, trim, lower_is,
}
use sourcevcode_orchestrator.Prelude.Int.{pos}
use sourcevcode_orchestrator.Domain.Json.{
  Value, Items, Fields, text, scalar, number, list, nil, cons, end, field,
}
use sourcevcode_orchestrator.Domain.Task.{Task, TaskType}
use sourcevcode_orchestrator.Domain.Plan.{PlanTaskArtifact}
use sourcevcode_orchestrator.Plan.Executor.{first_non_empty_string}

-- m[key] = value
unfoldable pub set_field : String → Value → Fields → Fields
set_field key value end = field key value end
set_field key value (field k v rest) =
    let later = set_field key value rest in if k == key then field k value rest else field k v later

unfoldable pub texts : List String → Items
texts [] = nil
texts (t ∷ rest) = cons (text t) (texts rest)

unfoldable pub task_type_for_capability : TaskType → String → TaskType
task_type_for_capability root capability =
    if lower_is (trim capability) "plan" || lower_is (trim capability) "analysis"
    then TaskType.plan
    else if lower_is (trim capability) "code" || lower_is (trim capability) "sourcecraft"
    then TaskType.code
    else if lower_is (trim capability) "review" || lower_is (trim capability) "security"
    then TaskType.review
    else if lower_is (trim capability) "test"
    then TaskType.test
    else if lower_is (trim capability) "docs"
    then TaskType.docs
    else if lower_is (trim capability) "fix"
    then TaskType.fix
    else if lower_is (trim capability) "research"
    then TaskType.research
    else elim root [ TaskType.unset ↦ TaskType.plan | other ↦ other ]

-- The entries that both maps get from the artifact.
unfoldable pub with_artifact : PlanTaskArtifact → Fields → Fields
unfolding set_field texts
with_artifact a m = set_field "task_weight" (number (pos a.weight)) (
    set_field "conflict_keys" (list (texts a.conflict_keys)) (
      set_field "context_budget" (number a.context_budget) (
        set_field "cluster_id" (text a.cluster_id)
          (set_field "worker_class" (text a.worker_class) m))))

unfoldable pub execution_contract_of : Task → PlanTaskArtifact → ℕ → Fields
unfolding set_field with_artifact first_non_empty_string
execution_contract_of root a batch_no = set_field "parallel_plan" (scalar "true") (
    set_field "plan_batch_no" (number (pos batch_no)) (
      set_field "step_id" (text a.task_id) (
        set_field "session_id" (text (first_non_empty_string (root.session_id ∷ root.id ∷ [])))
          (set_field "root_task_id" (text root.id) (with_artifact a a.execution_contract)))))

unfoldable pub routing_hints_of : Task → PlanTaskArtifact → ℕ → Fields
unfolding set_field with_artifact
routing_hints_of root a batch_no = with_artifact a (
    set_field "parallel_plan" (scalar "true") (
      set_field "plan_batch_no" (number (pos batch_no)) (
        set_field "plan_step_id" (text a.task_id)
          (set_field "root_task_id" (text root.id) root.routing_hints))))

unfoldable pub build_plan_task : Task → PlanTaskArtifact → ℕ → Task
unfolding first_non_empty_string task_type_for_capability execution_contract_of routing_hints_of
build_plan_task root a batch_no = record root {
  id = a.task_id;
  session_id = first_non_empty_string (root.session_id ∷ root.id ∷ []);
  parent_task_id = root.id;
  type = task_type_for_capability root.type a.capability;
  required_capability = a.capability;
  assigned_provider = a.provider;
  assigned_model = a.model_name;
  input = record root.input { description = a.title; files = a.files };
  dependencies = a.dependencies;
  branch_id = first_non_empty_string (a.branch_id ∷ a.task_id ∷ []);
  draft_layer = a.draft_layer;
  estimated_cost = a.estimated_cost;
  execution_contract = execution_contract_of root a batch_no;
  resume_token = first_non_empty_string (root.resume_token ∷ a.task_id ∷ []);
  routing_hints = routing_hints_of root a batch_no;
}
