-- ===== src/Plan/Planner.antt =====
-- go-core/internal/kernel/planner.go: the steps that the planner makes of a task. The model selector is
-- a separate component: its answer is an argument. The environment's GO_CORE_MAX_CLUSTER_PLAN_FILES, 12 by
-- default and never negative, is the argument `most`.
pub mod Steps
pub mod Artifact
pub mod Clusters
pub mod Order
pub mod Schedulable
mod Tests
use sourcevcode_orchestrator.Prelude.{
  ℕ, String, List, [], ◌∷◌, Option, none, some, Bool, true, false, not, ◌&&◌, ◌||◌, if◌then◌else◌,
  ◌==◌, trim, lower_is,
}
use sourcevcode_orchestrator.Domain.Json.{
  entry, Value, Items, Fields, text, scalar, list, nil, end, field,
}
use sourcevcode_orchestrator.Domain.Task.{Task}
use sourcevcode_orchestrator.Domain.Plan.{ModelSelection, ExecutionPlan}
use sourcevcode_orchestrator.Plan.Policy.{
  infer_capability, is_sourcecraft_work, sourcecraft_task_family, sourcecraft_recommended_actions,
}
use sourcevcode_orchestrator.Plan.Tasks.{set_field, texts}
use sourcevcode_orchestrator.Plan.Planner.Steps.{default_steps}

-- toString of kernel/router.go: the text of a value that is one.
unfoldable pub to_string : Option Value → String
to_string (some (text s)) = s
to_string _ = ""

-- value.(bool), and the flag is set.
unfoldable pub is_flag : Option Value → Bool
is_flag (some (scalar s)) = s == "true"
is_flag _ = false

unfoldable pub should_use_dynamic_parallel_plan_routing : Task → Bool
unfolding to_string is_flag entry
should_use_dynamic_parallel_plan_routing task =
    is_flag (entry "parallel_plan" task.routing_hints)
    && not (trim (to_string (entry "plan_step_id" task.routing_hints)) == "")
    && (lower_is (trim task.required_capability) "plan"
        || lower_is (trim task.required_capability) "analysis")

unfoldable pub boolean : Bool → Value
boolean true = scalar "true"
boolean false = scalar "false"

-- The capability, complexity, provider and model of the task. The provider and the model that a task
-- has already are kept.
unfoldable pub assigned : Task → ModelSelection → Task
unfolding infer_capability should_use_dynamic_parallel_plan_routing
assigned task selection =
    let typed = record task {
      required_capability = infer_capability task;
      complexity = selection.complexity;
    } in
    let fixed = not (should_use_dynamic_parallel_plan_routing typed) in
    record typed {
      assigned_provider =
          if task.assigned_provider == "" && fixed
          then selection.provider
          else task.assigned_provider;
      assigned_model =
          if task.assigned_model == "" && fixed then selection.model_name else task.assigned_model;
    }

unfoldable pub support_hints : ModelSelection → Fields → Fields
unfolding set_field boolean
support_hints selection hints = elim selection.support_lanes [
  | nil ↦ hints
  | _ ↦
      set_field "ai_kernel_helper" (boolean true)
        (set_field "support_lanes" (list selection.support_lanes) hints)
]

unfoldable pub trace_hints : ModelSelection → Fields → Fields
unfolding set_field
trace_hints selection hints = elim selection.selection_trace [
  | end ↦ hints
  | _ ↦ set_field "selection_trace" (Value.object selection.selection_trace) hints
]

unfoldable pub sourcecraft_hints : Task → Fields → Fields
unfolding set_field boolean texts is_sourcecraft_work
sourcecraft_hints task hints =
    if is_sourcecraft_work task
    then set_field "sourcecraft_mutation_supported" (boolean false) (
        set_field "sourcecraft_runtime_mode" (text "planning_only") (
          set_field "sourcecraft_recommended_actions"
            (list (texts (sourcecraft_recommended_actions task)))
            (set_field "sourcecraft_task_family" (text (sourcecraft_task_family task)) hints)))
    else hints

unfoldable pub planner_hints : Task → ModelSelection → Fields
unfolding set_field boolean support_hints trace_hints sourcecraft_hints is_sourcecraft_work
planner_hints task selection = sourcecraft_hints task (
    trace_hints selection (
      support_hints selection (
        set_field "selected_model" (text task.assigned_model) (
          set_field "selected_provider" (text task.assigned_provider) (
            set_field "sourcecraft_work" (boolean (is_sourcecraft_work task)) (
              set_field "required_capability" (text task.required_capability)
                task.routing_hints))))))

unfoldable pub build_plan : ℕ → ℕ → Task → ModelSelection → ExecutionPlan
unfolding default_steps
build_plan most now task selection = record {
  task_id = task.id;
  complexity = selection.complexity;
  primary_capability = task.required_capability;
  selection = selection;
  steps = default_steps most task;
  created_at = now;
}

-- The selector is asked about the task with its capability.
unfoldable pub prepared : Task → (Task → ModelSelection) → Task
unfolding assigned planner_hints infer_capability
prepared task select =
    let selection = select (record task { required_capability = infer_capability task }) in
    let a = assigned task selection in record a { routing_hints = planner_hints a selection }

unfoldable pub prepare : ℕ → ℕ → (Task → ModelSelection) → Task → Task × ExecutionPlan
unfolding prepared build_plan
prepare most now select task =
    let selection = select (record task { required_capability = infer_capability task }) in
    let t = prepared task select in (t, build_plan most now t selection)
