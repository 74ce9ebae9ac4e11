-- ===== src/Plan/Policy/Laws.antt =====
-- What the policy guarantees of the capability and of the actions that it recommends.
use sourcevcode_orchestrator.Prelude.{
  String, List, true, false, not, ◌≡◌, refl, arith, if_cases, if◌then◌else◌, ◌==◌, trim, trim_left,
  trim_right, is_space, is_empty, All,
}
use sourcevcode_orchestrator.Prelude.Trim.{trim-trim}
use sourcevcode_orchestrator.Domain.Task.{Task, TaskType}
use sourcevcode_orchestrator.Plan.Schedule.{contains}
use sourcevcode_orchestrator.Plan.Policy.{
  infer_capability, is_sourcecraft_work, capability_by_task_type, sourcecraft_recommended_actions,
  sourcecraft_safe_actions_by_family, sourcecraft_task_family, sourcecraft_safe_actions,
}

abbrev AreSafe : List String → Type 0
AreSafe actions = All (λ a. contains a sourcecraft_safe_actions ≡ true) actions

actions-AreSafe : (family : String) → AreSafe (sourcecraft_safe_actions_by_family family)
unfolding sourcecraft_safe_actions_by_family sourcecraft_safe_actions
actions-AreSafe family = ground arith

-- Every action that is recommended for a task is one of the safe actions.
pub recommended-safe :
    (task : Task)
    → All (λ a. contains a sourcecraft_safe_actions ≡ true) (sourcecraft_recommended_actions task)
unfolding sourcecraft_recommended_actions
recommended-safe task = actions-AreSafe (sourcecraft_task_family task)

abbrev IsTidy : String → Type 0
IsTidy k = (trim k ≡ k) × ((k == "") ≡ false)

keeps_capability :
    (task : Task) (capability : String)
    → trim capability ≡ capability
    → (capability == "") ≡ false
    → infer_capability (record task { required_capability = capability }) ≡ capability
unfolding infer_capability
keeps_capability task capability t e = rw (t, e) refl

capability_by_task_type-proper : (t : TaskType) → IsTidy (capability_by_task_type t)
unfolding capability_by_task_type trim trim_left trim_right is_empty is_space
capability_by_task_type-proper TaskType.unset = (refl, refl)
capability_by_task_type-proper TaskType.plan = (refl, refl)
capability_by_task_type-proper TaskType.code = (refl, refl)
capability_by_task_type-proper TaskType.review = (refl, refl)
capability_by_task_type-proper TaskType.test = (refl, refl)
capability_by_task_type-proper TaskType.docs = (refl, refl)
capability_by_task_type-proper TaskType.fix = (refl, refl)
capability_by_task_type-proper TaskType.research = (refl, refl)

infer_capability-IsTidy : (task : Task) → IsTidy (infer_capability task)
unfolding infer_capability trim trim_left trim_right is_empty is_space
infer_capability-IsTidy task =
    let rest : String =
      if is_sourcecraft_work task then "sourcecraft" else capability_by_task_type task.type in
    if_cases IsTidy (not (trim task.required_capability == "")) {x = trim task.required_capability}
      {y = rest} (λ e. (trim-trim task.required_capability, ground (arith, e)))
      (λ _.
        if_cases IsTidy (is_sourcecraft_work task) (λ _. (refl, refl))
          (λ _. capability_by_task_type-proper task.type))

-- Inferring the capability of a task that has been given its inferred capability changes nothing, and no
-- task is left without one.
pub infer_capability-settled :
    (task : Task)
    → (infer_capability (record task { required_capability = infer_capability task })
        ≡ infer_capability task)
      × ((infer_capability task == "") ≡ false)
infer_capability-settled task =
    let (t, e) = infer_capability-IsTidy task in
    (keeps_capability task (infer_capability task) t e, e)
