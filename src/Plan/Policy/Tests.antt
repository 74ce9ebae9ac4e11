-- ===== src/Plan/Policy/Tests.antt =====
-- Concrete tasks and their policies.
use sourcevcode_orchestrator.Prelude.{◌∷◌, [], ◌≡◌, refl, true, false, All, ◌==◌}
use sourcevcode_orchestrator.Domain.Task.{Task, TaskType}
use sourcevcode_orchestrator.Plan.Schedule.{contains}
use sourcevcode_orchestrator.Plan.Executor.Tests.{task}
use sourcevcode_orchestrator.Plan.Policy.{
  infer_capability, sourcecraft_recommended_actions, sourcecraft_safe_actions,
}
use sourcevcode_orchestrator.Plan.Policy.Laws.{recommended-safe, infer_capability-settled}

abbrev release_task : Task
release_task = record task {
  type = TaskType.docs;
  required_capability = "";
  input = record task.input { description = "Write the ChangeLog of 2.0" };
}

its_actions :
    sourcecraft_recommended_actions release_task
    ≡ "repo_summary" ∷ "status" ∷ "repo_governance_report" ∷ []
unfolding sourcecraft_recommended_actions
its_actions = refl

its_capability : infer_capability release_task ≡ "sourcecraft"
unfolding infer_capability
its_capability = refl

recommended-safe_example :
    All
      (λ a. contains a sourcecraft_safe_actions ≡ true)
      (sourcecraft_recommended_actions release_task)
recommended-safe_example = recommended-safe release_task

infer_capability-settled_example :
    (infer_capability (record release_task { required_capability = infer_capability release_task })
      ≡ infer_capability release_task)
    × ((infer_capability release_task == "") ≡ false)
infer_capability-settled_example = infer_capability-settled release_task
