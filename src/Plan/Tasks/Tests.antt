-- ===== src/Plan/Tasks/Tests.antt =====
-- A concrete task of a plan.
use sourcevcode_orchestrator.Prelude.{some, ◌≡◌, if◌then◌else◌, ◌==◌}
use sourcevcode_orchestrator.Prelude.Int.{pos}
use sourcevcode_orchestrator.Domain.Json.{entry, text, number, list}
use sourcevcode_orchestrator.Plan.Schedule.Tests.{check}
use sourcevcode_orchestrator.Plan.Executor.Tests.{task}
use sourcevcode_orchestrator.Plan.Tasks.{texts, build_plan_task}
use sourcevcode_orchestrator.Plan.Tasks.Contract.{build_plan_task-maps}

build_plan_task-maps_example :
    let contract = (build_plan_task task check 2).execution_contract in
    let hints = (build_plan_task task check 2).routing_hints in
    (entry "root_task_id" contract ≡ some (text task.id))
    × (entry "session_id" contract
        ≡ some (text (if task.session_id == "" then task.id else task.session_id)))
    × (entry "step_id" contract ≡ some (text check.task_id))
    × (entry "plan_batch_no" contract ≡ some (number (pos 2)))
    × (entry "conflict_keys" contract ≡ some (list (texts check.conflict_keys)))
    × (entry "root_task_id" hints ≡ some (text task.id))
    × (entry "plan_step_id" hints ≡ some (text check.task_id))
    × (entry "plan_batch_no" hints ≡ some (number (pos 2)))
    × (entry "conflict_keys" hints ≡ some (list (texts check.conflict_keys)))
build_plan_task-maps_example = build_plan_task-maps task check 2
