-- ===== src/Plan/Executor/Tests.antt =====
-- Concrete runs of the executor.
use mathlib.Core.List.{Mem, mem-cons_self}
use sourcevcode_orchestrator.Prelude.{
  ◌≤◌, String, List, [], ◌∷◌, Option, none, some, ◌≡◌, refl, sym, subst, All, false, sort_by, place,
  trim, trim_left, trim_right, is_space, is_empty, insert,
}
use sourcevcode_orchestrator.Prelude.Int.{pos}
use sourcevcode_orchestrator.Domain.Json.{end}
use sourcevcode_orchestrator.Domain.Plan.{PlanTaskArtifact, ParallelPlanStatus}
use sourcevcode_orchestrator.Domain.Task.{
  WorkflowRecord, Task, TaskStatus, TaskType, Priority, Complexity,
}
use sourcevcode_orchestrator.Plan.Schedule.{
  completed_set, deps_done, ready_plan_artifacts, schedule_ready_artifacts_with_conflicts, trimmed,
  has_conflict_keys, register_conflict_keys, pick, lighter, collect_artifact_conflict_keys,
  remove_pending,
}
use sourcevcode_orchestrator.Plan.Schedule.Tests.{artifact, parse, print, check, tasks}
use sourcevcode_orchestrator.Plan.Executor.{
  ParallelPlanCheckpoint, Run, Stage, Completion, PlanError, launch, await, next_round, receive,
  fail, execute_parallel_plan, Reach, Step, start_all, is_none, no_ids, resume, begin, static_saved,
  finish, validate_plan_workflow, after_save, validated, validate_result, is_successful_plan_status,
  save_failed,
}
use sourcevcode_orchestrator.Plan.Executor.Sound.{SoundStage, Reach-SoundStage}
use sourcevcode_orchestrator.Plan.Executor.Blocked.{blocked_only_if}
use sourcevcode_orchestrator.Plan.Executor.Resolved.{never_unresolved, error_of, is_unresolved}
use sourcevcode_orchestrator.Plan.Executor.Termination.{IsProper, Reach-bounded}

abbrev never_fails : ParallelPlanCheckpoint → Option String
never_fails c = none

abbrev checkpoint_of : List PlanTaskArtifact → List String → ParallelPlanCheckpoint
checkpoint_of tasks pending = record {
  root_task_id = "root";
  tasks = tasks;
  pending_task_ids = pending;
  completed_task_ids = [];
  results_by_task_id = [];
  batch_no = 0;
  status = ParallelPlanStatus.planned;
}

abbrev plan_checkpoint : ParallelPlanCheckpoint
plan_checkpoint = checkpoint_of tasks ("parse" ∷ "print" ∷ "check" ∷ [])

abbrev pub task : Task
task = record {
  id = "parse";
  session_id = "s";
  parent_task_id = "root";
  type = TaskType.code;
  priority = Priority.normal;
  required_capability = "code";
  assigned_provider = "";
  assigned_model = "";
  complexity = Complexity.low;
  memory_scope = "";
  memory_keys = [];
  cache_policy = "";
  input = record { description = ""; files = []; constraints = []; acceptance_criteria = [] };
  context = record { project = ""; repo_path = ""; branch = "" };
  dependencies = [];
  branch_id = "";
  draft_layer = "";
  checkpoint_policy = "";
  review_depth = pos 0;
  resume_token = "";
  estimated_cost = 1;
  execution_contract = end;
  repo_fingerprint = "";
  routing_hints = end;
  created_at = 1;
}

abbrev workflow : WorkflowRecord
workflow = record {
  task = task;
  acceptance = record {
    task_id = "parse";
    status = TaskStatus.completed;
    agent_id = "";
    complexity = Complexity.low;
    reason = "";
    capability = "code";
    provider = "";
    model_name = "";
    requires_secondary_review = false;
    accepted_at = 1;
  };
  result = none;
  updated_at = 2;
}

abbrev parsed : Completion
parsed = record { artifact = parse; workflow = workflow; err = none }

-- While "parse" runs, "print" waits for its conflict key and "check" for "parse".
abbrev first_run : Run
first_run = record {
  checkpoint = record plan_checkpoint { batch_no = 1; status = ParallelPlanStatus.running };
  running = parse ∷ [];
  workflows = [];
}

-- Once "parse" is done, both of the others run.
abbrev second_run : Run
second_run = record {
  checkpoint = record first_run.checkpoint {
    pending_task_ids = "print" ∷ "check" ∷ [];
    completed_task_ids = "parse" ∷ [];
    results_by_task_id =
        insert "parse" (sourcevcode_orchestrator.Plan.Executor.TaskReport.summary workflow) [];
    batch_no = 2;
  };
  running = check ∷ print ∷ [];
  workflows = workflow ∷ [];
}

starts : execute_parallel_plan never_fails plan_checkpoint none ≡ Stage.waiting first_run
unfolding execute_parallel_plan static_saved resume begin next_round launch start_all await is_none
    ready_plan_artifacts completed_set schedule_ready_artifacts_with_conflicts has_conflict_keys
    register_conflict_keys collect_artifact_conflict_keys pick lighter sort_by place trimmed trim
    trim_left trim_right is_space is_empty
starts = refl

continues : receive never_fails first_run parsed ≡ Stage.waiting second_run
unfolding receive validated validate_plan_workflow validate_result is_successful_plan_status
    after_save next_round launch start_all await is_none remove_pending insert ready_plan_artifacts
    completed_set schedule_ready_artifacts_with_conflicts has_conflict_keys register_conflict_keys
    collect_artifact_conflict_keys pick lighter sort_by place trimmed trim trim_left trim_right
    is_space is_empty
continues = refl

-- One result has arrived.
one_done :
    Reach never_fails
      (execute_parallel_plan never_fails plan_checkpoint none)
      1
      (Stage.waiting second_run)
one_done =
    subst (λ s. Reach never_fails s 1 (Stage.waiting second_run)) (sym starts)
      (subst (Reach never_fails (Stage.waiting first_run) 1) continues
        (Reach.next Reach.here (Step.receives first_run parsed mem-cons_self)))

Reach-SoundStage_example : SoundStage plan_checkpoint (Stage.waiting second_run)
Reach-SoundStage_example = Reach-SoundStage never_fails plan_checkpoint none one_done

plan_IsProper : All IsProper ("parse" ∷ "print" ∷ "check" ∷ [])
unfolding trim trim_left trim_right is_space is_empty
plan_IsProper = ((refl, refl), ((refl, refl), ((refl, refl), tt)))

Reach-bounded_example : 1 ≤ 3
Reach-bounded_example = Reach-bounded never_fails plan_checkpoint plan_IsProper none one_done

-- A plan whose one task waits for itself.
abbrev endless : PlanTaskArtifact
endless = artifact "endless" [] ("endless" ∷ [])

abbrev endless_checkpoint : ParallelPlanCheckpoint
endless_checkpoint = checkpoint_of (endless ∷ []) ("endless" ∷ [])

abbrev endless_end : ParallelPlanCheckpoint
endless_end = record endless_checkpoint { batch_no = 1; status = ParallelPlanStatus.blocked }

blocks :
    execute_parallel_plan never_fails endless_checkpoint none
    ≡ Stage.ended endless_end (some (PlanError.unresolved "root")) []
unfolding execute_parallel_plan static_saved resume begin next_round launch start_all await is_none
    ready_plan_artifacts completed_set schedule_ready_artifacts_with_conflicts has_conflict_keys
    register_conflict_keys collect_artifact_conflict_keys pick lighter sort_by place trimmed trim
    trim_left trim_right is_space is_empty
blocks = refl

endless_pending : Mem "endless" (completed_set ("endless" ∷ []))
unfolding completed_set trimmed trim trim_left trim_right is_space is_empty
endless_pending = mem-cons_self

blocked_only_if_example :
    (endless_end.status ≡ ParallelPlanStatus.blocked)
    × (no_ids endless_end.pending_task_ids ≡ false)
    × (deps_done endless_end.completed_task_ids endless ≡ false)
blocked_only_if_example =
    blocked_only_if never_fails endless_checkpoint none {c = endless_end} endless
      (subst (Reach never_fails (execute_parallel_plan never_fails endless_checkpoint none) 0)
        blocks Reach.here)
      mem-cons_self endless_pending

never_unresolved_example :
    is_unresolved (error_of (execute_parallel_plan never_fails plan_checkpoint none)) ≡ false
unfolding trim trimmed
never_unresolved_example =
    never_unresolved never_fails plan_checkpoint none (refl, (refl, (refl, tt)))
      (refl, (refl, (refl, tt)))
      (record {
        same_tasks = refl;
        accounted = (refl, (refl, (refl, tt)));
        known = (((refl, refl), refl), (((refl, refl), refl), (((refl, refl), refl), tt)));
      })
      Reach.here
