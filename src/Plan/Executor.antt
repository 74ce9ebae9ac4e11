-- ===== src/Plan/Executor.antt =====
-- go-core/internal/kernel/advanced_planner.go: executeParallelPlan, the loop that runs a plan's artifacts as
-- their dependencies complete. Each artifact's workflow (SubmitTask and WaitWorkflowTerminal) runs in a
-- goroutine of its own; what it sends on the channel `results` is a Completion. The checkpoint store is a
-- parameter: `save` is the error, if any, that it answers with.
pub mod Started
pub mod Sound
pub mod Blocked
pub mod Termination
pub mod Progress
pub mod Resolved
pub mod Tests
use mathlib.Core.List.{Mem}
use sourcevcode_orchestrator.Prelude.{
  ℕ, zero, suc, String, List, [], ◌∷◌, ◌++◌, Option, none, some, Bool, true, false, not, ◌&&◌, ◌||◌,
  if◌then◌else◌, ◌==◌, trim, any, keep, insert,
}
use sourcevcode_orchestrator.Domain.Task.{TaskStatus, WorkflowRecord, AgentResult}
use sourcevcode_orchestrator.Domain.Plan.{PlanTaskArtifact, ParallelPlanStatus}
use sourcevcode_orchestrator.Plan.Schedule.{
  ready_plan_artifacts, schedule_ready_artifacts_with_conflicts, collect_artifact_conflict_keys,
  remove_pending,
}

-- The errors of validatePlanWorkflow and of the executor, by what their message names.
pub data BadWorkflow : Type 0 where
  bad_status bad_result : String → TaskStatus → String → BadWorkflow

pub data PlanError : Type 0 where
  missing_root : PlanError
  unresolved : String → PlanError
  workflow_failed : String → PlanError
  bad_workflow : BadWorkflow → PlanError
  not_saved : String → PlanError

-- An entry of ResultsByTaskID: workflowSummary of the record, or the failure.
pub data TaskReport : Type 0 where
  summary : WorkflowRecord → TaskReport
  failure : PlanError → TaskReport

-- The fields that the loop reads. BatchNo is never negative here.
pub record ParallelPlanCheckpoint : Type 0 where
  pub root_task_id : String
  pub tasks : List PlanTaskArtifact
  pub pending_task_ids : List String
  pub completed_task_ids : List String
  pub results_by_task_id : List (String × TaskReport)
  pub batch_no : ℕ
  pub status : ParallelPlanStatus

-- The loop's variables. `running` is the map of that name, as the list of its values.
pub record Run : Type 0 where
  pub checkpoint : ParallelPlanCheckpoint
  pub running : List PlanTaskArtifact
  pub workflows : List WorkflowRecord

-- The loop waits at `<-results`, or the call has returned: its error, if any, and the checkpoint as
-- it was at the return.
pub data Stage : Type 0 where
  waiting : Run → Stage
  ended : ParallelPlanCheckpoint → Option PlanError → List WorkflowRecord → Stage

pub record Completion : Type 0 where
  pub artifact : PlanTaskArtifact
  pub workflow : WorkflowRecord
  pub err : Option String

unfoldable pub is_successful_plan_status : TaskStatus → Bool
is_successful_plan_status TaskStatus.completed = true
is_successful_plan_status TaskStatus.done = true
is_successful_plan_status _ = false

unfoldable pub first_non_empty_string : List String → String
first_non_empty_string [] = ""
first_non_empty_string (s ∷ rest) = elim (s == "") [
  | true ↦ first_non_empty_string rest
  | false ↦ s
]

summary_of : Option AgentResult → String
summary_of none = ""
summary_of (some r) = trim r.output.summary

validate_result : String → Option AgentResult → Option BadWorkflow
unfolding is_successful_plan_status first_non_empty_string
validate_result id none = none
validate_result id (some r) =
    if is_successful_plan_status r.status
    then none
    else some (
        BadWorkflow.bad_result id r.status (
          first_non_empty_string (
            trim r.output.summary
            ∷ "agent result did not reach a successful terminal status"
            ∷ [])))

unfoldable pub validate_plan_workflow : WorkflowRecord → Option BadWorkflow
unfolding is_successful_plan_status first_non_empty_string summary_of validate_result
validate_plan_workflow w =
    if is_successful_plan_status w.acceptance.status
    then validate_result w.task.id w.result
    else some (
        BadWorkflow.bad_status w.task.id w.acceptance.status (
          first_non_empty_string (
            (if trim w.acceptance.reason == ""
              then summary_of w.result
              else trim w.acceptance.reason)
            ∷ "workflow did not reach a successful terminal status"
            ∷ [])))

-- Whether the map has an entry for the id.
abbrev pub is_running : String → List PlanTaskArtifact → Bool
is_running id running = any (λ r. r.task_id == id) running

-- delete(running, id)
abbrev pub forget : String → List PlanTaskArtifact → List PlanTaskArtifact
forget id running = keep (λ r. not (r.task_id == id)) running

-- The loop over the scheduled artifacts.
unfoldable pub start_all : List PlanTaskArtifact → List PlanTaskArtifact → List PlanTaskArtifact
start_all [] running = running
start_all (a ∷ scheduled) running = elim (is_running a.task_id running) [
  | true ↦ start_all scheduled running
  | false ↦ start_all scheduled (running ++ (a ∷ []))
]

abbrev pub scheduled_now : Run → List PlanTaskArtifact
scheduled_now r =
    schedule_ready_artifacts_with_conflicts
      (ready_plan_artifacts r.checkpoint.tasks r.checkpoint.pending_task_ids
        r.checkpoint.completed_task_ids)
      (collect_artifact_conflict_keys r.running)

unfoldable pub launch : Run → Run
unfolding start_all
launch r = record r { running = start_all (scheduled_now r) r.running }

abbrev pub with_status : ParallelPlanStatus → ParallelPlanCheckpoint → ParallelPlanCheckpoint
with_status st c = record c { status = st }

abbrev pub restarted : ParallelPlanCheckpoint → ParallelPlanCheckpoint
restarted c = with_status ParallelPlanStatus.running c

unfoldable pub is_none : List PlanTaskArtifact → Bool
is_none [] = true
is_none (a ∷ l) = false

abbrev pub no_ids : List String → Bool
no_ids [] = true
no_ids (a ∷ l) = false

-- The loop's wait, once the ready artifacts are started.
unfoldable pub await : Run → Stage
unfolding is_none
await r =
    if is_none r.running
    then Stage.ended (with_status ParallelPlanStatus.blocked r.checkpoint)
        (some (PlanError.unresolved r.checkpoint.root_task_id)) r.workflows
    else Stage.waiting r

unfoldable pub fail : Run → String → PlanError → Stage
fail r id e =
    Stage.ended
      (record r.checkpoint {
        results_by_task_id = insert id (TaskReport.failure e) r.checkpoint.results_by_task_id;
        status = ParallelPlanStatus.failed;
      })
      (some e) r.workflows

-- What a success changes before the checkpoint is saved.
abbrev pub recorded : Run → Completion → Run
recorded r c = record {
  checkpoint = record r.checkpoint {
    results_by_task_id =
        insert c.artifact.task_id (TaskReport.summary c.workflow) r.checkpoint.results_by_task_id;
    pending_task_ids = remove_pending r.checkpoint.pending_task_ids c.artifact.task_id;
    completed_task_ids = r.checkpoint.completed_task_ids ++ (c.artifact.task_id ∷ []);
    batch_no = suc r.checkpoint.batch_no;
  };
  running = forget c.artifact.task_id r.running;
  workflows = r.workflows ++ (c.workflow ∷ []);
}

abbrev pub numbered : ParallelPlanCheckpoint → ParallelPlanCheckpoint
numbered c = record c { batch_no = elim c.batch_no [ zero ↦ 1 | suc n ↦ suc n ] }

save_failed : Option String → Option PlanError
save_failed none = none
save_failed (some e) = some (PlanError.not_saved e)

module _ (save : ParallelPlanCheckpoint → Option String) where
  finish : Run → Stage
  unfolding save_failed
  finish r =
      let c = with_status ParallelPlanStatus.completed r.checkpoint in
      Stage.ended c (save_failed (save c)) r.workflows

  -- The head of the loop, with its condition.
  unfoldable pub next_round : Run → Stage
  unfolding is_none launch await finish
  next_round r =
      if no_ids r.checkpoint.pending_task_ids && is_none r.running
      then finish r
      else await (launch r)

  after_save : Run → Option String → Stage
  unfolding next_round
  after_save r none = next_round r
  after_save r (some e) = Stage.ended r.checkpoint (some (PlanError.not_saved e)) r.workflows

  validated : Run → Completion → Option BadWorkflow → Stage
  unfolding fail after_save
  validated r c (some e) = fail r c.artifact.task_id (PlanError.bad_workflow e)
  validated r c none = after_save (recorded r c) (save (recorded r c).checkpoint)

  -- The body of the loop from `result := <-results` on, and the next head of the loop.
  unfoldable pub receive : Run → Completion → Stage
  unfolding fail validated validate_plan_workflow
  receive r c = elim c.err [
    | some e ↦ fail r c.artifact.task_id (PlanError.workflow_failed e)
    | none ↦ validated r c (validate_plan_workflow c.workflow)
  ]

  begin : ParallelPlanCheckpoint → Option String → Stage
  unfolding next_round
  begin c (some e) = Stage.ended c (some (PlanError.not_saved e)) []
  begin c none = next_round (record { checkpoint = c; running = []; workflows = [] })

  resume : ParallelPlanCheckpoint → ParallelPlanStatus → Stage
  unfolding begin
  resume c ParallelPlanStatus.completed = Stage.ended c none []
  resume c _ = begin (restarted c) (save (restarted c))

  static_saved : ParallelPlanCheckpoint → Option String → Stage
  unfolding resume
  static_saved c (some e) = Stage.ended c (some (PlanError.not_saved e)) []
  static_saved c none = resume c c.status

  -- Up to the first wait; the second argument is the answer of saveParallelCheckpointStatic.
  unfoldable pub execute_parallel_plan : ParallelPlanCheckpoint → Option String → Stage
  unfolding static_saved
  execute_parallel_plan c static =
      if c.root_task_id == ""
      then Stage.ended c (some PlanError.missing_root) []
      else static_saved (numbered c) static

  -- The channel delivers the result of an artifact that runs.
  pub data Step : Stage → Stage → Type 0 where
    receives :
        (r : Run) (c : Completion) → Mem c.artifact r.running → Step (Stage.waiting r) (receive r c)

  -- After the given number of results.
  pub data Reach (s : Stage) : ℕ → Stage → Type 0 where
    here : Reach s 0 s
    next : {n : ℕ} {t u : Stage} → Reach s n t → Step t u → Reach s (suc n) u
