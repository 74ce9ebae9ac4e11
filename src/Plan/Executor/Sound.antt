-- ===== src/Plan/Executor/Sound.antt =====
-- The executor's invariant: tasks run in the order of their dependencies, and never beside a task with
-- which they conflict.
use mathlib.Core.List.{Mem}
use mathlib.Core.HLevel.{×_prop}
use sourcevcode_orchestrator.Prelude.{
  ℕ, String, List, [], ◌∷◌, ◌++◌, Option, none, some, true, ◌≡◌, refl, sym, subst, ◌&&◌, inl, inr,
  All, All-append, All-map, All-Mem, All-keep, All-of_Mem, Option-cases, if_cases, not, ◌==◌,
}
use sourcevcode_orchestrator.Domain.Plan.{PlanTaskArtifact, ParallelPlanStatus}
use sourcevcode_orchestrator.Domain.Task.{WorkflowRecord}
use sourcevcode_orchestrator.Plan.Schedule.{
  ready_plan_artifacts, deps_done, collect_artifact_conflict_keys,
}
use sourcevcode_orchestrator.Plan.Schedule.Conflicts.{ConflictFree, schedule-safe, schedule-Mem}
use sourcevcode_orchestrator.Plan.Schedule.Ready.{ready_iff, all_of-Mem, Bool_set}
use sourcevcode_orchestrator.Plan.Executor.{
  ParallelPlanCheckpoint, Run, Stage, Completion, PlanError, BadWorkflow, launch, await, next_round,
  receive, fail, execute_parallel_plan, Reach, Step, recorded, scheduled_now, is_none, no_ids,
  validate_plan_workflow, after_save, validated, begin, resume, static_saved, finish, numbered,
}
use sourcevcode_orchestrator.Plan.Executor.Started.{
  start_all-All, start_all-ConflictFree, avoids_collected, deps_done-append, ConflictFree-keep,
  AvoidsEach,
}

-- The completed ids, grown from those at the start by one id after another, each that of an artifact of
-- the plan whose dependencies are all completed before it.
pub data Grown (tasks : List PlanTaskArtifact) (start : List String) : List String → Type 0 where
  same : Grown tasks start start
  more :
      {c : List String} (a : PlanTaskArtifact)
      → Grown tasks start c
      → Mem a tasks
      → deps_done c a ≡ true
      → Grown tasks start (c ++ (a.task_id ∷ []))

-- An artifact of the plan whose dependencies are all completed.
abbrev pub MayRun : List PlanTaskArtifact → List String → PlanTaskArtifact → Type 0
MayRun tasks completed a = Mem a tasks × (deps_done completed a ≡ true)

abbrev Succeeded : WorkflowRecord → Type 0
Succeeded w = validate_plan_workflow w ≡ none

pub record IsSound (cp : ParallelPlanCheckpoint) (r : Run) : Type 0 where
  pub same_tasks : r.checkpoint.tasks ≡ cp.tasks
  pub order : Grown cp.tasks cp.completed_task_ids r.checkpoint.completed_task_ids
  pub may_run : All (MayRun cp.tasks r.checkpoint.completed_task_ids) r.running
  pub apart : ConflictFree r.running
  pub succeeded : All Succeeded r.workflows

-- The stages that the executor can be in.
pub data SoundStage (cp : ParallelPlanCheckpoint) : Stage → Type 0 where
  waits : {r : Run} → IsSound cp r → SoundStage cp (Stage.waiting r)
  ends :
      {c : ParallelPlanCheckpoint} {e : Option PlanError} {ws : List WorkflowRecord}
      → Grown cp.tasks cp.completed_task_ids c.completed_task_ids
      → All Succeeded ws
      → SoundStage cp (Stage.ended c e ws)

scheduled-MayRun :
    (cp : ParallelPlanCheckpoint) (r : Run)
    → IsSound cp r
    → All (MayRun cp.tasks r.checkpoint.completed_task_ids) (scheduled_now r)
scheduled-MayRun cp r h =
    let c = r.checkpoint in
    All-of_Mem _ (scheduled_now r) (λ a m.
      let (i, p, f) =
        (ready_iff a c.tasks c.pending_task_ids c.completed_task_ids).0
          (schedule-Mem a _ (collect_artifact_conflict_keys r.running) m) in
      (subst (Mem a) h.same_tasks i, all_of-Mem _ a.dependencies f))

launch-IsSound : (cp : ParallelPlanCheckpoint) (r : Run) → IsSound cp r → IsSound cp (launch r)
unfolding launch
launch-IsSound cp r h =
    let c = r.checkpoint in
    let (avoids, free) =
      schedule-safe (ready_plan_artifacts c.tasks c.pending_task_ids c.completed_task_ids)
        (collect_artifact_conflict_keys r.running) in
    record {
      same_tasks = h.same_tasks;
      order = h.order;
      succeeded = h.succeeded;
      may_run = start_all-All _ (scheduled_now r) r.running (scheduled-MayRun cp r h) h.may_run;
      apart =
          start_all-ConflictFree (scheduled_now r) r.running free
            (All-map _ (AvoidsEach r.running) (scheduled_now r)
              (λ a k. avoids_collected a r.running k) avoids)
            h.apart;
    }

await-SoundStage : (cp : ParallelPlanCheckpoint) (r : Run) → IsSound cp r → SoundStage cp (await r)
unfolding await
await-SoundStage cp r h =
    if_cases (SoundStage cp) (is_none r.running) (λ _. SoundStage.ends h.order h.succeeded)
      (λ _. SoundStage.waits h)

pub MayRun-prop :
    (tasks : List PlanTaskArtifact) (completed : List String) (a : PlanTaskArtifact)
    → IsProp (MayRun tasks completed a)
MayRun-prop tasks completed a = ×_prop squash₁ (Bool_set _ _)

recorded-IsSound :
    (cp : ParallelPlanCheckpoint) (r : Run) (c : Completion)
    → IsSound cp r
    → Mem c.artifact r.running
    → validate_plan_workflow c.workflow ≡ none
    → IsSound cp (recorded r c)
recorded-IsSound cp r c h m v =
    let a = c.artifact in
    let done = r.checkpoint.completed_task_ids in
    let (i, d) =
      All-Mem (MayRun cp.tasks done) (MayRun-prop cp.tasks done) r.running h.may_run a m in
    record {
      same_tasks = h.same_tasks;
      order = Grown.more a h.order i d;
      may_run =
          All-keep _ (λ b. not (b.task_id == a.task_id)) r.running
            (All-map (MayRun cp.tasks done) (MayRun cp.tasks (done ++ (a.task_id ∷ []))) r.running
              (λ b k. (k.0, deps_done-append done (a.task_id ∷ []) b k.1)) h.may_run);
      apart = ConflictFree-keep (λ b. not (b.task_id == a.task_id)) r.running h.apart;
      succeeded = All-append _ r.workflows (c.workflow ∷ []) h.succeeded (v, tt);
    }

module _ (save : ParallelPlanCheckpoint → Option String) (cp : ParallelPlanCheckpoint) where
  next_round-SoundStage : (r : Run) → IsSound cp r → SoundStage cp (next_round save r)
  unfolding next_round finish
  next_round-SoundStage r h =
      if_cases (SoundStage cp) (no_ids r.checkpoint.pending_task_ids && is_none r.running)
        (λ _. SoundStage.ends h.order h.succeeded)
        (λ _. await-SoundStage cp (launch r) (launch-IsSound cp r h))

  after_save-SoundStage :
      (r : Run) (e : Option String) → IsSound cp r → SoundStage cp (after_save save r e)
  unfolding after_save
  after_save-SoundStage r none h = next_round-SoundStage r h
  after_save-SoundStage r (some e) h = SoundStage.ends h.order h.succeeded

  fail-SoundStage :
      (r : Run) (id : String) (e : PlanError) → IsSound cp r → SoundStage cp (fail r id e)
  unfolding fail
  fail-SoundStage r id e h = SoundStage.ends h.order h.succeeded

  validated-SoundStage :
      (r : Run) (c : Completion) (v : Option BadWorkflow)
      → validate_plan_workflow c.workflow ≡ v
      → IsSound cp r
      → Mem c.artifact r.running
      → SoundStage cp (validated save r c v)
  unfolding validated
  validated-SoundStage r c (some e) v h m =
      fail-SoundStage r c.artifact.task_id (PlanError.bad_workflow e) h
  validated-SoundStage r c none v h m =
      after_save-SoundStage (recorded r c) (save (recorded r c).checkpoint)
        (recorded-IsSound cp r c h m v)

  receive-SoundStage :
      (r : Run) (c : Completion)
      → IsSound cp r
      → Mem c.artifact r.running
      → SoundStage cp (receive save r c)
  unfolding receive
  receive-SoundStage r c h m = elim (Option-cases c.err) [
    | inl e ↦ rw e (validated-SoundStage r c (validate_plan_workflow c.workflow) refl h m)
    | inr (x, e) ↦ rw e (fail-SoundStage r c.artifact.task_id (PlanError.workflow_failed x) h)
  ]

  Step-SoundStage : {s t : Stage} → Step save s t → SoundStage cp s → SoundStage cp t
  Step-SoundStage (Step.receives r c m) (SoundStage.waits h) = receive-SoundStage r c h m

  begin-SoundStage :
      (c : ParallelPlanCheckpoint) (e : Option String)
      → c.tasks ≡ cp.tasks
      → c.completed_task_ids ≡ cp.completed_task_ids
      → SoundStage cp (begin save c e)
  unfolding begin
  begin-SoundStage c (some e) p q =
      SoundStage.ends (subst (Grown cp.tasks cp.completed_task_ids) (sym q) Grown.same) tt
  begin-SoundStage c none p q =
      next_round-SoundStage (record { checkpoint = c; running = []; workflows = [] })
        (record {
          same_tasks = p;
          order = subst (Grown cp.tasks cp.completed_task_ids) (sym q) Grown.same;
          may_run = tt;
          apart = tt;
          succeeded = tt;
        })

  resume-SoundStage :
      (c : ParallelPlanCheckpoint) (st : ParallelPlanStatus)
      → c.tasks ≡ cp.tasks
      → c.completed_task_ids ≡ cp.completed_task_ids
      → SoundStage cp (resume save c st)
  unfolding resume
  resume-SoundStage c ParallelPlanStatus.completed p q =
      SoundStage.ends (subst (Grown cp.tasks cp.completed_task_ids) (sym q) Grown.same) tt
  resume-SoundStage c ParallelPlanStatus.planned p q = begin-SoundStage _ _ p q
  resume-SoundStage c ParallelPlanStatus.running p q = begin-SoundStage _ _ p q
  resume-SoundStage c ParallelPlanStatus.blocked p q = begin-SoundStage _ _ p q
  resume-SoundStage c ParallelPlanStatus.failed p q = begin-SoundStage _ _ p q

  static_saved-SoundStage : (e : Option String) → SoundStage cp (static_saved save (numbered cp) e)
  unfolding static_saved
  static_saved-SoundStage (some e) = SoundStage.ends Grown.same tt
  static_saved-SoundStage none = resume-SoundStage (numbered cp) cp.status refl refl

  execute-SoundStage : (e : Option String) → SoundStage cp (execute_parallel_plan save cp e)
  unfolding execute_parallel_plan
  execute-SoundStage e =
      if_cases (SoundStage cp) (cp.root_task_id == "") (λ _. SoundStage.ends Grown.same tt)
        (λ _. static_saved-SoundStage e)

  -- Whatever order the results of running artifacts arrive in, at every stage of the executor the ids
  -- completed since the start were each completed after all dependencies of their artifact; while the
  -- executor waits, each running artifact belongs to the plan and has all its dependencies completed, and
  -- no two running artifacts share a conflict key; and every workflow kept ended successfully.
  pub Reach-SoundStage :
      (e : Option String) {n : ℕ} {s : Stage}
      → Reach save (execute_parallel_plan save cp e) n s
      → SoundStage cp s
  Reach-SoundStage e Reach.here = execute-SoundStage e
  Reach-SoundStage e (Reach.next r st) = Step-SoundStage st (Reach-SoundStage e r)
