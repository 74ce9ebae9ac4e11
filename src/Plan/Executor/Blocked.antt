-- ===== src/Plan/Executor/Blocked.antt =====
-- When the executor reports a plan as blocked.
use mathlib.Core.List.{Mem, not-mem-nil}
use sourcevcode_orchestrator.Prelude.{
  true≢false, ℕ, String, List, [], ◌∷◌, ◌++◌, Option, none, some, true, false, ◌&&◌, ◌≡◌, refl, sym,
  subst, ap, ◌∙◌, inl, inr, arith, Bool-cases, Option-cases, if_cases, ◌==◌,
}
use sourcevcode_orchestrator.Domain.Plan.{PlanTaskArtifact, ParallelPlanStatus}
use sourcevcode_orchestrator.Domain.Task.{WorkflowRecord}
use sourcevcode_orchestrator.Plan.Schedule.{
  ready_plan_artifacts, deps_done, completed_set, collect_artifact_conflict_keys,
  schedule_ready_artifacts_with_conflicts,
}
use sourcevcode_orchestrator.Plan.Schedule.Conflicts.{schedule-nil}
use sourcevcode_orchestrator.Plan.Schedule.Ready.{ready_iff, Mem_of-all}
use sourcevcode_orchestrator.Plan.Executor.{
  ParallelPlanCheckpoint, Run, Stage, Completion, PlanError, BadWorkflow, launch, await, next_round,
  receive, fail, execute_parallel_plan, Reach, Step, recorded, scheduled_now, start_all, is_none,
  no_ids, is_running, validate_plan_workflow, after_save, validated, begin, resume, static_saved,
  finish, with_status, restarted, numbered, save_failed,
}

-- Nothing of the plan can start.
pub record IsStuck (c : ParallelPlanCheckpoint) : Type 0 where
  pub has_pending : no_ids c.pending_task_ids ≡ false
  pub none_ready : ready_plan_artifacts c.tasks c.pending_task_ids c.completed_task_ids ≡ []
  pub is_blocked : c.status ≡ ParallelPlanStatus.blocked

abbrev pub ReportsOf : Option PlanError → ParallelPlanCheckpoint → Type 0
ReportsOf (some (PlanError.unresolved id)) c = IsStuck c
ReportsOf _ c = Unit

abbrev FairReport : Stage → Type 0
FairReport (Stage.waiting r) = Unit
FairReport (Stage.ended c e ws) = ReportsOf e c

start_all-is_none :
    (l : List PlanTaskArtifact) (x : PlanTaskArtifact) (xs : List PlanTaskArtifact)
    → is_none (start_all l (x ∷ xs)) ≡ false
unfolding start_all is_none
start_all-is_none [] x xs = refl
start_all-is_none (a ∷ l) x xs = elim (Bool-cases (is_running a.task_id (x ∷ xs))) [
  | inl e ↦ rw (e, start_all) (start_all-is_none l x xs)
  | inr e ↦ rw (e, start_all) (start_all-is_none l x (xs ++ (a ∷ [])))
]

-- With nothing running, whatever is scheduled is started.
start_all-nil :
    (l running : List PlanTaskArtifact)
    → is_none (start_all l running) ≡ true
    → (running ≡ []) × (l ≡ [])
unfolding start_all is_none
start_all-nil [] [] e = (refl, refl)
start_all-nil (a ∷ l) [] e = absurd (true≢false (sym e ∙ start_all-is_none l a []))
start_all-nil l (x ∷ xs) e = absurd (true≢false (sym e ∙ start_all-is_none l x xs))

is_none_nil : is_none [] ≡ true
unfolding is_none
is_none_nil = refl

launch-IsStuck :
    (r : Run)
    → (no_ids r.checkpoint.pending_task_ids && is_none r.running) ≡ false
    → is_none (launch r).running ≡ true
    → IsStuck (with_status ParallelPlanStatus.blocked r.checkpoint)
unfolding launch collect_artifact_conflict_keys
launch-IsStuck r loops idle =
    let c = r.checkpoint in
    let ready = ready_plan_artifacts c.tasks c.pending_task_ids c.completed_task_ids in
    let (none_running, none_scheduled) = start_all-nil (scheduled_now r) r.running idle in
    let is_idle : is_none r.running ≡ true = ap is_none none_running ∙ is_none_nil in
    record {
      has_pending = ground (arith, loops, is_idle);
      none_ready = schedule-nil ready (
          subst
            (λ l.
              schedule_ready_artifacts_with_conflicts ready (collect_artifact_conflict_keys l) ≡ [])
            none_running none_scheduled);
      is_blocked = refl;
    }

module _ (save : ParallelPlanCheckpoint → Option String) where
  next_round-FairReport : (r : Run) → FairReport (next_round save r)
  unfolding next_round finish await save_failed
  next_round-FairReport r =
      if_cases FairReport (no_ids r.checkpoint.pending_task_ids && is_none r.running)
        (λ _. elim (Option-cases (save (with_status ParallelPlanStatus.completed r.checkpoint))) [
          | inl e ↦ rw (e, save_failed) tt
          | inr (x, e) ↦ rw (e, save_failed) tt
        ])
        (λ loops.
          if_cases FairReport (is_none (launch r).running) (λ idle. launch-IsStuck r loops idle)
            (λ _. tt))

  after_save-FairReport : (r : Run) (e : Option String) → FairReport (after_save save r e)
  unfolding after_save
  after_save-FairReport r none = next_round-FairReport r
  after_save-FairReport r (some e) = tt

  validated-FairReport :
      (r : Run) (c : Completion) (v : Option BadWorkflow) → FairReport (validated save r c v)
  unfolding validated fail
  validated-FairReport r c (some e) = tt
  validated-FairReport r c none = after_save-FairReport (recorded r c) _

  receive-FairReport : (r : Run) (c : Completion) → FairReport (receive save r c)
  unfolding receive fail
  receive-FairReport r c = elim (Option-cases c.err) [
    | inl e ↦ rw e (validated-FairReport r c (validate_plan_workflow c.workflow))
    | inr (x, e) ↦ rw e tt
  ]

  begin-FairReport : (c : ParallelPlanCheckpoint) (e : Option String) → FairReport (begin save c e)
  unfolding begin
  begin-FairReport c (some e) = tt
  begin-FairReport c none =
      next_round-FairReport (record { checkpoint = c; running = []; workflows = [] })

  resume-FairReport :
      (c : ParallelPlanCheckpoint) (st : ParallelPlanStatus) → FairReport (resume save c st)
  unfolding resume
  resume-FairReport c ParallelPlanStatus.completed = tt
  resume-FairReport c ParallelPlanStatus.planned =
      begin-FairReport (restarted c) (save (restarted c))
  resume-FairReport c ParallelPlanStatus.running =
      begin-FairReport (restarted c) (save (restarted c))
  resume-FairReport c ParallelPlanStatus.blocked =
      begin-FairReport (restarted c) (save (restarted c))
  resume-FairReport c ParallelPlanStatus.failed =
      begin-FairReport (restarted c) (save (restarted c))

  execute-FairReport :
      (cp : ParallelPlanCheckpoint) (e : Option String)
      → FairReport (execute_parallel_plan save cp e)
  unfolding execute_parallel_plan static_saved
  execute-FairReport cp (some e) = if_cases FairReport (cp.root_task_id == "") (λ _. tt) (λ _. tt)
  execute-FairReport cp none =
      if_cases FairReport (cp.root_task_id == "") (λ _. tt)
        (λ _. resume-FairReport (numbered cp) cp.status)

  pub Reach-FairReport :
      (cp : ParallelPlanCheckpoint) (e : Option String) {n : ℕ} {s : Stage}
      → Reach save (execute_parallel_plan save cp e) n s
      → FairReport s
  Reach-FairReport cp e Reach.here = execute-FairReport cp e
  Reach-FairReport cp e (Reach.next r (Step.receives u c m)) = receive-FairReport u c

  -- The executor reports unresolved dependencies only with the status "blocked", with some task pending,
  -- and when every artifact of the plan whose id is pending has a dependency that is not completed.
  pub blocked_only_if :
      (cp : ParallelPlanCheckpoint) (e : Option String) {n : ℕ} {c : ParallelPlanCheckpoint}
      {id : String} {ws : List WorkflowRecord} (a : PlanTaskArtifact)
      → Reach save
          (execute_parallel_plan save cp e)
          n
          (Stage.ended c (some (PlanError.unresolved id)) ws)
      → Mem a c.tasks
      → Mem a.task_id (completed_set c.pending_task_ids)
      → (c.status ≡ ParallelPlanStatus.blocked)
        × (no_ids c.pending_task_ids ≡ false)
        × (deps_done c.completed_task_ids a ≡ false)
  blocked_only_if cp e {c = c} a r m p =
      let k = Reach-FairReport cp e r in
      let iff = ready_iff a c.tasks c.pending_task_ids c.completed_task_ids in
      (
        k.is_blocked,
        k.has_pending,
        elim (Bool-cases (deps_done c.completed_task_ids a)) [
          | inl d ↦ absurd (
              not-mem-nil
                (subst (Mem a) k.none_ready (iff.1 (m, p, Mem_of-all _ a.dependencies d))))
          | inr d ↦ d
        ],
      )
