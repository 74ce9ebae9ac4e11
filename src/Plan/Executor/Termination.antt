-- ===== src/Plan/Executor/Termination.antt =====
-- The executor ends after at most as many results as there were pending ids.
use mathlib.Core.List.{Mem}
use sourcevcode_orchestrator.Prelude.{
  ℕ, suc, ◌+◌, ◌≤◌, ◌<◌, String, List, [], ◌∷◌, Option, none, some, Bool, true, false, not, ◌&&◌,
  ◌≡◌, refl, subst, inl, inr, arith, Bool-cases, Option-cases, if_cases, ◌==◌, eq_iff, All, All-Mem,
  All-keep, All-of_Mem, All-map, length, keep, trim,
}
use sourcevcode_orchestrator.Domain.Plan.{PlanTaskArtifact, ParallelPlanStatus}
use sourcevcode_orchestrator.Domain.Task.{WorkflowRecord}
use sourcevcode_orchestrator.Plan.Schedule.{
  contains, trimmed, completed_set, collect_artifact_conflict_keys, remove_pending,
}
use sourcevcode_orchestrator.Plan.Schedule.Conflicts.{schedule-Mem}
use sourcevcode_orchestrator.Plan.Schedule.Ready.{ready_iff, Mem-contains, Bool_set}
use sourcevcode_orchestrator.Plan.Executor.{
  ParallelPlanCheckpoint, Run, Stage, Completion, PlanError, launch, await, next_round, receive,
  fail, execute_parallel_plan, Reach, Step, recorded, scheduled_now, is_none, no_ids, forget,
  validate_plan_workflow, after_save, validated, begin, resume, static_saved, finish, numbered,
}
use sourcevcode_orchestrator.Plan.Executor.Started.{start_all-All}

-- A text without white space around it, and not empty.
abbrev pub IsProper : String → Type 0
IsProper k = (trim k ≡ k) × ((k == "") ≡ false)

pub trimmed_lem : (ids : List String) → All IsProper ids → trimmed ids ≡ ids
unfolding trimmed
trimmed_lem [] h = refl
trimmed_lem (k ∷ ids) (p, h) = rw (p.0, p.1, trimmed_lem ids h) refl

length-keep : (p : String → Bool) (l : List String) → length (keep p l) ≤ length l
length-keep p [] = omega arith
length-keep p (k ∷ l) = ground (arith, length-keep p l)

remove_pending-shorter :
    (ids : List String) (id : String)
    → contains id ids ≡ true
    → length (remove_pending ids id) < length ids
unfolding remove_pending
remove_pending-shorter [] id h = absurd (cc h)
remove_pending-shorter (k ∷ ids) id h = elim (Bool-cases (k == id)) [
  | inl e ↦ rw e (ground (arith, length-keep (λ j. not (j == id)) ids))
  | inr e ↦ rw e (ground (arith, remove_pending-shorter ids id (ground arith)))
]

-- Another id stays pending.
pub contains-remove_pending :
    (ids : List String) (id other : String)
    → (other == id) ≡ false
    → contains other ids ≡ true
    → contains other (remove_pending ids id) ≡ true
unfolding remove_pending
contains-remove_pending [] id other d h = h
contains-remove_pending (k ∷ ids) id other d h = elim (Bool-cases (k == id)) [
  | inl e ↦ rw e (
      contains-remove_pending ids id other d
        (ground (arith, eq_iff k other, eq_iff k id, eq_iff other id)))
  | inr e ↦ rw e (ground (arith, contains-remove_pending ids id other d))
]

forget-other :
    (P : PlanTaskArtifact → Type 0) (id : String) (l : List PlanTaskArtifact)
    → All P l
    → All (λ a. P a × ((a.task_id == id) ≡ false)) (forget id l)
forget-other P id [] h = tt
forget-other P id (a ∷ l) h = elim (Bool-cases (a.task_id == id)) [
  | inl e ↦ rw e (forget-other P id l h.1)
  | inr e ↦ rw e ((h.0, e), forget-other P id l h.1)
]

-- The artifact's id is pending.
abbrev IsPending : List String → PlanTaskArtifact → Type 0
IsPending pending a = contains a.task_id pending ≡ true

record Bounded (bound n : ℕ) (r : Run) : Type 0 where
  within : n + length r.checkpoint.pending_task_ids ≤ bound
  proper : All IsProper r.checkpoint.pending_task_ids
  all_pending : All (IsPending r.checkpoint.pending_task_ids) r.running

data BoundedStage (bound n : ℕ) : Stage → Type 0 where
  waits : {r : Run} → Bounded bound n r → BoundedStage bound n (Stage.waiting r)
  ends :
      {c : ParallelPlanCheckpoint} {e : Option PlanError} {ws : List WorkflowRecord}
      → n ≤ bound
      → BoundedStage bound n (Stage.ended c e ws)

launch-Bounded : (bound n : ℕ) (r : Run) → Bounded bound n r → Bounded bound n (launch r)
unfolding launch completed_set
launch-Bounded bound n r h =
    let c = r.checkpoint in
    record {
      within = h.within;
      proper = h.proper;
      all_pending =
          start_all-All (IsPending c.pending_task_ids) (scheduled_now r) r.running
            (All-of_Mem _ (scheduled_now r) (λ a m.
              let (i, p, f) =
                (ready_iff a c.tasks c.pending_task_ids c.completed_task_ids).0
                  (schedule-Mem a _ (collect_artifact_conflict_keys r.running) m) in
              subst (λ l. contains a.task_id l ≡ true) (trimmed_lem c.pending_task_ids h.proper)
                (Mem-contains a.task_id (completed_set c.pending_task_ids) p)))
            h.all_pending;
    }

is_pending_now :
    (bound n : ℕ) (r : Run) (a : PlanTaskArtifact)
    → Bounded bound n r
    → Mem a r.running
    → length (remove_pending r.checkpoint.pending_task_ids a.task_id)
      < length r.checkpoint.pending_task_ids
is_pending_now bound n r a h m = remove_pending-shorter r.checkpoint.pending_task_ids a.task_id (
    All-Mem (IsPending r.checkpoint.pending_task_ids) (λ _. Bool_set _ _) r.running h.all_pending a
      m)

recorded-Bounded :
    (bound n : ℕ) (r : Run) (c : Completion)
    → Bounded bound n r
    → Mem c.artifact r.running
    → Bounded bound (suc n) (recorded r c)
unfolding remove_pending
recorded-Bounded bound n r c h m =
    let id = c.artifact.task_id in
    let pending = r.checkpoint.pending_task_ids in
    record {
      within = omega (arith, h.within, is_pending_now bound n r c.artifact h m);
      proper = All-keep IsProper (λ k. not (k == id)) pending h.proper;
      all_pending =
          All-map _ (IsPending (remove_pending pending id)) (forget id r.running)
            (λ a k. contains-remove_pending pending id a.task_id k.1 k.0)
            (forget-other (IsPending pending) id r.running h.all_pending);
    }

module _ (save : ParallelPlanCheckpoint → Option String) (bound : ℕ) where
  next_round-BoundedStage :
      (n : ℕ) (r : Run) → Bounded bound n r → BoundedStage bound n (next_round save r)
  unfolding next_round finish await
  next_round-BoundedStage n r h =
      let ended : n ≤ bound = omega (arith, h.within) in
      if_cases (BoundedStage bound n) (no_ids r.checkpoint.pending_task_ids && is_none r.running)
        (λ _. BoundedStage.ends ended)
        (λ _.
          if_cases (BoundedStage bound n) (is_none (launch r).running)
            (λ _. BoundedStage.ends ended) (λ _. BoundedStage.waits (launch-Bounded bound n r h)))

  after_save-BoundedStage :
      (n : ℕ) (r : Run) (e : Option String)
      → Bounded bound n r
      → BoundedStage bound n (after_save save r e)
  unfolding after_save
  after_save-BoundedStage n r none h = next_round-BoundedStage n r h
  after_save-BoundedStage n r (some e) h = BoundedStage.ends (omega (arith, h.within))

  receive-BoundedStage :
      (n : ℕ) (r : Run) (c : Completion)
      → Bounded bound n r
      → Mem c.artifact r.running
      → BoundedStage bound (suc n) (receive save r c)
  unfolding receive fail validated
  receive-BoundedStage n r c h m =
      let ended : suc n ≤ bound =
        omega (arith, h.within, is_pending_now bound n r c.artifact h m) in
      elim (Option-cases c.err) [
        | inl e ↦ elim (Option-cases (validate_plan_workflow c.workflow)) [
          | inl v ↦
              rw (e, v, validated)
                (after_save-BoundedStage (suc n) (recorded r c) _
                  (recorded-Bounded bound n r c h m))
          | inr (x, v) ↦ rw (e, v, validated) (BoundedStage.ends ended)
        ]
        | inr (x, e) ↦ rw e (BoundedStage.ends ended)
      ]

  Step-BoundedStage :
      (n : ℕ) {s t : Stage} → Step save s t → BoundedStage bound n s → BoundedStage bound (suc n) t
  Step-BoundedStage n (Step.receives r c m) (BoundedStage.waits h) = receive-BoundedStage n r c h m

begin-BoundedStage :
    (save : ParallelPlanCheckpoint → Option String) (c : ParallelPlanCheckpoint) (e : Option String)
    → All IsProper c.pending_task_ids
    → BoundedStage (length c.pending_task_ids) 0 (begin save c e)
unfolding begin
begin-BoundedStage save c (some e) h = BoundedStage.ends (omega arith)
begin-BoundedStage save c none h =
    next_round-BoundedStage save (length c.pending_task_ids) 0
      (record { checkpoint = c; running = []; workflows = [] })
      (record { within = omega arith; proper = h; all_pending = tt })

resume-BoundedStage :
    (save : ParallelPlanCheckpoint → Option String) (c : ParallelPlanCheckpoint)
    (st : ParallelPlanStatus)
    → All IsProper c.pending_task_ids
    → BoundedStage (length c.pending_task_ids) 0 (resume save c st)
unfolding resume
resume-BoundedStage save c ParallelPlanStatus.completed h = BoundedStage.ends (omega arith)
resume-BoundedStage save c ParallelPlanStatus.planned h = begin-BoundedStage save _ _ h
resume-BoundedStage save c ParallelPlanStatus.running h = begin-BoundedStage save _ _ h
resume-BoundedStage save c ParallelPlanStatus.blocked h = begin-BoundedStage save _ _ h
resume-BoundedStage save c ParallelPlanStatus.failed h = begin-BoundedStage save _ _ h

module _ (save : ParallelPlanCheckpoint → Option String) (cp : ParallelPlanCheckpoint)
    (proper : All IsProper cp.pending_task_ids) where
  execute-BoundedStage :
      (e : Option String)
      → BoundedStage (length cp.pending_task_ids) 0 (execute_parallel_plan save cp e)
  unfolding execute_parallel_plan static_saved
  execute-BoundedStage (some e) =
      if_cases (BoundedStage (length cp.pending_task_ids) 0) (cp.root_task_id == "")
        (λ _. BoundedStage.ends (omega arith)) (λ _. BoundedStage.ends (omega arith))
  execute-BoundedStage none =
      if_cases (BoundedStage (length cp.pending_task_ids) 0) (cp.root_task_id == "")
        (λ _. BoundedStage.ends (omega arith))
        (λ _. resume-BoundedStage save (numbered cp) cp.status proper)

  Reach-BoundedStage :
      (e : Option String) {n : ℕ} {s : Stage}
      → Reach save (execute_parallel_plan save cp e) n s
      → BoundedStage (length cp.pending_task_ids) n s
  Reach-BoundedStage e Reach.here = execute-BoundedStage e
  Reach-BoundedStage e (Reach.next {n = n} r st) =
      Step-BoundedStage save _ n st (Reach-BoundedStage e r)

  -- The executor handles at most as many results as ids were pending at the start, whatever the results
  -- are and in whatever order they arrive, provided that no pending id is empty or has white space around it.
  pub Reach-bounded :
      (e : Option String) {n : ℕ} {s : Stage}
      → Reach save (execute_parallel_plan save cp e) n s
      → n ≤ length cp.pending_task_ids
  Reach-bounded e r = go (Reach-BoundedStage e r)
    where
      go :
          {n : ℕ} {s : Stage}
          → BoundedStage (length cp.pending_task_ids) n s
          → n ≤ length cp.pending_task_ids
      go (BoundedStage.waits h) = omega (arith, h.within)
      go (BoundedStage.ends l) = l
