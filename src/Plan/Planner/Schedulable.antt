-- ===== src/Plan/Planner/Schedulable.antt =====
-- The planner's plans in the executor: they are never given up as unresolved.
use text.Mathlib.TextLemmas.{cons≢nil}
use sourcevcode_orchestrator.Prelude.{
  ℕ, String, List, [], ◌∷◌, map, Option, true, false, ◌≡◌, refl, sym, subst, ap, ◌∙◌, inl, inr,
  arith, Bool-cases, ◌==◌, eq_iff, eq_self, is_empty, All, All-map,
}
use sourcevcode_orchestrator.Prelude.Trim.{trim-append, is_empty-append}
use sourcevcode_orchestrator.Domain.Task.{Task}
use sourcevcode_orchestrator.Domain.Plan.{PlanStep, PlanTaskArtifact, ExecutionPlan, ModelSelection}
use sourcevcode_orchestrator.Plan.Schedule.{contains, trimmed}
use sourcevcode_orchestrator.Plan.Executor.{
  ParallelPlanCheckpoint, Stage, Reach, execute_parallel_plan,
}
use sourcevcode_orchestrator.Plan.Executor.Termination.{IsProper, trimmed_lem}
use sourcevcode_orchestrator.Plan.Executor.Progress.{
  Topological, ids_of, is_accounted, is_proper, is_proper_lem, IsOpen,
}
use sourcevcode_orchestrator.Plan.Executor.Resolved.{never_unresolved, error_of, is_unresolved}
use sourcevcode_orchestrator.Plan.Planner.{build_plan, prepare, prepared, assigned}
use sourcevcode_orchestrator.Plan.Planner.Steps.{step_ids, id_of}
use sourcevcode_orchestrator.Plan.Planner.Artifact.{plan_task, preview_checkpoint}
use sourcevcode_orchestrator.Plan.Planner.Order.{IsPlanned, IsNamed, default_steps-IsPlanned}

empty_iff : (s : String) → (s == "") ≡ is_empty s
unfolding is_empty
empty_iff String.[] = refl
empty_iff (String.◌∷◌ c s) = elim (Bool-cases (String.◌∷◌ c s == "")) [
  | inl e ↦ absurd (cons≢nil ((eq_iff _ _).0 e))
  | inr e ↦ e
]

module _ (task : Task) (proper : is_proper task.id ≡ true) where
  IsNamed-is_proper : (id : String) → IsNamed task id → is_proper id ≡ true
  unfolding id_of
  IsNamed-is_proper id h =
      let (t, e) = is_proper_lem task.id proper in
      let inhabited : is_empty task.id ≡ false = sym (empty_iff task.id) ∙ e in
      subst (λ k. is_proper k ≡ true) (sym h.is_id)
        (rw
          (
            trim-append task.id h.suffix t h.firm inhabited,
            eq_self (id_of task h.suffix),
            empty_iff (id_of task h.suffix),
            is_empty-append task.id h.suffix h.firm.inhabited,
          )
          refl)

  module _ (plan : ExecutionPlan) where
    planned-Topological :
        (earlier : List String) (steps : List PlanStep)
        → IsPlanned task earlier steps
        → Topological earlier (map (plan_task task plan) steps)
    unfolding plan_task
    planned-Topological earlier [] h = tt
    planned-Topological earlier (s ∷ steps) h =
        (h.0, planned-Topological (s.id ∷ earlier) steps h.2)

    planned_proper :
        (earlier : List String) (steps : List PlanStep)
        → IsPlanned task earlier steps
        → All (λ a. is_proper a.task_id ≡ true) (map (plan_task task plan) steps)
    unfolding plan_task
    planned_proper earlier [] h = tt
    planned_proper earlier (s ∷ steps) h =
        (IsNamed-is_proper s.id h.1, planned_proper (s.id ∷ earlier) steps h.2)

    ids_of-plan_task :
        (steps : List PlanStep) → ids_of (map (plan_task task plan) steps) ≡ step_ids steps
    unfolding plan_task
    ids_of-plan_task [] = refl
    ids_of-plan_task (s ∷ steps) = ap (λ l. s.id ∷ l) (ids_of-plan_task steps)

own_ids : (l : List PlanTaskArtifact) → All (λ a. contains a.task_id (ids_of l) ≡ true) l
own_ids [] = tt
own_ids (a ∷ l) = (
  rw (eq_self a.task_id) refl,
  All-map (λ b. contains b.task_id (ids_of l) ≡ true)
      (λ b. contains b.task_id (a.task_id ∷ ids_of l) ≡ true) l (λ b h. ground arith) (own_ids l),
)

All-ids_of {κ} :
    (Q : String → Type κ) (l : List PlanTaskArtifact) → All (λ a. Q a.task_id) l → All Q (ids_of l)
All-ids_of Q [] h = tt
All-ids_of Q (a ∷ l) h = (h.0, All-ids_of Q l h.1)

both {κ μ} :
    {A : Type 0} (P : A → Type κ) (Q : A → Type μ) (l : List A)
    → All P l
    → All Q l
    → All (λ a. P a × Q a) l
both P Q [] h k = tt
both P Q (a ∷ l) h k = ((h.0, k.0), both P Q l h.1 k.1)

-- A checkpoint whose pending ids are those of its tasks, and proper, is open.
fresh-IsOpen :
    (cp : ParallelPlanCheckpoint)
    → cp.pending_task_ids ≡ ids_of cp.tasks
    → All (λ a. is_proper a.task_id ≡ true) cp.tasks
    → IsOpen cp cp
fresh-IsOpen cp same h =
    let proper =
      All-map (λ a. is_proper a.task_id ≡ true) (λ a. IsProper a.task_id) cp.tasks
        (λ a. is_proper_lem a.task_id) h in
    let ids = All-ids_of IsProper cp.tasks proper in
    let here = own_ids cp.tasks in
    record {
      same_tasks = refl;
      accounted =
          All-map (λ a. contains a.task_id (ids_of cp.tasks) ≡ true)
            (λ a. is_accounted cp.pending_task_ids cp.completed_task_ids a ≡ true) cp.tasks
            (λ a k. counted a (
              subst (λ l. contains a.task_id l ≡ true)
                (sym (ap trimmed same ∙ trimmed_lem (ids_of cp.tasks) ids)) k))
            here;
      known = subst (All (λ k. IsProper k × (contains k (ids_of cp.tasks) ≡ true))) (sym same) (
          both IsProper (λ k. contains k (ids_of cp.tasks) ≡ true) (ids_of cp.tasks) ids
            (All-ids_of (λ k. contains k (ids_of cp.tasks) ≡ true) cp.tasks here));
    }
  where
    counted :
        (a : PlanTaskArtifact)
        → contains a.task_id (trimmed cp.pending_task_ids) ≡ true
        → is_accounted cp.pending_task_ids cp.completed_task_ids a ≡ true
    counted a k = ground arith

-- The executor never reports unresolved dependencies for a plan that the planner has made, from any task
-- whose id is neither empty nor surrounded by white space, whatever the workflows answer and in whatever
-- order they end.
pub prepare-resolved :
    (save : ParallelPlanCheckpoint → Option String) (most now : ℕ) (select : Task → ModelSelection)
    (task : Task) (e : Option String) {n : ℕ} {s : Stage}
    → is_proper task.id ≡ true
    → Reach save
        (execute_parallel_plan save
          (preview_checkpoint (prepare most now select task).0 (prepare most now select task).1)
          e)
        n
        s
    → is_unresolved (error_of s) ≡ false
unfolding prepare prepared assigned build_plan preview_checkpoint
prepare-resolved save most now select task e proper r =
    let t = (prepare most now select task).0 in
    let plan = (prepare most now select task).1 in
    let ordered = default_steps-IsPlanned most t in
    let named = planned_proper t proper plan [] plan.steps ordered in
    never_unresolved save (preview_checkpoint t plan) e
      (planned-Topological t proper plan [] plan.steps ordered) named
      (fresh-IsOpen (preview_checkpoint t plan) (sym (ids_of-plan_task t proper plan plan.steps))
        named)
      r
