-- ===== src/Plan/Executor/Resolved.antt =====
-- Plans that list every artifact after its dependencies: the executor never gives them up.
use mathlib.Core.List.{Mem, not-mem-nil}
use sourcevcode_orchestrator.Prelude.{
  true≢false, ℕ, String, List, [], ◌∷◌, Option, none, some, Bool, true, false, ◌≡◌, refl, sym,
  subst, ap, arith, eq_self, All, All-map,
}
use sourcevcode_orchestrator.Domain.Task.{WorkflowRecord}
use sourcevcode_orchestrator.Plan.Schedule.{contains, trimmed, completed_set}
use sourcevcode_orchestrator.Plan.Schedule.Ready.{ready_iff, contains-Mem, Mem_of-all}
use sourcevcode_orchestrator.Plan.Executor.{
  ParallelPlanCheckpoint, Stage, PlanError, execute_parallel_plan, Reach, no_ids,
}
use sourcevcode_orchestrator.Plan.Executor.Blocked.{IsStuck, Reach-FairReport}
use sourcevcode_orchestrator.Plan.Executor.Termination.{IsProper, trimmed_lem}
use sourcevcode_orchestrator.Plan.Executor.Progress.{
  Topological, ids_of, first_ready, IsOpen, OpenStage, is_proper, Reach-OpenStage,
}

-- The error with which the call has returned.
abbrev pub error_of : Stage → Option PlanError
error_of (Stage.waiting r) = none
error_of (Stage.ended c e ws) = e

abbrev pub is_unresolved : Option PlanError → Bool
is_unresolved (some (PlanError.unresolved id)) = true
is_unresolved _ = false

module _ (cp : ParallelPlanCheckpoint) where
  not_stuck : (c : ParallelPlanCheckpoint) → Topological [] cp.tasks → IsOpen cp c → IsStuck c → ⊥
  unfolding completed_set
  not_stuck c t h k = go c.pending_task_ids h.known k.has_pending refl
    where
      go :
          (pending : List String)
          → All (λ j. IsProper j × (contains j (ids_of cp.tasks) ≡ true)) pending
          → no_ids pending ≡ false
          → pending ≡ c.pending_task_ids
          → ⊥
      go [] q n e = true≢false n
      go (j ∷ js) q n e =
          let here : contains j (trimmed (j ∷ js)) ≡ true =
            subst (λ l. contains j l ≡ true)
              (sym (trimmed_lem (j ∷ js) (All-map _ IsProper (j ∷ js) (λ i p. p.0) q)))
              (ground (arith, eq_self j)) in
          let (a, m, p, d) =
            first_ready c.pending_task_ids c.completed_task_ids [] cp.tasks j t tt h.accounted
              (subst (λ l. contains j (trimmed l) ≡ true) e here) q.0.1 in
          not-mem-nil (
            subst (Mem a) k.none_ready (
              (ready_iff a c.tasks c.pending_task_ids c.completed_task_ids).1 (
                subst (Mem a) (sym h.same_tasks) m,
                contains-Mem a.task_id _ p,
                Mem_of-all (completed_set c.completed_task_ids) a.dependencies d,
              )))

module _ (save : ParallelPlanCheckpoint → Option String) (cp : ParallelPlanCheckpoint) where
  ended-resolved :
      (c : ParallelPlanCheckpoint) (e : Option PlanError) (ws : List WorkflowRecord)
      → ((id : String) → e ≡ some (PlanError.unresolved id) → ⊥)
      → is_unresolved e ≡ false
  ended-resolved c none ws h = refl
  ended-resolved c (some (PlanError.unresolved id)) ws h = absurd (h id refl)
  ended-resolved c (some PlanError.missing_root) ws h = refl
  ended-resolved c (some (PlanError.workflow_failed e)) ws h = refl
  ended-resolved c (some (PlanError.bad_workflow e)) ws h = refl
  ended-resolved c (some (PlanError.not_saved e)) ws h = refl

  -- A plan that lists every artifact after its dependencies never makes the executor report unresolved
  -- dependencies, whatever the results are and in whatever order they arrive. The ids of the plan
  -- are neither empty nor surrounded by white space, each of them is pending or completed at the start,
  -- and every pending id is one of them.
  pub never_unresolved :
      (e : Option String) {n : ℕ} {s : Stage}
      → Topological [] cp.tasks
      → All (λ a. is_proper a.task_id ≡ true) cp.tasks
      → IsOpen cp cp
      → Reach save (execute_parallel_plan save cp e) n s
      → is_unresolved (error_of s) ≡ false
  never_unresolved e {s} t p h r = resolved s (Reach-OpenStage save cp e p h r) (λ c id ws same.
      Reach-FairReport save cp e (subst (Reach save (execute_parallel_plan save cp e) _) same r))
    where
      resolved :
          (u : Stage)
          → OpenStage cp u
          → ((c : ParallelPlanCheckpoint) (id : String) (ws : List WorkflowRecord)
              → u ≡ Stage.ended c (some (PlanError.unresolved id)) ws
              → IsStuck c)
          → is_unresolved (error_of u) ≡ false
      resolved (Stage.waiting q) o k = refl
      resolved (Stage.ended c f ws) (OpenStage.ends o) k =
          ended-resolved c f ws
            (λ id same. not_stuck cp c t o (k c id ws (ap (λ g. Stage.ended c g ws) same)))
