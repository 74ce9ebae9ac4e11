-- ===== src/Plan/Executor/Progress.antt =====
-- Plans that list every artifact after its dependencies: the executor never reports them as blocked.
use mathlib.Core.List.{Mem, mem-cons_self, mem-cons_of_mem}
use sourcevcode_orchestrator.Prelude.{
  true≢false, ℕ, String, List, [], ◌∷◌, ◌++◌, Option, none, some, Bool, true, not, ◌&&◌, ◌||◌, ◌≡◌,
  refl, sym, subst, ap, ◌∙◌, inl, inr, arith, Bool-cases, Option-cases, if_cases, ◌==◌, trim,
  eq_iff, All, All-Mem, All-map, All-keep, map, all,
}
use sourcevcode_orchestrator.Domain.Plan.{PlanTaskArtifact, ParallelPlanStatus}
use sourcevcode_orchestrator.Domain.Task.{WorkflowRecord}
use sourcevcode_orchestrator.Plan.Schedule.{contains, trimmed, remove_pending}
use sourcevcode_orchestrator.Plan.Schedule.Conflicts.{contains-append}
use sourcevcode_orchestrator.Plan.Schedule.Ready.{Bool_set}
use sourcevcode_orchestrator.Plan.Executor.{
  ParallelPlanCheckpoint, Run, Stage, Completion, PlanError, launch, await, next_round, receive,
  fail, execute_parallel_plan, Reach, Step, recorded, is_none, no_ids, validate_plan_workflow,
  after_save, validated, begin, resume, static_saved, finish, numbered, restarted,
}
use sourcevcode_orchestrator.Plan.Executor.Started.{trimmed-append}
use sourcevcode_orchestrator.Plan.Executor.Sound.{SoundStage, Reach-SoundStage, MayRun, MayRun-prop}
use sourcevcode_orchestrator.Plan.Executor.Termination.{
  IsProper, trimmed_lem, contains-remove_pending,
}

-- Every dependency of an artifact is the id of an artifact before it, or one of the given ids.
abbrev pub Topological : List String → List PlanTaskArtifact → Type 0
Topological earlier [] = Unit {0}
Topological earlier (a ∷ l) =
    (all (λ d. contains d earlier) a.dependencies ≡ true) × Topological (a.task_id ∷ earlier) l

abbrev pub ids_of : List PlanTaskArtifact → List String
ids_of = map (λ (a : PlanTaskArtifact). a.task_id)

abbrev pub is_accounted : List String → List String → PlanTaskArtifact → Bool
is_accounted pending completed a =
    contains a.task_id (trimmed pending) || contains a.task_id (trimmed completed)

all-contains :
    (xs ys ds : List String)
    → All (λ k. contains k ys ≡ true) xs
    → all (λ d. contains d xs) ds ≡ true
    → all (λ d. contains d ys) ds ≡ true
all-contains xs ys [] h e = refl
all-contains xs ys (d ∷ ds) h e =
    ground (arith, all-contains xs ys ds h (ground arith), one xs h (ground arith))
  where
    one :
        (zs : List String)
        → All (λ k. contains k ys ≡ true) zs
        → contains d zs ≡ true
        → contains d ys ≡ true
    one [] h e = absurd (cc e)
    one (z ∷ zs) h e = elim (Bool-cases (z == d)) [
      | inl p ↦ subst (λ k. contains k ys ≡ true) ((eq_iff z d).0 p) h.0
      | inr p ↦ one zs h.1 (ground arith)
    ]

-- The first pending artifact of such a plan is ready.
pub first_ready :
    (pending completed earlier : List String) (l : List PlanTaskArtifact) (k : String)
    → Topological earlier l
    → All (λ i. contains i (trimmed completed) ≡ true) earlier
    → All (λ a. is_accounted pending completed a ≡ true) l
    → contains k (trimmed pending) ≡ true
    → contains k (ids_of l) ≡ true
    → (a : PlanTaskArtifact) × Mem a l
      × (contains a.task_id (trimmed pending) ≡ true)
      × (all (λ d. contains d (trimmed completed)) a.dependencies ≡ true)
first_ready pending completed earlier [] k t e c p i = absurd (cc i)
first_ready pending completed earlier (a ∷ l) k t e c p i =
    elim (Bool-cases (contains a.task_id (trimmed pending))) [
      | inl q ↦ (a, mem-cons_self, q, all-contains earlier (trimmed completed) a.dependencies e t.0)
      | inr q ↦
          let done : contains a.task_id (trimmed completed) ≡ true = ground (arith, c.0) in
          let later : contains k (ids_of l) ≡ true = elim (Bool-cases (a.task_id == k)) [
            | inl same ↦ absurd (
                true≢false (
                  sym p
                  ∙ ap (λ j. contains j (trimmed pending)) (sym ((eq_iff a.task_id k).0 same))
                  ∙ q))
            | inr other ↦ ground arith
          ] in
          let (b, m, r, d) =
            first_ready pending completed (a.task_id ∷ earlier) l k t.1 (done, e) c.1 p later in
          (b, mem-cons_of_mem a m, r, d)
    ]

-- The ids of the plan are proper and each is pending or completed; every pending id is one of them.
pub record IsOpen (cp c : ParallelPlanCheckpoint) : Type 0 where
  pub same_tasks : c.tasks ≡ cp.tasks
  pub accounted : All (λ a. is_accounted c.pending_task_ids c.completed_task_ids a ≡ true) cp.tasks
  pub known : All (λ k. IsProper k × (contains k (ids_of cp.tasks) ≡ true)) c.pending_task_ids

pub data OpenStage (cp : ParallelPlanCheckpoint) : Stage → Type 0 where
  waits : {r : Run} → IsOpen cp r.checkpoint → OpenStage cp (Stage.waiting r)
  ends :
      {c : ParallelPlanCheckpoint} {e : Option PlanError} {ws : List WorkflowRecord}
      → IsOpen cp c
      → OpenStage cp (Stage.ended c e ws)

-- An id that is completed counts as completed from then on, and no longer as pending.
is_accounted-step :
    (pending completed : List String) (id : String) (a : PlanTaskArtifact)
    → IsProper id
    → All IsProper pending
    → is_accounted pending completed a ≡ true
    → is_accounted (remove_pending pending id) (completed ++ (id ∷ [])) a ≡ true
unfolding remove_pending
is_accounted-step pending completed id a p q h =
    let left = trimmed_lem pending q in
    let left' =
      trimmed_lem (remove_pending pending id) (All-keep IsProper (λ k. not (k == id)) pending q) in
    let new = trimmed_lem (id ∷ []) (p, tt) in
    let grown : contains a.task_id (trimmed (completed ++ (id ∷ [])))
        ≡ (contains a.task_id (trimmed completed) || contains a.task_id (id ∷ [])) =
      ap (contains a.task_id) (trimmed-append completed (id ∷ []))
      ∙ contains-append a.task_id (trimmed completed) (trimmed (id ∷ []))
      ∙ ap (λ l. contains a.task_id (trimmed completed) || contains a.task_id l) new in
    let h' : (contains a.task_id pending || contains a.task_id (trimmed completed)) ≡ true =
      subst (λ l. (contains a.task_id l || contains a.task_id (trimmed completed)) ≡ true) left h in
    subst
      (λ l. (contains a.task_id l || contains a.task_id (trimmed (completed ++ (id ∷ [])))) ≡ true)
      (sym left')
      (elim (Bool-cases (a.task_id == id)) [
        | inl same ↦ ground (arith, grown, eq_iff a.task_id id, eq_iff id a.task_id)
        | inr other ↦ ground (arith, grown, h', contains-remove_pending pending id a.task_id other)
      ])

recorded-IsOpen :
    (cp : ParallelPlanCheckpoint) (r : Run) (c : Completion)
    → IsProper c.artifact.task_id
    → IsOpen cp r.checkpoint
    → IsOpen cp (recorded r c).checkpoint
unfolding remove_pending
recorded-IsOpen cp r c p h =
    let pending = r.checkpoint.pending_task_ids in
    record {
      same_tasks = h.same_tasks;
      accounted =
          All-map _ _ cp.tasks
            (λ a.
              is_accounted-step pending r.checkpoint.completed_task_ids c.artifact.task_id a p
                (All-map _ IsProper pending (λ k q. q.0) h.known))
            h.accounted;
      known = All-keep _ (λ k. not (k == c.artifact.task_id)) pending h.known;
    }

abbrev pub is_proper : String → Bool
is_proper k = (trim k == k) && not (k == "")

pub is_proper_lem : (k : String) → is_proper k ≡ true → IsProper k
is_proper_lem k h = ((eq_iff (trim k) k).0 (ground (arith, h)), ground (arith, h))

-- A write to the other fields.
IsOpen-same :
    (cp c d : ParallelPlanCheckpoint)
    → d.tasks ≡ c.tasks
    → d.pending_task_ids ≡ c.pending_task_ids
    → d.completed_task_ids ≡ c.completed_task_ids
    → IsOpen cp c
    → IsOpen cp d
IsOpen-same cp c d t p q h = record {
  same_tasks = t ∙ h.same_tasks;
  accounted = rw (p, q) h.accounted;
  known = rw p h.known;
}

module _ (save : ParallelPlanCheckpoint → Option String) (cp : ParallelPlanCheckpoint) where
  next_round-OpenStage : (r : Run) → IsOpen cp r.checkpoint → OpenStage cp (next_round save r)
  unfolding next_round finish await launch
  next_round-OpenStage r h =
      if_cases (OpenStage cp) (no_ids r.checkpoint.pending_task_ids && is_none r.running)
        (λ _. OpenStage.ends (IsOpen-same cp r.checkpoint _ refl refl refl h))
        (λ _.
          if_cases (OpenStage cp) (is_none (launch r).running)
            (λ _. OpenStage.ends (IsOpen-same cp r.checkpoint _ refl refl refl h))
            (λ _. OpenStage.waits h))

  after_save-OpenStage :
      (r : Run) (e : Option String) → IsOpen cp r.checkpoint → OpenStage cp (after_save save r e)
  unfolding after_save
  after_save-OpenStage r none h = next_round-OpenStage r h
  after_save-OpenStage r (some e) h = OpenStage.ends h

  receive-OpenStage :
      (r : Run) (c : Completion)
      → IsProper c.artifact.task_id
      → IsOpen cp r.checkpoint
      → OpenStage cp (receive save r c)
  unfolding receive fail validated
  receive-OpenStage r c p h = elim (Option-cases c.err) [
    | inl e ↦ elim (Option-cases (validate_plan_workflow c.workflow)) [
      | inl v ↦
          rw (e, v, validated)
            (after_save-OpenStage (recorded r c) (save (recorded r c).checkpoint)
              (recorded-IsOpen cp r c p h))
      | inr (x, v) ↦
          rw (e, v, validated) (OpenStage.ends (IsOpen-same cp r.checkpoint _ refl refl refl h))
    ]
    | inr (x, e) ↦ rw e (OpenStage.ends (IsOpen-same cp r.checkpoint _ refl refl refl h))
  ]

  -- A running artifact is one of the plan, so its id is proper.
  Step-OpenStage :
      {s t : Stage}
      → All (λ a. is_proper a.task_id ≡ true) cp.tasks
      → Step save s t
      → SoundStage cp s
      → OpenStage cp s
      → OpenStage cp t
  Step-OpenStage p (Step.receives r c m) (SoundStage.waits k) (OpenStage.waits h) =
      let (i, d) =
        All-Mem (MayRun cp.tasks r.checkpoint.completed_task_ids)
          (MayRun-prop cp.tasks r.checkpoint.completed_task_ids) r.running k.may_run c.artifact m in
      receive-OpenStage r c
        (is_proper_lem c.artifact.task_id
          (All-Mem (λ a. is_proper a.task_id ≡ true) (λ _. Bool_set _ _) cp.tasks p c.artifact i))
        h

  begin-OpenStage :
      (c : ParallelPlanCheckpoint) (e : Option String) → IsOpen cp c → OpenStage cp (begin save c e)
  unfolding begin
  begin-OpenStage c (some e) h = OpenStage.ends h
  begin-OpenStage c none h =
      next_round-OpenStage (record { checkpoint = c; running = []; workflows = [] }) h

  resume-OpenStage :
      (c : ParallelPlanCheckpoint) (st : ParallelPlanStatus)
      → IsOpen cp c
      → OpenStage cp (resume save c st)
  unfolding resume
  resume-OpenStage c st h = go st
    where
      again : OpenStage cp (begin save (restarted c) (save (restarted c)))
      again =
          begin-OpenStage (restarted c) (save (restarted c))
            (IsOpen-same cp c (restarted c) refl refl refl h)

      go : (u : ParallelPlanStatus) → OpenStage cp (resume save c u)
      go ParallelPlanStatus.completed = OpenStage.ends h
      go ParallelPlanStatus.planned = again
      go ParallelPlanStatus.running = again
      go ParallelPlanStatus.blocked = again
      go ParallelPlanStatus.failed = again

  execute-OpenStage :
      (e : Option String) → IsOpen cp cp → OpenStage cp (execute_parallel_plan save cp e)
  unfolding execute_parallel_plan static_saved
  execute-OpenStage e h =
      if_cases (OpenStage cp) (cp.root_task_id == "") (λ _. OpenStage.ends h) (λ _. go e)
    where
      h' : IsOpen cp (numbered cp)
      h' = IsOpen-same cp cp (numbered cp) refl refl refl h

      go : (f : Option String) → OpenStage cp (static_saved save (numbered cp) f)
      go (some x) = OpenStage.ends h'
      go none = resume-OpenStage (numbered cp) cp.status h'

  pub Reach-OpenStage :
      (e : Option String) {n : ℕ} {s : Stage}
      → All (λ a. is_proper a.task_id ≡ true) cp.tasks
      → IsOpen cp cp
      → Reach save (execute_parallel_plan save cp e) n s
      → OpenStage cp s
  Reach-OpenStage e p h Reach.here = execute-OpenStage e h
  Reach-OpenStage e p h (Reach.next r st) =
      Step-OpenStage p st (Reach-SoundStage save cp e r) (Reach-OpenStage e p h r)
