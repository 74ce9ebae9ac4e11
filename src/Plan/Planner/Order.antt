-- ===== src/Plan/Planner/Order.antt =====
-- The order of the planner's steps: every step stands after the steps that it depends on.
use sourcevcode_orchestrator.Prelude.{
  ℕ, suc, String, List, [], ◌∷◌, ◌++◌, true, false, ◌≡◌, refl, arith, if_cases, trim_right,
  is_empty, decimal, ◌+◌, Bool-cases, inl, inr, eq_self, all,
}
use sourcevcode_orchestrator.Prelude.Trim.{IsFirm, IsFirm-append, decimal-IsFirm}
use sourcevcode_orchestrator.Domain.Task.{Task, TaskType}
use sourcevcode_orchestrator.Domain.Plan.{PlanStep}
use sourcevcode_orchestrator.Plan.Schedule.{contains}
use sourcevcode_orchestrator.Plan.Policy.{is_sourcecraft_work, compact_strings}
use sourcevcode_orchestrator.Plan.Planner.Steps.{
  id_of, default_steps, analyze_step, sourcecraft_steps, validating_steps, steps_by_type,
  code_steps, two_steps, written_steps, serial_code_steps, parallel_code_steps, branch_steps,
  branch_step, code_step, plain_step, joining_steps, step_ids, branch_id, code_capability,
  code_clusters, is_parallelizable, is_validated,
}

-- The id of a step is the task's id with a firm text behind it.
pub record IsNamed (task : Task) (id : String) : Type 0 where
  pub suffix : String
  pub is_id : id ≡ id_of task suffix
  pub firm : IsFirm suffix

-- Every dependency is one of the given ids, or the id of a step before; and every id is named.
abbrev pub IsPlanned : Task → List String → List PlanStep → Type 0
IsPlanned task earlier [] = Unit {0}
IsPlanned task earlier (s ∷ steps) =
    (all (λ d. contains d earlier) s.dependencies ≡ true)
    × IsNamed task s.id
    × IsPlanned task (s.id ∷ earlier) steps

-- The ids that stand before what comes after the steps.
abbrev after : List String → List PlanStep → List String
after earlier [] = earlier
after earlier (s ∷ steps) = after (s.id ∷ earlier) steps

IsPlanned-append :
    (task : Task) (earlier : List String) (xs ys : List PlanStep)
    → IsPlanned task earlier xs
    → IsPlanned task (after earlier xs) ys
    → IsPlanned task earlier (xs ++ ys)
IsPlanned-append task earlier [] ys h k = k
IsPlanned-append task earlier (x ∷ xs) ys h k =
    (h.0, h.1, IsPlanned-append task (x.id ∷ earlier) xs ys h.2 k)

contains_self : (k : String) (l : List String) → contains k (k ∷ l) ≡ true
contains_self k l = rw (eq_self k) refl

contains_later : (k j : String) (l : List String) → contains k l ≡ true → contains k (j ∷ l) ≡ true
contains_later k j l h = ground arith

contains-after :
    (k : String) (earlier : List String) (steps : List PlanStep)
    → contains k earlier ≡ true
    → contains k (after earlier steps) ≡ true
contains-after k earlier [] h = h
contains-after k earlier (s ∷ steps) h =
    contains-after k (s.id ∷ earlier) steps (contains_later k s.id earlier h)

-- A step's own id and those of the steps before it are among them.
all-after :
    (earlier : List String) (steps : List PlanStep)
    → all (λ d. contains d (after earlier steps)) (step_ids steps) ≡ true
all-after earlier [] = refl
all-after earlier (s ∷ steps) =
    rw
      (
        contains-after s.id (s.id ∷ earlier) steps (contains_self s.id earlier),
        all-after (s.id ∷ earlier) steps,
      )
      refl

named : (task : Task) (suffix : String) → IsFirm suffix → IsNamed task (id_of task suffix)
named task suffix f = record { suffix = suffix; is_id = refl; firm = f }

branch_steps-IsPlanned :
    (task : Task) (capability : String) (index : ℕ) (clusters : List (List String))
    (earlier : List String)
    → contains (id_of task "-analyze") earlier ≡ true
    → IsPlanned task earlier (branch_steps task capability index clusters)
unfolding branch_steps branch_step code_step branch_id
branch_steps-IsPlanned task capability index [] earlier h = tt
branch_steps-IsPlanned task capability index (files ∷ clusters) earlier h = (
  rw h refl,
  named task _ (IsFirm-append "-branch-" (decimal (index + 1)) (decimal-IsFirm (index + 1))),
  branch_steps-IsPlanned task capability (suc index) clusters (branch_id task index ∷ earlier)
      (contains_later (id_of task "-analyze") (branch_id task index) earlier h),
)

module _ (task : Task) where
  abbrev analyzed : List String
  analyzed = id_of task "-analyze" ∷ []

  -- A text in the source is firm by evaluation.
  here :
      (suffix : String)
      → trim_right suffix ≡ suffix
      → is_empty suffix ≡ false
      → IsNamed task (id_of task suffix)
  here suffix e i = named task suffix (record { ends = e; inhabited = i })

  parallel_code_steps-IsPlanned :
      (most : ℕ) (files : List String)
      → IsPlanned task analyzed (parallel_code_steps most task files)
  unfolding parallel_code_steps joining_steps code_step trim_right is_empty
  parallel_code_steps-IsPlanned most files =
      let branches = branch_steps task (code_capability task) 0 (code_clusters most task files) in
      IsPlanned-append task analyzed branches (joining_steps task (step_ids branches) files)
        (branch_steps-IsPlanned task (code_capability task) 0 (code_clusters most task files)
          analyzed (contains_self (id_of task "-analyze") []))
        (
          all-after analyzed branches,
          here "-merge-review" refl refl,
          (simp eq_self refl, here "-test" refl refl, tt),
        )

  serial_code_steps-IsPlanned :
      (files : List String) → IsPlanned task analyzed (serial_code_steps task files)
  unfolding serial_code_steps code_step trim_right is_empty
  serial_code_steps-IsPlanned files = (
    simp eq_self refl,
    here "-implement" refl refl,
    (simp eq_self refl, here "-review" refl refl, (simp eq_self refl, here "-test" refl refl, tt)),
  )

  code_steps-IsPlanned : (most : ℕ) → IsPlanned task analyzed (code_steps most task)
  unfolding code_steps
  code_steps-IsPlanned most =
      let files = compact_strings task.input.files in
      if_cases (IsPlanned task analyzed) (is_parallelizable task files)
        {x = parallel_code_steps most task files} {y = serial_code_steps task files}
        (λ e. parallel_code_steps-IsPlanned most files) (λ e. serial_code_steps-IsPlanned files)

  two_steps-IsPlanned :
      (first first_title second second_title capability : String)
      → IsFirm first
      → IsFirm second
      → IsPlanned task analyzed (two_steps task first first_title second second_title capability)
  unfolding two_steps plain_step
  two_steps-IsPlanned first first_title second second_title capability f g =
      (simp eq_self refl, named task first f, (simp eq_self refl, named task second g, tt))

  written_steps-IsPlanned : IsPlanned task analyzed (written_steps task)
  unfolding written_steps two_steps plain_step trim_right is_empty
  written_steps-IsPlanned = (
    simp eq_self refl,
    here "-collect-context" refl refl,
    (
      simp eq_self refl,
      here "-write-output" refl refl,
      (simp eq_self refl, here "-review-output" refl refl, tt),
    ),
  )

  steps_by_type-IsPlanned :
      (most : ℕ) (t : TaskType) → IsPlanned task analyzed (steps_by_type most task t)
  unfolding steps_by_type trim_right is_empty
  steps_by_type-IsPlanned most TaskType.code = code_steps-IsPlanned most
  steps_by_type-IsPlanned most TaskType.fix = code_steps-IsPlanned most
  steps_by_type-IsPlanned most TaskType.plan =
      two_steps-IsPlanned "-draft-plan" "draft execution plan" "-review-plan"
        "review planning output" "review" (record { ends = refl; inhabited = refl })
        (record { ends = refl; inhabited = refl })
  steps_by_type-IsPlanned most TaskType.review =
      two_steps-IsPlanned "-audit" "audit implementation and risks" "-report"
        "produce review report" "docs" (record { ends = refl; inhabited = refl })
        (record { ends = refl; inhabited = refl })
  steps_by_type-IsPlanned most TaskType.test =
      two_steps-IsPlanned "-run-tests" "run test scenarios" "-verify-results"
        "verify failing and passing paths" "review" (record { ends = refl; inhabited = refl })
        (record { ends = refl; inhabited = refl })
  steps_by_type-IsPlanned most TaskType.docs = written_steps-IsPlanned
  steps_by_type-IsPlanned most TaskType.research = written_steps-IsPlanned
  steps_by_type-IsPlanned most TaskType.unset =
      two_steps-IsPlanned "-execute" task.input.description "-verify" "verify completion" "review"
        (record { ends = refl; inhabited = refl }) (record { ends = refl; inhabited = refl })

  validating_steps-IsPlanned :
      (files earlier : List String)
      → IsPlanned task (id_of task "-review-sourcecraft" ∷ earlier) (validating_steps task files)
  unfolding validating_steps plain_step trim_right is_empty
  validating_steps-IsPlanned files earlier = elim (Bool-cases (is_validated task.type)) [
    | inl e ↦ rw e (simp eq_self refl, here "-validate-sourcecraft" refl refl, tt)
    | inr e ↦ rw e tt
  ]

  sourcecraft_steps-IsPlanned : IsPlanned task analyzed (sourcecraft_steps task)
  unfolding sourcecraft_steps plain_step trim_right is_empty
  sourcecraft_steps-IsPlanned = (
    simp eq_self refl,
    here "-repo-context" refl refl,
    (
      simp eq_self refl,
      here "-workflow-policy" refl refl,
      (
        simp eq_self refl,
        here "-draft-sourcecraft" refl refl,
        (
          simp eq_self refl,
          here "-review-sourcecraft" refl refl,
          validating_steps-IsPlanned (compact_strings task.input.files) _,
        ),
      ),
    ),
  )

-- In the steps of a task's plan, whatever its type and its files, every step depends only on steps
-- that stand before it, and has the task's id with a text behind it that no trimming shortens.
pub default_steps-IsPlanned : (most : ℕ) (task : Task) → IsPlanned task [] (default_steps most task)
unfolding default_steps analyze_step plain_step trim_right is_empty
default_steps-IsPlanned most task = (
  refl,
  here task "-analyze" refl refl,
  if_cases (IsPlanned task (id_of task "-analyze" ∷ [])) (is_sourcecraft_work task)
      (λ e. sourcecraft_steps-IsPlanned task) (λ e. steps_by_type-IsPlanned task most task.type),
)
