-- ===== src/Plan/Planner/Steps.antt =====
-- go-core/internal/kernel/planner.go: defaultSteps and what it is made of.
use sourcevcode_orchestrator.Prelude.{
  ℕ, zero, suc, min, ◌+◌, ◌*◌, String, List, [], ◌∷◌, ◌++◌, map, Bool, true, false, ◌&&◌, ◌||◌, ltb,
  if◌then◌else◌, ◌==◌, length, take, drop, trim, lower_is, join, decimal,
}
use sourcevcode_orchestrator.Prelude.Int.{pos}
use sourcevcode_orchestrator.Domain.Task.{Task, TaskType, Complexity}
use sourcevcode_orchestrator.Domain.Plan.{PlanStep}
use sourcevcode_orchestrator.Plan.Policy.{
  compact_strings, is_sourcecraft_work, sourcecraft_task_family,
}
use Prim.Native.String as Str

unfoldable pub worker_class_for_capability : String → String
unfolding lower_is
worker_class_for_capability capability =
    let c = trim capability in
    if lower_is c "plan" || lower_is c "analysis"
    then "planner"
    else if lower_is c "code" || lower_is c "sourcecraft" || lower_is c "fix"
    then "code"
    else if lower_is c "review" || lower_is c "security"
    then "review"
    else if lower_is c "test"
    then "test"
    else if lower_is c "research"
    then "retrieval"
    else if lower_is c "docs"
    then "merge"
    else "general"

unfoldable pub base_budget : String → ℕ
base_budget worker_class =
    if worker_class == "planner" || worker_class == "review" || worker_class == "merge"
    then 10
    else if worker_class == "test" || worker_class == "retrieval"
    then 8
    else 6

unfoldable pub step_context_budget : String → List String → ℕ
unfolding base_budget worker_class_for_capability
step_context_budget capability files =
    let base = base_budget (worker_class_for_capability capability) + length files * 2 in
    if ltb 18 base then 18 else base

unfoldable pub max_files_per_code_cluster : Complexity → ℕ
max_files_per_code_cluster Complexity.low = 3
max_files_per_code_cluster Complexity.medium = 3
max_files_per_code_cluster Complexity.high = 2
max_files_per_code_cluster _ = 1

unfoldable pub files_per_cluster : ℕ → ℕ
files_per_cluster zero = 2
files_per_cluster (suc n) = min 3 (suc n)

-- The loop over `start`, on the files below the limit that are left. Each round takes one file at
-- least, so their number is enough fuel.
unfoldable pub chunks : ℕ → ℕ → List String → List (List String)
chunks zero size files = []
chunks (suc fuel) size [] = []
chunks (suc fuel) size (f ∷ files) =
    take size (f ∷ files) ∷ chunks fuel size (drop size (f ∷ files))

unfoldable pub clustered : ℕ → List String → List String
clustered zero files = files
clustered (suc most) files = take (suc most) files

unfoldable pub cluster_plan_files : ℕ → List String → ℕ → List (List String)
unfolding chunks files_per_cluster clustered
cluster_plan_files most files max_per_cluster =
    chunks (length files) (files_per_cluster max_per_cluster) (clustered most files)

unfoldable pub id_of : Task → String → String
id_of task suffix = Str.◌++◌ task.id suffix

-- A step without the fields that only coding steps set.
unfoldable pub plain_step : String → String → String → List String → List String → PlanStep
plain_step id title capability dependencies files = record {
  id = id;
  title = title;
  capability = capability;
  worker_class = "";
  cluster_id = "";
  context_budget = pos 0;
  conflict_keys = [];
  dependencies = dependencies;
  files = files;
}

unfoldable pub code_step : String → String → String → String → List String → List String → PlanStep
unfolding worker_class_for_capability step_context_budget
code_step id title capability cluster_id dependencies files = record {
  id = id;
  title = title;
  capability = capability;
  worker_class = worker_class_for_capability capability;
  cluster_id = cluster_id;
  context_budget = pos (step_context_budget capability files);
  conflict_keys = files;
  dependencies = dependencies;
  files = files;
}

unfoldable pub branch_id : Task → ℕ → String
unfolding id_of decimal
branch_id task index = id_of task (Str.◌++◌ "-branch-" (decimal (index + 1)))

unfoldable pub branch_step : Task → String → ℕ → List String → PlanStep
unfolding code_step branch_id id_of decimal join
branch_step task capability index files =
    code_step (branch_id task index) (Str.◌++◌ "implement changes for " (join ", " files))
      capability (id_of task (Str.◌++◌ "-cluster-" (decimal (index + 1))))
      (id_of task "-analyze" ∷ []) files

-- The loop over the clusters, from an index.
unfoldable pub branch_steps : Task → String → ℕ → List (List String) → List PlanStep
unfolding branch_step
branch_steps task capability index [] = []
branch_steps task capability index (files ∷ clusters) =
    branch_step task capability index files ∷ branch_steps task capability (suc index) clusters

unfoldable pub code_capability : Task → String
code_capability task =
    if task.required_capability == "sourcecraft" then "code" else task.required_capability

abbrev pub is_demanding : Complexity → Bool
is_demanding Complexity.high = true
is_demanding Complexity.critical = true
is_demanding _ = false

unfoldable pub is_parallelizable : Task → List String → Bool
is_parallelizable task files =
    ltb 1 (length files)
    && (is_demanding task.complexity
        || ltb 2 (length files)
        || ltb 1 (length task.input.acceptance_criteria))

unfoldable pub serial_code_steps : Task → List String → List PlanStep
unfolding code_step id_of code_capability
serial_code_steps task files =
    code_step (id_of task "-implement") "implement requested changes" (code_capability task) ""
      (id_of task "-analyze" ∷ []) files
    ∷ code_step (id_of task "-review") "review code changes" "review" ""
        (id_of task "-implement" ∷ []) files
    ∷ code_step (id_of task "-test") "run validation checks" "test" "" (id_of task "-review" ∷ [])
        files
    ∷ []

unfoldable pub code_clusters : ℕ → Task → List String → List (List String)
unfolding cluster_plan_files max_files_per_code_cluster
code_clusters most task files =
    cluster_plan_files most files (max_files_per_code_cluster task.complexity)

abbrev pub step_ids : List PlanStep → List String
step_ids = map (λ (s : PlanStep). s.id)

unfoldable pub joining_steps : Task → List String → List String → List PlanStep
unfolding code_step id_of
joining_steps task branch_ids files =
    code_step (id_of task "-merge-review") "merge and review parallel branches" "review"
      (id_of task "-merge") branch_ids files
    ∷ code_step (id_of task "-test") "run validation checks" "test" (id_of task "-verify")
        (id_of task "-merge-review" ∷ []) files
    ∷ []

unfoldable pub parallel_code_steps : ℕ → Task → List String → List PlanStep
unfolding branch_steps code_clusters joining_steps code_capability
parallel_code_steps most task files =
    let branches = branch_steps task (code_capability task) 0 (code_clusters most task files) in
    branches ++ joining_steps task (step_ids branches) files

unfoldable pub code_steps : ℕ → Task → List PlanStep
unfolding compact_strings is_parallelizable serial_code_steps parallel_code_steps
code_steps most task =
    let files = compact_strings task.input.files in
    if is_parallelizable task files
    then parallel_code_steps most task files
    else serial_code_steps task files

unfoldable pub draft_capability : TaskType → String
draft_capability TaskType.docs = "docs"
draft_capability TaskType.research = "research"
draft_capability TaskType.code = "code"
draft_capability TaskType.fix = "code"
draft_capability TaskType.review = "review"
draft_capability TaskType.test = "test"
draft_capability _ = "plan"

abbrev pub is_validated : TaskType → Bool
is_validated TaskType.code = true
is_validated TaskType.fix = true
is_validated TaskType.test = true
is_validated _ = false

unfoldable pub validating_steps : Task → List String → List PlanStep
unfolding plain_step id_of
validating_steps task files =
    if is_validated task.type
    then plain_step (id_of task "-validate-sourcecraft")
        "validate workflow handoff and execution readiness" "test"
        (id_of task "-review-sourcecraft" ∷ []) files
      ∷ []
    else []

unfoldable pub sourcecraft_steps : Task → List PlanStep
unfolding compact_strings plain_step id_of draft_capability validating_steps sourcecraft_task_family
sourcecraft_steps task =
    let files = compact_strings task.input.files in
    plain_step (id_of task "-repo-context") "inspect repository workflow context" "research"
      (id_of task "-analyze" ∷ []) files
    ∷ plain_step (id_of task "-workflow-policy") "map sourcecraft repo policy and guardrails" "plan"
        (id_of task "-repo-context" ∷ []) files
    ∷ plain_step (id_of task "-draft-sourcecraft")
        (Str.◌++◌ "draft " (Str.◌++◌ (sourcecraft_task_family task) " delegation plan"))
        (draft_capability task.type) (id_of task "-workflow-policy" ∷ []) files
    ∷ plain_step (id_of task "-review-sourcecraft") "review recommended repo actions" "review"
        (id_of task "-draft-sourcecraft" ∷ []) files
    ∷ validating_steps task files

-- Two steps after the analysis, the second after the first.
unfoldable pub two_steps : Task → String → String → String → String → String → List PlanStep
unfolding plain_step id_of compact_strings
two_steps task first first_title second second_title capability =
    let files = compact_strings task.input.files in
    plain_step (id_of task first) first_title task.required_capability (id_of task "-analyze" ∷ [])
      files
    ∷ plain_step (id_of task second) second_title capability (id_of task first ∷ []) files
    ∷ []

unfoldable pub written_steps : Task → List PlanStep
unfolding plain_step id_of compact_strings two_steps
written_steps task =
    two_steps task "-collect-context" "collect supporting context" "-write-output"
      "produce deliverable" task.required_capability
    ++ (plain_step (id_of task "-review-output") "review deliverable" "review"
          (id_of task "-write-output" ∷ []) (compact_strings task.input.files)
        ∷ [])

unfoldable pub steps_by_type : ℕ → Task → TaskType → List PlanStep
unfolding code_steps two_steps written_steps
steps_by_type most task TaskType.code = code_steps most task
steps_by_type most task TaskType.fix = code_steps most task
steps_by_type most task TaskType.plan =
    two_steps task "-draft-plan" "draft execution plan" "-review-plan" "review planning output"
      "review"
steps_by_type most task TaskType.review =
    two_steps task "-audit" "audit implementation and risks" "-report" "produce review report"
      "docs"
steps_by_type most task TaskType.test =
    two_steps task "-run-tests" "run test scenarios" "-verify-results"
      "verify failing and passing paths" "review"
steps_by_type most task TaskType.docs = written_steps task
steps_by_type most task TaskType.research = written_steps task
steps_by_type most task TaskType.unset =
    two_steps task "-execute" task.input.description "-verify" "verify completion" "review"

unfoldable pub analyze_step : Task → PlanStep
unfolding plain_step id_of compact_strings
analyze_step task =
    plain_step (id_of task "-analyze") "analyze task scope and constraints" "plan" []
      (compact_strings task.input.files)

unfoldable pub default_steps : ℕ → Task → List PlanStep
unfolding analyze_step is_sourcecraft_work sourcecraft_steps steps_by_type
default_steps most task =
    analyze_step task
    ∷ (if is_sourcecraft_work task
        then sourcecraft_steps task
        else steps_by_type most task task.type)
