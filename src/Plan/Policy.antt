-- ===== src/Plan/Policy.antt =====
-- go-core/internal/kernel/task_policy.go: what capability a task needs, and which tasks are work on the
-- repository itself. A map from the source that is only looked up is a list of its keys or a function.
pub mod Laws
mod Tests
use sourcevcode_orchestrator.Prelude.{
  String, List, [], ◌∷◌, ◌++◌, map, Option, none, some, Bool, true, false, not, ◌&&◌, ◌||◌,
  if◌then◌else◌, ◌==◌, any, keep, trim, is_empty, lower_is, lower_code, contains_by, join,
}
use sourcevcode_orchestrator.Domain.Task.{Task, TaskType}

unfoldable pub compact_strings : List String → List String
compact_strings [] = []
compact_strings (value ∷ values) =
    let out = compact_strings values in if trim value == "" then out else trim value ∷ out

-- Before ToLower, which every reader of it undoes by comparing with lower-case text.
unfoldable pub task_text : Task → String
unfolding compact_strings join
task_text task = join " " (
    task.input.description
    ∷ (compact_strings task.input.files
        ++ (compact_strings task.input.constraints
            ++ compact_strings task.input.acceptance_criteria)))

unfoldable pub mentions : Task → String → Bool
unfolding task_text contains_by lower_code
mentions task keyword = contains_by lower_code (task_text task) keyword

unfoldable pub sourcecraft_task_families : List String
sourcecraft_task_families =
    "repo_ops" ∷ "pr_flow" ∷ "release_flow" ∷ "issue_flow" ∷ "branch_governance" ∷ []

unfoldable pub sourcecraft_keywords : List String
sourcecraft_keywords =
    "sourcecraft" ∷ "src " ∷ " src" ∷ "repo" ∷ "repository" ∷ "pull request" ∷ "pr " ∷ " pr"
    ∷ "issue" ∷ "release" ∷ "branch" ∷ "tag" ∷ "changelog" ∷ "quota" ∷ "status" ∷ []

abbrev pub is_routable : TaskType → Bool
is_routable TaskType.plan = true
is_routable TaskType.docs = true
is_routable TaskType.research = true
is_routable _ = false

-- Whether the map of capabilities has the capability: the families and "sourcecraft" itself.
unfoldable pub is_sourcecraft_capability : String → Bool
unfolding sourcecraft_task_families lower_is trim
is_sourcecraft_capability capability =
    lower_is (trim capability) "sourcecraft"
    || any (λ k. lower_is (trim capability) k) sourcecraft_task_families

unfoldable pub is_sourcecraft_work : Task → Bool
unfolding is_sourcecraft_capability mentions sourcecraft_keywords
is_sourcecraft_work task =
    if is_sourcecraft_capability task.required_capability
    then true
    else is_routable task.type && any (λ k. mentions task k) sourcecraft_keywords

unfoldable pub capability_by_task_type : TaskType → String
capability_by_task_type TaskType.plan = "plan"
capability_by_task_type TaskType.code = "code"
capability_by_task_type TaskType.review = "review"
capability_by_task_type TaskType.test = "test"
capability_by_task_type TaskType.docs = "docs"
capability_by_task_type TaskType.fix = "fix"
capability_by_task_type TaskType.research = "research"
capability_by_task_type TaskType.unset = "general"

unfoldable pub infer_capability : Task → String
unfolding is_sourcecraft_work capability_by_task_type trim
infer_capability task =
    if not (trim task.required_capability == "")
    then trim task.required_capability
    else if is_sourcecraft_work task
    then "sourcecraft"
    else capability_by_task_type task.type

-- The first of the keys that the text is, in whatever case.
unfoldable pub first_named : String → List String → Option String
unfolding lower_is
first_named capability [] = none
first_named capability (k ∷ keys) =
    let later = first_named capability keys in if lower_is capability k then some k else later

unfoldable pub family_of_text : Task → String
unfolding mentions
family_of_text task =
    if mentions task "pull request" || mentions task " pr" || mentions task "pr "
    then "pr_flow"
    else if mentions task "release" || mentions task "tag" || mentions task "changelog"
    then "release_flow"
    else if mentions task "issue"
    then "issue_flow"
    else if mentions task "branch"
    then "branch_governance"
    else "repo_ops"

unfoldable pub sourcecraft_task_family : Task → String
unfolding first_named family_of_text sourcecraft_task_families trim
sourcecraft_task_family task =
    elim (first_named (trim task.required_capability) sourcecraft_task_families) [
      | some capability ↦ capability
      | none ↦ family_of_text task
    ]

unfoldable pub sourcecraft_safe_actions_by_family : String → List String
sourcecraft_safe_actions_by_family family =
    if family == "pr_flow"
    then "repo_summary" ∷ "status" ∷ "pr_checks" ∷ []
    else if family == "release_flow"
    then "repo_summary" ∷ "status" ∷ "repo_governance_report" ∷ []
    else if family == "issue_flow"
    then "repo_summary" ∷ "status" ∷ []
    else if family == "branch_governance"
    then "current_branch" ∷ "status" ∷ "repo_governance_report" ∷ []
    else "repo_summary" ∷ "status" ∷ "current_branch" ∷ []

unfoldable pub sourcecraft_recommended_actions : Task → List String
unfolding sourcecraft_safe_actions_by_family sourcecraft_task_family
sourcecraft_recommended_actions task =
    sourcecraft_safe_actions_by_family (sourcecraft_task_family task)

unfoldable pub sourcecraft_safe_actions : List String
sourcecraft_safe_actions =
    "repo_summary" ∷ "status" ∷ "current_branch" ∷ "pr_checks" ∷ "repo_governance_report" ∷ []

abbrev pub supports_capability : List String → String → Bool
supports_capability capabilities required = any (λ c. c == required || c == "*") capabilities
