-- ===== src/Plan/Schedule.antt =====
-- go-core/internal/kernel/advanced_planner.go: which artifacts of a plan may start. Go's set of texts,
-- map[string]struct{}, is the list of its members.
pub mod Conflicts
pub mod Ready
pub mod Tests
use sourcevcode_orchestrator.Prelude.{
  String, List, [], ◌∷◌, ◌++◌, Bool, true, false, not, ◌&&◌, if◌then◌else◌, ◌==◌, trim, any, all,
  keep, length, ltb, sort_by,
}
use Prim.Native.String.{compare as str_compare}
use text.Mathlib.Text.{is_lt}
use sourcevcode_orchestrator.Domain.Plan.{PlanTaskArtifact}

abbrev pub contains : String → List String → Bool
contains k set = any (λ j. j == k) set

-- The texts, trimmed, without the empty ones: the loop that completedSet, hasConflictKeys and
-- registerConflictKeys share.
unfoldable pub trimmed : List String → List String
trimmed [] = []
trimmed (k ∷ ks) = let rest = trimmed ks in if trim k == "" then rest else trim k ∷ rest

unfoldable pub completed_set : List String → List String
unfolding trimmed
completed_set ids = trimmed ids

-- The keys by which an artifact conflicts with others.
abbrev pub keys_of : PlanTaskArtifact → List String
keys_of a = trimmed a.conflict_keys

unfoldable pub has_conflict_keys : PlanTaskArtifact → List String → Bool
has_conflict_keys a used = any (λ k. contains k used) (keys_of a)

unfoldable pub register_conflict_keys : PlanTaskArtifact → List String → List String
register_conflict_keys a used = keys_of a ++ used

unfoldable pub collect_artifact_conflict_keys : List PlanTaskArtifact → List String
unfolding register_conflict_keys
collect_artifact_conflict_keys [] = []
collect_artifact_conflict_keys (a ∷ running) =
    register_conflict_keys a (collect_artifact_conflict_keys running)

abbrev pub deps_done : List String → PlanTaskArtifact → Bool
deps_done completed a = all (λ d. contains d (completed_set completed)) a.dependencies

abbrev pub is_pending : List String → PlanTaskArtifact → Bool
is_pending pending a = contains a.task_id (completed_set pending)

abbrev pub id_less : PlanTaskArtifact → PlanTaskArtifact → Bool
id_less a b = is_lt (str_compare a.task_id b.task_id)

unfoldable pub ready_plan_artifacts :
    List PlanTaskArtifact → List String → List String → List PlanTaskArtifact
unfolding completed_set
ready_plan_artifacts tasks pending completed =
    sort_by id_less (keep (λ a. is_pending pending a && deps_done completed a) tasks)

-- The order in which the scheduler considers artifacts: lighter first, then with fewer files, then by id.
unfoldable pub lighter : PlanTaskArtifact → PlanTaskArtifact → Bool
lighter a b =
    if ltb a.weight b.weight
    then true
    else if ltb b.weight a.weight
    then false
    else if ltb (length a.files) (length b.files)
    then true
    else if ltb (length b.files) (length a.files)
    then false
    else id_less a b

-- The loop over the sorted artifacts.
unfoldable pub pick : List PlanTaskArtifact → List String → List PlanTaskArtifact
unfolding has_conflict_keys register_conflict_keys
pick [] used = []
pick (a ∷ sorted) used = elim (has_conflict_keys a used) [
  | true ↦ pick sorted used
  | false ↦ a ∷ pick sorted (register_conflict_keys a used)
]

unfoldable pub schedule_ready_artifacts_with_conflicts :
    List PlanTaskArtifact → List String → List PlanTaskArtifact
unfolding has_conflict_keys pick lighter
schedule_ready_artifacts_with_conflicts [] active = []
schedule_ready_artifacts_with_conflicts (a ∷ []) active =
    if has_conflict_keys a active then [] else a ∷ []
schedule_ready_artifacts_with_conflicts (a ∷ b ∷ ready) active =
    pick (sort_by lighter (a ∷ b ∷ ready)) active

unfoldable pub remove_pending : List String → String → List String
remove_pending pending id = keep (λ k. not (k == id)) pending
