-- ===== src/Plan/Planner/Tests.antt =====
-- A concrete coding task, its steps and its plan in the executor.
use sourcevcode_orchestrator.Prelude.{
  ◌≤◌, String, [], ◌∷◌, Option, none, ◌≡◌, refl, false, All, trim,
}
use sourcevcode_orchestrator.Domain.Json.{nil, end}
use sourcevcode_orchestrator.Domain.Task.{Task, Complexity}
use sourcevcode_orchestrator.Domain.Plan.{ModelSelection}
use sourcevcode_orchestrator.Plan.Executor.{ParallelPlanCheckpoint, execute_parallel_plan, Reach}
use sourcevcode_orchestrator.Plan.Executor.Resolved.{error_of, is_unresolved}
use sourcevcode_orchestrator.Plan.Executor.Tests.{task}
use sourcevcode_orchestrator.Plan.Planner.{prepare}
use sourcevcode_orchestrator.Plan.Planner.Steps.{
  default_steps, step_ids, cluster_plan_files, clustered, files_per_cluster,
}
use sourcevcode_orchestrator.Plan.Planner.Artifact.{preview_checkpoint, parallel_groups}
use sourcevcode_orchestrator.Plan.Planner.Clusters.{
  concat, Fits, FullButLast, cluster_plan_files-cover,
}
use sourcevcode_orchestrator.Plan.Planner.Order.{IsPlanned, default_steps-IsPlanned}
use sourcevcode_orchestrator.Plan.Planner.Schedulable.{prepare-resolved}

abbrev coding : Task
coding = record task {
  id = "t1";
  complexity = Complexity.high;
  input = record task.input { files = "a.go" ∷ " " ∷ "b.go" ∷ "c.go" ∷ [] };
}

its_steps :
    step_ids (default_steps 12 coding)
    ≡ "t1-analyze" ∷ "t1-branch-1" ∷ "t1-branch-2" ∷ "t1-merge-review" ∷ "t1-test" ∷ []
unfolding default_steps
its_steps = refl

its_groups : parallel_groups (default_steps 12 coding) ≡ ("t1-branch-1" ∷ "t1-branch-2" ∷ []) ∷ []
unfolding parallel_groups default_steps
its_groups = refl

its_clusters :
    cluster_plan_files 3 ("a" ∷ "b" ∷ "c" ∷ "d" ∷ []) 2 ≡ ("a" ∷ "b" ∷ []) ∷ ("c" ∷ []) ∷ []
unfolding cluster_plan_files
its_clusters = refl

abbrev select : Task → ModelSelection
select t = record {
  provider = "p";
  model_name = "m";
  complexity = Complexity.high;
  support_lanes = nil;
  selection_trace = end;
}

abbrev never_fails : ParallelPlanCheckpoint → Option String
never_fails c = none

default_steps-IsPlanned_example : IsPlanned coding [] (default_steps 12 coding)
default_steps-IsPlanned_example = default_steps-IsPlanned 12 coding

cluster_plan_files-cover_example :
    let clusters = cluster_plan_files 3 ("a" ∷ "b" ∷ "c" ∷ "d" ∷ []) 2 in
    let size = files_per_cluster 2 in
    (concat clusters ≡ clustered 3 ("a" ∷ "b" ∷ "c" ∷ "d" ∷ []))
    × (All (Fits size) clusters)
    × (FullButLast size clusters)
    × (size ≤ 3)
cluster_plan_files-cover_example = cluster_plan_files-cover 3 ("a" ∷ "b" ∷ "c" ∷ "d" ∷ []) 2

prepare-resolved_example :
    is_unresolved (
      error_of (
        execute_parallel_plan never_fails
          (preview_checkpoint (prepare 12 0 select coding).0 (prepare 12 0 select coding).1)
          none))
    ≡ false
unfolding trim
prepare-resolved_example = prepare-resolved never_fails 12 0 select coding none refl Reach.here
