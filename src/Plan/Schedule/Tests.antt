-- ===== src/Plan/Schedule/Tests.antt =====
-- Concrete runs of the scheduler.
use mathlib.Core.List.{Mem, mem-cons_self, mem-cons_of_mem, eq-or-mem_of_mem-cons, not-mem-nil}
use sourcevcode_orchestrator.Prelude.{
  String, List, [], ◌∷◌, ◌++◌, true, ◌≡◌, ◌≢◌, refl, ◌↔◌, arith, ap, eq_iff, sort_by, place, trim,
  trim_left, trim_right, is_space, is_empty,
}
use sourcevcode_orchestrator.Prelude.Int.{pos}
use sourcevcode_orchestrator.Domain.Json.{end}
use sourcevcode_orchestrator.Domain.Plan.{PlanTaskArtifact}
use mathlib.Core.Logic.Or
use mathlib.Core.HLevel.{⊥_prop}
use sourcevcode_orchestrator.Plan.Schedule.{
  completed_set, keys_of, ready_plan_artifacts, schedule_ready_artifacts_with_conflicts, trimmed,
  has_conflict_keys, register_conflict_keys, pick, lighter, collect_artifact_conflict_keys,
}
use sourcevcode_orchestrator.Plan.Schedule.Conflicts.{
  AvoidsAll, ConflictFree, clash, schedule-safe, schedule-maximal, schedule-progress,
}
use sourcevcode_orchestrator.Plan.Schedule.Ready.{ready_iff}

abbrev pub artifact : String → List String → List String → PlanTaskArtifact
artifact id keys deps = record {
  task_id = id;
  title = id;
  capability = "code";
  worker_class = "worker";
  cluster_id = "";
  context_budget = pos 4000;
  conflict_keys = keys;
  provider = "";
  model_name = "";
  files = [];
  dependencies = deps;
  branch_id = "";
  draft_layer = "";
  estimated_cost = 1;
  weight = 1;
  execution_contract = end;
}

abbrev pub parse : PlanTaskArtifact
parse = artifact "parse" ("src" ∷ []) []

abbrev pub print : PlanTaskArtifact
print = artifact "print" ("src" ∷ []) []

abbrev pub check : PlanTaskArtifact
check = artifact "check" ("doc" ∷ []) ("parse" ∷ [])

abbrev pub tasks : List PlanTaskArtifact
tasks = parse ∷ print ∷ check ∷ []

schedule-safe_example :
    AvoidsAll ("doc" ∷ []) (schedule_ready_artifacts_with_conflicts tasks ("doc" ∷ []))
    × ConflictFree (schedule_ready_artifacts_with_conflicts tasks ("doc" ∷ []))
schedule-safe_example = schedule-safe tasks ("doc" ∷ [])

scheduled_run : schedule_ready_artifacts_with_conflicts tasks ("src" ∷ []) ≡ check ∷ []
unfolding schedule_ready_artifacts_with_conflicts has_conflict_keys register_conflict_keys pick
    lighter sort_by place trimmed trim trim_left trim_right is_space is_empty
scheduled_run = refl

print_out : Mem print (schedule_ready_artifacts_with_conflicts tasks ("doc" ∷ [])) → ⊥
unfolding schedule_ready_artifacts_with_conflicts has_conflict_keys register_conflict_keys pick
    lighter sort_by place trimmed trim trim_left trim_right is_space is_empty
print_out m =
    Or.elim ⊥_prop (eq-or-mem_of_mem-cons m)
      (λ same.
        ground (
          arith,
          eq_iff print.task_id parse.task_id,
          ap (λ (a : PlanTaskArtifact). a.task_id) same,
        ))
      not-mem-nil

schedule-maximal_example :
    clash (keys_of print) (
      collect_artifact_conflict_keys (schedule_ready_artifacts_with_conflicts tasks ("doc" ∷ []))
      ++ ("doc" ∷ []))
    ≡ true
schedule-maximal_example =
    schedule-maximal print tasks ("doc" ∷ []) (mem-cons_of_mem parse mem-cons_self) print_out

schedule-progress_example : schedule_ready_artifacts_with_conflicts tasks [] ≢ []
schedule-progress_example = schedule-progress parse (print ∷ check ∷ [])

ready_iff_example :
    Mem check (ready_plan_artifacts tasks ("print" ∷ "check" ∷ []) ("parse" ∷ [])) ↔ (
      Mem check tasks
      × Mem check.task_id (completed_set ("print" ∷ "check" ∷ []))
      × ((d : String) → Mem d check.dependencies → Mem d (completed_set ("parse" ∷ []))))
ready_iff_example = ready_iff check tasks ("print" ∷ "check" ∷ []) ("parse" ∷ [])
