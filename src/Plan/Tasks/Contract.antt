-- ===== src/Plan/Tasks/Contract.antt =====
-- What the maps of a submitted task say, whatever the plan's artifact already had in them.
use sourcevcode_orchestrator.Prelude.{
  ℕ, String, [], ◌∷◌, some, ◌≡◌, refl, ap, if◌then◌else◌, ◌==◌, arith, eq_iff, Bool-cases, inl, inr,
  sym,
}
use sourcevcode_orchestrator.Prelude.Int.{pos}
use sourcevcode_orchestrator.Domain.Json.{entry, Value, Fields, text, number, list, end, field}
use sourcevcode_orchestrator.Domain.Task.{Task}
use sourcevcode_orchestrator.Domain.Plan.{PlanTaskArtifact}
use sourcevcode_orchestrator.Plan.Executor.{first_non_empty_string}
use sourcevcode_orchestrator.Plan.Tasks.{
  set_field, texts, with_artifact, execution_contract_of, routing_hints_of, build_plan_task,
}

pub entry-set_field :
    (key wanted : String) (value : Value) (m : Fields)
    → entry wanted (set_field key value m) ≡ (if key == wanted then some value else entry wanted m)
unfolding entry set_field
entry-set_field key wanted value end = refl
entry-set_field key wanted value (field k v rest) =
    ground (
      arith,
      entry-set_field key wanted value rest,
      eq_iff k wanted,
      eq_iff k key,
      eq_iff key wanted,
    )

last_one : (t : String) → first_non_empty_string (t ∷ []) ≡ t
unfolding first_non_empty_string
last_one t = elim (Bool-cases (t == "")) [
  | inl e ↦ rw (e, first_non_empty_string) (sym ((eq_iff t "").0 e))
  | inr e ↦ rw (e, first_non_empty_string) refl
]

first_of_two : (s t : String) → first_non_empty_string (s ∷ t ∷ []) ≡ (if s == "" then t else s)
unfolding first_non_empty_string
first_of_two s t = elim (Bool-cases (s == "")) [
  | inl e ↦ rw (e, first_non_empty_string) (last_one t)
  | inr e ↦ rw (e, first_non_empty_string) refl
]

-- The execution contract of a submitted task names the root task, the session, the step and the batch, and
-- the routing hints name the root task, the step and the batch; both carry the artifact's conflict keys,
-- whatever was in the maps of the artifact and of the root task. The session is the root's session, or
-- its id where it has none.
pub build_plan_task-maps :
    (root : Task) (a : PlanTaskArtifact) (batch_no : ℕ)
    → let contract = (build_plan_task root a batch_no).execution_contract in
      let hints = (build_plan_task root a batch_no).routing_hints in
      (entry "root_task_id" contract ≡ some (text root.id))
      × (entry "session_id" contract
          ≡ some (text (if root.session_id == "" then root.id else root.session_id)))
      × (entry "step_id" contract ≡ some (text a.task_id))
      × (entry "plan_batch_no" contract ≡ some (number (pos batch_no)))
      × (entry "conflict_keys" contract ≡ some (list (texts a.conflict_keys)))
      × (entry "root_task_id" hints ≡ some (text root.id))
      × (entry "plan_step_id" hints ≡ some (text a.task_id))
      × (entry "plan_batch_no" hints ≡ some (number (pos batch_no)))
      × (entry "conflict_keys" hints ≡ some (list (texts a.conflict_keys)))
unfolding build_plan_task execution_contract_of routing_hints_of with_artifact
build_plan_task-maps root a batch_no = (
  simp entry-set_field refl,
  simp entry-set_field (ap (λ t. some (text t)) (first_of_two root.session_id root.id)),
  simp entry-set_field refl,
  simp entry-set_field refl,
  simp entry-set_field refl,
  simp entry-set_field refl,
  simp entry-set_field refl,
  simp entry-set_field refl,
  simp entry-set_field refl,
)
