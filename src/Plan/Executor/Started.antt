-- ===== src/Plan/Executor/Started.antt =====
-- What one round of the executor's loop starts.

use sourcevcode_orchestrator.Prelude.{
  String, List, [], ◌∷◌, ◌++◌, Bool, true, false, ◌≡◌, refl, ap, ◌∙◌, inl, inr, arith, all, keep,
  All, All-append, All-keep, Bool-cases, trim, ◌==◌,
}
use sourcevcode_orchestrator.Domain.Plan.{PlanTaskArtifact}
use sourcevcode_orchestrator.Plan.Schedule.{
  contains, keys_of, completed_set, trimmed, deps_done, collect_artifact_conflict_keys,
  register_conflict_keys,
}
use sourcevcode_orchestrator.Plan.Schedule.Conflicts.{
  clash, ConflictFree, contains-append, clash-append,
}
use sourcevcode_orchestrator.Plan.Executor.{start_all, is_running}

pub start_all-All :
    (P : PlanTaskArtifact → Type 0) (l running : List PlanTaskArtifact)
    → All P l
    → All P running
    → All P (start_all l running)
unfolding start_all
start_all-All P [] running h k = k
start_all-All P (a ∷ l) running h k = elim (Bool-cases (is_running a.task_id running)) [
  | inl e ↦ rw (e, start_all) (start_all-All P l running h.1 k)
  | inr e ↦
      rw (e, start_all)
        (start_all-All P l (running ++ (a ∷ [])) h.1 (All-append P running (a ∷ []) k (h.0, tt)))
]

-- The artifact has no key of an artifact of the list.
abbrev pub AvoidsEach : List PlanTaskArtifact → PlanTaskArtifact → Type 0
AvoidsEach l a = All (λ r. clash (keys_of a) (keys_of r) ≡ false) l

ConflictFree-append :
    (l : List PlanTaskArtifact) (a : PlanTaskArtifact)
    → ConflictFree l
    → AvoidsEach l a
    → ConflictFree (l ++ (a ∷ []))
ConflictFree-append [] a h k = (tt, tt)
ConflictFree-append (b ∷ l) a h k =
    (All-append _ l (a ∷ []) h.0 (k.0, tt), ConflictFree-append l a h.1 k.1)

pub ConflictFree-keep :
    (p : PlanTaskArtifact → Bool) (l : List PlanTaskArtifact)
    → ConflictFree l
    → ConflictFree (keep p l)
ConflictFree-keep p [] h = tt
ConflictFree-keep p (a ∷ l) h = elim (Bool-cases (p a)) [
  | inl e ↦ rw e (All-keep _ p l h.0, ConflictFree-keep p l h.1)
  | inr e ↦ rw e (ConflictFree-keep p l h.1)
]

AvoidsEach-append :
    (a : PlanTaskArtifact) (running l : List PlanTaskArtifact)
    → All (AvoidsEach running) l
    → All (λ b. clash (keys_of b) (keys_of a) ≡ false) l
    → All (AvoidsEach (running ++ (a ∷ []))) l
AvoidsEach-append a running [] h k = tt
AvoidsEach-append a running (b ∷ l) h k =
    (All-append _ running (a ∷ []) h.0 (k.0, tt), AvoidsEach-append a running l h.1 k.1)

pub start_all-ConflictFree :
    (l running : List PlanTaskArtifact)
    → ConflictFree l
    → All (AvoidsEach running) l
    → ConflictFree running
    → ConflictFree (start_all l running)
unfolding start_all
start_all-ConflictFree [] running f h k = k
start_all-ConflictFree (a ∷ l) running f h k = elim (Bool-cases (is_running a.task_id running)) [
  | inl e ↦ rw (e, start_all) (start_all-ConflictFree l running f.1 h.1 k)
  | inr e ↦
      rw (e, start_all)
        (start_all-ConflictFree l (running ++ (a ∷ [])) f.1 (AvoidsEach-append a running l h.1 f.0)
          (ConflictFree-append running a k h.0))
]

-- Whatever avoids the collected keys avoids the keys of each running artifact.
pub avoids_collected :
    (a : PlanTaskArtifact) (running : List PlanTaskArtifact)
    → clash (keys_of a) (collect_artifact_conflict_keys running) ≡ false
    → AvoidsEach running a
unfolding collect_artifact_conflict_keys register_conflict_keys
avoids_collected a [] h = tt
avoids_collected a (r ∷ running) h =
    let split = clash-append (keys_of a) (keys_of r) (collect_artifact_conflict_keys running) in
    (ground (arith, h, split), avoids_collected a running (ground (arith, h, split)))

pub trimmed-append : (xs ys : List String) → trimmed (xs ++ ys) ≡ trimmed xs ++ trimmed ys
unfolding trimmed
trimmed-append [] ys = refl
trimmed-append (x ∷ xs) ys = elim (Bool-cases (trim x == "")) [
  | inl e ↦ rw e (trimmed-append xs ys)
  | inr e ↦ rw e (rw (trimmed-append xs ys) refl)
]

-- More completed tasks keep dependencies met.
pub deps_done-append :
    (completed more : List String) (a : PlanTaskArtifact)
    → deps_done completed a ≡ true
    → deps_done (completed ++ more) a ≡ true
unfolding completed_set
deps_done-append completed more a = go a.dependencies
  where
    go :
        (ds : List String)
        → all (λ d. contains d (trimmed completed)) ds ≡ true
        → all (λ d. contains d (trimmed (completed ++ more))) ds ≡ true
    go [] h = refl
    go (d ∷ ds) h = ground (
      arith,
      h,
      go ds (ground arith),
      ap (contains d) (trimmed-append completed more)
          ∙ contains-append d (trimmed completed) (trimmed more),
    )
