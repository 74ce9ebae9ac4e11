-- ===== src/Plan/Schedule/Conflicts.antt =====
-- The artifacts that the scheduler lets start together.
use mathlib.Core.List.{Mem, mem-cons_self, mem-cons_of_mem, eq-or-mem_of_mem-cons, not-mem-nil}
use mathlib.Core.List.Perm
use mathlib.Core.Logic.Or
use sourcevcode_orchestrator.Prelude.{
  String, List, [], ◌∷◌, ◌++◌, Bool, true, false, ◌||◌, ◌≡◌, ◌≢◌, refl, subst, inl, inr, arith, any,
  All, All-map, Bool-cases, sort_by, sort_by-perm, if_cases,
}
use sourcevcode_orchestrator.Domain.Plan.{PlanTaskArtifact}
use sourcevcode_orchestrator.Plan.Schedule.{
  contains, keys_of, has_conflict_keys, register_conflict_keys, pick, lighter,
  collect_artifact_conflict_keys, schedule_ready_artifacts_with_conflicts,
}

-- The two sets share a key.
abbrev pub clash : List String → List String → Bool
clash xs ys = any (λ k. contains k ys) xs

-- No two artifacts of the list share a conflict key.
abbrev pub ConflictFree : List PlanTaskArtifact → Type 0
ConflictFree [] = Unit {0}
ConflictFree (a ∷ l) = All (λ b. clash (keys_of b) (keys_of a) ≡ false) l × ConflictFree l

-- No artifact of the list has one of the keys.
abbrev pub AvoidsAll : List String → List PlanTaskArtifact → Type 0
AvoidsAll used = All (λ a. clash (keys_of a) used ≡ false)

pub contains-append :
    (k : String) (xs ys : List String) → contains k (xs ++ ys) ≡ (contains k xs || contains k ys)
contains-append k [] ys = refl
contains-append k (x ∷ xs) ys = ground (arith, contains-append k xs ys)

pub clash-append : (ks xs ys : List String) → clash ks (xs ++ ys) ≡ (clash ks xs || clash ks ys)
clash-append [] xs ys = refl
clash-append (k ∷ ks) xs ys = ground (arith, contains-append k xs ys, clash-append ks xs ys)

pub pick-safe :
    (sorted : List PlanTaskArtifact) (used : List String)
    → AvoidsAll used (pick sorted used) × ConflictFree (pick sorted used)
unfolding pick has_conflict_keys register_conflict_keys
pick-safe [] used = (tt, tt)
pick-safe (a ∷ sorted) used = elim (Bool-cases (clash (keys_of a) used)) [
  | inl e ↦ rw (e, pick) (pick-safe sorted used)
  | inr e ↦
      let (avoids, free) = pick-safe sorted (keys_of a ++ used) in
      rw (e, pick)
        (
          (
            e,
            All-map _ _ (pick sorted (keys_of a ++ used))
                (λ b h. ground (arith, h, clash-append (keys_of b) (keys_of a) used)) avoids,
          ),
          (
            All-map _ _ (pick sorted (keys_of a ++ used))
                (λ b h. ground (arith, h, clash-append (keys_of b) (keys_of a) used)) avoids,
            free,
          ),
        )
]

-- Artifacts that are scheduled together share no conflict key, and have none of the keys that running
-- artifacts hold.
pub schedule-safe :
    (ready : List PlanTaskArtifact) (active : List String)
    → AvoidsAll active (schedule_ready_artifacts_with_conflicts ready active)
      × ConflictFree (schedule_ready_artifacts_with_conflicts ready active)
unfolding schedule_ready_artifacts_with_conflicts has_conflict_keys
schedule-safe [] active = (tt, tt)
schedule-safe (a ∷ []) active =
    if_cases (λ l. AvoidsAll active l × ConflictFree l) (has_conflict_keys a active) (λ _. (tt, tt))
      (λ e. ((e, tt), (tt, tt)))
schedule-safe (a ∷ b ∷ ready) active = pick-safe (sort_by lighter (a ∷ b ∷ ready)) active

pick-skip :
    (b : PlanTaskArtifact) (sorted : List PlanTaskArtifact) (used : List String)
    → clash (keys_of b) used ≡ true
    → pick (b ∷ sorted) used ≡ pick sorted used
unfolding pick has_conflict_keys
pick-skip b sorted used e = rw (e, pick)

pick-take :
    (b : PlanTaskArtifact) (sorted : List PlanTaskArtifact) (used : List String)
    → clash (keys_of b) used ≡ false
    → pick (b ∷ sorted) used ≡ b ∷ pick sorted (keys_of b ++ used)
unfolding pick has_conflict_keys register_conflict_keys
pick-take b sorted used e = rw (e, pick)

abbrev Free : PlanTaskArtifact → List PlanTaskArtifact → List String → Type 0
Free a picked used = clash (keys_of a) (collect_artifact_conflict_keys picked ++ used) ≡ false

Free-regroup :
    (a b : PlanTaskArtifact) (picked : List PlanTaskArtifact) (used : List String)
    → Free a (b ∷ picked) used
    → Free a picked (keys_of b ++ used) × (clash (keys_of a) (keys_of b) ≡ false)
unfolding collect_artifact_conflict_keys register_conflict_keys
Free-regroup a b picked used c =
    let k = keys_of a in
    let p = collect_artifact_conflict_keys picked in
    ground (
      arith,
      clash-append k (keys_of b ++ p) used,
      clash-append k (keys_of b) p,
      clash-append k p (keys_of b ++ used),
      clash-append k (keys_of b) used,
    )

Free-used :
    (a : PlanTaskArtifact) (picked : List PlanTaskArtifact) (used : List String)
    → Free a picked used
    → clash (keys_of a) used ≡ false
Free-used a picked used c =
    ground (arith, clash-append (keys_of a) (collect_artifact_conflict_keys picked) used)

pick-maximal :
    (a : PlanTaskArtifact) (sorted : List PlanTaskArtifact) (used : List String)
    → Mem a sorted
    → Free a (pick sorted used) used
    → Mem a (pick sorted used)
unfolding pick
pick-maximal a [] used m c = m
pick-maximal a (b ∷ sorted) used m c = elim (Bool-cases (clash (keys_of b) used)) [
  | inl e ↦
      let eq = pick-skip b sorted used e in
      let c' = subst (λ l. Free a l used) eq c in
      rw eq (
        Or.elim squash₁ (eq-or-mem_of_mem-cons m)
          (λ same. absurd (ground (arith, Free-used a (pick sorted used) used c', same)))
          (λ later. pick-maximal a sorted used later c'))
  | inr e ↦
      let eq = pick-take b sorted used e in
      let c' = Free-regroup a b _ used (subst (λ l. Free a l used) eq c) in
      rw eq (
        Or.elim squash₁ (eq-or-mem_of_mem-cons m) (λ same. rw same mem-cons_self)
          (λ later. mem-cons_of_mem b (pick-maximal a sorted (keys_of b ++ used) later c'.0)))
]

schedule_free :
    (a : PlanTaskArtifact) (ready : List PlanTaskArtifact) (active : List String)
    → Mem a ready
    → clash (keys_of a) (
        collect_artifact_conflict_keys (schedule_ready_artifacts_with_conflicts ready active)
        ++ active)
      ≡ false
    → Mem a (schedule_ready_artifacts_with_conflicts ready active)
unfolding schedule_ready_artifacts_with_conflicts has_conflict_keys
schedule_free a [] active m c = m
schedule_free a (b ∷ []) active m c = elim (Bool-cases (clash (keys_of b) active)) [
  | inl e ↦ rw e (
      Or.elim squash₁ (eq-or-mem_of_mem-cons m)
        (λ same. absurd (ground (arith, Free-used a _ active c, same))) (λ later. later))
  | inr e ↦ rw e m
]
schedule_free a (b ∷ d ∷ ready) active m c =
    let l = b ∷ d ∷ ready in
    pick-maximal a (sort_by lighter l) active ((Perm.mem_iff (sort_by-perm lighter l)).1 m) c

-- A ready artifact that is not scheduled shares a conflict key with a running artifact or with one that
-- is scheduled now.
pub schedule-maximal :
    (a : PlanTaskArtifact) (ready : List PlanTaskArtifact) (active : List String)
    → Mem a ready
    → (Mem a (schedule_ready_artifacts_with_conflicts ready active) → ⊥)
    → clash (keys_of a) (
        collect_artifact_conflict_keys (schedule_ready_artifacts_with_conflicts ready active)
        ++ active)
      ≡ true
schedule-maximal a ready active m out =
    elim (Bool-cases (
      clash (keys_of a) (
        collect_artifact_conflict_keys (schedule_ready_artifacts_with_conflicts ready active)
        ++ active))) [ inl e ↦ e | inr e ↦ absurd (out (schedule_free a ready active m e)) ]

pub clash-nil : (ks : List String) → clash ks [] ≡ false
clash-nil [] = refl
clash-nil (k ∷ ks) = clash-nil ks

-- While nothing runs, the scheduler starts at least one artifact as soon as one is ready.
pub schedule-progress :
    (a : PlanTaskArtifact) (ready : List PlanTaskArtifact)
    → schedule_ready_artifacts_with_conflicts (a ∷ ready) [] ≢ []
unfolding collect_artifact_conflict_keys
schedule-progress a ready e =
    not-mem-nil (
      subst (Mem a) e
        (schedule_free a (a ∷ ready) [] mem-cons_self (rw (e, clash-nil (keys_of a)))))

-- So what schedules nothing while nothing runs is empty.
pub schedule-nil :
    (ready : List PlanTaskArtifact)
    → schedule_ready_artifacts_with_conflicts ready [] ≡ []
    → ready ≡ []
schedule-nil [] e = refl
schedule-nil (a ∷ ready) e = absurd (schedule-progress a ready e)

pick-nil : (used : List String) → pick [] used ≡ []
unfolding pick
pick-nil used = refl

pick-Mem :
    (a : PlanTaskArtifact) (sorted : List PlanTaskArtifact) (used : List String)
    → Mem a (pick sorted used)
    → Mem a sorted
pick-Mem a [] used m = absurd (not-mem-nil (subst (Mem a) (pick-nil used) m))
pick-Mem a (b ∷ sorted) used m = elim (Bool-cases (clash (keys_of b) used)) [
  | inl e ↦ mem-cons_of_mem b (pick-Mem a sorted used (subst (Mem a) (pick-skip b sorted used e) m))
  | inr e ↦
      Or.elim squash₁ (eq-or-mem_of_mem-cons (subst (Mem a) (pick-take b sorted used e) m))
        (λ same. rw same mem-cons_self)
        (λ later. mem-cons_of_mem b (pick-Mem a sorted (keys_of b ++ used) later))
]

-- Only ready artifacts are scheduled.
pub schedule-Mem :
    (a : PlanTaskArtifact) (ready : List PlanTaskArtifact) (active : List String)
    → Mem a (schedule_ready_artifacts_with_conflicts ready active)
    → Mem a ready
unfolding schedule_ready_artifacts_with_conflicts
schedule-Mem a [] active m = m
schedule-Mem a (b ∷ []) active m =
    if_cases (λ l. Mem a l → Mem a (b ∷ [])) (has_conflict_keys b active)
      (λ _ n. absurd (not-mem-nil n)) (λ _ n. n) m
schedule-Mem a (b ∷ d ∷ ready) active m =
    let l = b ∷ d ∷ ready in
    (Perm.mem_iff (sort_by-perm lighter l)).0 (pick-Mem a (sort_by lighter l) active m)
