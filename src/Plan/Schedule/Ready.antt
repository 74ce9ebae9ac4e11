-- ===== src/Plan/Schedule/Ready.antt =====
-- Which artifacts are ready: pending, with every dependency completed.
use mathlib.Core.List.{Mem, mem-cons_self, mem-cons_of_mem, eq-or-mem_of_mem-cons, not-mem-nil}
use mathlib.Core.List.Perm
use mathlib.Core.Logic.Or
use mathlib.Core.HLevel.{×_prop}
use sourcevcode_orchestrator.Prelude.{
  true≢false, String, List, [], ◌∷◌, Bool, true, ◌&&◌, ◌≡◌, ◌↔◌, refl, sym, subst, ap, ◌∙◌, inl,
  inr, arith, all, keep, if◌then◌else◌, Bool-cases, sort_by-perm, eq_self, eq_iff, ◌==◌,
}
use sourcevcode_orchestrator.Domain.Plan.{PlanTaskArtifact}
use sourcevcode_orchestrator.Plan.Schedule.{
  contains, completed_set, deps_done, is_pending, id_less, ready_plan_artifacts,
}

pub contains-Mem : (k : String) (l : List String) → contains k l ≡ true → Mem k l
contains-Mem k [] h = absurd (cc h)
contains-Mem k (j ∷ l) h = elim (Bool-cases (j == k)) [
  | inl e ↦ rw ((eq_iff j k).0 e) mem-cons_self
  | inr e ↦ mem-cons_of_mem j (contains-Mem k l (ground arith))
]

pub Bool_set : (b c : Bool) → IsProp (b ≡ c)
Bool_set = hlevel

pub Mem-contains : (k : String) (l : List String) → Mem k l → contains k l ≡ true
Mem-contains k [] m = absurd (not-mem-nil m)
Mem-contains k (j ∷ l) m =
    Or.elim (Bool_set _ _) (eq-or-mem_of_mem-cons m) (λ e. rw (e, eq_self))
      (λ n. ground (arith, Mem-contains k l n))

module _ {ℓ} {A : Type ℓ} (p : A → Bool) where
  mem-keep_of : (a : A) (l : List A) → Mem a (keep p l) → Mem a l × (p a ≡ true)
  mem-keep_of a [] m = absurd (not-mem-nil m)
  mem-keep_of a (x ∷ l) m = elim (Bool-cases (p x)) [
    | inl e ↦
        Or.elim (×_prop squash₁ (Bool_set _ _))
          (eq-or-mem_of_mem-cons (subst (λ b. Mem a (if b then x ∷ keep p l else keep p l)) e m))
          (λ same. rw same (mem-cons_self, e))
          (λ later. let (i, q) = mem-keep_of a l later in (mem-cons_of_mem x i, q))
    | inr e ↦
        let (i, q) =
          mem-keep_of a l (subst (λ b. Mem a (if b then x ∷ keep p l else keep p l)) e m) in
        (mem-cons_of_mem x i, q)
  ]

  mem-keep : (a : A) (l : List A) → Mem a l → p a ≡ true → Mem a (keep p l)
  mem-keep a [] m q = m
  mem-keep a (x ∷ l) m q = elim (Bool-cases (p x)) [
    | inl e ↦ rw e (
        Or.elim squash₁ (eq-or-mem_of_mem-cons m) (λ same. rw same mem-cons_self)
          (λ later. mem-cons_of_mem x (mem-keep a l later q)))
    | inr e ↦ rw e (
        Or.elim squash₁ (eq-or-mem_of_mem-cons m)
          (λ same. absurd (true≢false (sym q ∙ ap p same ∙ e))) (λ later. mem-keep a l later q))
  ]

pub all_of-Mem :
    (set deps : List String)
    → ((d : String) → Mem d deps → Mem d set)
    → all (λ d. contains d set) deps ≡ true
all_of-Mem set [] f = refl
all_of-Mem set (x ∷ deps) f = ground (
  arith,
  Mem-contains x set (f x mem-cons_self),
  all_of-Mem set deps (λ d m. f d (mem-cons_of_mem x m)),
)

pub Mem_of-all :
    (set deps : List String)
    → all (λ d. contains d set) deps ≡ true
    → (d : String) → Mem d deps
    → Mem d set
Mem_of-all set [] h d m = absurd (not-mem-nil m)
Mem_of-all set (x ∷ deps) h d m =
    Or.elim squash₁ (eq-or-mem_of_mem-cons m) (λ same. rw same (contains-Mem x set (ground arith)))
      (λ later. Mem_of-all set deps (ground arith) d later)

-- The artifacts reported ready are those of the plan whose id is in the set of pending ids and all of
-- whose dependencies are in the set of completed ids.
pub ready_iff :
    (a : PlanTaskArtifact) (tasks : List PlanTaskArtifact) (pending completed : List String)
    → Mem a (ready_plan_artifacts tasks pending completed) ↔ (
        Mem a tasks
        × Mem a.task_id (completed_set pending)
        × ((d : String) → Mem d a.dependencies → Mem d (completed_set completed)))
unfolding ready_plan_artifacts
ready_iff a tasks pending completed =
    let test = λ (b : PlanTaskArtifact). is_pending pending b && deps_done completed b in
    let moved = Perm.mem_iff (sort_by-perm id_less (keep test tasks)) in
    (
      λ (m : Mem a (ready_plan_artifacts tasks pending completed)).
          let (i, q) = mem-keep_of test a tasks (moved.0 m) in
          (i, contains-Mem _ _ (ground arith), Mem_of-all _ _ (ground arith)),
      λ h.
          let (i, p, f) = h in
          moved.1 (
            mem-keep test a tasks i
              (ground (arith, Mem-contains _ _ p, all_of-Mem _ a.dependencies f))),
    )
