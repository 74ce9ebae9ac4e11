-- ===== src/Prelude/Lists.antt =====
-- Lists measured by native numbers, and the predicates on them that the components share.
use Prim.Native.Nat.{ℕ, zero, suc, ◌+◌, ◌-◌, ◌≤◌, min}
use mathlib.Core.Path.{◌≡◌, refl, sym, ap, subst, ◌∙◌}
use mathlib.Core.Logic.{inl, inr}
use mathlib.Core.Logic.Or
use mathlib.Core.Bool.{Bool, true, false, ◌&&◌, ◌||◌}
use mathlib.Core.List.{
  List, [], ◌∷◌, ◌++◌, Mem, mem-cons_self, mem-cons_of_mem, eq-or-mem_of_mem-cons, not-mem-nil,
}
use native.Mathlib.Omega.{arith}
use sourcevcode_orchestrator.Prelude.Tests.{if◌then◌else◌, Bool-cases}

module _ {ℓ} {A : Type ℓ} where
  abbrev pub length : List A → ℕ
  length [] = 0
  length (x ∷ xs) = suc (length xs)

  pub length-append : (xs ys : List A) → length (xs ++ ys) ≡ length xs + length ys
  length-append [] ys = omega arith
  length-append (x ∷ xs) ys = omega (arith, length-append xs ys)

  abbrev pub take : ℕ → List A → List A
  take zero l = []
  take (suc n) [] = []
  take (suc n) (x ∷ l) = x ∷ take n l

  abbrev pub drop : ℕ → List A → List A
  drop zero l = l
  drop (suc n) [] = []
  drop (suc n) (x ∷ l) = drop n l

  pub take-drop : (n : ℕ) (l : List A) → take n l ++ drop n l ≡ l
  take-drop zero l = refl
  take-drop (suc n) [] = refl
  take-drop (suc n) (x ∷ l) = ap (λ k. x ∷ k) (take-drop n l)

  pub length-drop : (n : ℕ) (l : List A) → length (drop n l) ≡ length l - n
  length-drop zero l = omega arith
  length-drop (suc n) [] = omega arith
  length-drop (suc n) (x ∷ l) = omega (arith, length-drop n l)

  pub length-take : (n : ℕ) (l : List A) → length (take n l) ≡ min n (length l)
  length-take zero l = omega arith
  length-take (suc n) [] = omega arith
  length-take (suc n) (x ∷ l) = omega (arith, length-take n l)

  pub drop_nil : (n : ℕ) → drop n [] ≡ []
  drop_nil zero = refl
  drop_nil (suc n) = refl

  drop-drop : (m n : ℕ) (l : List A) → drop m (drop n l) ≡ drop (n + m) l
  drop-drop m zero l = let e : m ≡ 0 + m = omega arith in ap (λ k. drop k l) e
  drop-drop m (suc n) [] = drop_nil m ∙ sym (drop_nil (suc n + m))
  drop-drop m (suc n) (x ∷ l) =
      let e : suc (n + m) ≡ suc n + m = omega arith in drop-drop m n l ∙ ap (λ k. drop k (x ∷ l)) e

  drop-append : (n : ℕ) (l r : List A) → n ≤ length l → drop n (l ++ r) ≡ drop n l ++ r
  drop-append zero l r h = refl
  drop-append (suc n) [] r h = absurd (omega arith)
  drop-append (suc n) (x ∷ l) r h = drop-append n l r (omega arith)

  -- The last items, up to the given number.
  abbrev pub last : ℕ → List A → List A
  last n l = drop (length l - n) l

  -- To keep the last items each time an item comes is to keep them at the end.
  pub last-append :
      (n : ℕ) (l : List A) (x : A) → last n (last n l ++ x ∷ []) ≡ last n (l ++ x ∷ [])
  last-append n l x =
      let k = length l - n in
      let e : k + (length (drop k l ++ x ∷ []) - n) ≡ length (l ++ x ∷ []) - n =
        omega
          (arith, length-append (drop k l) (x ∷ []), length-append l (x ∷ []), length-drop k l) in
      ap (λ r. drop (length (drop k l ++ x ∷ []) - n) r)
        (sym (drop-append k l (x ∷ []) (omega arith)))
      ∙ drop-drop (length (drop k l ++ x ∷ []) - n) k (l ++ x ∷ [])
      ∙ ap (λ i. drop i (l ++ x ∷ [])) e

  pub length-last : (n : ℕ) (l : List A) → length (last n l) ≤ n
  length-last n l = omega (arith, length-drop (length l - n) l)

  -- The items that pass a Boolean test, in order.
  abbrev pub keep : (A → Bool) → List A → List A
  keep p [] = []
  keep p (x ∷ xs) = let rest = keep p xs in if p x then x ∷ rest else rest

  abbrev pub any : (A → Bool) → List A → Bool
  any p [] = false
  any p (x ∷ xs) = p x || any p xs

  abbrev pub all : (A → Bool) → List A → Bool
  all p [] = true
  all p (x ∷ xs) = p x && all p xs

  abbrev pub All {κ} : (A → Type κ) → List A → Type κ
  All P [] = Unit
  All P (x ∷ xs) = P x × All P xs

  pub All-append {κ} : (P : A → Type κ) (xs ys : List A) → All P xs → All P ys → All P (xs ++ ys)
  All-append P [] ys h k = k
  All-append P (x ∷ xs) ys h k = (h.0, All-append P xs ys h.1 k)

  pub All-map {κ μ} :
      (P : A → Type κ) (Q : A → Type μ) (xs : List A) → ((x : A) → P x → Q x) → All P xs → All Q xs
  All-map P Q [] f h = tt
  All-map P Q (x ∷ xs) f h = (f x h.0, All-map P Q xs f h.1)

  -- To take one item out of the middle.
  pub All-remove {κ} :
      (P : A → Type κ) (xs : List A) (d : A) (ys : List A)
      → All P (xs ++ (d ∷ ys))
      → P d × All P (xs ++ ys)
  All-remove P [] d ys h = h
  All-remove P (x ∷ xs) d ys h = let (p, r) = All-remove P xs d ys h.1 in (p, (h.0, r))

  pub keep-append : (p : A → Bool) (xs ys : List A) → keep p (xs ++ ys) ≡ keep p xs ++ keep p ys
  keep-append p [] ys = refl
  keep-append p (x ∷ xs) ys = elim (Bool-cases (p x)) [
    | inl e ↦ rw e (ap (λ l. x ∷ l) (keep-append p xs ys))
    | inr e ↦ rw e (keep-append p xs ys)
  ]

  pub All-keep {κ} : (P : A → Type κ) (p : A → Bool) (xs : List A) → All P xs → All P (keep p xs)
  All-keep P p [] h = tt
  All-keep P p (x ∷ xs) h = elim (Bool-cases (p x)) [
    | inl e ↦ rw e (h.0, All-keep P p xs h.1)
    | inr e ↦ rw e (All-keep P p xs h.1)
  ]

  pub All-Mem {κ} :
      (P : A → Type κ)
      → ((x : A) → IsProp (P x))
      → (xs : List A) → All P xs
      → (x : A) → Mem x xs
      → P x
  All-Mem P prop [] h x m = absurd (not-mem-nil m)
  All-Mem P prop (y ∷ xs) h x m =
      Or.elim (prop x) (eq-or-mem_of_mem-cons m) (λ same. subst P (sym same) h.0)
        (λ later. All-Mem P prop xs h.1 x later)

  pub All-of_Mem {κ} : (P : A → Type κ) (xs : List A) → ((x : A) → Mem x xs → P x) → All P xs
  All-of_Mem P [] f = tt
  All-of_Mem P (y ∷ xs) f = (f y mem-cons_self, All-of_Mem P xs (λ x m. f x (mem-cons_of_mem y m)))

  pub All-map_Mem {κ μ} :
      (P : A → Type κ) (Q : A → Type μ) (xs : List A)
      → ((x : A) → Mem x xs → P x → Q x)
      → All P xs
      → All Q xs
  All-map_Mem P Q [] f h = tt
  All-map_Mem P Q (x ∷ xs) f h =
      (f x mem-cons_self h.0, All-map_Mem P Q xs (λ y m. f y (mem-cons_of_mem x m)) h.1)
