-- ===== src/Prelude/Trim.antt =====
-- TrimSpace and the texts that the program writes after others.
use Prim.Native.Char.{code}
use Prim.Native.Nat.{ℕ, zero, suc, ◌≤◌, ◌/◌, ◌%◌}
use Prim.Native.String.{String, ◌++◌, count}
use mathlib.Core.Path.{◌≡◌, refl, ap, subst, ◌∙◌}
use mathlib.Core.Logic.{inl, inr}
use mathlib.Core.Bool.{Bool, true, false, not, ◌&&◌}
use native.Mathlib.Omega.{arith}
use text.Mathlib.TextLemmas.{nil-append, cons-append, length-nil, length-cons}
use sourcevcode_orchestrator.Prelude.Tests.{Bool-cases, if_cases, ltb}
use sourcevcode_orchestrator.Prelude.Texts.{
  is_space, is_empty, trim_left, trim_right, trim, decimal, digits, digit,
}

-- A text that is not empty and does not end in white space.
pub record IsFirm (t : String) : Type 0 where
  pub ends : trim_right t ≡ t
  pub inhabited : is_empty t ≡ false

pub is_empty-append : (s t : String) → is_empty t ≡ false → is_empty (s ++ t) ≡ false
unfolding is_empty
is_empty-append String.[] t h = rw (nil-append t) h
is_empty-append (String.◌∷◌ c s) t h = rw (cons-append c s t) refl

trim_right-append :
    (s t : String) → trim_right t ≡ t → is_empty t ≡ false → trim_right (s ++ t) ≡ s ++ t
unfolding trim_right
trim_right-append String.[] t h k = rw (nil-append t) h
trim_right-append (String.◌∷◌ c s) t h k =
    rw (cons-append c s t, trim_right-append s t h k, is_empty-append s t k)
      (if_cases (λ r. r ≡ String.◌∷◌ c (s ++ t)) (is_space (code c) && false) (ground arith)
        (λ _. refl))

pub IsFirm-append : (s t : String) → IsFirm t → IsFirm (s ++ t)
IsFirm-append s t h = record {
  ends = trim_right-append s t h.ends h.inhabited;
  inhabited = is_empty-append s t h.inhabited;
}

trim_left-le : (s : String) → count (trim_left s) ≤ count s
unfolding trim_left
trim_left-le String.[] = omega arith
trim_left-le (String.◌∷◌ c s) = elim (Bool-cases (is_space (code c))) [
  | inl e ↦ rw e (omega (arith, length-cons c s, trim_left-le s))
  | inr e ↦ rw e (omega arith)
]

trim_right-le : (s : String) → count (trim_right s) ≤ count s
unfolding trim_right
trim_right-le String.[] = omega arith
trim_right-le (String.◌∷◌ c s) =
    if_cases (λ r. count r ≤ count (String.◌∷◌ c s)) (is_space (code c) && is_empty (trim_right s))
      {x = ""} {y = String.◌∷◌ c (trim_right s)} (λ _. omega (arith, length-nil))
      (λ _. omega (arith, length-cons c s, length-cons c (trim_right s), trim_right-le s))

-- A text that TrimSpace keeps does not begin with white space.
trim-head :
    (c : _) (s : String) → trim (String.◌∷◌ c s) ≡ String.◌∷◌ c s → is_space (code c) ≡ false
unfolding trim trim_left
trim-head c s h = elim (Bool-cases (is_space (code c))) [
  | inr e ↦ e
  | inl e ↦ absurd (
      let k : trim_right (trim_left s) ≡ String.◌∷◌ c s = rw e at h in
      omega (arith, ap count k, length-cons c s, trim_right-le (trim_left s), trim_left-le s))
]

-- So nothing of it is lost when a firm text stands behind it.
pub trim-append :
    (s t : String) → trim s ≡ s → IsFirm t → is_empty s ≡ false → trim (s ++ t) ≡ s ++ t
unfolding trim trim_left is_empty
trim-append String.[] t h k e = cc e
trim-append (String.◌∷◌ c s) t h k e =
    let first = trim-head c s h in
    rw (cons-append c s t, first)
      (subst (λ r. trim_right r ≡ r) (cons-append c s t)
        (trim_right-append (String.◌∷◌ c s) t k.ends k.inhabited))

digit-IsFirm : (d : ℕ) → IsFirm (digit d)
unfolding digit trim_right is_empty is_space
digit-IsFirm zero = record { ends = refl; inhabited = refl }
digit-IsFirm (suc zero) = record { ends = refl; inhabited = refl }
digit-IsFirm (suc (suc zero)) = record { ends = refl; inhabited = refl }
digit-IsFirm (suc (suc (suc zero))) = record { ends = refl; inhabited = refl }
digit-IsFirm (suc (suc (suc (suc zero)))) = record { ends = refl; inhabited = refl }
digit-IsFirm (suc (suc (suc (suc (suc zero))))) = record { ends = refl; inhabited = refl }
digit-IsFirm (suc (suc (suc (suc (suc (suc zero)))))) = record { ends = refl; inhabited = refl }
digit-IsFirm (suc (suc (suc (suc (suc (suc (suc zero))))))) = record {
  ends = refl;
  inhabited = refl;
}
digit-IsFirm (suc (suc (suc (suc (suc (suc (suc (suc zero)))))))) = record {
  ends = refl;
  inhabited = refl;
}
digit-IsFirm (suc (suc (suc (suc (suc (suc (suc (suc (suc n))))))))) = record {
  ends = refl;
  inhabited = refl;
}

digits-IsFirm : (fuel n : ℕ) → IsFirm (digits (suc fuel) n)
unfolding digits
digits-IsFirm fuel n =
    if_cases IsFirm (ltb n 10) {x = digit n} {y = digits fuel (n / 10) ++ digit (n % 10)}
      (λ _. digit-IsFirm n)
      (λ _. IsFirm-append (digits fuel (n / 10)) (digit (n % 10)) (digit-IsFirm (n % 10)))

pub decimal-IsFirm : (n : ℕ) → IsFirm (decimal n)
unfolding decimal
decimal-IsFirm n = digits-IsFirm n n

trim_right-trim_right : (s : String) → trim_right (trim_right s) ≡ trim_right s
unfolding trim_right is_empty
trim_right-trim_right String.[] = refl
trim_right-trim_right (String.◌∷◌ c s) =
    elim (Bool-cases (is_space (code c) && is_empty (trim_right s))) [
      | inl e ↦ rw e refl
      | inr e ↦ rw (e, trim_right-trim_right s, e) refl
    ]

-- A text that begins with no white space, or is empty.
begins_firm : String → Bool
begins_firm String.[] = true
begins_firm (String.◌∷◌ c s) = not (is_space (code c))

trim_left-begins_firm : (s : String) → begins_firm (trim_left s) ≡ true
unfolding trim_left begins_firm
trim_left-begins_firm String.[] = refl
trim_left-begins_firm (String.◌∷◌ c s) = elim (Bool-cases (is_space (code c))) [
  | inl e ↦ rw e (trim_left-begins_firm s)
  | inr e ↦ rw (e, e) refl
]

trim_right-begins_firm :
    (s : String) → begins_firm s ≡ true → trim_left (trim_right s) ≡ trim_right s
unfolding trim_left trim_right begins_firm
trim_right-begins_firm String.[] h = refl
trim_right-begins_firm (String.◌∷◌ c s) h =
    let first : is_space (code c) ≡ false = ground (arith, h) in rw (first, first) refl

pub trim-trim : (s : String) → trim (trim s) ≡ trim s
unfolding trim
trim-trim s =
    ap trim_right (trim_right-begins_firm (trim_left s) (trim_left-begins_firm s))
    ∙ trim_right-trim_right (trim_left s)
