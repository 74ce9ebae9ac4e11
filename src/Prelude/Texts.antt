-- ===== src/Prelude/Texts.antt =====
-- What the program uses of Go's `strings`: TrimSpace, and comparison after ToLower.
use Prim.Native.Char.{code}
use Prim.Native.Nat.{ℕ, zero, suc, ◌+◌, ◌-◌, ◌/◌, ◌%◌}
use Prim.Native.String.{String, ◌++◌}
use mathlib.Core.List.{List, [], ◌∷◌}
use mathlib.Core.Path.{◌≡◌, refl}
use mathlib.Core.Logic.{◌⊎◌, inl, inr, ◌≢◌}
use mathlib.Core.Bool.{Bool, true, false, ◌&&◌, ◌||◌}
use native.Mathlib.Omega.{arith}
use text.Mathlib.Text.{◌==◌}
use text.Mathlib.TextEquality.{eq_iff}
use sourcevcode_orchestrator.Prelude.Tests.{ltb, leb, if◌then◌else◌, Bool-cases}

between : ℕ → ℕ → ℕ → Bool
between lo hi c = leb lo c && leb c hi

-- unicode.IsSpace: the code points with the property White_Space.
unfoldable pub is_space : ℕ → Bool
unfolding between
is_space c =
    between 9 13 c
    || between 32 32 c
    || between 0x85 0x85 c
    || between 0xa0 0xa0 c
    || between 0x1680 0x1680 c
    || between 0x2000 0x200a c
    || between 0x2028 0x2029 c
    || between 0x202f 0x202f c
    || between 0x205f 0x205f c
    || between 0x3000 0x3000 c

unfoldable pub is_empty : String → Bool
is_empty String.[] = true
is_empty (String.◌∷◌ c s) = false

unfoldable pub trim_left : String → String
unfolding is_space
trim_left String.[] = String.[]
trim_left (String.◌∷◌ c s) = if is_space (code c) then trim_left s else String.◌∷◌ c s

unfoldable pub trim_right : String → String
unfolding is_space is_empty
trim_right String.[] = String.[]
trim_right (String.◌∷◌ c s) =
    let r = trim_right s in if is_space (code c) && is_empty r then String.[] else String.◌∷◌ c r

-- strings.TrimSpace
unfoldable pub trim : String → String
unfolding trim_left trim_right
trim s = trim_right (trim_left s)

-- unicode.ToLower, as far as a comparison with ASCII text shows it: besides the letters A to Z only
-- U+0130 and U+212A are sent to ASCII.
unfoldable pub lower_code : ℕ → ℕ
unfolding between
lower_code c =
    if between b'A' b'Z' c
    then c + 32
    else if between 0x130 0x130 c
    then b'i'
    else if between 0x212a 0x212a c
    then b'k'
    else c

-- strings.ToLower(s) == t, for a text t in ASCII.
unfoldable pub lower_is : String → String → Bool
unfolding lower_code between
lower_is String.[] String.[] = true
lower_is (String.◌∷◌ c s) (String.◌∷◌ d t) =
    between (code d) (code d) (lower_code (code c)) && lower_is s t
lower_is _ _ = false

-- strings.HasPrefix(s, t), with the code points of s sent through f.
unfoldable pub starts_by : (ℕ → ℕ) → String → String → Bool
unfolding between
starts_by f s String.[] = true
starts_by f String.[] (String.◌∷◌ d t) = false
starts_by f (String.◌∷◌ c s) (String.◌∷◌ d t) =
    between (code d) (code d) (f (code c)) && starts_by f s t

-- strings.Contains(s, t), likewise.
unfoldable pub contains_by : (ℕ → ℕ) → String → String → Bool
unfolding starts_by
contains_by f String.[] t = starts_by f String.[] t
contains_by f (String.◌∷◌ c s) t = starts_by f (String.◌∷◌ c s) t || contains_by f s t

-- strings.Join
unfoldable pub join : String → List String → String
join sep [] = ""
join sep (s ∷ []) = s
join sep (s ∷ t ∷ rest) = s ++ (sep ++ join sep (t ∷ rest))

unfoldable pub digit : ℕ → String
digit zero = "0"
digit (suc zero) = "1"
digit (suc (suc zero)) = "2"
digit (suc (suc (suc zero))) = "3"
digit (suc (suc (suc (suc zero)))) = "4"
digit (suc (suc (suc (suc (suc zero))))) = "5"
digit (suc (suc (suc (suc (suc (suc zero)))))) = "6"
digit (suc (suc (suc (suc (suc (suc (suc zero))))))) = "7"
digit (suc (suc (suc (suc (suc (suc (suc (suc zero)))))))) = "8"
digit _ = "9"

unfoldable pub digits : ℕ → ℕ → String
unfolding digit
digits zero n = ""
digits (suc fuel) n =
    let rest = digits fuel (n / 10) ++ digit (n % 10) in if ltb n 10 then digit n else rest

-- The %d of fmt.Sprintf. A number has no more digits than itself and one.
unfoldable pub decimal : ℕ → String
unfolding digits
decimal n = digits (suc n) n

-- unicode.SimpleFold, as far as a comparison with lower-case ASCII text shows it.
unfoldable pub fold_code : ℕ → ℕ
unfolding between
fold_code c =
    if between b'A' b'Z' c
    then c + 32
    else if between 0x17f 0x17f c
    then b's'
    else if between 0x212a 0x212a c
    then b'k'
    else c

-- strings.EqualFold(s, t), for a text t in lower-case ASCII.
unfoldable pub fold_is : String → String → Bool
unfolding fold_code between
fold_is String.[] String.[] = true
fold_is (String.◌∷◌ c s) (String.◌∷◌ d t) =
    between (code d) (code d) (fold_code (code c)) && fold_is s t
fold_is _ _ = false

-- unicode.ToUpper, as far as a comparison with upper-case ASCII text shows it.
unfoldable pub upper_code : ℕ → ℕ
unfolding between
upper_code c =
    if between b'a' b'z' c
    then c - 32
    else if between 0x131 0x131 c
    then b'I'
    else if between 0x17f 0x17f c
    then b'S'
    else c

-- strings.ToUpper(s) == t, for a text t in ASCII.
unfoldable pub upper_is : String → String → Bool
unfolding upper_code between
upper_is String.[] String.[] = true
upper_is (String.◌∷◌ c s) (String.◌∷◌ d t) =
    between (code d) (code d) (upper_code (code c)) && upper_is s t
upper_is _ _ = false

-- strings.Split(s, ","): the text before the first comma, and the texts behind each.
unfoldable pub split_commas : String → String × List String
unfolding between
split_commas String.[] = ("", [])
split_commas (String.◌∷◌ c s) =
    let (first, rest) = split_commas s in
    if between b',' b',' (code c) then ("", first ∷ rest) else (String.◌∷◌ c first, rest)

pub eq_self : (s : String) → (s == s) ≡ true
eq_self s = (eq_iff s s).1 refl

pub str_cases : (s t : String) → (s ≡ t) ⊎ (s ≢ t)
str_cases s t = elim (Bool-cases (s == t)) [
  | inl e ↦ inl ((eq_iff s t).0 e)
  | inr e ↦ inr (λ p. ground (arith, (eq_iff s t).1 p))
]
