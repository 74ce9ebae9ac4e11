-- ===== src/Prelude/Dict.antt =====
-- Go's maps with text keys: a function where nothing ranges over the map, else a list of entries.
use Prim.Native.String.{String}
use mathlib.Core.Path.{◌≡◌, refl}
use mathlib.Core.List.{List, [], ◌∷◌}
use mathlib.Core.Option.{Option, none, some}
use native.Mathlib.Omega.{arith}
use text.Mathlib.Text.{◌==◌}
use text.Mathlib.TextEquality.{eq_iff}
use sourcevcode_orchestrator.Prelude.Tests.{if◌then◌else◌}

-- m[k] = v
abbrev pub update {ℓ} : {V : Type ℓ} → (String → V) → String → V → String → V
update m k v j = if k == j then v else m j

pub some_inj {ℓ} : {V : Type ℓ} {a b : V} → some a ≡ some b → a ≡ b
some_inj p = cc

module _ {ℓ} {V : Type ℓ} where
  -- Writes the value of a key, in the key's own place or at the end.
  unfoldable pub insert : String → V → List (String × V) → List (String × V)
  insert key value [] = (key, value) ∷ []
  insert key value (entry ∷ rest) =
      let below = insert key value rest in
      if entry.0 == key then (entry.0, value) ∷ rest else entry ∷ below

  unfoldable pub lookup : String → List (String × V) → Option V
  lookup key [] = none
  lookup key (entry ∷ rest) =
      let below = lookup key rest in if entry.0 == key then some entry.1 else below

  pub lookup-insert :
      (key wanted : String) (value : V) (entries : List (String × V))
      → lookup wanted (insert key value entries)
        ≡ (if key == wanted then some value else lookup wanted entries)
  unfolding insert lookup
  lookup-insert key wanted value [] = refl
  lookup-insert key wanted value (entry ∷ rest) = ground (
    arith,
    lookup-insert key wanted value rest,
    eq_iff entry.0 wanted,
    eq_iff entry.0 key,
    eq_iff key wanted,
  )
