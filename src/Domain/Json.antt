-- ===== src/Domain/Json.antt =====
-- Go's `any` values, as the modelled code takes them apart: texts, maps and slices. Every other value
-- (nil, a Boolean, a struct) passes through unread and is a `scalar`, by its printed form.
-- A map is the list of its entries in the order in which a `range` meets them.
use sourcevcode_orchestrator.Prelude.{String, Option, none, some, if◌then◌else◌, ◌==◌}
use sourcevcode_orchestrator.Prelude.Int.{ℤ}

mutual
  pub data Value : Type 0 where
    text : String → Value
    scalar : String → Value
    number : ℤ → Value
    list : Items → Value
    object : Fields → Value

  pub data Items : Type 0 where
    nil : Items
    cons : Value → Items → Items

  pub data Fields : Type 0 where
    end : Fields
    field : String → Value → Fields → Fields

-- The entry of a key.
unfoldable pub entry : String → Fields → Option Value
entry key end = none
entry key (field k v rest) = let later = entry key rest in if k == key then some v else later
