-- ===== src/Common/Json.antt =====
-- JSON values, as `json.Unmarshal` decodes them into `interface{}`. A number whose literal is an
-- integer is that integer; any other number is its literal.
use mathlib.Core.Bool.{Bool}
use mathlib.Core.List.{List, [], ◌∷◌}
use gh_aw_mcpg.Common.Int.{ℤ}
use gh_aw_mcpg.Common.Text.{Str}

mutual
  pub data Json : Type 0 where
    null : Json
    boolean : Bool → Json
    integer : ℤ → Json
    decimal : Str → Json
    string : Str → Json
    array : Items → Json
    object : Fields → Json

  pub data Items : Type 0 where
    nil : Items
    cons : Json → Items → Items

  pub data Fields : Type 0 where
    end : Fields
    field : Str → Json → Fields → Fields

-- the slice `[]interface{}` of an array
abbrev pub elements : Items → List Json
elements nil = []
elements (cons v vs) = v ∷ elements vs

-- the map of an object, in the order of an iteration over it
abbrev pub entries : Fields → List (Str × Json)
entries end = []
entries (field k v fs) = (k, v) ∷ entries fs

abbrev pub to_items : List Json → Items
to_items [] = nil
to_items (v ∷ vs) = cons v (to_items vs)

abbrev pub to_fields : List (Str × Json) → Fields
to_fields [] = end
to_fields ((k, v) ∷ m) = field k v (to_fields m)
