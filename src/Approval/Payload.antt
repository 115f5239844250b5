-- ===== src/Approval/Payload.antt =====
-- JSON values as Go decodes them, and the two checks against floats: ValidateEventPayload
-- (approval/application/services.go) and validateNoFloats (approval/application/content_hash.go).
use metal_docs.Prelude.{String, Bool, true, false, ◌||◌}
use metal_docs.Prelude.Int.{ℤ}

-- The values of `any`. A `float64` is kept as its text, since only its type is looked at.
mutual
  pub data Json : Type 0 where
    null : Json
    bool : Bool → Json
    int : ℤ → Json
    float : String → Json
    text : String → Json
    array : Items → Json
    object : Fields → Json

  pub data Items : Type 0 where
    nil : Items
    item : Json → Items → Items

  -- A `map[string]any`: its entries, in any order.
  pub data Fields : Type 0 where
    end : Fields
    field : String → Json → Fields → Fields

abbrev pub is_float : Json → Bool
is_float (float _) = true
is_float _ = false

-- `ValidateEventPayload` looks at the values of the map itself only.
unfoldable pub has_float_value : Fields → Bool
has_float_value end = false
has_float_value (field _ v rest) = is_float v || has_float_value rest

-- `walkAny` looks at every value, however deep.
unfoldable mutual
  pub walk_any : Json → Bool
  walk_any (float _) = true
  walk_any (object fields) = walk_fields fields
  walk_any (array items) = walk_items items
  walk_any null = false
  walk_any (bool _) = false
  walk_any (int _) = false
  walk_any (text _) = false

  pub walk_items : Items → Bool
  walk_items nil = false
  walk_items (item v rest) = walk_any v || walk_items rest

  pub walk_fields : Fields → Bool
  walk_fields end = false
  walk_fields (field _ v rest) = walk_any v || walk_fields rest
