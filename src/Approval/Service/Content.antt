-- ===== src/Approval/Service/Content.antt =====
-- The two checks against floats that a submission and a signoff pass.
use metal_docs.Prelude.{◌≡◌, refl, false, arith}
use metal_docs.Approval.Payload.{
  Json, Fields, null, bool, int, float, text, array, object, end, field, is_float, has_float_value,
  walk_any, walk_fields,
}

is_float-walk_any : (v : Json) → walk_any v ≡ false → is_float v ≡ false
unfolding walk_any
is_float-walk_any (float _) h = cc
is_float-walk_any (object fields) h = refl
is_float-walk_any (array items) h = refl
is_float-walk_any null h = refl
is_float-walk_any (bool _) h = refl
is_float-walk_any (int _) h = refl
is_float-walk_any (text _) h = refl

-- A map that the check of the content hash accepts, which looks at every value however deep, is
-- accepted by `ValidateEventPayload`, which looks at the top level only: in
-- `SubmitRevisionForReview` the first check refuses nothing that the second lets through.
has_float_value-walk_fields :
    (fields : Fields) → walk_fields fields ≡ false → has_float_value fields ≡ false
unfolding walk_fields has_float_value
has_float_value-walk_fields end h = refl
has_float_value-walk_fields (field k v rest) h =
    ground (arith, is_float-walk_any v, has_float_value-walk_fields rest)
