-- ===== src/Schema/Rules.antt =====
-- schema/rules.go: FieldSchemaValidator, and Field.IsCompatible of schema/fields.go.
pub mod Deltas
use tigris.Base.{
  ℕ, String, Bool, true, false, not, ◌&&◌, Option, none, some, if◌then◌else◌, Error,
  invalid_argument,
}
use tigris.Base.Int32.{slt}
use tigris.Schema.FieldType.{is_type}
use tigris.Schema.Field.{FieldHead, Field, Fields, nil, cons, array_to_map, is_set}

abbrev bool_eq : Bool → Bool → Bool
bool_eq true b = b
bool_eq false b = not b

-- Both lengths are there and the second is below the first.
abbrev pub is_reduced : Option ℕ → Option ℕ → Bool
is_reduced none n = false
is_reduced (some m) none = false
is_reduced (some m) (some n) = slt n m

-- `allow` is the configuration's AllowIncompatible.
unfoldable pub is_compatible : Bool → FieldHead → FieldHead → Option Error
is_compatible allow f f1 =
    if not (is_type f.data_type f1.data_type) && not allow
    then some (invalid_argument "data type mismatch for field")
    else if not (bool_eq (is_set f.primary_key_field) (is_set f1.primary_key_field))
    then some (invalid_argument "primary key changes are not allowed")
    else if is_reduced f.max_length f1.max_length && not allow
    then some (invalid_argument "reducing length of an existing field is not allowed")
    else none

abbrev pub or_else : Option Error → Option Error → Option Error
or_else (some e) rest = some e
or_else none rest = rest

-- The check of one field, given that of its nested fields.
abbrev pub validate_field : Bool → Bool → FieldHead → Option Field → Option Error → Option Error
validate_field allow is_map f none nested =
    if allow
    then none
    else if is_map
    then none
    else some (invalid_argument "removing a field is a backward incompatible change")
validate_field allow is_map f (some (c, _)) nested = or_else (is_compatible allow f c) nested

abbrev pub is_map_of : Option Field → Bool
is_map_of none = false
is_map_of (some (c, _)) = is_set c.additional_properties

abbrev pub nested_of : Option Field → Fields
nested_of none = nil
nested_of (some (_, nested)) = nested

-- validateLow. A field without nested fields passes their check, as the code skips it.
unfoldable pub validate_low : Bool → Fields → Fields → Bool → Option Error
unfolding is_compatible array_to_map
validate_low allow nil current is_map = none
validate_low allow (cons f nested rest) current is_map =
    let c = array_to_map current f.field_name in
    or_else
      (validate_field allow is_map f c (validate_low allow nested (nested_of c) (is_map_of c)))
      (validate_low allow rest current is_map)

-- FieldSchemaValidator.Validate.
unfoldable pub validate : Bool → Fields → Fields → Option Error
unfolding validate_low
validate allow existing current = validate_low allow existing current false
