-- ===== src/Schema/Field.antt =====
-- schema/fields.go: a field, by what the changes of a schema ask of it. A list of fields and the map
-- of them are schema/migration.go's.
use tigris.Base.{ℕ, String, Bool, false, Option, none, some, str_eq, if◌then◌else◌}
use tigris.Schema.FieldType.{FieldType}

-- `max_length` is an int32.
pub record FieldHead : Type 0 where
  pub field_name : String
  pub data_type : FieldType
  pub max_length : Option ℕ
  pub primary_key_field : Option Bool
  pub additional_properties : Option Bool

-- A flag that is there and set.
abbrev pub is_set : Option Bool → Bool
is_set none = false
is_set (some b) = b

-- A list of fields: the first with its nested fields, and the others.
pub data Fields : Type 0 where
  nil : Fields
  cons : FieldHead → Fields → Fields → Fields

abbrev pub Field : Type 0
Field = FieldHead × Fields

-- The map that arrayToMap makes, looked up: the last field of the name.
unfoldable pub array_to_map : Fields → String → Option Field
array_to_map nil name = none
array_to_map (cons x nested rest) name = elim (array_to_map rest name) [
  | some y ↦ some y
  | none ↦ if str_eq x.field_name name then some (x, nested) else none
]
