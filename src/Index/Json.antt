-- ===== src/Index/Json.antt =====
-- The JSON of documents as secondary_indexer.go takes it from the library jsonparser, a parameter.
use tigris.Base.{Option, List, String, Error}
use tigris.Kv.Data.{Bytes, Timestamp}
use tigris.Schema.FieldType.{FieldType, to_field_type}

pub data ValueType : Type 0 where
  not_exist string number object array boolean null unknown : ValueType

-- ValueType.String
abbrev text_of : ValueType → String
text_of not_exist = "non-existent"
text_of string = "string"
text_of number = "number"
text_of object = "object"
text_of array = "array"
text_of boolean = "boolean"
text_of null = "null"
text_of unknown = "unknown"

pub record Found : Type 0 where
  pub value : Bytes
  pub type : ValueType
  pub fail : Option Error

pub record JsonParser : Type 0 where
  pub get : Bytes → List String → Found
  -- the elements that ArrayEach hands over, with what it answers after them
  pub array_each : Bytes → List String → List (Bytes × ValueType) × Option Error
  -- the members that ObjectEach hands over, with what it answers after them
  pub object_each : Bytes → List (String × Bytes × ValueType) × Option Error
  pub to_lower : String → String
  pub to_rfc3339 : Timestamp → Bytes

unfoldable pub type_of : JsonParser → ValueType → FieldType
unfolding to_field_type
type_of json t = to_field_type json.to_lower (text_of t) "" ""
