-- ===== src/Schema/FieldType.antt =====
-- schema/fields.go: the types of fields and what each supports.
use tigris.Base.{ℕ, String, Bool, true, false, ◌||◌, ◌==◌, str_eq, if◌then◌else◌}

pub data FieldType : Type 0 where
  unknown null bool int32 int64 double string byte uuid date_time array object vector max :
      FieldType

-- The value of the constant, which `iota` counts.
abbrev pub type_number : FieldType → ℕ
type_number unknown = 0
type_number null = 1
type_number bool = 2
type_number int32 = 3
type_number int64 = 4
type_number double = 5
type_number string = 6
type_number byte = 7
type_number uuid = 8
type_number date_time = 9
type_number array = 10
type_number object = 11
type_number vector = 12
type_number max = 13

-- To compare two types by their numbers.
abbrev pub is_type : FieldType → FieldType → Bool
is_type a b = type_number a == type_number b

-- `lower` is strings.ToLower.
unfoldable pub to_field_type : (String → String) → String → String → String → FieldType
to_field_type lower json_type encoding format =
    let t = lower json_type in
    if str_eq t "null"
    then null
    else if str_eq t "boolean"
    then bool
    else if str_eq t "integer"
    then (if str_eq format ""
        then int64
        else if str_eq format "int32"
        then int32
        else if str_eq format "int64"
        then int64
        else unknown)
    else if str_eq t "number"
    then double
    else if str_eq t "string"
    then (if str_eq encoding "base64"
        then byte
        else if str_eq encoding ""
        then (if str_eq format "uuid"
            then uuid
            else if str_eq format "date-time"
            then date_time
            else if str_eq format "byte"
            then byte
            else if str_eq format ""
            then string
            else unknown)
        else unknown)
    else if str_eq t "array"
    then (if str_eq format "vector" then vector else array)
    else if str_eq t "object"
    then object
    else unknown

unfoldable pub is_valid_key_type : FieldType → Bool
is_valid_key_type int32 = true
is_valid_key_type int64 = true
is_valid_key_type string = true
is_valid_key_type byte = true
is_valid_key_type date_time = true
is_valid_key_type uuid = true
is_valid_key_type _ = false

unfoldable pub is_primitive_type : FieldType → Bool
is_primitive_type bool = true
is_primitive_type int32 = true
is_primitive_type int64 = true
is_primitive_type uuid = true
is_primitive_type string = true
is_primitive_type date_time = true
is_primitive_type double = true
is_primitive_type _ = false

unfoldable pub supported_indexable_type : FieldType → Bool
supported_indexable_type bool = true
supported_indexable_type int32 = true
supported_indexable_type int64 = true
supported_indexable_type uuid = true
supported_indexable_type string = true
supported_indexable_type date_time = true
supported_indexable_type double = true
supported_indexable_type _ = false

unfoldable pub supported_search_indexable_type : FieldType → FieldType → Bool
supported_search_indexable_type bool _ = true
supported_search_indexable_type int32 _ = true
supported_search_indexable_type int64 _ = true
supported_search_indexable_type uuid _ = true
supported_search_indexable_type string _ = true
supported_search_indexable_type date_time _ = true
supported_search_indexable_type double _ = true
supported_search_indexable_type array _ = true
supported_search_indexable_type vector _ = true
supported_search_indexable_type object sub = is_type sub unknown
supported_search_indexable_type _ _ = false

unfoldable pub supported_facetable_type : FieldType → FieldType → Bool
supported_facetable_type int32 _ = true
supported_facetable_type int64 _ = true
supported_facetable_type string _ = true
supported_facetable_type double _ = true
supported_facetable_type array sub =
    is_type sub int32 || is_type sub int64 || is_type sub string || is_type sub double
supported_facetable_type _ _ = false

unfoldable pub default_facetable_type : FieldType → Bool
default_facetable_type int32 = true
default_facetable_type int64 = true
default_facetable_type double = true
default_facetable_type _ = false

unfoldable pub default_sortable_type : FieldType → Bool
default_sortable_type int32 = true
default_sortable_type int64 = true
default_sortable_type double = true
default_sortable_type date_time = true
default_sortable_type bool = true
default_sortable_type _ = false
