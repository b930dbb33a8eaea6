-- ===== src/Value.antt =====
-- The package value: the values of fields, how they are read from JSON, and how they compare.
-- Go's texts and slices of bytes are both lists of bytes here. int64 is a number below 2 ^ 64.
pub mod Collation
pub mod Order
pub mod Tests
use tigris.Base.{
  ℕ, ◌+◌, ◌%◌, Bool, true, false, ◌&&◌, ◌||◌, Option, none, some, List, [], ◌∷◌, ltb, ◌==◌, leb,
  if◌then◌else◌, length, Error, Result, ok, err, failed, invalid_argument, ◌>>=◌,
}
use tigris.Kv.Data.{Bytes}
use tigris.Schema.FieldType.{
  FieldType, null, bool, int32, int64, double, string, byte, uuid, date_time, array, object, vector,
  max, unknown, is_type,
}
use tigris.Value.Collation.{
  Comparison, wrong, less, same, more, compare_bytes, bytes_eq, Case, Collator, compare_string,
  is_collation_sort_key, generate_sort_key, undefined,
}

-- What the values take from the libraries of Go: floats, each a float64 with its big.Float, and the
-- parsers of numbers, of base64 and of arrays in JSON.
pub record Parsers : Type 1 where
  pub Float : Type 0
  pub cmp : Float → Float → Comparison
  pub parse_bool : Bytes → Option Bool
  pub parse_float : Bytes → Option Float
  pub parse_int : Bytes → Option ℕ
  pub decode_base64 : Bytes → Option Bytes
  pub is_array : Bytes → Option Error

-- The decoded elements of an array are those of its text, which stands for them.
pub data Value (F : Type 0) : Type 0 where
  array_value : Bytes → Value F
  int_value : ℕ → Value F
  double_value : F → Value F
  string_value : Bytes → Case → Value F
  date_time_value : Bytes → Value F
  bytes_value : Bytes → Value F
  bool_value : Bool → Value F
  null_value : Value F
  max_value : Value F

-- "null" and "true"
abbrev pub null_text : Bytes
null_text = 110 ∷ 117 ∷ 108 ∷ 108 ∷ []

abbrev pub true_text : Bytes
true_text = 116 ∷ 114 ∷ 117 ∷ 101 ∷ []

abbrev pub is_empty : Bytes → Bool
is_empty [] = true
is_empty (x ∷ xs) = false

unfoldable pub is_null : FieldType → Bytes → Bool
is_null t raw = is_type t null || is_empty raw || bytes_eq raw null_text

-- v == nil or v.String() == "".
unfoldable pub is_null_value : {F : Type 0} → Option (Value F) → Bool
is_null_value none = true
is_null_value (some null_value) = true
is_null_value (some (string_value b c)) = is_empty b
is_null_value (some (date_time_value b)) = is_empty b
is_null_value (some (bytes_value b)) = is_empty b
is_null_value (some v) = false

unfoldable pub slt64 : ℕ → ℕ → Bool
slt64 a b =
    ltb ((a + 9223372036854775808) % 18446744073709551616)
      ((b + 9223372036854775808) % 18446744073709551616)

abbrev pub compare_int : ℕ → ℕ → Comparison
compare_int a b = if a == b then same else if slt64 a b then less else more

abbrev pub compare_bool : Bool → Bool → Comparison
compare_bool false true = less
compare_bool true false = more
compare_bool _ _ = same

unfoldable pub data_type : {F : Type 0} → Value F → FieldType
data_type (array_value b) = array
data_type (int_value n) = int64
data_type (double_value x) = double
data_type (string_value b c) = string
data_type (date_time_value b) = date_time
data_type (bytes_value b) = byte
data_type (bool_value b) = bool
data_type null_value = null
data_type max_value = max

-- AsInterface: what stands in a key.
pub data Interface (F : Type 0) : Type 0 where
  nothing : Interface F
  integer : ℕ → Interface F
  float : F → Interface F
  text : Bytes → Interface F
  raw : Bytes → Interface F
  elements : Bytes → Interface F
  boolean : Bool → Interface F

module _ (p : Parsers) (collator : Collator) where
  -- Two values of one type, where the second is not null.
  unfoldable pub compare_typed : Value p.Float → Value p.Float → Comparison
  compare_typed (int_value a) (int_value b) = compare_int a b
  compare_typed (double_value a) (double_value b) = p.cmp a b
  compare_typed (string_value a c) (string_value b d) = compare_string collator c a b
  compare_typed (date_time_value a) (date_time_value b) = compare_bytes a b
  compare_typed (bytes_value a) (bytes_value b) = compare_bytes a b
  compare_typed (bool_value a) (bool_value b) = compare_bool a b
  compare_typed _ _ = wrong

  abbrev pub unless_null : Value p.Float → Option (Value p.Float) → Comparison
  unless_null a none = more
  unless_null a (some b) = if is_null_value (some b) then more else compare_typed a b

  -- CompareTo; the result is `wrong`, for -2, where the error is not nil.
  unfoldable pub compare_to : Value p.Float → Option (Value p.Float) → Comparison
  unfolding compare_typed is_null_value
  compare_to (array_value a) none = more
  compare_to (array_value a) (some (array_value b)) = compare_bytes a b
  compare_to (array_value a) (some b) = wrong
  compare_to null_value none = same
  compare_to null_value (some null_value) = same
  compare_to null_value (some b) = less
  compare_to max_value (some max_value) = same
  compare_to max_value b = more
  compare_to a b = unless_null a b

  unfoldable pub as_interface : Value p.Float → Interface p.Float
  as_interface (array_value b) = elements b
  as_interface (int_value n) = integer n
  as_interface (double_value x) = float x
  as_interface (string_value b c) =
      if is_collation_sort_key c then raw (generate_sort_key collator c b) else text b
  as_interface (date_time_value b) = text b
  as_interface (bytes_value b) = raw b
  as_interface (bool_value b) = boolean b
  as_interface null_value = nothing
  as_interface max_value = integer 255

module _ (p : Parsers) where
  abbrev unsupported : Error
  unsupported = invalid_argument "unsupported value type"

  abbrev or_unsupported {ℓ} : {A : Type ℓ} → Option A → Result A
  or_unsupported none = err unsupported
  or_unsupported (some a) = ok a

  abbrev array_or : Bytes → Option Error → Result (Value p.Float)
  array_or b none = ok (array_value b)
  array_or b (some e) = err e

  abbrev or_raw : Bytes → Option Bytes → Bytes
  or_raw b none = b
  or_raw b (some d) = d

  abbrev pub of_type : FieldType → Bytes → Result (Value p.Float)
  of_type bool b = do x ← or_unsupported (p.parse_bool b); ok (bool_value x)
  of_type double b = do x ← or_unsupported (p.parse_float b); ok (double_value x)
  of_type int32 b = do x ← or_unsupported (p.parse_int b); ok (int_value x)
  of_type int64 b = do x ← or_unsupported (p.parse_int b); ok (int_value x)
  of_type string b = ok (string_value b undefined)
  of_type uuid b = ok (string_value b undefined)
  of_type date_time b = ok (date_time_value b)
  of_type byte b = ok (bytes_value (or_raw b (p.decode_base64 b)))
  of_type array b = array_or b (p.is_array b)
  of_type _ b = err unsupported

  unfoldable pub new_value : FieldType → Bytes → Result (Value p.Float)
  unfolding is_null
  new_value t b = if is_null t b then ok null_value else of_type t b

  unfoldable pub new_value_using_collation : FieldType → Bytes → Case → Result (Value p.Float)
  unfolding is_null new_value
  new_value_using_collation t b collation =
      if is_null t b
      then ok null_value
      else if is_type t string && ltb 0 (length b)
      then ok (string_value b collation)
      else new_value t b

-- v.String() == "true": no number, array or null has this text.
abbrev pub is_true_text : {F : Type 0} → Value F → Bool
is_true_text (bool_value b) = b
is_true_text (string_value b c) = bytes_eq b true_text
is_true_text (date_time_value b) = bytes_eq b true_text
is_true_text (bytes_value b) = bytes_eq b true_text
is_true_text _ = false

-- secondary_value_order.go: the order of the types in an index.
unfoldable pub to_secondary_order : {F : Type 0} → FieldType → Option (Value F) → ℕ
to_secondary_order null v = 5
to_secondary_order double v = 10
to_secondary_order int32 v = 10
to_secondary_order int64 v = 10
to_secondary_order string v = 15
to_secondary_order uuid v = 15
to_secondary_order object v = 20
to_secondary_order bool none = 25
to_secondary_order bool (some v) = if is_true_text v then 26 else 25
to_secondary_order date_time v = 30
to_secondary_order max v = 127
to_secondary_order _ v = 35

unfoldable pub secondary_null_order : ℕ
unfolding to_secondary_order
secondary_null_order = to_secondary_order {F = ℕ} null none
