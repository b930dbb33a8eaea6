-- ===== src/Query/Match.antt =====
-- query/filter/comparison.go, selector.go and value/eval.go: whether the value of a field matches.
pub mod Between
pub mod Tests
use tigris.Base.{
  ℕ, Bool, true, false, ◌&&◌, ◌||◌, not, Option, none, some, List, [], ◌∷◌, String, if◌then◌else◌,
  split_dots, Error, Result, ok, err, invalid_argument, ◌>>=◌,
}
use tigris.Kv.Data.{Bytes}
use tigris.Schema.FieldType
use tigris.Schema.FieldType.{FieldType, is_type}
use tigris.Value.{
  Parsers, Value, array_value, int_value, double_value, string_value, date_time_value, bool_value,
  null_value, Interface, nothing, integer, float, text, raw, elements, boolean, compare_to,
  compare_bool, data_type, new_value, new_value_using_collation,
}
use tigris.Value.Collation.{Comparison, wrong, less, same, more, Case, Collator, compare_bytes}
use tigris.Index.Json.{JsonParser, ValueType, Found}
use tigris.Index.Row.{QueryableField, is_reserved_field}
use tigris.Query.Filter.{MatcherType, eq, gt, gte, lt, lte}

-- The tests of the matchers on what a comparison answers: `wrong` is -2, and its error is dropped.
unfoldable pub accepts_comparison : MatcherType → Comparison → Bool
accepts_comparison eq same = true
accepts_comparison gt more = true
accepts_comparison gte same = true
accepts_comparison gte more = true
accepts_comparison lt wrong = true
accepts_comparison lt less = true
accepts_comparison lte wrong = true
accepts_comparison lte less = true
accepts_comparison lte same = true
accepts_comparison _ _ = false

-- An element of an array: a value, or an array again.
pub data Element (F : Type 0) : Type 0 where
  one : Interface F → Element F
  many : List (Interface F) → Element F

-- Floats of 64 bits against integers, and the parsers of the library for elements.
pub record Elements (F : Type 0) : Type 0 where
  pub compare_float : F → F → Comparison
  pub to_integer : F → Option ℕ
  pub of_integer : ℕ → F
  pub parse_float : Bytes → Result F
  pub parse_int : Bytes → Result ℕ
  pub parse_boolean : Bytes → Result Bool
  pub unmarshal : Bytes → Result (List (Interface F))

module _ (p : Parsers) (collator : Collator) (lib : Elements p.Float) where
  abbrev any_to_int : Interface p.Float → Option ℕ
  any_to_int (integer n) = some n
  any_to_int (float x) = lib.to_integer x
  any_to_int _ = none

  abbrev any_to_float : Interface p.Float → Option p.Float
  any_to_float (float x) = some x
  any_to_float (integer n) = some (lib.of_integer n)
  any_to_float _ = none

  abbrev int_compare : Option ℕ → Value p.Float → Comparison
  int_compare none v = wrong
  int_compare (some n) v = compare_to p collator (int_value n) (some v)

  abbrev float_compare : Option p.Float → p.Float → Comparison
  float_compare none x = wrong
  float_compare (some y) x = lib.compare_float y x

  -- No element is the null value itself.
  unfoldable pub any_compare : Interface p.Float → Value p.Float → Comparison
  any_compare (text e) (string_value b c) = compare_bytes e b
  any_compare e (int_value n) = int_compare (any_to_int e) (int_value n)
  any_compare e (double_value x) = float_compare (any_to_float e) x
  any_compare (text e) (date_time_value b) = compare_bytes e b
  any_compare (boolean e) (bool_value b) =
      compare_to p collator (bool_value e) (some (bool_value b))
  any_compare e null_value = less
  any_compare e v = wrong

  abbrev any_of : MatcherType → Value p.Float → List (Interface p.Float) → Bool
  any_of m v [] = false
  any_of m v (e ∷ es) = accepts_comparison m (any_compare e v) || any_of m v es

  abbrev element_matches : MatcherType → Value p.Float → Element p.Float → Bool
  element_matches m v (one e) = accepts_comparison m (any_compare e v)
  element_matches m v (many es) = any_of m v es

  -- ArrMatches
  unfoldable pub arr_matches : MatcherType → Value p.Float → List (Element p.Float) → Bool
  unfolding accepts_comparison any_compare
  arr_matches m v [] = false
  arr_matches m v (e ∷ es) = element_matches m v e || arr_matches m v es

  unfoldable pub value_matches : MatcherType → Value p.Float → Value p.Float → Bool
  unfolding accepts_comparison
  value_matches m v input = accepts_comparison m (compare_to p collator input (some v))

  abbrev by_value_type : ValueType → Bytes → Result (Element p.Float)
  by_value_type ValueType.boolean b = do x ← lib.parse_boolean b; ok (one (boolean x))
  by_value_type ValueType.string b = ok (one (text b))
  by_value_type ValueType.number b = do x ← lib.parse_float b; ok (one (float x))
  by_value_type ValueType.null b = ok (one (raw b))
  by_value_type _ b = err (invalid_argument "unsupported value found")

  abbrev by_field_type : FieldType → ValueType → Bytes → Result (Element p.Float)
  by_field_type FieldType.double dtp b = do x ← lib.parse_float b; ok (one (float x))
  by_field_type FieldType.string dtp b = ok (one (text b))
  by_field_type FieldType.uuid dtp b = ok (one (text b))
  by_field_type FieldType.int32 dtp b = do x ← lib.parse_int b; ok (one (integer x))
  by_field_type FieldType.int64 dtp b = do x ← lib.parse_int b; ok (one (integer x))
  by_field_type FieldType.bool dtp b = do x ← lib.parse_boolean b; ok (one (boolean x))
  by_field_type FieldType.null dtp b = ok (one (raw b))
  by_field_type ft dtp b = by_value_type dtp b

  abbrev is_array_text : ValueType → Bool
  is_array_text ValueType.array = true
  is_array_text _ = false

  unfoldable pub convert_byte_to_type : FieldType → ValueType → Bytes → Result (Element p.Float)
  convert_byte_to_type ft dtp b =
      if is_array_text dtp || is_type ft FieldType.array
      then (do es ← lib.unmarshal b; ok (many es))
      else by_field_type ft dtp b

  abbrev kept : Result (Element p.Float) → List (Element p.Float) → List (Element p.Float)
  kept (err e) es = es
  kept (ok x) es = x ∷ es

  module _ (json : JsonParser) where
    abbrev member_element : FieldType → Found → Result (Element p.Float)
    member_element ft found = elim found.type [
      | ValueType.not_exist ↦ err (invalid_argument "Key path not found")
      | dtp ↦ elim found.fail [ some e ↦ err e | none ↦ convert_byte_to_type ft dtp found.value ]
    ]

    abbrev element_of : QueryableField → Bytes → ValueType → Result (Element p.Float)
    element_of f item ValueType.object =
        member_element f.sub_type (json.get item (f.unflatten_name ∷ []))
    element_of f item vt = convert_byte_to_type f.sub_type vt item

    -- An element that is not converted is left out: the error of ArrayEach replaces its own.
    unfoldable pub array_items : QueryableField → List (Bytes × ValueType) → List (Element p.Float)
    unfolding convert_byte_to_type
    array_items f [] = []
    array_items f ((item, vt) ∷ rest) = kept (element_of f item vt) (array_items f rest)

    abbrev array_path : Option QueryableField → QueryableField → List String
    array_path none f = split_dots f.field_name
    array_path (some parent) f = split_dots parent.field_name

    unfoldable pub get_array_field :
        Option QueryableField → QueryableField → Bytes → Result (List (Element p.Float))
    unfolding array_items
    get_array_field parent f doc =
        let (items, fail) = json.array_each doc (array_path parent f) in
        elim fail [ some e ↦ err e | none ↦ ok (array_items f items) ]

    unfoldable pub get_json_field : Bytes → Bytes → String → List String → Found
    unfolding is_reserved_field
    get_json_field doc metadata name path =
        if is_reserved_field name then json.get metadata path else json.get doc path

    abbrev is_array_field : Option QueryableField → QueryableField → Bool
    is_array_field none f = is_type f.data_type FieldType.array
    is_array_field (some parent) f =
        is_type parent.data_type FieldType.array || is_type f.data_type FieldType.array

    abbrev read_value : FieldType → Option Case → Bytes → Result (Value p.Float)
    read_value t none b = new_value p t b
    read_value t (some c) b = new_value_using_collation p t b c

    -- The text of null is not read.
    abbrev found_value : FieldType → Option Case → Found → Result (Value p.Float)
    found_value t collation found = elim found.type [
      | ValueType.not_exist ↦ err (invalid_argument "Key path not found")
      | ValueType.null ↦ elim found.fail [ some e ↦ err e | none ↦ read_value t collation [] ]
      | _ ↦ elim found.fail [ some e ↦ err e | none ↦ read_value t collation found.value ]
    ]

    abbrev or_false {ℓ} : {A : Type ℓ} → Result A → (A → Bool) → Bool
    or_false (err e) test = false
    or_false (ok a) test = test a

    -- Selector.Matches, of the document with its metadata.
    unfoldable pub selector_matches :
        Option QueryableField
        → QueryableField
        → MatcherType
        → Value p.Float
        → Option Case
        → Bytes
        → Bytes
        → Bool
    unfolding arr_matches value_matches get_array_field get_json_field data_type
    selector_matches parent f m v collation doc metadata =
        if is_array_field parent f && not (is_type (data_type v) FieldType.array)
        then or_false (get_array_field parent f doc) (arr_matches m v)
        else or_false
            (found_value f.data_type collation
              (get_json_field doc metadata f.field_name (split_dots f.field_name)))
            (value_matches m v)
