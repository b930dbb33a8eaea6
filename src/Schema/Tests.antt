-- ===== src/Schema/Tests.antt =====
-- The theorems on the changes of schemas, at three versions of one.
use mathlib.Core.Bool.{true≢false}
use tigris.Base.{
  some, true, false, sym, ◌≢◌, eq_iff, length, arith, All, ℕ, ◌≡◌, refl, String, none, List, [],
  ◌∷◌, ok,
}
use tigris.Schema.FieldType.{FieldType, bool, int64, string, object, unknown}
use tigris.Schema.Field.{FieldHead, Fields, nil, cons, array_to_map}
use tigris.Schema.Migration.{
  VersionDeltaField, FieldVersion, FieldVersions, build_schema_delta_low, build_schema_deltas,
  build_field_versions, lookup_field_version, no_key, key,
}
use tigris.Schema.Migration.Tree.{history_of, lookup-build_field_versions}
use tigris.Schema.Migration.Delta.{
  IsDistinct, build_schema_delta_low-same, build_field_versions-returns,
}
use tigris.Schema.Convert.{
  Library, pos, Members, no_member, member, text, integer, boolean, map_value, convert_type,
}
use tigris.Schema.Update.{
  get_member, set_member, apply_object_field_delta, apply_deltas, update_row_schema,
  compatible_schema_since,
}
use tigris.Schema.Rules.{validate}
use tigris.Schema.Rules.Deltas.{HasNoMap, KeepsType, validate-KeepsType}
use tigris.Schema.Update.Compatible.{Ascending, update_row_schema-compatible}
use tigris.Schema.Update.Others.{
  apply_object_field_delta-others, change_at_version, apply_deltas-boolean,
}

abbrev head : String → FieldType → FieldHead
head name t = record {
  field_name = name;
  data_type = t;
  max_length = none;
  primary_key_field = none;
  additional_properties = none;
}

abbrev person : FieldType → Fields
person t =
    cons (head "name" string) nil
      (cons (head "address" object) (cons (head "number" t) nil nil) nil)

-- The number of the address is a string first, then an integer, and then left out.
abbrev versions : List (ℕ × Fields)
versions =
    (1, person string)
    ∷ (2, person int64)
    ∷ (3, cons (head "name" string) nil (cons (head "address" object) nil nil))
    ∷ []

person-IsDistinct : IsDistinct (person int64)
unfolding IsDistinct array_to_map
person-IsDistinct = (refl, tt, (refl, (refl, tt, tt), tt))

build_schema_delta_low-same_example : build_schema_delta_low [] (person int64) (person int64) ≡ []
build_schema_delta_low-same_example =
    build_schema_delta_low-same [] (person int64) person-IsDistinct

build_field_versions-returns_example :
    (f : FieldVersions) × (build_field_versions (build_schema_deltas versions) ≡ ok f)
build_field_versions-returns_example = build_field_versions-returns versions

abbrev changed : FieldType → FieldType → ℕ → FieldVersion
changed a b version = record {
  change = record { key_path = "address" ∷ "number" ∷ []; from = a; to = b; max_length = 0 };
  version = version;
}

abbrev tree : FieldVersions
tree =
    key "address" []
      (key "number" (changed string int64 2 ∷ changed int64 unknown 3 ∷ []) no_key no_key) no_key

versions-tree : build_field_versions (build_schema_deltas versions) ≡ ok tree
unfolding build_field_versions build_schema_deltas array_to_map
versions-tree = refl

lookup-build_field_versions_example :
    lookup_field_version tree "address" ("number" ∷ [])
    ≡ history_of "address" ("number" ∷ []) (build_schema_deltas versions)
lookup-build_field_versions_example =
    lookup-build_field_versions (build_schema_deltas versions) tree "address" ("number" ∷ [])
      versions-tree

-- Floats that are not there, and texts of numbers as the numbers' bytes.
abbrev library : Library Unit
library = record {
  parse_int32 = λ b. none;
  parse_int64 = λ b. some (pos (length b));
  parse_float = λ b. none;
  format_int = λ i. 49 ∷ [];
  format_float = λ x. [];
  to_float = λ i. tt;
  floor_int64 = λ x. pos 0;
  is_zero = λ x. true;
  float64_bits = λ x. 0;
  float64_from_bits = λ n. tt;
  decode_base64 = λ b. none;
  parse_uuid = λ b. false;
  uuid_from_bytes = λ b. none;
  parse_rfc3339 = λ b. false;
  format_unix = λ i. [];
}

abbrev row : Members Unit
row =
    member "name" (text (65 ∷ []))
      (member "address" (map_value (member "number" (text (55 ∷ [])) no_member)) no_member)

abbrev number_changed : VersionDeltaField
number_changed = record {
  key_path = "address" ∷ "number" ∷ [];
  from = string;
  to = int64;
  max_length = 0;
}

abbrev updated : Members Unit
updated =
    member "name" (text (65 ∷ []))
      (member "address" (map_value (member "number" (integer (pos 1)) no_member)) no_member)

row-updated :
    apply_object_field_delta library number_changed row ("address" ∷ "number" ∷ [])
    ≡ ok (updated, true)
unfolding apply_object_field_delta convert_type get_member set_member
row-updated = refl

name-differs : ◌≢◌ {A = String} "name" "address"
name-differs h = true≢false (sym ((eq_iff "name" "address").1 h))

apply_object_field_delta-others_example : get_member updated "name" ≡ get_member row "name"
apply_object_field_delta-others_example =
    apply_object_field_delta-others library number_changed row "address" ("number" ∷ [])
      (updated, true) "name" refl row-updated name-differs

versions-Ascending : Ascending (build_schema_deltas versions)
unfolding build_schema_deltas array_to_map
versions-Ascending = (omega arith, tt)

versions-compatible : compatible_schema_since (build_schema_deltas versions) 3 ≡ ok true
unfolding compatible_schema_since build_schema_deltas array_to_map
versions-compatible = refl

update_row_schema-compatible_example :
    update_row_schema library (build_schema_deltas versions) row 3 ≡ ok row
update_row_schema-compatible_example =
    update_row_schema-compatible library (build_schema_deltas versions) row 3 versions-Ascending
      versions-compatible

apply_deltas-boolean_example :
    apply_deltas library
      (change_at_version 2 "flag" bool int64 ∷ change_at_version 3 "flag" int64 string ∷ [])
      (member "flag" (boolean true) row)
    ≡ ok row
apply_deltas-boolean_example = apply_deltas-boolean library "flag" true row 2 3

-- A new field, and a length for an old one.
abbrev longer : Fields
longer =
    cons (record (head "name" string) { max_length = some 10 }) nil
      (cons (head "address" object) (cons (head "number" int64) nil nil)
        (cons (head "age" int64) nil nil))

longer-valid : validate false (person int64) longer ≡ none
unfolding validate
longer-valid = refl

longer-HasNoMap : HasNoMap longer
unfolding HasNoMap
longer-HasNoMap = (refl, tt, (refl, (refl, tt, tt), (refl, tt, tt)))

validate-KeepsType_example : All KeepsType (build_schema_delta_low [] (person int64) longer)
validate-KeepsType_example = validate-KeepsType (person int64) longer longer-HasNoMap longer-valid
