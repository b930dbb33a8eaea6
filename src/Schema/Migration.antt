-- ===== src/Schema/Migration.antt =====
-- schema/migration.go: the changes between versions of a schema, and the tree of the versions at
-- which a field changed.
pub mod Tree
pub mod Delta
use tigris.Base.{
  ℕ, String, Bool, true, false, Option, none, some, List, [], ◌∷◌, ◌++◌, str_eq, if◌then◌else◌,
  Result, ok, err, panic, ◌>>=◌,
}
use tigris.Base.Int32.{slt}
use tigris.Schema.FieldType.{FieldType, unknown, object, array, is_type}
use tigris.Schema.Field.{FieldHead, Field, Fields, nil, cons, array_to_map}

pub record VersionDeltaField : Type 0 where
  pub key_path : List String
  pub from : FieldType
  pub to : FieldType
  pub max_length : ℕ

pub record VersionDelta : Type 0 where
  pub version : ℕ
  pub fields : List VersionDeltaField

abbrev pub length_or_zero : Option ℕ → ℕ
length_or_zero none = 0
length_or_zero (some n) = n

-- A maximal length that is new, or below the old one.
abbrev pub is_shortened : Option ℕ → Option ℕ → Bool
is_shortened old none = false
is_shortened none (some n) = true
is_shortened (some m) (some n) = slt n m

-- The case of buildSchemaDeltaLow for one field, given the delta of its nested fields.
unfoldable pub field_delta :
    List String → FieldHead → Option Field → List VersionDeltaField → List VersionDeltaField
field_delta kp v1 none nested =
    record { key_path = kp; from = v1.data_type; to = unknown; max_length = 0 } ∷ []
field_delta kp v1 (some (v2, _)) nested =
    let change : VersionDeltaField = record {
      key_path = kp;
      from = v1.data_type;
      to = v2.data_type;
      max_length = length_or_zero v2.max_length;
    } in
    if is_type v1.data_type v2.data_type
    then (if is_shortened v1.max_length v2.max_length
        then change ∷ []
        else if is_type v1.data_type object
        then nested
        else if is_type v1.data_type array
        then nested
        else [])
    else change ∷ []

abbrev pub nested_fields : Option Field → Fields
nested_fields none = nil
nested_fields (some (_, nested)) = nested

unfoldable pub build_schema_delta_low : List String → Fields → Fields → List VersionDeltaField
unfolding field_delta
build_schema_delta_low key_path nil second = []
build_schema_delta_low key_path (cons v1 nested rest) second =
    let kp = key_path ++ v1.field_name ∷ [] in
    let v2 = array_to_map second v1.field_name in
    field_delta kp v1 v2 (build_schema_delta_low kp nested (nested_fields v2))
    ++ build_schema_delta_low key_path rest second

-- buildSchemaDelta, of versions whose schemas were built to fields.
unfoldable pub build_schema_delta : Fields → ℕ × Fields → VersionDelta
unfolding build_schema_delta_low
build_schema_delta first (version, second) = record {
  version = version;
  fields = build_schema_delta_low [] first second;
}

-- A delta without fields is left out.
abbrev pub unless_empty : List VersionDeltaField → VersionDelta → List VersionDelta
unless_empty [] d = []
unless_empty (_ ∷ _) d = d ∷ []

unfoldable pub consecutive_deltas : List (ℕ × Fields) → List VersionDelta
unfolding build_schema_delta
consecutive_deltas [] = []
consecutive_deltas (v ∷ []) = []
consecutive_deltas (v ∷ w ∷ rest) =
    let d = build_schema_delta v.1 w in unless_empty d.fields d ++ consecutive_deltas (w ∷ rest)

abbrev pub or_unchanged : List VersionDelta → List VersionDelta
or_unchanged [] = record { version = 0; fields = [] } ∷ []
or_unchanged (d ∷ ds) = d ∷ ds

-- buildSchemaDeltas.
unfoldable pub build_schema_deltas : List (ℕ × Fields) → List VersionDelta
unfolding consecutive_deltas
build_schema_deltas schemas = or_unchanged (consecutive_deltas schemas)

pub record FieldVersion : Type 0 where
  pub change : VersionDeltaField
  pub version : ℕ

-- map[string]*FieldVersions, a key at a time: its versions, its child, and the other keys. A child
-- that is nil is one without keys.
pub data FieldVersions : Type 0 where
  no_key : FieldVersions
  key : String → List FieldVersion → FieldVersions → FieldVersions → FieldVersions

-- A key path is its first name and the rest, so it is not empty.
unfoldable pub fresh_path : String → List String → FieldVersion → FieldVersions
fresh_path k [] v = key k (v ∷ []) no_key no_key
fresh_path k (j ∷ ks) v = key k [] (fresh_path j ks v) no_key

-- addFieldVersion.
unfoldable pub add_field_version :
    FieldVersions → String → List String → FieldVersion → FieldVersions
unfolding fresh_path
add_field_version no_key k ks v = fresh_path k ks v
add_field_version (key n vs child rest) k [] v =
    if str_eq k n
    then key n (vs ++ v ∷ []) child rest
    else key n vs child (add_field_version rest k [] v)
add_field_version (key n vs child rest) k (j ∷ ks) v =
    if str_eq k n
    then key n vs (add_field_version child j ks v) rest
    else key n vs child (add_field_version rest k (j ∷ ks) v)

-- lookupFieldVersion.
unfoldable pub lookup_field_version : FieldVersions → String → List String → List FieldVersion
lookup_field_version no_key k ks = []
lookup_field_version (key n vs child rest) k [] =
    if str_eq k n then vs else lookup_field_version rest k []
lookup_field_version (key n vs child rest) k (j ∷ ks) =
    if str_eq k n then lookup_field_version child j ks else lookup_field_version rest k (j ∷ ks)

-- addFieldVersion of a change; the code indexes out of range where the path is empty.
abbrev pub add_at : FieldVersions → FieldVersion → List String → Result FieldVersions
add_at f v [] = err (panic "index out of range")
add_at f v (k ∷ ks) = ok (add_field_version f k ks v)

unfoldable pub add_change : FieldVersions → ℕ → VersionDeltaField → Result FieldVersions
unfolding add_field_version
add_change f version c = add_at f (record { change = c; version = version }) c.key_path

unfoldable pub add_changes : FieldVersions → ℕ → List VersionDeltaField → Result FieldVersions
unfolding add_change
add_changes f version [] = ok f
add_changes f version (c ∷ cs) = add_change f version c >>= λ f'. add_changes f' version cs

unfoldable pub add_deltas : FieldVersions → List VersionDelta → Result FieldVersions
unfolding add_changes
add_deltas f [] = ok f
add_deltas f (d ∷ ds) = add_changes f d.version d.fields >>= λ f'. add_deltas f' ds

-- buildFieldVersions.
unfoldable pub build_field_versions : List VersionDelta → Result FieldVersions
unfolding add_deltas
build_field_versions deltas = add_deltas no_key deltas
