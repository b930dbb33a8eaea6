-- ===== src/Index/Row.antt =====
-- secondary_indexer.go: a row of the index, and the errors that are ignored. schema/queryable.go and
-- schema/reserved.go: the fields that are indexed.
use tigris.Base.{
  ℕ, Bool, true, false, ◌||◌, List, [], ◌∷◌, String, str_eq, if◌then◌else◌, Error, failed, panic,
  invalid_argument, internal, not_found, already_exists, concat, contains,
}
use tigris.Kv.Data.{Bytes}
use tigris.Schema.FieldType.{FieldType}
use tigris.Value.{Value, null_value}
use tigris.Value.Collation.{Case, collation_sort_key}

pub record IndexRow (F : Type 0) : Type 0 where
  pub value : Value F
  pub name : String
  pub pos : ℕ
  pub stub : Bool
  pub data_type : FieldType
  pub null : Bool

abbrev pub stub_field_name : String
stub_field_name = "._tigris_array_stub"

unfoldable pub row_name : {F : Type 0} → IndexRow F → String
row_name f = if f.stub then concat f.name stub_field_name else f.name

pub record QueryableField : Type 0 where
  pub field_name : String
  pub indexed : Bool
  pub data_type : FieldType
  pub sub_type : FieldType
  pub unflatten_name : String

pub record Indexer : Type 0 where
  pub collation : Case
  pub encoded_table_index_name : Bytes
  pub queryable_fields : List QueryableField
  pub index_all : Bool
  pub sparse : Bool

unfoldable pub new_secondary_indexer_impl : Bytes → List QueryableField → Indexer
new_secondary_indexer_impl table fields = record {
  collation = collation_sort_key;
  encoded_table_index_name = table;
  queryable_fields = fields;
  index_all = false;
  sparse = false;
}

abbrev pub created_at_field : String
created_at_field = "_tigris_created_at"

abbrev pub updated_at_field : String
updated_at_field = "_tigris_updated_at"

unfoldable pub is_reserved_field : String → Bool
is_reserved_field name =
    str_eq name created_at_field
    || (str_eq name updated_at_field
        || (str_eq name "_tigris_metadata"
            || (str_eq name "_tigris_id"
                || (str_eq name "_tigris_date_"
                    || (str_eq name "_tigris_null" || str_eq name "_tigris_null_keys")))))

unfoldable pub only_indexed : List QueryableField → List QueryableField
only_indexed [] = []
only_indexed (f ∷ fs) = if f.indexed then f ∷ only_indexed fs else only_indexed fs

unfoldable pub get_indexed_fields : Indexer → List QueryableField
unfolding only_indexed
get_indexed_fields q = if q.index_all then q.queryable_fields else only_indexed q.queryable_fields

abbrev pub message : Error → String
message (invalid_argument m) = m
message (internal m) = m
message (not_found m) = m
message (already_exists m) = m
message (failed m) = m
message (panic m) = m

unfoldable pub is_key_path_not_found : Error → Bool
is_key_path_not_found e = str_eq (message e) "Key path not found"

unfoldable pub is_ignoreable_error : Error → Bool
unfolding is_key_path_not_found
is_ignoreable_error e = is_key_path_not_found e || contains "do not index byte field" (message e)

unfoldable pub new_missing_row : {F : Type 0} → String → IndexRow F
new_missing_row name = record {
  value = null_value;
  name = name;
  pos = 0;
  stub = false;
  data_type = FieldType.null;
  null = true;
}

unfoldable pub new_null_row : {F : Type 0} → String → ℕ → IndexRow F
new_null_row name pos = record {
  value = null_value;
  name = name;
  pos = pos;
  stub = false;
  data_type = FieldType.null;
  null = true;
}
