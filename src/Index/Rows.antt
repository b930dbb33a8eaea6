-- ===== src/Index/Rows.antt =====
-- secondary_indexer.go: the rows of a document.
use tigris.Index.Row.{
  IndexRow, QueryableField, Indexer, created_at_field, updated_at_field, is_reserved_field,
  get_indexed_fields, is_key_path_not_found, is_ignoreable_error, new_missing_row, new_null_row,
}
use tigris.Base.{
  ℕ, suc, Bool, true, false, Option, none, some, List, [], ◌∷◌, ◌++◌, String, if◌then◌else◌, Error,
  Result, ok, err, failed, panic, ◌>>=◌, concat, split_dots,
}
use tigris.Kv.Data.{Bytes, TableData, Timestamp}
use tigris.Schema.FieldType.{FieldType, is_type}
use tigris.Value.{Parsers, new_value_using_collation}
use tigris.Index.Json.{JsonParser, ValueType, Found, type_of}

module _ (p : Parsers) (json : JsonParser) (q : Indexer) where
  unfoldable pub new_index_row : FieldType → String → Bytes → ℕ → Bool → Result (IndexRow p.Float)
  unfolding new_value_using_collation
  new_index_row data_type name raw_value pos stub = do
    v ← new_value_using_collation p data_type raw_value q.collation
    ok record {
      value = v;
      name = name;
      pos = pos;
      stub = stub;
      data_type = data_type;
      null = false;
    }

  abbrev Rows : Type 0
  Rows = List (IndexRow p.Float)

  -- A row that fails to be built is left out if its error is ignored.
  abbrev pub add_unless_ignored : Result Rows → Result Rows → Result Rows
  add_unless_ignored (ok rows) rest = do more ← rest; ok (rows ++ more)
  add_unless_ignored (err e) rest = if is_ignoreable_error e then rest else err e

  abbrev single : Result (IndexRow p.Float) → Result Rows
  single r = do row ← r; ok (row ∷ [])

  unfoldable pub timestamp_row : Option Timestamp → String → Result (IndexRow p.Float)
  unfolding new_index_row
  timestamp_row none name = new_index_row FieldType.null name [] 0 false
  timestamp_row (some ts) name = new_index_row FieldType.date_time name (json.to_rfc3339 ts) 0 false

  unfoldable pub build_ts_rows : TableData → Result Rows
  unfolding timestamp_row is_ignoreable_error
  build_ts_rows x =
      add_unless_ignored (single (timestamp_row x.created_at created_at_field))
        (add_unless_ignored (single (timestamp_row x.updated_at updated_at_field)) (ok []))

  abbrev by_type :
      FieldType → String → ℕ → Found → Option Error → ValueType → Result (IndexRow p.Float)
  by_type data_type name pos found (some e) t = err e
  by_type data_type name pos found none ValueType.null = ok (new_null_row name 0)
  by_type data_type name pos found none t = new_index_row data_type name found.value pos false

  abbrev unless_missing : FieldType → String → ℕ → Found → ValueType → Result (IndexRow p.Float)
  unless_missing data_type name pos found ValueType.not_exist =
      if q.sparse
      then by_type data_type name pos found found.fail ValueType.not_exist
      else ok (new_missing_row name)
  unless_missing data_type name pos found t = by_type data_type name pos found found.fail t

  unfoldable pub index_field :
      Bytes → String → FieldType → ℕ → List String → Result (IndexRow p.Float)
  unfolding new_index_row new_null_row new_missing_row
  index_field doc field_name data_type pos key_path =
      if is_type data_type FieldType.byte
      then err (failed "do not index byte field")
      else let found = json.get doc key_path in
        unless_missing data_type field_name pos found found.type

  -- The processor of indexNestedField: the rows of a member.
  unfoldable pub nested_row : String → ℕ → FieldType → Bytes → Result Rows
  unfolding new_index_row new_null_row
  nested_row name pos FieldType.array value =
      single (new_index_row FieldType.array name [] pos true)
  nested_row name pos FieldType.object value = ok []
  nested_row name pos FieldType.null value = ok (new_null_row name pos ∷ [])
  nested_row name pos t value = single (new_index_row t name value pos false)

  abbrev add_rows : Result Rows → Rows × Option Error → Rows × Option Error
  add_rows (err e) rest = ([], some e)
  add_rows (ok rows) rest = (rows ++ rest.0, rest.1)

  -- ObjectEach with the processor: the rows so far, and the error at the end.
  unfoldable pub nested_rows :
      String → ℕ → List (String × Bytes × ValueType) → Option Error → Rows × Option Error
  unfolding nested_row type_of
  nested_rows top pos [] fail = ([], fail)
  nested_rows top pos ((key, value, dt) ∷ rest) fail =
      add_rows (nested_row (concat top (concat "." key)) pos (type_of json dt) value)
        (nested_rows top pos rest fail)

  abbrev unless_failed : Rows × Option Error → Result Rows
  unless_failed (rows, none) = ok rows
  unless_failed (rows, some e) = if is_ignoreable_error e then ok rows else err e

  unfoldable pub index_nested_field : Bytes → String → ℕ → Result Rows
  unfolding nested_rows is_ignoreable_error
  index_nested_field doc top_field pos =
      let (members, fail) = json.object_each doc in
      unless_failed (nested_rows top_field pos members fail)

  -- The rows of an element of an array. An element whose row fails is left out, with its position;
  -- where the error is ignored, the row that is not there is dereferenced.
  unfoldable pub element_rows : QueryableField → ℕ → FieldType → Bytes → Result Rows
  unfolding new_index_row new_null_row index_nested_field
  element_rows field pos FieldType.null value = ok (new_null_row field.field_name pos ∷ [])
  element_rows field pos FieldType.object value = index_nested_field value field.field_name pos
  element_rows field pos FieldType.array value =
      single (new_index_row FieldType.array field.field_name [] pos true)
  element_rows field pos t value =
      single (new_index_row field.sub_type field.field_name value pos false)

  abbrev add_element : Result Rows → Result Rows → Result Rows → Result Rows
  add_element (ok rows) after skipped = do more ← after; ok (rows ++ more)
  add_element (err e) after skipped =
      if is_ignoreable_error e then err (panic "nil pointer dereference") else skipped

  -- ArrayEach with the processor of indexArray.
  unfoldable pub array_rows : QueryableField → ℕ → List (Bytes × ValueType) → Result Rows
  unfolding element_rows type_of is_ignoreable_error
  array_rows field pos [] = ok []
  array_rows field pos ((value, dt) ∷ rest) =
      let after = array_rows field (suc pos) rest in
      let skipped = array_rows field pos rest in
      add_element (element_rows field pos (type_of json dt) value) after skipped

  abbrev array_result : QueryableField → Rows → Option Error → Result Rows
  array_result field rows none = ok rows
  array_result field rows (some e) =
      if is_key_path_not_found e then ok (new_missing_row field.field_name ∷ []) else err e

  -- errProcessor is tested before the elements are visited, when it is nil.
  unfoldable pub index_array : Bytes → QueryableField → List String → Result Rows
  unfolding array_rows new_missing_row is_key_path_not_found
  index_array doc field key_path =
      let (elements, fail) = json.array_each doc key_path in
      do rows ← array_rows field 0 elements; array_result field rows fail

  unfoldable pub field_rows : Bytes → QueryableField → Result Rows
  unfolding index_array index_field
  field_rows doc field =
      if is_type field.data_type FieldType.array
      then index_array doc field (split_dots field.field_name)
      else single (index_field doc field.field_name field.data_type 0 (split_dots field.field_name))

  unfoldable pub fields_rows : Bytes → List QueryableField → Result Rows
  unfolding field_rows is_reserved_field is_ignoreable_error
  fields_rows doc [] = ok []
  fields_rows doc (field ∷ fields) =
      let rest = fields_rows doc fields in
      if is_reserved_field field.field_name
      then rest
      else add_unless_ignored (field_rows doc field) rest

  unfoldable pub build_table_rows : Option TableData → Result Rows
  unfolding build_ts_rows fields_rows get_indexed_fields
  build_table_rows none = ok []
  build_table_rows (some x) = do
    rows ← build_ts_rows x
    more ← fields_rows x.raw_data (get_indexed_fields q)
    ok (rows ++ more)
