-- ===== src/Metadata/Schemas.antt =====
-- server/metadata/schema.go: the versions of the schema of a collection or of a search index.
pub mod Latest
pub mod Tests
use tigris.Base.{
  ℕ, String, Option, none, some, List, [], ◌∷◌, ltb, leb, if◌then◌else◌, Error, Result, ok, err,
  internal, not_found, panic, invalid_argument, ◌>>=◌,
}
use tigris.Kv.Data.{Bytes, Timestamp, TableData, new_table_data}
use tigris.Kv.Fdb.{Key, Part, str, bytes}
use tigris.Transaction.Session.{TableKey}
use tigris.Metadata.Subspace.{MetaTx, key_end, byte_to_uint32}
use tigris.Metadata.Entries.{id_part}

-- schema.Version
pub record Version : Type 0 where
  pub version : ℕ
  pub schema : Bytes

abbrev sch_version : Part
sch_version = bytes (1 ∷ [])

abbrev ending : ℕ → Key
ending revision = str key_end ∷ (if ltb 0 revision then id_part revision ∷ [] else [])

-- Revision 0 is the key of all revisions.
unfoldable pub schema_key : Bytes → ℕ → ℕ → ℕ → ℕ → TableKey
schema_key subspace_name ns_id db_id coll_id revision = record {
  table = subspace_name;
  index_parts =
      sch_version ∷ (id_part ns_id ∷ (id_part db_id ∷ (id_part coll_id ∷ ending revision)));
}

unfoldable pub search_schema_key : Bytes → ℕ → ℕ → String → ℕ → TableKey
search_schema_key subspace_name ns_id db_id search revision = record {
  table = subspace_name;
  index_parts = sch_version ∷ (id_part ns_id ∷ (id_part db_id ∷ (str search ∷ ending revision)));
}

-- The revision, which is the last part of the key.
unfoldable pub revision_of : Key → Result ℕ
unfolding byte_to_uint32
revision_of [] = err (panic "index out of range")
revision_of (bytes b ∷ []) = byte_to_uint32 b
revision_of (part ∷ []) = err (internal "not able to extract revision from schema")
revision_of (part ∷ (next ∷ rest)) = revision_of (next ∷ rest)

unfoldable pub read_versions : List (Key × TableData) → Option Error → Result (List Version)
unfolding revision_of
read_versions [] none = ok []
read_versions [] (some e) = err e
read_versions ((key, x) ∷ rows) fail = do
  v ← revision_of key
  rest ← read_versions rows fail
  ok (record { version = v; schema = x.raw_data } ∷ rest)

-- sort.Sort
unfoldable pub insert_version : Version → List Version → List Version
insert_version v [] = v ∷ []
insert_version v (w ∷ vs) =
    let rest = insert_version v vs in if leb v.version w.version then v ∷ (w ∷ vs) else w ∷ rest

unfoldable pub sort_versions : List Version → List Version
unfolding insert_version
sort_versions [] = []
sort_versions (v ∷ vs) = insert_version v (sort_versions vs)

abbrev pub latest_version : List Version → Option Version
latest_version [] = none
latest_version (v ∷ []) = some v
latest_version (v ∷ (w ∷ vs)) = latest_version (w ∷ vs)

-- From the end, the first version that is not greater.
abbrev pub last_not_greater : ℕ → List Version → Option Version
last_not_greater n [] = none
last_not_greater n (v ∷ vs) = elim (last_not_greater n vs) [
  | some w ↦ some w
  | none ↦ if leb v.version n then some v else none
]

abbrev pub or_not_found : Option Version → Result Version
or_not_found none = err (not_found "schema version not found")
or_not_found (some v) = ok v

abbrev pub first_version : List Version → Result Version
first_version [] = err (not_found "schema version not found")
first_version (v ∷ vs) = ok v

abbrev is_empty : Bytes → Option Error
is_empty [] = some (invalid_argument "empty schema")
is_empty (b ∷ bs) = none

module _ (s : MetaTx) where
  unfoldable pub schema_put : Timestamp → TableKey → Bytes → ℕ → s.Tx → Option Error × s.Tx
  schema_put now key schema revision t =
      if leb revision 0
      then (some (invalid_argument "invalid schema version"), t)
      else (elim (is_empty schema) [
        | some e ↦ (some e, t)
        | none ↦ s.insert key (new_table_data now schema) t
      ])

  unfoldable pub schema_get : TableKey → s.Tx → Result (List Version)
  unfolding read_versions sort_versions
  schema_get key t = do
    rows ← s.read key t
    versions ← read_versions rows.0 rows.1
    ok (sort_versions versions)

  unfoldable pub schema_get_latest : TableKey → s.Tx → Result (Option Version)
  unfolding schema_get
  schema_get_latest key t = do versions ← schema_get key t; ok (latest_version versions)

  -- `key` is that of all revisions.
  unfoldable pub get_not_greater : TableKey → ℕ → s.Tx → Result Version
  unfolding schema_get
  get_not_greater key version t = do
    versions ← schema_get key t
    or_not_found (last_not_greater version versions)

  -- `key` is that of the version.
  unfoldable pub get_version : TableKey → s.Tx → Result Version
  unfolding schema_get
  get_version key t = do versions ← schema_get key t; first_version versions

  unfoldable pub schema_delete : TableKey → s.Tx → Option Error × s.Tx
  schema_delete key t = s.delete key t
