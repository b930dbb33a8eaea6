-- ===== src/Metadata/Entries.antt =====
-- server/metadata: database.go, collection.go and primary_index.go, the entries of the dictionary.
use tigris.Base.{
  ℕ, String, Bool, false, ◌||◌, Option, none, some, List, [], ◌∷◌, ◌++◌, str_eq, ◌==◌, leb,
  if◌then◌else◌, Error, Result, ok, err, internal, invalid_argument, ◌>>=◌,
}
use tigris.Kv.Data.{Bytes, TableData}
use tigris.Kv.Fdb.{Key, Part, str, bytes}
use tigris.Transaction.Session.{TableKey}
use tigris.Metadata.Subspace.{
  MetaTx, key_end, key_dropped_end, uint32_to_byte, byte_to_uint32, list_metadata,
}

pub record DatabaseMetadata : Type 0 where
  pub id : ℕ
  pub schema_version : ℕ
  pub min_schema_version : ℕ

pub data IndexState : Type 0 where
  unknown not_indexed index_write_mode index_active : IndexState

pub record Index : Type 0 where
  pub name : String
  pub id : ℕ
  pub state : IndexState

pub record CollectionMetadata : Type 0 where
  pub id : ℕ
  pub indexes : List Index

pub record PrimaryIndexMetadata : Type 0 where
  pub id : ℕ
  pub name : String

-- The JSON of a metadata.
pub record Json (A : Type 0) : Type 0 where
  pub marshal : A → Option Bytes
  pub unmarshal : Bytes → Option A

abbrev pub key_version : Part
key_version = bytes (1 ∷ [])

abbrev pub id_part : ℕ → Part
id_part n = bytes (uint32_to_byte n)

-- The key of a name ends so; the key of all names does not.
abbrev named : String → String → Key → Key
named name end prefix = if str_eq name "" then prefix else prefix ++ (str name ∷ (str end ∷ []))

module _ (subspace_name : Bytes) where
  unfoldable pub db_key : ℕ → String → TableKey
  unfolding uint32_to_byte
  db_key ns_id name = record {
    table = subspace_name;
    index_parts = named name key_end (key_version ∷ (id_part ns_id ∷ (str "db" ∷ [])));
  }

  unfoldable pub dropped_db_key : ℕ → String → TableKey
  unfolding uint32_to_byte
  dropped_db_key ns_id name = record {
    table = subspace_name;
    index_parts =
        key_version ∷ (id_part ns_id ∷ (str "db" ∷ (str name ∷ (str key_dropped_end ∷ []))));
  }

  unfoldable pub coll_key : ℕ → ℕ → String → TableKey
  unfolding uint32_to_byte
  coll_key ns_id db_id name = record {
    table = subspace_name;
    index_parts =
        named name key_end (key_version ∷ (id_part ns_id ∷ (id_part db_id ∷ (str "coll" ∷ []))));
  }

  unfoldable pub dropped_coll_key : ℕ → ℕ → String → TableKey
  unfolding uint32_to_byte
  dropped_coll_key ns_id db_id name = record {
    table = subspace_name;
    index_parts =
        key_version
        ∷ (id_part ns_id
            ∷ (id_part db_id ∷ (str "coll" ∷ (str name ∷ (str key_dropped_end ∷ [])))));
  }

  unfoldable pub index_key : ℕ → ℕ → ℕ → String → TableKey
  unfolding uint32_to_byte
  index_key ns_id db_id coll_id name = record {
    table = subspace_name;
    index_parts =
        named name key_end (
          key_version ∷ (id_part ns_id ∷ (id_part db_id ∷ (id_part coll_id ∷ (str "index" ∷ [])))));
  }

  unfoldable pub dropped_index_key : ℕ → ℕ → ℕ → String → TableKey
  unfolding uint32_to_byte
  dropped_index_key ns_id db_id coll_id name = record {
    table = subspace_name;
    index_parts =
        key_version
        ∷ (id_part ns_id
            ∷ (id_part db_id
                ∷ (id_part coll_id ∷ (str "index" ∷ (str name ∷ (str key_dropped_end ∷ []))))));
  }

abbrev err_invalid_id : Error
err_invalid_id = invalid_argument "invalid id"

unfoldable pub validate_db_args : ℕ → String → Option Error
validate_db_args ns_id name =
    if ns_id == 0
    then some err_invalid_id
    else if str_eq name ""
    then some (invalid_argument "database name is empty")
    else none

unfoldable pub validate_coll_args : ℕ → ℕ → String → Option Error
validate_coll_args ns_id db_id name =
    if (ns_id == 0) || (db_id == 0)
    then some err_invalid_id
    else if str_eq name ""
    then some (invalid_argument "empty collection name")
    else none

unfoldable pub validate_index_args : ℕ → ℕ → ℕ → String → Option Error
validate_index_args ns_id db_id coll_id name =
    if (ns_id == 0) || ((db_id == 0) || (coll_id == 0))
    then some err_invalid_id
    else if str_eq name ""
    then some (invalid_argument "empty index name")
    else none

abbrev pub or_unmarshal_error : {A : Type 0} → String → Option A → Result A
or_unmarshal_error what none = err (internal what)
or_unmarshal_error what (some a) = ok a

-- Version 0 is the four bytes of the identifier alone.
unfoldable pub decode_database : Json DatabaseMetadata → TableData → Result DatabaseMetadata
unfolding byte_to_uint32
decode_database json x =
    if x.ver == 0
    then (do
      id ← byte_to_uint32 x.raw_data
      ok (record { id = id; schema_version = 0; min_schema_version = 0 }))
    else or_unmarshal_error "failed to unmarshal database metadata" (json.unmarshal x.raw_data)

unfoldable pub decode_collection : Json CollectionMetadata → TableData → Result CollectionMetadata
unfolding byte_to_uint32
decode_collection json x =
    if x.ver == 0
    then (do id ← byte_to_uint32 x.raw_data; ok (record { id = id; indexes = [] }))
    else or_unmarshal_error "failed to unmarshal collection metadata" (json.unmarshal x.raw_data)

unfoldable pub decode_primary_index :
    Json PrimaryIndexMetadata → TableData → Result PrimaryIndexMetadata
unfolding byte_to_uint32
decode_primary_index json x =
    if x.ver == 0
    then (do id ← byte_to_uint32 x.raw_data; ok (record { id = id; name = "" }))
    else or_unmarshal_error "failed to unmarshal collection metadata" (json.unmarshal x.raw_data)

-- What list finds: the names, and the identifiers of the dropped ones.
pub record Listed (A : Type 0) : Type 0 where
  pub created : List (String × A)
  pub dropped : List (String × ℕ)

unfoldable pub set_name : {A : Type 0} → String → A → List (String × A) → List (String × A)
set_name name a [] = (name, a) ∷ []
set_name name a ((n, b) ∷ rest) =
    if str_eq name n then (name, a) ∷ rest else (n, b) ∷ set_name name a rest

unfoldable pub find_name : {A : Type 0} → String → List (String × A) → Option A
find_name name [] = none
find_name name ((n, b) ∷ rest) = if str_eq name n then some b else find_name name rest

module _ {A : Type 0} (id_of : A → ℕ) where
  abbrev not_above : ℕ → Option A → Bool
  not_above dropped none = false
  not_above dropped (some a) = leb (id_of a) dropped

  -- A name that was dropped with an identifier that is not below the one it has now.
  unfoldable pub retrogression : List (String × ℕ) → List (String × A) → Bool
  unfolding find_name
  retrogression [] created = false
  retrogression ((name, dropped) ∷ rest) created =
      not_above dropped (find_name name created) || retrogression rest created

  unfoldable pub add_listed :
      (TableData → Result A) → Bool → String → TableData → Listed A → Result (Listed A)
  unfolding set_name
  add_listed decode dropped name x l = do
    a ← decode x
    ok (
        if dropped
        then record l { dropped = set_name name (id_of a) l.dropped }
        else record l { created = set_name name a l.created })

  unfoldable pub list_entries :
      (s : MetaTx) → (TableData → Result A) → TableKey → ℕ → s.Tx → Result (List (String × A))
  unfolding add_listed retrogression list_metadata
  list_entries s decode key key_len t = do
    l ← list_metadata s key key_len (add_listed decode) (record { created = []; dropped = [] }) t
    if retrogression l.dropped l.created then err (internal "retrogression found") else ok l.created
