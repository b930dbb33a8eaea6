-- ===== src/Metadata/Dictionary.antt =====
-- server/metadata/dictionary.go: identifiers, and the names of databases, collections and indexes.
pub mod Counter
pub mod Whole
pub mod Unique
pub mod Effects
pub mod Relocate
pub mod Steps
pub mod Run
pub mod Lookup
pub mod Sample
pub mod Tests
use tigris.Base.{
  ℕ, ◌+◌, ◌%◌, String, Bool, true, false, Option, none, some, List, [], ◌∷◌, str_eq, if◌then◌else◌,
  Error, Result, ok, err, ◌>>=◌,
}
use tigris.Kv.Data.{Bytes, Timestamp, TableData, new_table_data}
use tigris.Kv.Fdb.{Key, str}
use tigris.Transaction.Session.{TableKey}
use tigris.Metadata.Subspace.{
  MetaTx, key_end, uint32_to_byte, byte_to_uint32, insert_metadata, get_payload, update_metadata,
  soft_delete_metadata, list_metadata,
}
use tigris.Metadata.Entries.{
  DatabaseMetadata, CollectionMetadata, PrimaryIndexMetadata, Index, IndexState, unknown,
  not_indexed, index_write_mode, index_active, Json, db_key, dropped_db_key, coll_key,
  dropped_coll_key, index_key, dropped_index_key, validate_db_args, validate_coll_args,
  validate_index_args, decode_database, decode_collection, decode_primary_index, list_entries,
}

-- NameRegistry: the names of the subspaces, and the first identifier.
pub record NameRegistry : Type 0 where
  pub reserved : Bytes
  pub encoding : Bytes
  pub encoding_name : String
  pub base_counter_value : ℕ

pub record Jsons : Type 0 where
  pub database : Json DatabaseMetadata
  pub collection : Json CollectionMetadata
  pub primary_index : Json PrimaryIndexMetadata

unfoldable pub counter_key : NameRegistry → TableKey
counter_key r = record {
  table = r.reserved;
  index_parts = str r.encoding_name ∷ (str "counter" ∷ (str key_end ∷ []));
}

unfoldable pub find_index : List Index → String → Option Index
find_index [] name = none
find_index (i ∷ is) name = if str_eq i.name name then some i else find_index is name

-- The state of an index that is written: a new one is built first, and one whose state is not known
-- keeps its own.
abbrev pub updated_state : Option Index → IndexState → IndexState
updated_state none state = index_write_mode
updated_state (some existing) unknown = existing.state
updated_state (some existing) state = state

unfoldable pub update_metadata_indexes : List Index → List Index → List Index
unfolding find_index
update_metadata_indexes existing [] = []
update_metadata_indexes existing (i ∷ is) =
    record i { state = updated_state (find_index existing i.name) i.state }
    ∷ update_metadata_indexes existing is

unfoldable pub activated : List Index → List Index
activated [] = []
activated (i ∷ is) = record i { state = index_active } ∷ activated is

module _ (s : MetaTx) (r : NameRegistry) (json : Jsons) (now : Timestamp) where
  -- The next value of a counter, from the rows of its key.
  unfoldable pub next_value : List (Key × TableData) × Option Error → Result ℕ
  unfolding byte_to_uint32
  next_value ([], none) = ok r.base_counter_value
  next_value ([], some e) = err e
  next_value (row ∷ rows, fail) = do v ← byte_to_uint32 row.1.raw_data; ok ((v + 1) % 4294967296)

  abbrev pub answered {ℓ} : {A : Type ℓ} → A → Option Error × s.Tx → Result A × s.Tx
  answered a (none, t) = (ok a, t)
  answered a (some e, t) = (err e, t)

  abbrev pub allocated : Result ℕ → s.Tx → Result ℕ × s.Tx
  allocated (err e) t = (err e, t)
  allocated (ok v) t =
      answered v (s.replace (counter_key r) (new_table_data now (uint32_to_byte v)) t)

  unfoldable pub allocate_token : s.Tx → Result ℕ × s.Tx
  unfolding next_value counter_key uint32_to_byte
  allocate_token t = allocated (do rows ← s.read (counter_key r) t; next_value rows) t

  abbrev pub with_id {ℓ} :
      {A : Type ℓ} → Result ℕ × s.Tx → (ℕ → s.Tx → Result A × s.Tx) → Result A × s.Tx
  with_id (err e, t) rest = (err e, t)
  with_id (ok id, t) rest = rest id t

  unfoldable pub create_database : String → ℕ → ℕ → s.Tx → Result DatabaseMetadata × s.Tx
  unfolding allocate_token insert_metadata
  create_database name namespace_id schema_version t = with_id (allocate_token t) (λ id t1.
      let meta : DatabaseMetadata = record {
        id = id;
        schema_version = schema_version;
        min_schema_version = 0;
      } in
      answered meta (
        insert_metadata s now (validate_db_args namespace_id name)
          (db_key r.encoding namespace_id name) 1 (json.database.marshal meta) t1))

  unfoldable pub create_collection :
      String → ℕ → ℕ → List Index → s.Tx → Result CollectionMetadata × s.Tx
  unfolding allocate_token insert_metadata activated
  create_collection name namespace_id db_id indexes t = with_id (allocate_token t) (λ id t1.
      let meta : CollectionMetadata = record { id = id; indexes = activated indexes } in
      answered meta (
        insert_metadata s now (validate_coll_args namespace_id db_id name)
          (coll_key r.encoding namespace_id db_id name) 1 (json.collection.marshal meta) t1))

  unfoldable pub create_primary_index :
      String → ℕ → ℕ → ℕ → s.Tx → Result PrimaryIndexMetadata × s.Tx
  unfolding allocate_token insert_metadata
  create_primary_index name namespace_id db_id coll_id t = with_id (allocate_token t) (λ id t1.
      let meta : PrimaryIndexMetadata = record { id = id; name = "" } in
      answered meta (
        insert_metadata s now (validate_index_args namespace_id db_id coll_id name)
          (index_key r.encoding namespace_id db_id coll_id name) 1 (json.primary_index.marshal meta)
          t1))

  unfoldable pub drop_database : String → ℕ → s.Tx → Option Error × s.Tx
  unfolding soft_delete_metadata
  drop_database name namespace_id t =
      soft_delete_metadata s (validate_db_args namespace_id name)
        (db_key r.encoding namespace_id name) (dropped_db_key r.encoding namespace_id name) t

  unfoldable pub drop_collection : String → ℕ → ℕ → s.Tx → Option Error × s.Tx
  unfolding soft_delete_metadata
  drop_collection name namespace_id db_id t =
      soft_delete_metadata s (validate_coll_args namespace_id db_id name)
        (coll_key r.encoding namespace_id db_id name)
        (dropped_coll_key r.encoding namespace_id db_id name) t

  unfoldable pub drop_primary_index : String → ℕ → ℕ → ℕ → s.Tx → Option Error × s.Tx
  unfolding soft_delete_metadata
  drop_primary_index name namespace_id db_id coll_id t =
      soft_delete_metadata s (validate_index_args namespace_id db_id coll_id name)
        (index_key r.encoding namespace_id db_id coll_id name)
        (dropped_index_key r.encoding namespace_id db_id coll_id name) t

  unfoldable pub get_database : String → ℕ → s.Tx → Result DatabaseMetadata
  unfolding get_payload decode_database
  get_database name namespace_id t = do
    x ← get_payload s (validate_db_args namespace_id name) (db_key r.encoding namespace_id name) t
    decode_database json.database x

  unfoldable pub get_collection : String → ℕ → ℕ → s.Tx → Result CollectionMetadata
  unfolding get_payload decode_collection
  get_collection name namespace_id db_id t = do
    x ←
        get_payload s (validate_coll_args namespace_id db_id name)
          (coll_key r.encoding namespace_id db_id name) t
    decode_collection json.collection x

  unfoldable pub get_primary_index : String → ℕ → ℕ → ℕ → s.Tx → Result PrimaryIndexMetadata
  unfolding get_payload decode_primary_index
  get_primary_index name namespace_id db_id coll_id t = do
    x ←
        get_payload s (validate_index_args namespace_id db_id coll_id name)
          (index_key r.encoding namespace_id db_id coll_id name) t
    decode_primary_index json.primary_index x

  -- DatabaseSubspace.Update
  unfoldable pub update_database : String → ℕ → DatabaseMetadata → s.Tx → Option Error × s.Tx
  unfolding update_metadata
  update_database name namespace_id m t =
      update_metadata s now (validate_db_args namespace_id name)
        (db_key r.encoding namespace_id name) 1 (json.database.marshal m) t

  -- PrimaryIndexSubspace.Update
  unfoldable pub update_primary_index :
      String → ℕ → ℕ → ℕ → PrimaryIndexMetadata → s.Tx → Option Error × s.Tx
  unfolding update_metadata
  update_primary_index name namespace_id db_id coll_id m t =
      update_metadata s now (validate_index_args namespace_id db_id coll_id name)
        (index_key r.encoding namespace_id db_id coll_id name) 1 (json.primary_index.marshal m) t

  -- CollectionSubspace.Update; the task that would build an index does nothing.
  unfoldable pub update_collection :
      String → ℕ → ℕ → List Index → s.Tx → Result CollectionMetadata × s.Tx
  unfolding get_collection update_metadata update_metadata_indexes
  update_collection name namespace_id db_id indexes t =
      elim (get_collection name namespace_id db_id t) [
        | err e ↦ (err e, t)
        | ok old ↦
            let meta : CollectionMetadata = record old {
              indexes = update_metadata_indexes old.indexes indexes;
            } in
            answered meta (
              update_metadata s now (validate_coll_args namespace_id db_id name)
                (coll_key r.encoding namespace_id db_id name) 1 (json.collection.marshal meta) t)
      ]

  unfoldable pub get_databases : ℕ → s.Tx → Result (List (String × DatabaseMetadata))
  unfolding list_entries decode_database db_key
  get_databases namespace_id t =
      list_entries (λ m. m.id) s (decode_database json.database) (db_key r.encoding namespace_id "")
        5 t

  unfoldable pub get_collections : ℕ → ℕ → s.Tx → Result (List (String × CollectionMetadata))
  unfolding list_entries decode_collection coll_key
  get_collections namespace_id db_id t =
      list_entries (λ m. m.id) s (decode_collection json.collection)
        (coll_key r.encoding namespace_id db_id "") 6 t

  unfoldable pub get_primary_indexes :
      ℕ → ℕ → ℕ → s.Tx → Result (List (String × PrimaryIndexMetadata))
  unfolding list_entries decode_primary_index index_key
  get_primary_indexes namespace_id db_id coll_id t =
      list_entries (λ m. m.id) s (decode_primary_index json.primary_index)
        (index_key r.encoding namespace_id db_id coll_id "") 7 t
