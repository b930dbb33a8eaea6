-- ===== src/Metadata/Versioning.antt =====
-- server/metadata/database.go: UpdateSchemaVersion, the version of the schema of a database.
pub mod Life
pub mod First
pub mod Tests
use tigris.Base.{
  ℕ, ◌+◌, ◌%◌, String, Bool, true, false, ◌&&◌, Option, none, some, List, [], ◌∷◌, str_eq, ◌==◌,
  ltb, leb, if◌then◌else◌, Error, Result, ok, err, failed, internal, panic, invalid_argument, ◌>>=◌,
}
use tigris.Kv.Data.{Bytes, Timestamp}
use tigris.Metadata.Subspace.{MetaTx, update_metadata}
use tigris.Metadata.Entries.{DatabaseMetadata, db_key, validate_db_args}
use tigris.Metadata.Dictionary.{NameRegistry, Jsons, get_database, update_database}
use tigris.Metadata.Schemas.{Version, schema_key, schema_get_latest}

-- Of a database, what its versions are found by: its collections are their identifiers.
pub record Database : Type 0 where
  pub name : String
  pub id : ℕ
  pub collections : List ℕ
  pub pending_schema_version : ℕ
  pub current_schema_version : ℕ

-- errors.ErrNotFound, told by its text.
abbrev is_err_not_found : Error → Bool
is_err_not_found (failed m) = str_eq m "not found"
is_err_not_found _ = false

-- A collection without a schema is a nil pointer.
abbrev pub version_of : Option Version → Result ℕ
version_of none = err (panic "nil pointer dereference")
version_of (some v) = ok v.version

abbrev pub current_metadata : Result DatabaseMetadata → Result DatabaseMetadata
current_metadata (ok m) = ok m
current_metadata (err e) =
    if is_err_not_found e
    then ok (record { id = 0; schema_version = 0; min_schema_version = 0 })
    else err (internal "failed to read database metadata")

abbrev pub start_versions : DatabaseMetadata → ℕ → ℕ → Result DatabaseMetadata
start_versions m version max_ver =
    if leb version max_ver
    then err (invalid_argument "next schema version should be")
    else ok (record m { schema_version = version; min_schema_version = version })

abbrev pub next_version : DatabaseMetadata → ℕ
next_version m = (m.schema_version + 1) % 4294967296

-- The metadata with its next version, where `max_ver` is the greatest version of the collections.
unfoldable pub next_metadata : DatabaseMetadata → ℕ → Result ℕ → Result DatabaseMetadata
next_metadata m version max_ver =
    if m.schema_version == 0
    then (max_ver >>= λ n. start_versions m version n)
    else if ltb version m.min_schema_version
    then err (invalid_argument "schema version cannot be less than")
    else if ltb (next_version m) version
    then err (invalid_argument "next schema version should be")
    else if next_version m == version
    then ok (record m { schema_version = next_version m })
    else ok m

module _ (s : MetaTx) (r : NameRegistry) (json : Jsons) (now : Timestamp) (subspace_name : Bytes)
    (namespace_id : ℕ) where
  unfoldable pub max_schema_version : ℕ → List ℕ → s.Tx → ℕ → Result ℕ
  unfolding schema_get_latest schema_key
  max_schema_version db_id [] t max_ver = ok max_ver
  max_schema_version db_id (c ∷ cs) t max_ver = do
    latest ← schema_get_latest s (schema_key subspace_name namespace_id db_id c 0) t
    v ← version_of latest
    max_schema_version db_id cs t (if ltb max_ver v then v else max_ver)

  abbrev pub written : Database → Option Error × s.Tx → Option Error × Database × s.Tx
  written db (none, t) = (none, db, t)
  written db (some e, t) = (some (internal "failed to update database metadata"), db, t)

  -- The first update in a transaction, of the metadata that is stored.
  abbrev pub first_update :
      Database → ℕ → s.Tx → Result DatabaseMetadata → Option Error × Database × s.Tx
  first_update db version t (err e) = (some e, db, t)
  first_update db version t (ok m) =
      if (m.schema_version == 0) && (version == 0)
      then (none, db, t)
      else (elim (next_metadata m version (max_schema_version db.id db.collections t 0)) [
        | err e ↦ (some e, db, t)
        | ok m' ↦
            written
              (record db {
                pending_schema_version = m'.schema_version;
                current_schema_version = m.schema_version;
              })
              (update_database s r json now db.name namespace_id m' t)
      ])

  unfoldable pub update_schema_version : Database → ℕ → s.Tx → Option Error × Database × s.Tx
  unfolding next_metadata max_schema_version update_database get_database
  update_schema_version db version t =
      if db.pending_schema_version == 0
      then first_update db version t
          (current_metadata (get_database s r json now db.name namespace_id t))
      else if version == db.pending_schema_version
      then (none, db, t)
      else (
        some (invalid_argument "collection schema version should be the same in the transaction"),
        db,
        t,
      )

  abbrev pub then_update :
      Option Error × Database × s.Tx
      → (Database → s.Tx → Option Error × Database × s.Tx)
      → Option Error × Database × s.Tx
  then_update (none, db, t) next = next db t
  then_update (some e, db, t) next = (some e, db, t)

  -- The updates of one transaction, up to the first that answers an error.
  unfoldable pub run_updates : List ℕ → Database → s.Tx → Option Error × Database × s.Tx
  unfolding update_schema_version
  run_updates [] db t = (none, db, t)
  run_updates (v ∷ vs) db t = then_update (update_schema_version db v t) (run_updates vs)
