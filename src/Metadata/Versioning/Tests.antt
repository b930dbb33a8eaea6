-- ===== src/Metadata/Versioning/Tests.antt =====
-- The updates of the version of a database, at a transaction that is a map of keys. The key of all
-- versions of a collection reads its version 2.
use mathlib.Core.Bool.{true≢false}
use tigris.Base.{
  ◌≡◌, refl, sym, ◌∙◌, Bool, true, false, none, some, List, [], ◌∷◌, All, arith, Bool-cases, inl,
  inr, if◌then◌else◌, invalid_argument,
}
use tigris.Kv.Data.{Bytes, TableData, new_table_data_with_version}
use tigris.Kv.Fdb.{Key, str, int, bytes}
use tigris.Transaction.Session.{TableKey}
use tigris.Metadata.Subspace.{MetaTx, IsMetaStore, is_whole}
use tigris.Metadata.Entries.{DatabaseMetadata, db_key, validate_db_args}
use tigris.Metadata.Dictionary.{create_database, get_database, update_database}
use tigris.Metadata.Dictionary.Sample.{
  Map, put, rows_of, with_rows, store_with, jsons, registry, clock, empty_map,
}
use tigris.Metadata.Schemas.{schema_key, schema_put}
use tigris.Metadata.Versioning.{Database, max_schema_version, run_updates}
use tigris.Metadata.Versioning.Life.{Next}
use tigris.Metadata.Versioning.First.{Starts, pending, Holds, run_updates-Next, run_updates_older}

abbrev schemas : Bytes
schemas = 3 ∷ []

abbrev second_key : TableKey
second_key = schema_key schemas 1 1 5 2

-- The key of all versions of a collection.
abbrev is_all : Key → Bool
is_all (a ∷ (b ∷ (c ∷ (bytes d ∷ (str e ∷ []))))) = true
is_all _ = false

abbrev versions : Key → Map → List (Key × TableData)
versions k t = if is_all k then rows_of second_key.index_parts (t second_key) else []

not_whole : (k : Key) → is_all k ≡ true → is_whole k ≡ false
not_whole (a ∷ (b ∷ (str c ∷ (bytes d ∷ (str e ∷ []))))) h = refl
not_whole (a ∷ (b ∷ (int c ∷ (bytes d ∷ (str e ∷ []))))) h = refl
not_whole (a ∷ (b ∷ (bytes c ∷ (bytes d ∷ (str e ∷ []))))) h = refl
not_whole k h = cc

none_whole : (k : Key) (t : Map) → is_whole k ≡ true → versions k t ≡ []
none_whole k t whole = elim (Bool-cases (is_all k)) [
  | inl e ↦ absurd (true≢false (sym whole ∙ not_whole k e))
  | inr e ↦ rw e refl
]

abbrev tx : MetaTx
tx = with_rows versions

tx-IsMetaStore : IsMetaStore tx
tx-IsMetaStore = store_with versions none_whole

abbrev main : Database
main = record {
  name = "main";
  id = 1;
  collections = 5 ∷ [];
  pending_schema_version = 0;
  current_schema_version = 0;
}

-- A database without a version, whose collection has version 2.
unversioned : Map
unversioned =
    (schema_put tx clock second_key (7 ∷ []) 2
      (create_database tx registry jsons clock "main" 1 0 empty_map).1).1

abbrev no_version : DatabaseMetadata
no_version = record { id = 1; schema_version = 0; min_schema_version = 0 }

abbrev third : Database
third = record main { pending_schema_version = 3; current_schema_version = 0 }

started : Map
started = (run_updates tx registry jsons clock schemas 1 (3 ∷ (3 ∷ [])) main unversioned).2

run_updates-Next_example :
    (m' : DatabaseMetadata) × Next no_version 3
      (max_schema_version tx registry jsons clock schemas 1 1 (5 ∷ []) unversioned 0)
      m'
    × Starts tx tx-IsMetaStore registry jsons clock schemas 1 main 3 no_version unversioned
    × (third ≡ pending tx tx-IsMetaStore registry jsons clock schemas 1 main no_version m')
    × Holds tx tx-IsMetaStore registry jsons clock schemas 1 "main" m' started
    × All (λ w. w ≡ m'.schema_version) (3 ∷ [])
unfolding unversioned started run_updates validate_db_args schema_put create_database put db_key
    new_table_data_with_version
run_updates-Next_example =
    run_updates-Next tx tx-IsMetaStore registry jsons clock schemas 1 main third 3 (3 ∷ [])
      no_version unversioned started refl refl (omega arith) refl refl

-- A start at the version of the collection is rejected.
start_rejected :
    (run_updates tx registry jsons clock schemas 1 (2 ∷ []) main unversioned).0
    ≡ some (invalid_argument "next schema version should be")
unfolding unversioned run_updates validate_db_args schema_put create_database put db_key
    new_table_data_with_version
start_rejected = refl

-- A database of version 3.
with_version : Map
with_version = (create_database tx registry jsons clock "main" 1 3 empty_map).1

abbrev stored_metadata : DatabaseMetadata
stored_metadata = record { id = 1; schema_version = 3; min_schema_version = 0 }

-- The next version.
next_accepted :
    (run_updates tx registry jsons clock schemas 1 (4 ∷ (4 ∷ [])) main with_version).1
    ≡ record main { pending_schema_version = 4; current_schema_version = 3 }
unfolding with_version run_updates validate_db_args create_database put db_key
    new_table_data_with_version
next_accepted = refl

written_again : Map
written_again = (update_database tx registry jsons clock "main" 1 stored_metadata with_version).1

run_updates_older_example :
    (run_updates tx registry jsons clock schemas 1 (2 ∷ []) main with_version ≡ (
      none,
      pending tx tx-IsMetaStore registry jsons clock schemas 1 main stored_metadata stored_metadata,
      written_again,
    ))
    × (run_updates tx registry jsons clock schemas 1 (2 ∷ (2 ∷ [])) main with_version ≡ (
      some (invalid_argument "collection schema version should be the same in the transaction"),
      pending tx tx-IsMetaStore registry jsons clock schemas 1 main stored_metadata stored_metadata,
      written_again,
    ))
unfolding with_version written_again validate_db_args create_database put db_key get_database
    update_database new_table_data_with_version
run_updates_older_example =
    run_updates_older tx tx-IsMetaStore registry jsons clock schemas 1 main 2 stored_metadata
      with_version written_again refl refl (omega arith) (omega arith) (omega arith) refl
