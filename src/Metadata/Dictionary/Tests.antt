-- ===== src/Metadata/Dictionary/Tests.antt =====
-- The theorems on the dictionary at a transaction that is a map of keys.
use tigris.Base.{
  ℕ, ◌+◌, ◌≤◌, ◌≡◌, ◌≢◌, refl, sym, ap, Option, none, some, List, [], ◌∷◌, ok, err, some-injective,
  arith, length,
}
use tigris.Kv.Data.{new_table_data_with_version, Bytes, new_table_data}
use tigris.Metadata.Subspace.{err_not_found}
use tigris.Metadata.Entries.{
  DatabaseMetadata, db_key, dropped_db_key, validate_db_args, validate_coll_args,
  validate_index_args, index_key, coll_key,
}
use tigris.Metadata.Dictionary.{create_database, drop_database, get_database}
use tigris.Metadata.Dictionary.Unique.{IsUnique}
use tigris.Metadata.Dictionary.Steps.{HasId}
use tigris.Metadata.Dictionary.Run.{
  Request, new_database, new_collection, new_primary_index, change_database, remove_database,
  run_requests, run_requests-IsUnique,
}
use tigris.Metadata.Dictionary.Lookup.{create-get-drop}
use tigris.Metadata.Dictionary.Sample.{
  Map, put, rows_of, maps, store, read_database, database_json, jsons, registry, clock, empty_map,
}

abbrev first_number : Bytes → Option ℕ
first_number [] = none
first_number (x ∷ xs) = some x

marshal_id :
    (a : DatabaseMetadata) (b : Bytes)
    → database_json.marshal a ≡ some b
    → first_number b ≡ some a.id
marshal_id a b h = sym (ap first_number (some-injective h))

unmarshal_id :
    (a : DatabaseMetadata) (b : Bytes) → read_database b ≡ some a → first_number b ≡ some a.id
unmarshal_id a (x ∷ (y ∷ (z ∷ []))) h = ap (λ (m : DatabaseMetadata). some m.id) (some-injective h)
unmarshal_id a [] h = cc
unmarshal_id a (x ∷ []) h = cc
unmarshal_id a (x ∷ (y ∷ [])) h = cc
unmarshal_id a (x ∷ (y ∷ (z ∷ (w ∷ rest)))) h = cc

database_id : HasId database_json (λ m. m.id) first_number
database_id = record { marshal-id = marshal_id; unmarshal-id = unmarshal_id }

read_back :
    (a : DatabaseMetadata) (b : Bytes) → database_json.marshal a ≡ some b → read_database b ≡ some a
read_back a b h = ap read_database (sym (some-injective h))

collection_id : HasId jsons.collection (λ m. m.id) first_number
collection_id = record {
  marshal-id = λ a b h. sym (ap first_number (some-injective h));
  unmarshal-id = λ a b h. cc;
}

primary_index_id : HasId jsons.primary_index (λ m. m.id) first_number
primary_index_id = record {
  marshal-id = λ a b h. sym (ap first_number (some-injective h));
  unmarshal-id = λ a b h. cc;
}

apart : registry.encoding ≢ registry.reserved
apart h = let h' : ◌≡◌ {A = Bytes} (2 ∷ []) (1 ∷ []) = h in ground arith

empty-IsUnique : IsUnique maps store registry jsons clock first_number 1 empty_map
empty-IsUnique = (
  refl,
  (λ k i h. let (own, (x, held, id)) = h in cc),
  λ k j i h g. let (own, (x, held, id)) = h in cc,
)

-- A database, a collection in it with a primary index, an update and the drop of the database.
abbrev requests : List Request
requests =
    new_database "main" 1 0
    ∷ (new_collection "users" 1 1 []
        ∷ (new_primary_index "pkey" 1 1 2
            ∷ (change_database "main" 1 3 1 ∷ (remove_database "main" 1 ∷ []))))

after : Map
after = (run_requests maps registry jsons clock requests empty_map).1

run_requests-IsUnique_example :
    (m : ℕ) × (m ≤ 1 + length requests)
    × IsUnique maps store registry jsons clock first_number m after
unfolding after run_requests put validate_db_args db_key new_table_data validate_coll_args coll_key
    validate_index_args index_key new_table_data_with_version
run_requests-IsUnique_example =
    run_requests-IsUnique maps store registry jsons clock first_number apart database_id
      collection_id primary_index_id requests 1 empty_map after (omega arith) empty-IsUnique refl

abbrev main_database : DatabaseMetadata
main_database = record { id = 1; schema_version = 0; min_schema_version = 0 }

with_main : Map
with_main = (create_database maps registry jsons clock "main" 1 0 empty_map).1

without_main : Map
without_main = (drop_database maps registry jsons clock "main" 1 with_main).1

create-get-drop_example :
    (get_database maps registry jsons clock "main" 1 with_main ≡ ok main_database)
    × (get_database maps registry jsons clock "main" 1 without_main ≡ err err_not_found)
    × (without_main (dropped_db_key (2 ∷ []) 1 "main") ≡ with_main (db_key (2 ∷ []) 1 "main"))
unfolding with_main without_main create_database drop_database put validate_db_args db_key
    dropped_db_key
create-get-drop_example =
    create-get-drop maps store registry jsons clock "main" 1 0 main_database empty_map with_main
      without_main
      (rows_of (db_key (2 ∷ []) 1 "main").index_parts (with_main (db_key (2 ∷ []) 1 "main")))
      (rows_of (db_key (2 ∷ []) 1 "main").index_parts (without_main (db_key (2 ∷ []) 1 "main")))
      read_back refl refl refl refl
