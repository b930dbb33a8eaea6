-- ===== src/Metadata/Schemas/Tests.antt =====
-- The versions of a schema, at a transaction that is a list of rows.
use tigris.Base.{ℕ, ◌<◌, ◌≡◌, ◌⊎◌, refl, none, List, [], ◌∷◌, ok, err, not_found, All, some}
use tigris.Kv.Data.{Timestamp, TableData, new_table_data}
use tigris.Kv.Fdb.{Key, bytes}
use tigris.Transaction.Session.{TableKey}
use tigris.Metadata.Subspace.{MetaTx}
use tigris.Metadata.Schemas.{Version, schema_key, read_versions, get_not_greater, schema_get_latest}
use tigris.Metadata.Schemas.Latest.{IsGreatest, get_not_greater-IsGreatest}

abbrev Rows : Type 0
Rows = List (Key × TableData)

abbrev rows_tx : MetaTx
rows_tx = record {
  Tx = Rows;
  stored = λ k t. none;
  insert = λ k x t. (none, (k.index_parts, x) ∷ t);
  replace = λ k x t. (none, (k.index_parts, x) ∷ t);
  delete = λ k t. (none, []);
  read = λ k t. ok (t, none);
}

abbrev clock : Timestamp
clock = record { seconds = 0; nanoseconds = 0 }

abbrev row : ℕ → Key × TableData
row n = (bytes (0 ∷ (0 ∷ (0 ∷ (n ∷ [])))) ∷ [], new_table_data clock (n ∷ []))

abbrev rows : Rows
rows = row 7 ∷ (row 2 ∷ (row 5 ∷ []))

abbrev version : ℕ → Version
version n = record { version = n; schema = n ∷ [] }

abbrev all_key : TableKey
all_key = schema_key (3 ∷ []) 1 1 1 0

versions_read : read_versions rows none ≡ ok (version 7 ∷ (version 2 ∷ (version 5 ∷ [])))
unfolding read_versions new_table_data
versions_read = refl

latest : schema_get_latest rows_tx all_key rows ≡ ok (some (version 7))
unfolding schema_get_latest new_table_data
latest = refl

get_not_greater-IsGreatest_example :
    ((r : Version) × (get_not_greater rows_tx all_key 6 rows ≡ ok r)
      × IsGreatest 6 r (version 7 ∷ (version 2 ∷ (version 5 ∷ []))))
    ⊎ ((get_not_greater rows_tx all_key 6 rows ≡ err (not_found "schema version not found"))
        × All (λ w. 6 < w.version) (version 7 ∷ (version 2 ∷ (version 5 ∷ []))))
get_not_greater-IsGreatest_example =
    get_not_greater-IsGreatest rows_tx all_key rows rows
      (version 7 ∷ (version 2 ∷ (version 5 ∷ []))) refl versions_read 6
