-- ===== src/Index.antt =====
-- server/services/v1/database/secondary_indexer.go: the rows of a document in the secondary index of
-- its collection, and the update of the index.
pub mod Json
pub mod Row
pub mod Rows
pub mod Bulk
pub mod Same
pub mod Keys
pub mod Phases
pub mod Exact
pub mod Stale
pub mod Batches
pub mod Complete
pub mod Endless
pub mod Sample
pub mod Tests
use tigris.Base.{
  ℕ, Bool, true, false, ◌&&◌, ◌||◌, not, Option, none, some, List, [], ◌∷◌, ◌++◌, String, str_eq,
  ◌==◌, if◌then◌else◌, Error, Result, ok, err, failed, ◌>>=◌, map, ◌≡◌, ◌≢◌, ◌⊎◌,
}
use tigris.Kv.Data.{Bytes, TableData, Timestamp, new_table_data}
use tigris.Kv.Fdb.{Key}
use tigris.Value.{
  Parsers, Interface, compare_to, as_interface, to_secondary_order, secondary_null_order,
}
use tigris.Value.Collation.{Collator, is_same}
use tigris.Index.Json.{JsonParser}
use tigris.Index.Row.{IndexRow, row_name, Indexer}
use tigris.Index.Rows.{build_table_rows}

-- The parts of a key of the index behind the table, the keyword of the index and "kvs".
pub record IndexKey (F : Type 0) : Type 0 where
  pub name : String
  pub order : ℕ
  pub part : Interface F
  pub pos : ℕ
  pub primary_key : Key

-- A transaction, by the keys of the index that it holds.
pub record IndexTx (F : Type 0) : Type 1 where
  pub Tx : Type 0
  pub has : IndexKey F → Tx → Bool
  pub delete : IndexKey F → Tx → Option Error × Tx
  pub replace : IndexKey F → Tx → Option Error × Tx
  -- the row under a primary key, or the error of the read
  pub read : Key → Tx → Result (Option TableData)

-- The laws of a set of keys, where a call answers no error: no key of the index is a prefix of another.
pub record IsIndexStore {F : Type 0} (s : IndexTx F) : Type 0 where
  pub has-replace_self :
      (k : IndexKey F) (t : s.Tx) → (s.replace k t).0 ≡ none → s.has k (s.replace k t).1 ≡ true
  pub has-replace_keeps :
      (k j : IndexKey F) (t : s.Tx) → s.has j t ≡ true → s.has j (s.replace k t).1 ≡ true
  pub has-of_replace :
      (k j : IndexKey F) (t : s.Tx)
      → s.has j (s.replace k t).1 ≡ true
      → (k ≡ j) ⊎ (s.has j t ≡ true)
  pub has-delete_self :
      (k : IndexKey F) (t : s.Tx) → (s.delete k t).0 ≡ none → s.has k (s.delete k t).1 ≡ false
  pub has-delete_keeps :
      (k j : IndexKey F) (t : s.Tx) → k ≢ j → s.has j t ≡ true → s.has j (s.delete k t).1 ≡ true
  pub has-of_delete :
      (k j : IndexKey F) (t : s.Tx) → s.has j (s.delete k t).1 ≡ true → s.has j t ≡ true

abbrev pub err_table_not_set : Error
err_table_not_set = failed "could not index collection, encoded table not set"

abbrev pub seen : String → List String → Bool
seen n [] = false
seen n (x ∷ xs) = str_eq n x || seen n xs

module _ (p : Parsers) (collator : Collator) where
  unfoldable pub is_equal : IndexRow p.Float → IndexRow p.Float → Bool
  is_equal f b =
      is_same (compare_to p collator f.value (some b.value))
      && (str_eq (row_name f) (row_name b) && (f.pos == b.pos))

  unfoldable pub contains_index_row : List (IndexRow p.Float) → IndexRow p.Float → Bool
  unfolding is_equal
  contains_index_row [] field = false
  contains_index_row (row ∷ rows) field =
      if is_equal row field then true else contains_index_row rows field

  -- The rows of `removes` that are not in `rows`.
  unfoldable pub remove_duplicate_rows :
      List (IndexRow p.Float) → List (IndexRow p.Float) → List (IndexRow p.Float)
  unfolding contains_index_row
  remove_duplicate_rows rows [] = []
  remove_duplicate_rows rows (r ∷ removes) =
      let rest = remove_duplicate_rows rows removes in
      if contains_index_row rows r then rest else r ∷ rest

  unfoldable pub build_index_key : Key → IndexRow p.Float → IndexKey p.Float
  unfolding row_name secondary_null_order
  build_index_key primary_key row = record {
    name = row_name row;
    order =
        if row.null
        then secondary_null_order
        else to_secondary_order row.data_type (some row.value);
    part = as_interface p collator row.value;
    pos = row.pos;
    primary_key = primary_key;
  }

  -- The loop of createKeysAndIndexInfo, with the names so far. Nothing reads the sizes and counts.
  unfoldable pub create_keys : Key → List String → List (IndexRow p.Float) → List (IndexKey p.Float)
  unfolding build_index_key row_name
  create_keys primary_key stubs [] = []
  create_keys primary_key stubs (row ∷ rows) =
      let skipped = create_keys primary_key stubs rows in
      let rest = create_keys primary_key (row_name row ∷ stubs) rows in
      if row.stub && seen (row_name row) stubs
      then skipped
      else build_index_key primary_key row ∷ rest

  pub record IndexerUpdateSet : Type 0 where
    pub add_keys : List (IndexKey p.Float)
    pub remove_keys : List (IndexKey p.Float)

  unfoldable pub update_set :
      Key → List (IndexRow p.Float) → List (IndexRow p.Float) → IndexerUpdateSet
  unfolding create_keys remove_duplicate_rows
  update_set primary_key new_rows old_rows = record {
    add_keys = create_keys primary_key [] (remove_duplicate_rows old_rows new_rows);
    remove_keys = create_keys primary_key [] (remove_duplicate_rows new_rows old_rows);
  }

  module _ (s : IndexTx p.Float) where
    abbrev pub continue : Option Error × s.Tx → (s.Tx → Option Error × s.Tx) → Option Error × s.Tx
    continue (none, t) next = next t
    continue (some e, t) next = (some e, t)

    unfoldable pub delete_keys : List (IndexKey p.Float) → s.Tx → Option Error × s.Tx
    delete_keys [] t = (none, t)
    delete_keys (k ∷ ks) t = continue (s.delete k t) (delete_keys ks)

    unfoldable pub replace_keys : List (IndexKey p.Float) → s.Tx → Option Error × s.Tx
    replace_keys [] t = (none, t)
    replace_keys (k ∷ ks) t = continue (s.replace k t) (replace_keys ks)

    unfoldable pub apply_update_set : IndexerUpdateSet → s.Tx → Option Error × s.Tx
    unfolding delete_keys replace_keys
    apply_update_set u t = continue (delete_keys u.remove_keys t) (replace_keys u.add_keys)

    module _ (json : JsonParser) (q : Indexer) where
      unfoldable pub build_add_and_remove_kvs :
          Option TableData → Option TableData → Key → Result IndexerUpdateSet
      unfolding build_table_rows update_set
      build_add_and_remove_kvs new_data old_data primary_key = do
        new_rows ← build_table_rows p json q new_data
        old_rows ← build_table_rows p json q old_data
        ok (update_set primary_key new_rows old_rows)

      abbrev applied : Result IndexerUpdateSet → s.Tx → Option Error × s.Tx
      applied (err e) t = (some e, t)
      applied (ok u) t = apply_update_set u t

      unfoldable pub update : Option TableData → Option TableData → Key → s.Tx → Option Error × s.Tx
      unfolding build_add_and_remove_kvs apply_update_set
      update new_td old_td primary_key t = elim q.encoded_table_index_name [
        | [] ↦ (some err_table_not_set, t)
        | _ ∷ _ ↦ applied (build_add_and_remove_kvs new_td old_td primary_key) t
      ]

      unfoldable pub delete : TableData → Key → s.Tx → Option Error × s.Tx
      unfolding update
      delete td primary_key t = update none (some td) primary_key t

      unfoldable pub index : TableData → Key → s.Tx → Option Error × s.Tx
      unfolding update
      index td primary_key t = update (some td) none primary_key t

      abbrev removed : TableData → Option Error × s.Tx → Result (Option TableData) × s.Tx
      removed x (none, t) = (ok (some x), t)
      removed x (some e, t) = (err e, t)

      -- The row that was found, which the code answers by its size.
      unfoldable pub read_doc_and_delete : Key → s.Tx → Result (Option TableData) × s.Tx
      unfolding delete
      read_doc_and_delete key t = elim (s.read key t) [
        | err e ↦ (err e, t)
        | ok none ↦ (ok none, t)
        | ok (some x) ↦ removed x (delete x key t)
      ]
