-- ===== src/Index/Bulk.antt =====
-- secondary_indexer.go: BuildCollection, the batches that index a whole collection.
use tigris.Base.{
  ℕ, suc, ◌/◌, Bool, ◌||◌, Option, none, some, List, [], ◌∷◌, ltb, leb, ◌==◌, if◌then◌else◌, Error,
  Result, ok, err, str_eq,
}
use tigris.Kv.Data.{Bytes, TableData}
use tigris.Kv.Fdb.{Key}
use tigris.Value.{Parsers}
use tigris.Value.Collation.{Collator}
use tigris.Index.Json.{JsonParser}
use tigris.Index.Row.{Indexer, message}
use tigris.Index.{IndexTx, index}

-- The errors of store/kv/errors.go that are retried, by their messages.
unfoldable pub should_retry_bulk_index : Error → Bool
should_retry_bulk_index e =
    str_eq (message e) "transaction not committed due to conflict with another transaction"
    || (str_eq (message e) "transaction is old to perform reads or be committed"
        || (str_eq (message e) "transaction exceeds limit"
            || str_eq (message e) "operation aborted because the transaction timed out"))

-- How the store answers a batch: to StartTx, or to the reader that is made after it, at either of which
-- the error ends the build before anything is written; and to Commit.
pub record Attempt : Type 0 where
  pub start : Option Error
  pub commit : Option Error

-- A batch over documents `D` and a transaction `S`. The key of a row stands for the rows that a scan
-- from it reads, itself the first: the collection is not written meanwhile, and its reads do not fail.
module _ {D S : Type 0} (index_doc : D → S → Option Error × S) where
  pub record Batch : Type 0 where
    pub count : ℕ
    pub first : Option (List D)
    pub last : Option (List D)
    pub fail : Option Error
    pub tx : S

  abbrev pub indexed : Batch → Option Error × S → (S → Batch) → Batch
  indexed b (none, t) next = next t
  indexed b (some e, t) next = record b { fail = some e; tx = t }

  -- The loop over the rows of a batch, of which one more than `doc_fetch` are read.
  unfoldable pub read_batch : ℕ → ℕ → Option (List D) → Option (List D) → S → List D → Batch
  read_batch doc_fetch count first last t [] = record {
    count = count;
    first = first;
    last = last;
    fail = none;
    tx = t;
  }
  read_batch doc_fetch count first last t (row ∷ rows) =
      let stopped : Batch = record {
        count = count;
        first = first;
        last = last;
        fail = none;
        tx = t;
      } in
      let start = if count == 0 then some (row ∷ rows) else first in
      if leb count doc_fetch
      then indexed (record stopped { first = start; last = some (row ∷ rows) }) (index_doc row t)
          (λ t'. read_batch doc_fetch (suc count) start (some (row ∷ rows)) t' rows)
      else stopped

  -- createBulkDocsReader: the rows from `first`, from `last`, or of the whole table.
  unfoldable pub bulk_docs : List D → Option (List D) → Option (List D) → List D
  bulk_docs docs (some rows) last = rows
  bulk_docs docs none (some rows) = rows
  bulk_docs docs none none = docs

  -- The batches, one for each attempt, over what is committed: its error and the store at the end,
  -- or none where the attempts end before it returns. A failed commit leaves the store as it was.
  unfoldable pub build_batches :
      List D → List Attempt → ℕ → Option (List D) → Option (List D) → S → Option (Option Error × S)
  unfolding read_batch bulk_docs should_retry_bulk_index
  build_batches docs [] doc_fetch first last t = none
  build_batches docs (a ∷ attempts) doc_fetch first last t =
      let b = read_batch doc_fetch 0 first last t (bulk_docs docs first last) in
      let again = build_batches docs attempts (doc_fetch / 2) b.first b.last t in
      let more = build_batches docs attempts doc_fetch none b.last b.tx in
      elim a.start [
        | some e ↦ some (some e, t)
        | none ↦ elim b.fail [
          | some e ↦ some (some e, t)
          | none ↦ elim a.commit [
            | some e ↦ if should_retry_bulk_index e then again else some (some e, t)
            | none ↦ if ltb b.count doc_fetch then some (none, b.tx) else more
          ]
        ]
      ]

  unfoldable pub build_all : List D → List Attempt → S → Option (Option Error × S)
  unfolding build_batches
  build_all docs attempts t = build_batches docs attempts 500 none none t

-- A row of the collection; `from_binary` is keys.FromBinary with the parts of the key.
pub record DocRow : Type 0 where
  pub row_key : Bytes
  pub row_data : TableData

module _ (p : Parsers) (collator : Collator) (s : IndexTx p.Float) (json : JsonParser) (q : Indexer)
    (from_binary : Bytes → Result Key) where
  unfoldable pub index_row : DocRow → s.Tx → Option Error × s.Tx
  unfolding index
  index_row row t = elim (from_binary row.row_key) [
    | err e ↦ (some e, t)
    | ok key ↦ index p collator s json q row.row_data key t
  ]

  unfoldable pub build_collection : List DocRow → List Attempt → s.Tx → Option (Option Error × s.Tx)
  unfolding build_all index_row
  build_collection docs attempts t = build_all index_row docs attempts t
