-- ===== src/Kv/KeyValue.antt =====
-- store/kv/fdb.go (the transaction) and store/kv/kv_store.go: rows of bytes, and of TableData.
-- A call that writes returns its error, none where it succeeds, and the transaction.
use mathlib.Core.List.{reverse}
use tigris.Base.{
  Bool, Option, none, some, List, [], ◌∷◌, if◌then◌else◌, Error, Result, ok, err, failed,
}
use tigris.Kv.Data
use tigris.Kv.Data.{Bytes, TableData, Proto}
use tigris.Kv.Fdb.{Fdb, FdbKey, Key, Row}

abbrev pub duplicate_key : Error
duplicate_key = failed "duplicate key value, violates key constraint"

module _ (f : Fdb) where
  open f use {Tx, failure, stored, set, clear_prefix, scan}

  -- convertFDBToStoreErr changes the value of an error, and never to nil: `failure` is its result
  abbrev pub ftx_insert : Bytes → Key → Bytes → Tx → Option Error × Tx
  ftx_insert table key bytes t = elim (failure t) [
    | some e ↦ (some e, t)
    | none ↦ elim (stored t (table, key)) [
      | some _ ↦ (some duplicate_key, t)
      | none ↦ (none, set t (table, key) bytes)
    ]
  ]

  abbrev pub ftx_replace : Bytes → Key → Bytes → Tx → Option Error × Tx
  ftx_replace table key bytes t = (none, set t (table, key) bytes)

  abbrev pub ftx_delete : Bytes → Key → Tx → Option Error × Tx
  ftx_delete table key t = (none, clear_prefix t (table, key))

-- fdbIterator: the rows that are left, and the error that the range ends with.
pub record FdbIterator : Type 0 where
  pub rows : List Row
  pub fail : Option Error

module _ (f : Fdb) where
  open f use {Tx, failure, scan}

  abbrev pub ftx_read : Bytes → Key → Bool → Tx → FdbIterator
  ftx_read table key rev t =
      let rows = scan t (table, key) in
      elim (failure t) [
        | some e ↦ record { rows = []; fail = some e }
        | none ↦ record { rows = if rev then reverse rows else rows; fail = none }
      ]

pub record KeyValue : Type 0 where
  pub key : Key
  pub fdb_key : FdbKey
  pub value : TableData

-- The codec of rows, internal.Encode and internal.Decode.
pub record Codec : Type 0 where
  pub encode : TableData → Result Bytes
  pub decode : Bytes → Result TableData

abbrev pub internal_codec : Proto → Codec
internal_codec p = record { encode = Data.encode p; decode = Data.decode p }

-- KeyValueIterator, whose `err` the calls of Next set.
pub record KeyValueIterator : Type 0 where
  pub base : FdbIterator
  pub err : Option Error

abbrev pub decoded :
    Row → List Row → Option Error → Result TableData → Option KeyValue × KeyValueIterator
decoded r rest fail (ok d) = (
  some (record { key = r.0.1; fdb_key = r.0; value = d }),
  record { base = record { rows = rest; fail = fail }; err = none },
)
decoded r rest fail (err e) =
    (none, record { base = record { rows = rest; fail = fail }; err = some e })

module _ (c : Codec) where
  abbrev pub next_row : List Row → Option Error → Option KeyValue × KeyValueIterator
  next_row [] fail = (none, record { base = record { rows = []; fail = fail }; err = fail })
  next_row (r ∷ rest) fail = decoded r rest fail (c.decode r.1)

  -- Next: the value, or none for false.
  abbrev pub kv_next : KeyValueIterator → Option KeyValue × KeyValueIterator
  kv_next it = next_row it.base.rows it.base.fail

module _ (f : Fdb) (c : Codec) where
  abbrev pub kv_insert : Bytes → Key → TableData → f.Tx → Option Error × f.Tx
  kv_insert table key x t = elim (c.encode x) [
    | err e ↦ (some e, t)
    | ok enc ↦ ftx_insert f table key enc t
  ]

  abbrev pub kv_replace : Bytes → Key → TableData → f.Tx → Option Error × f.Tx
  kv_replace table key x t = elim (c.encode x) [
    | err e ↦ (some e, t)
    | ok enc ↦ ftx_replace f table key enc t
  ]

  abbrev pub kv_delete : Bytes → Key → f.Tx → Option Error × f.Tx
  kv_delete table key t = ftx_delete f table key t

  abbrev pub kv_read : Bytes → Key → Bool → f.Tx → KeyValueIterator
  kv_read table key rev t = record { base = ftx_read f table key rev t; err = none }
