-- ===== src/Metadata/Queue.antt =====
-- server/metadata/queue.go: QueueSubspace, over what it calls of a transaction.
pub mod Worker
pub mod Lease
use tigris.Base.{
  ℕ, zero, suc, ◌+◌, ◌/◌, ◌≡◌, ◌≢◌, String, Bool, true, false, Option, none, some, List, [], ◌∷◌,
  str_eq, ltb, if◌then◌else◌, Error, Result, ok, err, failed, ◌>>=◌,
}
use tigris.Kv.Data.{Bytes, Timestamp, TableData, new_table_data_with_version}
use tigris.Kv.Fdb.{Key, str, int, bytes}
use tigris.Transaction.Session.{TableKey}

-- A transaction: what is stored under a key, its operations, and the rows between two keys with the
-- error at which they end.
pub record QueueTx : Type 1 where
  pub Tx : Type 0
  pub stored : TableKey → Tx → Option TableData
  pub replace : TableKey → TableData → Bool → Tx → Option Error × Tx
  pub delete : TableKey → Tx → Option Error × Tx
  pub read_range : Option TableKey → TableKey → Tx → Result (List TableData × Option Error)

-- The laws of a store of keys that the queue relies on, where a call answers no error.
pub record IsStore (s : QueueTx) : Type 0 where
  pub stored-replace_self :
      (k : TableKey) (x : TableData) (u : Bool) (t : s.Tx)
      → (s.replace k x u t).0 ≡ none
      → s.stored k (s.replace k x u t).1 ≡ some x
  pub stored-replace_ne :
      (k j : TableKey) (x : TableData) (u : Bool) (t : s.Tx)
      → k ≢ j
      → s.stored j (s.replace k x u t).1 ≡ s.stored j t
  pub stored-delete_self :
      (k : TableKey) (t : s.Tx) → (s.delete k t).0 ≡ none → s.stored k (s.delete k t).1 ≡ none
  pub stored-delete_ne :
      (k j : TableKey) (t : s.Tx) → k ≢ j → s.stored j (s.delete k t).1 ≡ s.stored j t

abbrev pub err_missing_id : Error
err_missing_id = failed "cannot enqueue without an id"

abbrev pub err_not_found : Error
err_not_found = failed "QueueItem was not found"

abbrev pub err_claimed : Error
err_claimed = failed "another worker has claimed this item"

abbrev pub err_json_de_serialize : Error
err_json_de_serialize = failed "failed to unmarshal queue item"

abbrev pub err_json_serialize : Error
err_json_serialize = failed "failed to marshal queue item"

-- `vesting` is in nanoseconds.
pub record QueueItem : Type 0 where
  pub id : String
  pub priority : ℕ
  pub error_count : ℕ
  pub lease_id : String
  pub item_data : Bytes
  pub vesting : ℕ

-- `id` is a new UUID; the zero time of Go is not before the epoch here.
unfoldable pub new_queue_item : String → ℕ → Bytes → QueueItem
new_queue_item id priority item_data = record {
  id = id;
  priority = priority;
  error_count = 0;
  lease_id = "";
  item_data = item_data;
  vesting = 0;
}

abbrev pub max_id : String
max_id = "$MAX"

abbrev pub max_priority : ℕ
max_priority = 10

-- The JSON of an item.
pub record Json : Type 0 where
  pub marshal : QueueItem → Option Bytes
  pub unmarshal : Bytes → Option QueueItem

abbrev last_part : String → Key
last_part id = if str_eq id max_id then int 255 ∷ [] else str id ∷ []

-- The subspace's name is the queue's, the version of keys is the byte 1, and so is itemsSpace.
unfoldable pub get_key : Bytes → ℕ → ℕ → String → TableKey
get_key subspace_name vesting priority id = record {
  table = subspace_name;
  index_parts = bytes (1 ∷ []) ∷ int 1 ∷ int (vesting / 1000000) ∷ int priority ∷ last_part id;
}

module _ (s : QueueTx) (json : Json) (subspace_name : Bytes) where
  abbrev pub item_key : QueueItem → TableKey
  item_key item = get_key subspace_name item.vesting item.priority item.id

  abbrev decoded : Option QueueItem → Result QueueItem
  decoded none = err err_json_de_serialize
  decoded (some item) = ok item

  abbrev pub decode_item : TableData → Result QueueItem
  decode_item x = decoded (json.unmarshal x.raw_data)

  abbrev pub encoded : Timestamp → Option Bytes → Result TableData
  encoded now none = err err_json_serialize
  encoded now (some b) = ok (new_table_data_with_version now b 1)

  abbrev pub encode_item : Timestamp → QueueItem → Result TableData
  encode_item stamp item = encoded stamp (json.marshal item)

  abbrev pub replaced : QueueItem → Result TableData → s.Tx → Option Error × QueueItem × s.Tx
  replaced item (err e) t = (some e, item, t)
  replaced item (ok x) t = let (e, t') = s.replace (item_key item) x false t in (e, item, t')

  -- Enqueue at `now`, with the item as the call leaves it. `stamp` is the time in the row.
  unfoldable pub enqueue : ℕ → Timestamp → QueueItem → ℕ → s.Tx → Option Error × QueueItem × s.Tx
  unfolding get_key
  enqueue now stamp item delay t =
      if str_eq item.id ""
      then (some err_missing_id, item, t)
      else (let item' : QueueItem = record item { vesting = now + delay } in
          replaced item' (encode_item stamp item') t)

  -- The loop of Peek, with the error at which the rows end.
  unfoldable pub peek_rows :
      ℕ → List TableData → Option Error → Result (List QueueItem × Option Error)
  peek_rows zero rows fail = ok ([], elim rows [ [] ↦ fail | _ ∷ _ ↦ none ])
  peek_rows (suc n) [] fail = ok ([], fail)
  peek_rows (suc n) (x ∷ rows) fail = do
    item ← decode_item x
    rest ← peek_rows n rows fail
    ok (item ∷ rest.0, rest.1)

  unfoldable pub peek : ℕ → ℕ → s.Tx → Result (List QueueItem × Option Error)
  unfolding peek_rows get_key
  peek now max t = do
    r ← s.read_range none (get_key subspace_name now max_priority max_id) t
    peek_rows max r.0 r.1

  abbrev at_end : Option Error → Result QueueItem
  at_end none = err err_not_found
  at_end (some e) = err e

  -- The loop of Find.
  unfoldable pub find_rows : QueueItem → List TableData → Option Error → Result QueueItem
  find_rows item [] fail = at_end fail
  find_rows item (x ∷ rows) fail = do
    found ← decode_item x
    if str_eq item.id found.id then ok item else find_rows item rows fail

  unfoldable pub find : QueueItem → s.Tx → Result QueueItem
  unfolding find_rows get_key
  find item t = do
    r ←
        s.read_range (some (get_key subspace_name item.vesting 0 item.id))
          (get_key subspace_name item.vesting max_priority item.id) t
    find_rows item r.0 r.1

  unfoldable pub dequeue : QueueItem → s.Tx → Option Error × s.Tx
  unfolding get_key
  dequeue item t = s.delete (item_key item) t

  abbrev pub leased : Option Error × QueueItem × s.Tx → Result QueueItem × s.Tx
  leased (none, item, t) = (ok item, t)
  leased (some e, item, t) = (err e, t)

  abbrev pub lease_dequeued :
      ℕ → Timestamp → String → QueueItem → ℕ → Option Error × s.Tx → Result QueueItem × s.Tx
  lease_dequeued now stamp lease_id item lease_time (some e, t) = (err e, t)
  lease_dequeued now stamp lease_id item lease_time (none, t) =
      leased (enqueue now stamp (record item { lease_id = lease_id }) lease_time t)

  -- ObtainLease; `lease_id` is a new UUID.
  unfoldable pub obtain_lease :
      ℕ → Timestamp → String → QueueItem → ℕ → s.Tx → Result QueueItem × s.Tx
  unfolding find dequeue enqueue
  obtain_lease now stamp lease_id item lease_time t = elim (find item t) [
    | err e ↦ (err e, t)
    | ok found ↦ lease_dequeued now stamp lease_id found lease_time (dequeue found t)
  ]

  unfoldable pub complete : QueueItem → s.Tx → Option Error × s.Tx
  unfolding find dequeue
  complete item t = elim (find item t) [
    | err e ↦ (some e, t)
    | ok found ↦
        if str_eq found.lease_id item.lease_id then dequeue item t else (some err_claimed, t)
  ]

  abbrev pub renew_dequeued :
      ℕ → Timestamp → QueueItem → ℕ → Option Error × s.Tx → Option Error × QueueItem × s.Tx
  renew_dequeued now stamp item lease_time (some e, t) = (some e, item, t)
  renew_dequeued now stamp item lease_time (none, t) = enqueue now stamp item lease_time t

  unfoldable pub renew_lease :
      ℕ → Timestamp → QueueItem → ℕ → s.Tx → Option Error × QueueItem × s.Tx
  unfolding find dequeue enqueue
  renew_lease now stamp item lease_time t = elim (find item t) [
    | err e ↦ (some e, item, t)
    | ok found ↦
        if str_eq found.lease_id item.lease_id
        then renew_dequeued now stamp item lease_time (dequeue item t)
        else (some err_claimed, item, t)
  ]
