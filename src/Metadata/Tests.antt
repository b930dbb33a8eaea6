-- ===== src/Metadata/Tests.antt =====
-- The theorems on the queue, over a transaction that is a list of keys with their rows.
use tigris.Base.{
  ℕ, ◌≡◌, ◌≢◌, refl, sym, ◌∙◌, ap, String, Bool, true, false, Option, none, some, List, [], ◌∷◌,
  map, ok, if◌then◌else◌, Bool-cases, inl, inr,
}
use tigris.Kv.Data.{Bytes, Timestamp, TableData, new_table_data_with_version}
use tigris.Kv.Fdb.{Part}
use tigris.Kv.Listed.{key_eq, key_eq_iff}
use tigris.Transaction.Session.{TableKey}
use tigris.Metadata.Queue.{
  QueueTx, IsStore, QueueItem, Json, get_key, item_key, peek, find, dequeue, obtain_lease, complete,
  renew_lease, renew_dequeued,
}
use tigris.Metadata.Queue.Worker.{Decodes, no_rows, next_row, peek-take, lease_unchecked}
use tigris.Metadata.Queue.Lease.{Obtained, obtain_lease-Obtained}

abbrev Rows : Type 0
Rows = List (TableKey × TableData)

abbrev same_key : TableKey → TableKey → Bool
same_key a b = key_eq (a.table, a.index_parts) (b.table, b.index_parts)

same_key_refl : (a : TableKey) → same_key a a ≡ true
same_key_refl a = (key_eq_iff (a.table, a.index_parts) (a.table, a.index_parts)).1 refl

same_key-ne : (a b : TableKey) → a ≢ b → same_key a b ≡ false
same_key-ne a b ne = elim (Bool-cases (same_key a b)) [
  | inr e ↦ e
  | inl e ↦
      let p = (key_eq_iff (a.table, a.index_parts) (b.table, b.index_parts)).0 e in
      absurd (ne (ap (λ (q : Bytes × List Part). record { table = q.0; index_parts = q.1 }) p))
]

abbrev stored : TableKey → Rows → Option TableData
stored k [] = none
stored k ((j, x) ∷ rows) = if same_key j k then some x else stored k rows

abbrev deleted : TableKey → Rows → Rows
deleted k [] = []
deleted k ((j, x) ∷ rows) = if same_key j k then deleted k rows else (j, x) ∷ deleted k rows

stored-deleted_self : (k : TableKey) (rows : Rows) → stored k (deleted k rows) ≡ none
stored-deleted_self k [] = refl
stored-deleted_self k ((j, x) ∷ rows) = elim (Bool-cases (same_key j k)) [
  | inl e ↦ rw e (stored-deleted_self k rows)
  | inr e ↦ rw (e, e) (stored-deleted_self k rows)
]

stored-deleted_ne :
    (k j : TableKey) (rows : Rows) → k ≢ j → stored j (deleted k rows) ≡ stored j rows
stored-deleted_ne k j [] ne = refl
stored-deleted_ne k j ((i, x) ∷ rows) ne = elim (Bool-cases (same_key i k)) [
  | inl e ↦
      let p = (key_eq_iff (i.table, i.index_parts) (k.table, k.index_parts)).0 e in
      let i-k : i ≡ k =
        ap (λ (q : Bytes × List Part). record { table = q.0; index_parts = q.1 }) p in
      rw (e, same_key-ne i j (λ q. ne (sym i-k ∙ q))) (stored-deleted_ne k j rows ne)
  | inr e ↦ elim (Bool-cases (same_key i j)) [
    | inl e' ↦ rw (e, e')
    | inr e' ↦ rw (e, e') (stored-deleted_ne k j rows ne)
  ]
]

abbrev listed_tx : QueueTx
listed_tx = record {
  Tx = Rows;
  stored = stored;
  replace = λ k x u rows. (none, (k, x) ∷ deleted k rows);
  delete = λ k rows. (none, deleted k rows);
  read_range = λ l r rows. ok (map (λ (row : TableKey × TableData). row.1) rows, none);
}

listed_tx-IsStore : IsStore listed_tx
listed_tx-IsStore = record {
  stored-replace_self = λ k x u rows e. rw (same_key_refl k);
  stored-replace_ne = λ k j x u rows ne. rw (same_key-ne k j ne) (stored-deleted_ne k j rows ne);
  stored-delete_self = λ k rows e. stored-deleted_self k rows;
  stored-delete_ne = λ k j rows ne. stored-deleted_ne k j rows ne;
}

abbrev job : String → ℕ → ℕ → QueueItem
job lease_id priority vesting = record {
  id = "job";
  priority = priority;
  error_count = 0;
  lease_id = lease_id;
  item_data = [];
  vesting = vesting;
}

-- A format for the times of jobs, all of whose leases are another worker's.
abbrev from_bytes : Bytes → Option QueueItem
from_bytes (priority ∷ vesting ∷ []) = some (job "theirs" priority vesting)
from_bytes _ = none

abbrev json : Json
json = record { marshal = λ item. some (item.priority ∷ item.vesting ∷ []); unmarshal = from_bytes }

abbrev stamp : Timestamp
stamp = record { seconds = 1; nanoseconds = 0 }

abbrev jobs : Bytes
jobs = 113 ∷ []

abbrev row_of : QueueItem → TableKey × TableData
row_of item = (
  item_key listed_tx json jobs item,
  new_table_data_with_version stamp (item.priority ∷ item.vesting ∷ []) 1,
)

abbrev waiting : Rows
waiting = row_of (job "theirs" 1 2000000) ∷ row_of (job "theirs" 2 3000000) ∷ []

waiting-Decodes :
    Decodes listed_tx json jobs
      (map (λ (row : TableKey × TableData). row.1) waiting)
      (job "theirs" 1 2000000 ∷ job "theirs" 2 3000000 ∷ [])
unfolding new_table_data_with_version
waiting-Decodes = next_row refl (next_row refl no_rows)

peek-take_example :
    peek listed_tx json jobs 5000000 1 waiting ≡ ok (job "theirs" 1 2000000 ∷ [], none)
peek-take_example =
    peek-take listed_tx json jobs 5000000 1 waiting
      (map (λ (row : TableKey × TableData). row.1) waiting)
      (job "theirs" 1 2000000 ∷ job "theirs" 2 3000000 ∷ []) refl waiting-Decodes

mine-found : find listed_tx json jobs (job "mine" 1 2000000) waiting ≡ ok (job "mine" 1 2000000)
unfolding find new_table_data_with_version
mine-found = refl

lease_unchecked_example :
    (complete listed_tx json jobs (job "mine" 1 2000000) waiting
      ≡ dequeue listed_tx json jobs (job "mine" 1 2000000) waiting)
    × (renew_lease listed_tx json jobs 4000000 stamp (job "mine" 1 2000000) 9000000 waiting
        ≡ renew_dequeued listed_tx json jobs 4000000 stamp
            (job "mine" 1 2000000)
            9000000
            (dequeue listed_tx json jobs (job "mine" 1 2000000) waiting))
lease_unchecked_example =
    lease_unchecked listed_tx json jobs 4000000 stamp (job "mine" 1 2000000) (job "mine" 1 2000000)
      9000000 waiting mine-found

abbrev one_waiting : Rows
one_waiting = row_of (job "theirs" 1 2000000) ∷ []

abbrev after_lease : Rows
after_lease = row_of (job "new" 1 13000000) ∷ []

lease-obtained :
    obtain_lease listed_tx json jobs 4000000 stamp "new" (job "" 1 2000000) 9000000 one_waiting
    ≡ (ok (job "new" 1 13000000), after_lease)
unfolding obtain_lease new_table_data_with_version get_key
lease-obtained = rw (same_key_refl (get_key jobs 2000000 1 "job")) refl

obtain_lease-Obtained_example :
    Obtained listed_tx listed_tx-IsStore json jobs 4000000 stamp "new"
      (job "" 1 2000000)
      9000000
      (job "new" 1 13000000)
      one_waiting
      after_lease
obtain_lease-Obtained_example =
    obtain_lease-Obtained listed_tx listed_tx-IsStore json jobs 4000000 stamp "new"
      (job "" 1 2000000) (job "new" 1 13000000) 9000000 one_waiting after_lease lease-obtained
