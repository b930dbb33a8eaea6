-- ===== src/Metadata/Queue/Worker.antt =====
-- server/metadata/queue.go: Peek, and Complete and RenewLease of a worker.
use tigris.Base.{
  ℕ, zero, suc, ◌≡◌, refl, sym, true, Option, none, some, List, [], ◌∷◌, str_eq, eq_iff,
  if◌then◌else◌, take, Error, ok, Bool-cases, inl, inr, >>=-eq-ok, ok-injective,
}
use tigris.Kv.Data.{Timestamp, TableData, Bytes}
use tigris.Metadata.Queue.{
  QueueTx, QueueItem, Json, get_key, decode_item, peek_rows, peek, find_rows, find, dequeue,
  complete, renew_lease, renew_dequeued, max_priority, max_id,
}

module _ (s : QueueTx) (json : Json) (subspace_name : Bytes) where
  -- The rows are those of the items, in order.
  pub data Decodes : List TableData → List QueueItem → Type 0 where
    no_rows : Decodes [] []
    next_row :
        {x : TableData} {item : QueueItem} {rows : List TableData} {items : List QueueItem}
        → decode_item s json subspace_name x ≡ ok item
        → Decodes rows items
        → Decodes (x ∷ rows) (item ∷ items)

  peek_rows-take :
      (n : ℕ) (rows : List TableData) (items : List QueueItem)
      → Decodes rows items
      → peek_rows s json subspace_name n rows none ≡ ok (take n items, none)
  unfolding peek_rows
  peek_rows-take zero [] [] no_rows = refl
  peek_rows-take zero _ _ (next_row e d) = refl
  peek_rows-take (suc n) [] [] no_rows = refl
  peek_rows-take (suc n) _ _ (next_row {rows = rows} {items = items} e d) =
      rw (e, peek_rows-take n rows items d)

  -- Where the range up to now is read without an error and each of its rows decodes, Peek answers
  -- the first `max` items of the range, in order, and no error.
  pub peek-take :
      (now max : ℕ) (t : s.Tx) (rows : List TableData) (items : List QueueItem)
      → s.read_range none (get_key subspace_name now max_priority max_id) t ≡ ok (rows, none)
      → Decodes rows items
      → peek s json subspace_name now max t ≡ ok (take max items, none)
  unfolding peek
  peek-take now max t rows items e d = rw e (peek_rows-take max rows items d)

  find_rows-own :
      (item : QueueItem) (rows : List TableData) (fail : Option Error) (found : QueueItem)
      → find_rows s json subspace_name item rows fail ≡ ok found
      → found ≡ item
  unfolding find_rows
  find_rows-own item [] none found h = cc h
  find_rows-own item [] (some e) found h = cc h
  find_rows-own item (x ∷ rows) fail found h =
      let (other, h1, h2) =
        >>=-eq-ok (decode_item s json subspace_name x)
          (λ (other : QueueItem).
            if str_eq item.id other.id
            then ok item
            else find_rows s json subspace_name item rows fail)
          h in
      elim (Bool-cases (str_eq item.id other.id)) [
        | inl e ↦ sym (ok-injective (rw e at h2))
        | inr e ↦ find_rows-own item rows fail found (rw e at h2)
      ]

  pub find-own :
      (item found : QueueItem) (t : s.Tx)
      → find s json subspace_name item t ≡ ok found
      → found ≡ item
  unfolding find
  find-own item found t h =
      let (r, h1, h2) =
        >>=-eq-ok
          (s.read_range (some (get_key subspace_name item.vesting 0 item.id))
            (get_key subspace_name item.vesting max_priority item.id) t)
          (λ (r : List TableData × Option Error). find_rows s json subspace_name item r.0 r.1) h in
      find_rows-own item r.0 r.1 found h2

  -- Where Find finds the item, Complete removes it and RenewLease removes it and enqueues it again,
  -- whatever lease the stored item has: neither answers that another worker has claimed it.
  pub lease_unchecked :
      (now : ℕ) (stamp : Timestamp) (item found : QueueItem) (lease_time : ℕ) (t : s.Tx)
      → find s json subspace_name item t ≡ ok found
      → (complete s json subspace_name item t ≡ dequeue s json subspace_name item t)
        × (renew_lease s json subspace_name now stamp item lease_time t
            ≡ renew_dequeued s json subspace_name now stamp item lease_time
                (dequeue s json subspace_name item t))
  unfolding complete renew_lease
  lease_unchecked now stamp item found lease_time t h =
      let own = find-own item found t h in
      let same : str_eq item.lease_id item.lease_id ≡ true =
        (eq_iff item.lease_id item.lease_id).1 refl in
      let h' : find s json subspace_name item t ≡ ok item = rw own at h in
      (rw (complete, h', same), rw (renew_lease, h', same))
