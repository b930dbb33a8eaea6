-- ===== src/Metadata/Queue/Lease.antt =====
-- server/metadata/queue.go: ObtainLease, by what is stored.
use tigris.Base.{
  ℕ, ◌+◌, ◌≡◌, ◌≢◌, refl, sym, ◌∙◌, ap, String, false, Option, none, some, str_eq, Error, Result,
  ok, err, Result-cases, Bool-cases, inl, inr, ok-injective,
}
use tigris.Kv.Data.{Timestamp, TableData, Bytes}
use tigris.Metadata.Queue.{
  QueueTx, IsStore, QueueItem, Json, item_key, encode_item, enqueue, find, dequeue, obtain_lease,
  lease_dequeued, leased, replaced, err_missing_id,
}
use tigris.Metadata.Queue.Worker.{find-own}

module _ (s : QueueTx) (store : IsStore s) (json : Json) (subspace_name : Bytes) where
  abbrev at : QueueItem → s.Tx → Option TableData
  at item t = s.stored (item_key s json subspace_name item) t

  -- The item is stored under its key, and under no other key did anything change.
  abbrev Stores : Timestamp → QueueItem → s.Tx → s.Tx → Type 0
  Stores stamp item t t' =
      ((x : TableData) × (encode_item s json subspace_name stamp item ≡ ok x)
        × (at item t' ≡ some x))
      × ((other : QueueItem)
          → ◌≢◌ (item_key s json subspace_name item) (item_key s json subspace_name other)
          → at other t' ≡ at other t)

  replaced-Stores :
      (stamp : Timestamp) (item item' : QueueItem) (t t' : s.Tx)
      → replaced s json subspace_name item (encode_item s json subspace_name stamp item) t
        ≡ (none, item', t')
      → (item' ≡ item) × Stores stamp item t t'
  replaced-Stores stamp item item' t t' h =
      elim (Result-cases (encode_item s json subspace_name stamp item)) [
        | inr (x, e) ↦
            let h' : ◌≡◌ {A = Option Error × QueueItem × s.Tx} (some x, item, t) (none, item', t') =
              rw e at h in
            cc h'
        | inl (x, e) ↦
            let r = s.replace (item_key s json subspace_name item) x false t in
            let h' : ◌≡◌ {A = Option Error × QueueItem × s.Tx} (r.0, item, r.1) (none, item', t') =
              rw e at h in
            let e0 : r.0 ≡ none = ap (λ (q : Option Error × QueueItem × s.Tx). q.0) h' in
            let e1 : item ≡ item' = ap (λ (q : Option Error × QueueItem × s.Tx). q.1) h' in
            let e2 : r.1 ≡ t' = ap (λ (q : Option Error × QueueItem × s.Tx). q.2) h' in
            (
              sym e1,
              (
                (
                  x,
                  e,
                  ap (at item) (sym e2)
                      ∙ store.stored-replace_self (item_key s json subspace_name item) x false t e0,
                ),
                λ other ne.
                    ap (at other) (sym e2)
                    ∙ store.stored-replace_ne (item_key s json subspace_name item)
                        (item_key s json subspace_name other) x false t ne,
              ),
            )
      ]

  enqueue-Stores :
      (now : ℕ) (stamp : Timestamp) (item item' : QueueItem) (delay : ℕ) (t t' : s.Tx)
      → enqueue s json subspace_name now stamp item delay t ≡ (none, item', t')
      → (item' ≡ record item { vesting = now + delay })
        × Stores stamp (record item { vesting = now + delay }) t t'
  unfolding enqueue
  enqueue-Stores now stamp item item' delay t t' h = elim (Bool-cases (str_eq item.id "")) [
    | inl e ↦
        let h' : ◌≡◌ {A = Option Error × QueueItem × s.Tx} (some err_missing_id, item, t)
            (none, item', t') =
          rw e at h in
        cc h'
    | inr e ↦ replaced-Stores stamp (record item { vesting = now + delay }) item' t t' (rw e at h)
  ]

  abbrev Leased : ℕ → Timestamp → String → QueueItem → ℕ → QueueItem → s.Tx → s.Tx → Type 0
  Leased now stamp lease_id item lease_time got t t' =
      (got ≡ record item { lease_id = lease_id; vesting = now + lease_time })
      × Stores stamp got t t'

  leased-Leased :
      (now : ℕ) (stamp : Timestamp) (lease_id : String) (item got : QueueItem) (lease_time : ℕ)
      (t t' : s.Tx) (r : Option Error × QueueItem × s.Tx)
      → enqueue s json subspace_name now stamp (record item { lease_id = lease_id }) lease_time t
        ≡ r
      → leased s json subspace_name r ≡ (ok got, t')
      → Leased now stamp lease_id item lease_time got t t'
  leased-Leased now stamp lease_id item got lease_time t t' (some e, i, t1) h k =
      let k' : ◌≡◌ {A = Result QueueItem × s.Tx} (err e, t1) (ok got, t') = k in cc k'
  leased-Leased now stamp lease_id item got lease_time t t' (none, i, t1) h k =
      let e1 : i ≡ got = ok-injective (ap (λ (q : Result QueueItem × s.Tx). q.0) k) in
      let e2 : t1 ≡ t' = ap (λ (q : Result QueueItem × s.Tx). q.1) k in
      let (e3, stores) =
        enqueue-Stores now stamp (record item { lease_id = lease_id }) i lease_time t t1 h in
      (sym e1 ∙ e3, rw (sym e1 ∙ e3, ← e2) stores)

  -- The lease is stored, the row of the item as it was found is gone, and the others are as they
  -- were.
  abbrev pub Obtained : ℕ → Timestamp → String → QueueItem → ℕ → QueueItem → s.Tx → s.Tx → Type 0
  Obtained now stamp lease_id item lease_time got t t' =
      (got ≡ record item { lease_id = lease_id; vesting = now + lease_time })
      × ((x : TableData) × (encode_item s json subspace_name stamp got ≡ ok x)
          × (at got t' ≡ some x))
      × (◌≢◌ (item_key s json subspace_name got) (item_key s json subspace_name item)
          → at item t' ≡ none)
      × ((other : QueueItem)
          → ◌≢◌ (item_key s json subspace_name got) (item_key s json subspace_name other)
          → ◌≢◌ (item_key s json subspace_name item) (item_key s json subspace_name other)
          → at other t' ≡ at other t)

  lease_dequeued-Obtained :
      (now : ℕ) (stamp : Timestamp) (lease_id : String) (item got : QueueItem) (lease_time : ℕ)
      (t t' : s.Tx) (r : Option Error × s.Tx)
      → dequeue s json subspace_name item t ≡ r
      → lease_dequeued s json subspace_name now stamp lease_id item lease_time r ≡ (ok got, t')
      → Obtained now stamp lease_id item lease_time got t t'
  unfolding dequeue
  lease_dequeued-Obtained now stamp lease_id item got lease_time t t' (some e, t1) h k =
      let k' : ◌≡◌ {A = Result QueueItem × s.Tx} (err e, t1) (ok got, t') = k in cc k'
  lease_dequeued-Obtained now stamp lease_id item got lease_time t t' (none, t1) h k =
      let key = item_key s json subspace_name item in
      let e0 : (s.delete key t).0 ≡ none = ap (λ (q : Option Error × s.Tx). q.0) h in
      let e1 : (s.delete key t).1 ≡ t1 = ap (λ (q : Option Error × s.Tx). q.1) h in
      let (e, (row, others)) =
        leased-Leased now stamp lease_id item got lease_time t1 t'
          (enqueue s json subspace_name now stamp (record item { lease_id = lease_id }) lease_time
            t1)
          refl k in
      (
        e,
        row,
        (λ ne. others item ne ∙ ap (at item) (sym e1) ∙ store.stored-delete_self key t e0),
        λ other ne ne'.
            others other ne
            ∙ ap (at other) (sym e1)
            ∙ store.stored-delete_ne key (item_key s json subspace_name other) t ne',
      )

  -- A lease that ObtainLease answers is the item with the new lease and a vesting time that is
  -- `lease_time` from now. It is stored under its key, the row under the key that the item had is
  -- gone where the two keys differ, and every other item is stored as before. The transaction is a
  -- store of keys.
  pub obtain_lease-Obtained :
      (now : ℕ) (stamp : Timestamp) (lease_id : String) (item got : QueueItem) (lease_time : ℕ)
      (t t' : s.Tx)
      → obtain_lease s json subspace_name now stamp lease_id item lease_time t ≡ (ok got, t')
      → Obtained now stamp lease_id item lease_time got t t'
  unfolding obtain_lease
  obtain_lease-Obtained now stamp lease_id item got lease_time t t' h =
      elim (Result-cases (find s json subspace_name item t)) [
        | inr (x, e) ↦
            let h' : ◌≡◌ {A = Result QueueItem × s.Tx} (err x, t) (ok got, t') =
              rw (e, obtain_lease) at h in
            cc h'
        | inl (found, e) ↦
            let own = find-own s json subspace_name item found t e in
            let e' : find s json subspace_name item t ≡ ok item = rw own at e in
            lease_dequeued-Obtained now stamp lease_id item got lease_time t t'
              (dequeue s json subspace_name item t) refl (rw (e', obtain_lease) at h)
      ]
