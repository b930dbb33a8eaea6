-- ===== src/Transaction/Session/Life.antt =====
-- server/transaction/manager.go: sequences of operations of a session.
use tigris.Base.{
  ℕ, ◌≡◌, refl, ◌⊎◌, Bool, Option, none, some, List, [], ◌∷◌, map, Error, Result, ok, err,
  Result-cases, ok-injective, inl, inr,
}
use tigris.Kv.Data.{Bytes, TableData}
use tigris.Transaction.Session.{
  TableKey, TxStore, active, ended, err_session_is_gone, nil_pointer, TxSession, start_tx, start,
  new_tx_session, ranged, validated, validate_session, session_insert, session_replace,
  session_delete, session_read, session_read_range, session_set_versionstamped_value,
  session_set_versionstamped_key, session_atomic_add, session_atomic_read, session_get,
  session_range_size, session_commit, session_rollback,
}

-- The operations of a session that was handed out.
pub data Op : Type 0 where
  insert_op : TableKey → TableData → Op
  replace_op : TableKey → TableData → Bool → Op
  delete_op : TableKey → Op
  read_op : TableKey → Bool → Op
  read_range_op : Option TableKey → Option TableKey → Bool → Bool → Op
  set_value_op set_key_op : Bytes → Bytes → Op
  atomic_add_op : TableKey → ℕ → Op
  atomic_read_op : TableKey → Op
  get_op : Bytes → Bool → Op
  range_size_op : Option TableKey → Option TableKey → Op
  commit_op rollback_op : Op

-- The error that an operation answers, if any.
abbrev failure_of : {A : Type 0} → Result A → Option Error
failure_of (ok a) = none
failure_of (err e) = some e

-- The answers of a session that has ended.
abbrev pub gone_reply : Op → Option Error
gone_reply commit_op = some nil_pointer
gone_reply rollback_op = none
gone_reply _ = some err_session_is_gone

module _ (kv : TxStore) where
  abbrev only_failure : {A : Type 0} → Result A × TxSession kv → Option Error × TxSession kv
  only_failure (r, s) = (failure_of r, s)

  unfoldable pub perform : Op → TxSession kv → Option Error × TxSession kv
  perform (insert_op key x) s = session_insert kv key x s
  perform (replace_op key x is_update) s = session_replace kv key x is_update s
  perform (delete_op key) s = session_delete kv key s
  perform (read_op key rev) s = only_failure (session_read kv key rev s)
  perform (read_range_op l r is_snapshot rev) s =
      only_failure (session_read_range kv l r is_snapshot rev s)
  perform (set_value_op key value) s = session_set_versionstamped_value kv key value s
  perform (set_key_op key value) s = session_set_versionstamped_key kv key value s
  perform (atomic_add_op key value) s = session_atomic_add kv key value s
  perform (atomic_read_op key) s = only_failure (session_atomic_read kv key s)
  perform (get_op key is_snapshot) s = only_failure (session_get kv key is_snapshot s)
  perform (range_size_op l r) s = only_failure (session_range_size kv l r s)
  perform commit_op s = session_commit kv s
  perform rollback_op s = session_rollback kv s

  -- What operations in any order make of a session that StartTx hands out.
  pub data Reachable : TxSession kv → Type 0 where
    at_start : {s : TxSession kv} → start_tx kv ≡ ok s → Reachable s
    after_op : {s : TxSession kv} → Reachable s → (op : Op) → Reachable (perform op s).1

  abbrev IsActive : TxSession kv → Type 0
  IsActive s = (s.state ≡ active) × ((t : kv.Tx) × (s.k_tx ≡ some t))

  abbrev IsOver : TxSession kv → Type 0
  IsOver s = (s.state ≡ ended) × (s.k_tx ≡ none)

  -- A session that was handed out is active with a transaction, or over without one.
  abbrev pub IsLive : TxSession kv → Type 0
  IsLive s = IsActive s ⊎ IsOver s

  validated-IsLive :
      {R : Type 0} (fail : Error → R) (call : kv.Tx → R × kv.Tx) (s : TxSession kv)
      → IsLive s
      → IsLive (validated kv fail call s).1
  unfolding validated validate_session
  validated-IsLive fail call s (inl (e, (t, e'))) = rw (e, e') (inl (refl, ((call t).1, refl)))
  validated-IsLive fail call s (inr (e, e')) = rw e (inr (refl, e'))

  commit-none :
      (s : TxSession kv)
      → s.state ≡ ended
      → s.k_tx ≡ none
      → session_commit kv s ≡ (some nil_pointer, s)
  unfolding session_commit
  commit-none s e e' = rw (e', e) refl

  perform-IsLive : (op : Op) (s : TxSession kv) → IsLive s → IsLive (perform op s).1
  unfolding perform session_insert session_replace session_delete session_read session_read_range
      session_set_versionstamped_value session_set_versionstamped_key session_atomic_add
      session_atomic_read session_get session_range_size session_commit session_rollback
  perform-IsLive commit_op s (inl (e, (t, e'))) = rw e' (inr (refl, refl))
  perform-IsLive commit_op s (inr (e, e')) = rw e' (inr (refl, refl))
  perform-IsLive rollback_op s (inl (e, (t, e'))) = rw e' (inr (refl, refl))
  perform-IsLive rollback_op s (inr (e, e')) = rw e' (inr (e, refl))
  perform-IsLive (insert_op key x) s h =
      validated-IsLive some (kv.insert key.table key.index_parts x) s h
  perform-IsLive (replace_op key x u) s h =
      validated-IsLive some (kv.replace key.table key.index_parts x u) s h
  perform-IsLive (delete_op key) s h =
      validated-IsLive some (kv.delete key.table key.index_parts) s h
  perform-IsLive (read_op key rev) s h =
      validated-IsLive err (kv.read key.table key.index_parts rev) s h
  perform-IsLive (read_range_op l r i rev) s h =
      validated-IsLive err (ranged kv (λ table lk rk t. kv.read_range table lk rk i rev t) l r) s h
  perform-IsLive (set_value_op key value) s h =
      validated-IsLive some (kv.set_versionstamped_value key value) s h
  perform-IsLive (set_key_op key value) s h =
      validated-IsLive some (kv.set_versionstamped_key key value) s h
  perform-IsLive (atomic_add_op key value) s h =
      validated-IsLive some (kv.atomic_add key.table key.index_parts value) s h
  perform-IsLive (atomic_read_op key) s h =
      validated-IsLive err (kv.atomic_read key.table key.index_parts) s h
  perform-IsLive (get_op key i) s h =
      validated-IsLive err (λ t. let (future, t') = kv.get key i t in (ok future, t')) s h
  perform-IsLive (range_size_op l r) s h = validated-IsLive err (ranged kv kv.range_size l r) s h

  perform-over : (op : Op) (s : TxSession kv) → IsOver s → perform op s ≡ (gone_reply op, s)
  unfolding perform validated validate_session session_insert session_replace session_delete
      session_read session_read_range session_set_versionstamped_value
      session_set_versionstamped_key session_atomic_add session_atomic_read session_get
      session_range_size session_commit session_rollback
  perform-over commit_op s (e, e') = commit-none s e e'
  perform-over rollback_op s (e, e') = rw e'
  perform-over op s (e, e') = rw e

  start_tx-IsLive : (s : TxSession kv) → start_tx kv ≡ ok s → IsLive s
  unfolding start_tx start new_tx_session
  start_tx-IsLive s h = elim (Result-cases kv.begin_tx) [
    | inl (t, e) ↦ rw (← ok-injective (rw e at h)) (inl (refl, (t, refl)))
    | inr (x, e) ↦ let wrong : Result.err x ≡ ok s = rw e at h in cc wrong
  ]

  -- Whatever operations ran on a session that StartTx handed out, it is active and has a
  -- transaction, or it has ended and has none.
  pub Reachable-IsLive : (s : TxSession kv) → Reachable s → IsLive s
  Reachable-IsLive s (at_start h) = start_tx-IsLive s h
  Reachable-IsLive _ (after_op {s} r op) = perform-IsLive op s (Reachable-IsLive s r)

  -- The answers to a sequence of operations, and the session after it.
  unfoldable pub run : List Op → TxSession kv → List (Option Error) × TxSession kv
  run [] s = ([], s)
  run (op ∷ ops) s = let (r, s') = perform op s in let (rs, s'') = run ops s' in (r ∷ rs, s'')

  run-over : (ops : List Op) (s : TxSession kv) → IsOver s → run ops s ≡ (map gone_reply ops, s)
  unfolding run
  run-over [] s h = refl
  run-over (op ∷ ops) s h = rw (perform-over op s h, run-over ops s h)

  perform-ends :
      (op : Op) (s : TxSession kv)
      → IsLive s
      → (op ≡ commit_op) ⊎ (op ≡ rollback_op)
      → IsOver (perform op s).1
  unfolding perform session_commit session_rollback
  perform-ends op s (inl (e, (t, e'))) (inl c) = rw (c, e') (refl, refl)
  perform-ends op s (inl (e, (t, e'))) (inr c) = rw (c, e') (refl, refl)
  perform-ends op s (inr (e, e')) (inl c) = rw (c, e') (refl, refl)
  perform-ends op s (inr (e, e')) (inr c) = rw (c, e') (e, refl)

  -- After a commit or a rollback of a session that StartTx handed out, be it the first or not and
  -- whatever it answered, no sequence of operations changes the session: a commit is a nil pointer
  -- dereference, a rollback answers nothing, and every other operation that the session is gone.
  pub run-ends :
      (s : TxSession kv) (op : Op) (ops : List Op)
      → Reachable s
      → (op ≡ commit_op) ⊎ (op ≡ rollback_op)
      → run ops (perform op s).1 ≡ (map gone_reply ops, (perform op s).1)
  run-ends s op ops r which =
      run-over ops (perform op s).1 (perform-ends op s (Reachable-IsLive s r) which)
