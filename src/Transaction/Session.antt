-- ===== src/Transaction/Session.antt =====
-- server/transaction/manager.go: TxSession, over any store of package kv.
pub mod Life
use tigris.Base.{
  ℕ, Bool, Option, none, some, Error, Result, ok, err, internal, panic, ◌>>=◌, if◌then◌else◌,
}
use tigris.Kv.Data.{Bytes, TableData}
use tigris.Kv.Fdb.{Key}

-- keys.Key: a table and the parts of an index.
pub record TableKey : Type 0 where
  pub table : Bytes
  pub index_parts : Key

-- The interfaces kv.TxStore and kv.Tx, by what a session calls of them.
pub record TxStore : Type 1 where
  pub Tx : Type 0
  pub Iterator : Type 0
  pub Future : Type 0
  pub begin_tx : Result Tx
  pub insert : Bytes → Key → TableData → Tx → Option Error × Tx
  pub replace : Bytes → Key → TableData → Bool → Tx → Option Error × Tx
  pub delete : Bytes → Key → Tx → Option Error × Tx
  pub read : Bytes → Key → Bool → Tx → Result Iterator × Tx
  pub read_range : Bytes → Option Key → Option Key → Bool → Bool → Tx → Result Iterator × Tx
  pub set_versionstamped_value : Bytes → Bytes → Tx → Option Error × Tx
  pub set_versionstamped_key : Bytes → Bytes → Tx → Option Error × Tx
  pub atomic_add : Bytes → Key → ℕ → Tx → Option Error × Tx
  pub atomic_read : Bytes → Key → Tx → Result ℕ × Tx
  pub get : Bytes → Bool → Tx → Future × Tx
  pub range_size : Bytes → Option Key → Option Key → Tx → Result ℕ × Tx
  pub commit : Tx → Option Error
  pub rollback : Tx → Option Error

pub data SessionState : Type 0 where
  created active ended : SessionState

abbrev pub err_session_is_not_started : Error
err_session_is_not_started = internal "session not started"

abbrev pub err_session_is_gone : Error
err_session_is_gone = internal "session is gone"

abbrev pub nil_pointer : Error
nil_pointer = panic "nil pointer dereference"

-- The lock makes each operation one step.
module _ (kv : TxStore) where
  -- `k_tx` is none where the field is nil.
  pub record TxSession : Type 0 where
    pub k_tx : Option kv.Tx
    pub state : SessionState

  unfoldable pub new_tx_session : TxSession
  new_tx_session = record { k_tx = none; state = created }

  abbrev pub start_with : Result kv.Tx → TxSession → Option Error × TxSession
  start_with (err e) s = (some e, record s { k_tx = none })
  start_with (ok t) s = (none, record { k_tx = some t; state = active })

  unfoldable pub start : TxSession → Option Error × TxSession
  start s = elim s.state [
    | created ↦ start_with kv.begin_tx s
    | active ↦ (some (internal "session state is misused"), s)
    | ended ↦ (some (internal "session state is misused"), s)
  ]

  unfoldable pub validate_session : TxSession → Option Error
  validate_session s = elim s.state [
    | ended ↦ some err_session_is_gone
    | created ↦ some err_session_is_not_started
    | active ↦ none
  ]

  abbrev pub on_tx :
      {R : Type 0} → (Error → R) → (kv.Tx → R × kv.Tx) → Option kv.Tx → TxSession → R × TxSession
  on_tx fail call none s = (fail nil_pointer, s)
  on_tx fail call (some t) s = let (r, t') = call t in (r, record s { k_tx = some t' })

  -- What each operation does around its call of the transaction.
  unfoldable pub validated :
      {R : Type 0} → (Error → R) → (kv.Tx → R × kv.Tx) → TxSession → R × TxSession
  unfolding validate_session
  validated fail call s = elim (validate_session s) [
    | some e ↦ (fail e, s)
    | none ↦ on_tx fail call s.k_tx s
  ]

  unfoldable pub session_insert : TableKey → TableData → TxSession → Option Error × TxSession
  unfolding validated
  session_insert key x s = validated some (kv.insert key.table key.index_parts x) s

  unfoldable pub session_replace :
      TableKey → TableData → Bool → TxSession → Option Error × TxSession
  unfolding validated
  session_replace key x is_update s =
      validated some (kv.replace key.table key.index_parts x is_update) s

  unfoldable pub session_delete : TableKey → TxSession → Option Error × TxSession
  unfolding validated
  session_delete key s = validated some (kv.delete key.table key.index_parts) s

  unfoldable pub session_read : TableKey → Bool → TxSession → Result kv.Iterator × TxSession
  unfolding validated
  session_read key rev s = validated err (kv.read key.table key.index_parts rev) s

  -- Without either key the code dereferences nil.
  abbrev pub ranged :
      {A : Type 0}
      → (Bytes → Option Key → Option Key → kv.Tx → Result A × kv.Tx)
      → Option TableKey
      → Option TableKey
      → kv.Tx
      → Result A × kv.Tx
  ranged call (some l) (some r) t = call l.table (some l.index_parts) (some r.index_parts) t
  ranged call (some l) none t = call l.table (some l.index_parts) none t
  ranged call none (some r) t = call r.table none (some r.index_parts) t
  ranged call none none t = (err nil_pointer, t)

  unfoldable pub session_read_range :
      Option TableKey → Option TableKey → Bool → Bool → TxSession → Result kv.Iterator × TxSession
  unfolding validated
  session_read_range l r is_snapshot rev s =
      validated err (ranged (λ table lk rk t. kv.read_range table lk rk is_snapshot rev t) l r) s

  unfoldable pub session_set_versionstamped_value :
      Bytes → Bytes → TxSession → Option Error × TxSession
  unfolding validated
  session_set_versionstamped_value key value s =
      validated some (kv.set_versionstamped_value key value) s

  unfoldable pub session_set_versionstamped_key :
      Bytes → Bytes → TxSession → Option Error × TxSession
  unfolding validated
  session_set_versionstamped_key key value s =
      validated some (kv.set_versionstamped_key key value) s

  unfoldable pub session_atomic_add : TableKey → ℕ → TxSession → Option Error × TxSession
  unfolding validated
  session_atomic_add key value s = validated some (kv.atomic_add key.table key.index_parts value) s

  unfoldable pub session_atomic_read : TableKey → TxSession → Result ℕ × TxSession
  unfolding validated
  session_atomic_read key s = validated err (kv.atomic_read key.table key.index_parts) s

  unfoldable pub session_get : Bytes → Bool → TxSession → Result kv.Future × TxSession
  unfolding validated
  session_get key is_snapshot s =
      validated err (λ t. let (future, t') = kv.get key is_snapshot t in (ok future, t')) s

  unfoldable pub session_range_size :
      Option TableKey → Option TableKey → TxSession → Result ℕ × TxSession
  unfolding validated
  session_range_size l r s = validated err (ranged kv.range_size l r) s

  -- Commit does not look at the state.
  unfoldable pub session_commit : TxSession → Option Error × TxSession
  session_commit s = elim s.k_tx [
    | none ↦ (some nil_pointer, record s { state = ended })
    | some t ↦ (kv.commit t, record { k_tx = none; state = ended })
  ]

  unfoldable pub session_rollback : TxSession → Option Error × TxSession
  session_rollback s = elim s.k_tx [
    | none ↦ (none, s)
    | some t ↦ (kv.rollback t, record { k_tx = none; state = ended })
  ]

  abbrev pub started : Option Error × TxSession → Result TxSession
  started (none, s) = ok s
  started (some e, s) = err e

  -- Manager.StartTx; the store is not nil.
  unfoldable pub start_tx : Result TxSession
  unfolding start new_tx_session
  start_tx = started (start new_tx_session)
