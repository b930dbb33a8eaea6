-- ===== src/Transaction/Tests.antt =====
-- The theorems on sessions, over a store that counts its calls.
use tigris.Base.{ℕ, suc, ◌≡◌, refl, inl, none, some, [], ◌∷◌, map, ok}
use tigris.Transaction.Session.{TableKey, TxStore, TxSession, active, start_tx}
use tigris.Transaction.Session.Life.{
  delete_op, commit_op, rollback_op, perform, at_start, after_op, IsLive, Reachable-IsLive,
  gone_reply, run, run-ends,
}

abbrev counting : TxStore
counting = record {
  Tx = ℕ;
  Iterator = ℕ;
  Future = ℕ;
  begin_tx = ok 0;
  insert = λ table key x t. (none, suc t);
  replace = λ table key x u t. (none, suc t);
  delete = λ table key t. (none, suc t);
  read = λ table key rev t. (ok t, suc t);
  read_range = λ table l r i rev t. (ok t, suc t);
  set_versionstamped_value = λ key value t. (none, suc t);
  set_versionstamped_key = λ key value t. (none, suc t);
  atomic_add = λ table key n t. (none, suc t);
  atomic_read = λ table key t. (ok t, suc t);
  get = λ key i t. (t, suc t);
  range_size = λ table l r t. (ok t, suc t);
  commit = λ t. none;
  rollback = λ t. none;
}

abbrev row : TableKey
row = record { table = 1 ∷ []; index_parts = [] }

abbrev fresh : TxSession counting
fresh = record { k_tx = some 0; state = active }

fresh-start : start_tx counting ≡ ok fresh
unfolding start_tx
fresh-start = refl

Reachable-IsLive_example :
    IsLive counting (perform counting commit_op (perform counting (delete_op row) fresh).1).1
Reachable-IsLive_example =
    Reachable-IsLive counting
      (perform counting commit_op (perform counting (delete_op row) fresh).1).1
      (after_op (after_op (at_start fresh-start) (delete_op row)) commit_op)

run-ends_example :
    run counting (rollback_op ∷ delete_op row ∷ commit_op ∷ []) (perform counting commit_op fresh).1
    ≡ (
      map gone_reply (rollback_op ∷ delete_op row ∷ commit_op ∷ []),
      (perform counting commit_op fresh).1,
    )
run-ends_example =
    run-ends counting fresh commit_op (rollback_op ∷ delete_op row ∷ commit_op ∷ [])
      (at_start fresh-start) (inl refl)
