-- ===== src/Index/Phases.antt =====
-- secondary_indexer.go: the two loops of Update.
use tigris.Base.{
  List-cases, ◌≡◌, refl, ap, Option, none, some, List, [], map, inl, inr, All, Error, ok,
}
use mathlib.Core.Path.{subst}
use tigris.Kv.Data.{TableData}
use tigris.Kv.Fdb.{Key}
use tigris.Value.{Parsers}
use tigris.Value.Collation.{Collator}
use tigris.Index.Json.{JsonParser}
use tigris.Index.Row.{IndexRow, Indexer}
use tigris.Index.Rows.{build_table_rows}
use tigris.Index.{
  IndexTx, IsIndexStore, remove_duplicate_rows, build_index_key, create_keys, update_set,
  delete_keys, replace_keys, apply_update_set, build_add_and_remove_kvs, update, err_table_not_set,
}
use tigris.Index.Same.{IsPlain, keys_of_removed}
use tigris.Index.Keys.{continue-ok}

module _ (p : Parsers) (collator : Collator) (s : IndexTx p.Float) where
  module _ (store : IsIndexStore s) (json : JsonParser) (q : Indexer) where
    built :
        (new_td old_td : Option TableData) (pk : Key) (new old : List (IndexRow p.Float))
        → build_table_rows p json q new_td ≡ ok new
        → build_table_rows p json q old_td ≡ ok old
        → build_add_and_remove_kvs p collator s json q new_td old_td pk
          ≡ ok (update_set p collator pk new old)
    unfolding build_add_and_remove_kvs
    built new_td old_td pk new old e e' = rw (e, e') refl

    -- Update, for two documents whose rows are built.
    update_steps :
        (new_td old_td : Option TableData) (pk : Key) (new old : List (IndexRow p.Float))
        (t t' : s.Tx)
        → build_table_rows p json q new_td ≡ ok new
        → build_table_rows p json q old_td ≡ ok old
        → update p collator s json q new_td old_td pk t ≡ (none, t')
        → apply_update_set p collator s (update_set p collator pk new old) t ≡ (none, t')
    unfolding update
    update_steps new_td old_td pk new old t t' e e' h =
        elim (List-cases q.encoded_table_index_name) [
          | inl empty ↦
              let h' : ◌≡◌ {A = Option Error × s.Tx} (some err_table_not_set, t) (none, t') =
                rw (empty, update) at h in
              cc h'
          | inr (x, (xs, full)) ↦ rw (full, update, built new_td old_td pk new old e e') at h
        ]

    -- The two loops of an Update that answers no error.
    pub update_phases :
        (new_td old_td : Option TableData) (pk : Key) (new old : List (IndexRow p.Float))
        (t t' : s.Tx)
        → build_table_rows p json q new_td ≡ ok new
        → build_table_rows p json q old_td ≡ ok old
        → All (IsPlain p collator) new
        → All (IsPlain p collator) old
        → update p collator s json q new_td old_td pk t ≡ (none, t')
        → (t1 : s.Tx) × (delete_keys p collator s
              (map (build_index_key p collator pk) (remove_duplicate_rows p collator new old))
              t
            ≡ (none, t1))
          × (replace_keys p collator s
                (map (build_index_key p collator pk) (remove_duplicate_rows p collator old new))
                t1
              ≡ (none, t'))
    unfolding apply_update_set update_set
    update_phases new_td old_td pk new old t t' e e' plain_new plain_old h =
        let steps = update_steps new_td old_td pk new old t t' e e' h in
        let removes = create_keys p collator pk [] (remove_duplicate_rows p collator new old) in
        let adds = create_keys p collator pk [] (remove_duplicate_rows p collator old new) in
        let t1 = (delete_keys p collator s removes t).1 in
        let (deleted, stored) =
          continue-ok p collator s store (delete_keys p collator s removes t)
            (replace_keys p collator s adds) t' steps in
        (
          t1,
          subst (λ ks. delete_keys p collator s ks t ≡ (none, t1))
              (keys_of_removed p collator pk new old plain_old)
              (ap (λ (e : Option Error). (e, t1)) deleted),
          subst (λ ks. replace_keys p collator s ks t1 ≡ (none, t'))
              (keys_of_removed p collator pk old new plain_new) stored,
        )
