-- ===== src/Metadata/Dictionary/Effects.antt =====
-- server/metadata/metadata.go: what a call that answers no error has done.
use tigris.Base.{
  true, ℕ, ◌≡◌, refl, sym, ◌∙◌, ap, ◌⊎◌, inl, inr, Option, none, some, List, [], ◌∷◌, Error, Result,
  ok, err, internal, ok-injective, >>=-eq-ok,
}
use tigris.Kv.Data.{Bytes, Timestamp, TableData, new_table_data_with_version}
use tigris.Kv.Fdb.{Key}
use tigris.Transaction.Session.{TableKey}
use tigris.Metadata.Subspace.{
  MetaTx, IsMetaStore, is_whole, insert_metadata, update_metadata, get_payload,
  soft_delete_metadata, moved, replaced_after, first_row,
}

module _ (s : MetaTx) (store : IsMetaStore s) where
  abbrev Out : Type 0
  Out = Option Error × s.Tx

  pub insert_metadata-inserts :
      (now : Timestamp) (invalid : Option Error) (key : TableKey) (ver : ℕ) (payload : Option Bytes)
      (t t' : s.Tx)
      → insert_metadata s now invalid key ver payload t ≡ (none, t')
      → (invalid ≡ none)
        × ((b : Bytes) × (payload ≡ some b)
            × (s.insert key (new_table_data_with_version now b ver) t ≡ (none, t')))
  unfolding insert_metadata
  insert_metadata-inserts now none key ver (some b) t t' h = (refl, (b, refl, h))
  insert_metadata-inserts now none key ver none t t' h =
      let h' : ◌≡◌ {A = Out} (some (internal "failed to marshal metadata"), t) (none, t') = h in
      cc h'
  insert_metadata-inserts now (some e) key ver payload t t' h =
      let h' : ◌≡◌ {A = Out} (some e, t) (none, t') = h in cc h'

  pub update_metadata-replaces :
      (now : Timestamp) (invalid : Option Error) (key : TableKey) (ver : ℕ) (payload : Option Bytes)
      (t t' : s.Tx)
      → update_metadata s now invalid key ver payload t ≡ (none, t')
      → (b : Bytes) × (payload ≡ some b)
        × (s.replace key (new_table_data_with_version now b ver) t ≡ (none, t'))
  unfolding update_metadata
  update_metadata-replaces now none key ver (some b) t t' h = (b, refl, h)
  update_metadata-replaces now none key ver none t t' h =
      let h' : ◌≡◌ {A = Out} (some (internal "failed to marshal metadata"), t) (none, t') = h in
      cc h'
  update_metadata-replaces now (some e) key ver payload t t' h =
      let h' : ◌≡◌ {A = Out} (some e, t) (none, t') = h in cc h'

  -- What a soft delete that answers no error has done: nothing, where nothing was stored, or a move.
  abbrev pub Moves : TableKey → TableKey → s.Tx → s.Tx → Type 0
  Moves from to t t' =
      ((s.stored from t ≡ none) × (t' ≡ t))
      ⊎ ((x : TableData) × (s.stored from t ≡ some x)
          × ((t1 : s.Tx) × (s.delete from t ≡ (none, t1)) × (s.replace to x t1 ≡ (none, t'))))

  replaced_after-both :
      (to : TableKey) (x : TableData) (p : Out) (t' : s.Tx)
      → replaced_after s to x p ≡ (none, t')
      → (t1 : s.Tx) × (p ≡ (none, t1)) × (s.replace to x t1 ≡ (none, t'))
  replaced_after-both to x (none, t1) t' h = (t1, refl, h)
  replaced_after-both to x (some e, t1) t' h =
      let h' : ◌≡◌ {A = Out} (some e, t1) (none, t') = h in cc h'

  moved-Moves :
      (from to : TableKey) (t t' : s.Tx) (rows : Result (List (Key × TableData) × Option Error))
      → is_whole from.index_parts ≡ true
      → s.read from t ≡ rows
      → moved s from to t rows ≡ (none, t')
      → Moves from to t t'
  moved-Moves from to t t' (err e) whole read h =
      let h' : ◌≡◌ {A = Out} (some e, t) (none, t') = h in cc h'
  moved-Moves from to t t' (ok ([], none)) whole read h =
      inl (store.read-missing from t read, sym (ap (λ (q : Out). q.1) h))
  moved-Moves from to t t' (ok ([], some e)) whole read h =
      let h' : ◌≡◌ {A = Out} (some e, t) (none, t') = h in cc h'
  moved-Moves from to t t' (ok (r ∷ rows, fail)) whole read h = inr (
    r.1,
    store.read-found from t r rows fail whole read,
    replaced_after-both to r.1 (s.delete from t) t' h,
  )

  pub soft_delete_metadata-Moves :
      (invalid : Option Error) (from to : TableKey) (t t' : s.Tx)
      → (invalid ≡ none → is_whole from.index_parts ≡ true)
      → soft_delete_metadata s invalid from to t ≡ (none, t')
      → Moves from to t t'
  unfolding soft_delete_metadata
  soft_delete_metadata-Moves none from to t t' whole h =
      moved-Moves from to t t' (s.read from t) (whole refl) refl h
  soft_delete_metadata-Moves (some e) from to t t' whole h =
      let h' : ◌≡◌ {A = Out} (some e, t) (none, t') = h in cc h'

  first_row-stored :
      (key : TableKey) (t : s.Tx) (rows : List (Key × TableData) × Option Error) (x : TableData)
      → is_whole key.index_parts ≡ true
      → s.read key t ≡ ok rows
      → first_row s rows ≡ ok x
      → s.stored key t ≡ some x
  first_row-stored key t ([], none) x whole e h = cc
  first_row-stored key t ([], some y) x whole e h = cc
  first_row-stored key t (r ∷ rows, fail) x whole e h =
      store.read-found key t r rows fail whole e ∙ ap some (ok-injective h)

  pub get_payload-stored :
      (invalid : Option Error) (key : TableKey) (t : s.Tx) (x : TableData)
      → (invalid ≡ none → is_whole key.index_parts ≡ true)
      → get_payload s invalid key t ≡ ok x
      → (invalid ≡ none) × (s.stored key t ≡ some x)
  unfolding get_payload
  get_payload-stored (some y) key t x whole h = cc
  get_payload-stored none key t x whole h =
      let (rows, e, e') = >>=-eq-ok (s.read key t) (first_row s) h in
      (refl, first_row-stored key t rows x (whole refl) e e')
