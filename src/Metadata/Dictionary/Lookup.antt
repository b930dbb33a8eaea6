-- ===== src/Metadata/Dictionary/Lookup.antt =====
-- server/metadata/dictionary.go: a database that is created, read and dropped.
use mathlib.Core.Path.{subst}
use mathlib.Core.Bool.{true≢false}
use tigris.Base.{
  ℕ, ◌≡◌, ◌≢◌, refl, sym, ◌∙◌, ap, inl, inr, String, true, false, Option, none, some, List, [], ◌∷◌,
  Error, ok, err, Bool-cases, str_eq, eq_iff, some-injective,
}
use tigris.Kv.Data.{Bytes, Timestamp, TableData, new_table_data_with_version}
use tigris.Kv.Fdb.{Key, str}
use tigris.Transaction.Session.{TableKey}
use tigris.Metadata.Subspace.{
  MetaTx, IsMetaStore, is_whole, insert_metadata, get_payload, err_not_found,
}
use tigris.Metadata.Entries.{
  DatabaseMetadata, db_key, dropped_db_key, validate_db_args, decode_database,
}
use tigris.Metadata.Dictionary.{
  NameRegistry, Jsons, allocate_token, answered, create_database, drop_database, get_database,
}
use tigris.Metadata.Dictionary.Counter.{answered-ok, with_id-ok}
use tigris.Metadata.Dictionary.Whole.{db_key-is_whole}
use tigris.Metadata.Dictionary.Effects.{insert_metadata-inserts, Moves, soft_delete_metadata-Moves}

-- The end of the key of a database.
abbrev end_of : Key → String
end_of (a ∷ (b ∷ (c ∷ (d ∷ (str e ∷ rest))))) = e
end_of _ = ""

differ : (a b : String) → str_eq a b ≡ false → a ≢ b
differ a b e h = true≢false (sym ((eq_iff a b).1 h) ∙ e)

keys_apart :
    (table : Bytes) (ns : ℕ) (name : String) → db_key table ns name ≢ dropped_db_key table ns name
unfolding db_key dropped_db_key
keys_apart table ns name h =
    let ends = ap (λ (k : TableKey). end_of k.index_parts) h in
    elim (Bool-cases (str_eq name "")) [
      | inl e ↦ differ "" "dropped" refl (rw e at ends)
      | inr e ↦ differ "created" "dropped" refl (rw e at ends)
    ]

module _ (s : MetaTx) (store : IsMetaStore s) (r : NameRegistry) (json : Jsons)
    (now : Timestamp) where
  -- A read that answers no error finds what is stored.
  get_payload-found :
      (k : TableKey) (x : TableData) (t : s.Tx) (rows : List (Key × TableData))
      → is_whole k.index_parts ≡ true
      → s.read k t ≡ ok (rows, none)
      → s.stored k t ≡ some x
      → get_payload s none k t ≡ ok x
  unfolding get_payload
  get_payload-found k x t [] whole e held =
      let h : ◌≡◌ {A = Option TableData} none (some x) = sym (store.read-missing k t e) ∙ held in cc
  get_payload-found k x t (row ∷ rows) whole e held =
      rw e (ap ok (some-injective (sym (store.read-found k t row rows none whole e) ∙ held)))

  get_payload-missing :
      (k : TableKey) (t : s.Tx) (rows : List (Key × TableData))
      → is_whole k.index_parts ≡ true
      → s.read k t ≡ ok (rows, none)
      → s.stored k t ≡ none
      → get_payload s none k t ≡ err err_not_found
  unfolding get_payload
  get_payload-missing k t [] whole e held = rw e refl
  get_payload-missing k t (row ∷ rows) whole e held =
      let h : ◌≡◌ {A = Option TableData} (some row.1) none =
        sym (store.read-found k t row rows none whole e) ∙ held in
      cc

  created_row :
      (name : String) (ns ver : ℕ) (m : DatabaseMetadata) (t t' : s.Tx)
      → create_database s r json now name ns ver t ≡ (ok m, t')
      → (validate_db_args ns name ≡ none)
        × ((b : Bytes) × (json.database.marshal m ≡ some b)
            × (s.stored (db_key r.encoding ns name) t'
                ≡ some (new_table_data_with_version now b 1)))
  unfolding create_database
  created_row name ns ver m t t' h =
      let meta = λ (id : ℕ).
        let d : DatabaseMetadata = record {
          id = id;
          schema_version = ver;
          min_schema_version = 0;
        } in
        d in
      let k = db_key r.encoding ns name in
      let (id, t1, e, h1) =
        with_id-ok s store r json now (allocate_token s r json now t)
          (λ id t1. answered s r json now (meta id) (
            insert_metadata s now (validate_db_args ns name) k 1 (json.database.marshal (meta id))
              t1))
          m t' h in
      let (same, done) =
        answered-ok s store r json now (meta id) m
          (insert_metadata s now (validate_db_args ns name) k 1 (json.database.marshal (meta id))
            t1)
          t' h1 in
      let (valid, (b, marshalled, inserted)) =
        insert_metadata-inserts s store now (validate_db_args ns name) k 1
          (json.database.marshal (meta id)) t1 t' done in
      let x = new_table_data_with_version now b 1 in
      (
        valid,
        (
          b,
          subst (λ z. json.database.marshal z ≡ some b) same marshalled,
          subst (λ u. s.stored k u ≡ some x) (ap (λ (q : Option Error × s.Tx). q.1) inserted)
              (store.stored-insert_self k x t1 (ap (λ (q : Option Error × s.Tx). q.0) inserted)),
        ),
      )

  dropped_row :
      (name : String) (ns : ℕ) (x : TableData) (t t' : s.Tx)
      → s.stored (db_key r.encoding ns name) t ≡ some x
      → Moves s store (db_key r.encoding ns name) (dropped_db_key r.encoding ns name) t t'
      → (s.stored (db_key r.encoding ns name) t' ≡ none)
        × (s.stored (dropped_db_key r.encoding ns name) t' ≡ some x)
  dropped_row name ns x t t' held (inl (missing, same)) =
      let h : ◌≡◌ {A = Option TableData} none (some x) = sym missing ∙ held in cc
  dropped_row name ns x t t' held (inr (y, held', (t1, deleted, replaced))) =
      let from = db_key r.encoding ns name in
      let to = dropped_db_key r.encoding ns name in
      let snd = λ (q : Option Error × s.Tx). q.1 in
      let gone : s.stored from t1 ≡ none =
        subst (λ u. s.stored from u ≡ none) (ap snd deleted)
          (store.stored-delete_self from t (ap (λ (q : Option Error × s.Tx). q.0) deleted)) in
      (
        subst (λ u. s.stored from u ≡ s.stored from t1) (ap snd replaced)
              (store.stored-replace_ne to from y t1 (λ e. keys_apart r.encoding ns name (sym e)))
            ∙ gone,
        subst (λ u. s.stored to u ≡ some y) (ap snd replaced)
              (store.stored-replace_self to y t1 (ap (λ (q : Option Error × s.Tx). q.0) replaced))
            ∙ sym held'
            ∙ held,
      )

  -- A database that was created is read back with the metadata that the creation answered, and after
  -- a drop it is not found, while the row is kept under the key of dropped names. The operations and
  -- the reads of its key answer no error, and the JSON of a metadata is read as it was written.
  pub create-get-drop :
      (name : String) (ns ver : ℕ) (m : DatabaseMetadata) (t t1 t2 : s.Tx)
      (rows1 rows2 : List (Key × TableData))
      → ((a : DatabaseMetadata) (b : Bytes)
          → json.database.marshal a ≡ some b
          → json.database.unmarshal b ≡ some a)
      → create_database s r json now name ns ver t ≡ (ok m, t1)
      → s.read (db_key r.encoding ns name) t1 ≡ ok (rows1, none)
      → drop_database s r json now name ns t1 ≡ (none, t2)
      → s.read (db_key r.encoding ns name) t2 ≡ ok (rows2, none)
      → (get_database s r json now name ns t1 ≡ ok m)
        × (get_database s r json now name ns t2 ≡ err err_not_found)
        × (s.stored (dropped_db_key r.encoding ns name) t2
            ≡ s.stored (db_key r.encoding ns name) t1)
  unfolding get_database drop_database decode_database new_table_data_with_version
  create-get-drop name ns ver m t t1 t2 rows1 rows2 json_law created read1 dropped read2 =
      let k = db_key r.encoding ns name in
      let (valid, (b, marshalled, held)) = created_row name ns ver m t t1 created in
      let x = new_table_data_with_version now b 1 in
      let whole = db_key-is_whole r.encoding ns name in
      let (gone, kept) = dropped_row name ns x t1 t2 held (
        soft_delete_metadata-Moves s store (validate_db_args ns name) k
          (dropped_db_key r.encoding ns name) t1 t2 whole dropped) in
      (
        rw (valid, get_payload-found k x t1 rows1 (whole valid) read1 held, json_law m b marshalled)
            refl,
        rw (valid, get_payload-missing k t2 rows2 (whole valid) read2 gone) refl,
        kept ∙ sym held,
      )
