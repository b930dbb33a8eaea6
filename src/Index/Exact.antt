-- ===== src/Index/Exact.antt =====
-- secondary_indexer.go: Update keeps the index exact.
use tigris.Base.{
  ◌≡◌, ◌≢◌, ◌↔◌, refl, sym, ◌∙◌, ap, true, Option, none, List, map, inl, inr, Bool-cases, All, ok,
}
use mathlib.Core.Bool.{true≢false}
use mathlib.Core.Path.{subst}
use tigris.Kv.Data.{TableData}
use tigris.Kv.Fdb.{Key}
use tigris.Value.{Parsers}
use tigris.Value.Collation.{Collator}
use tigris.Value.Order.{IsSymmetric}
use tigris.Index.Json.{JsonParser}
use tigris.Index.Row.{IndexRow, Indexer}
use tigris.Index.Rows.{build_table_rows}
use tigris.Index.{
  IndexKey, IndexTx, IsIndexStore, is_equal, contains_index_row, remove_duplicate_rows,
  build_index_key, delete_keys, replace_keys, update,
}
use tigris.Index.Same.{
  In, All-In, In-map, In-of_map, contains-In, In-contains, In-removed, removed-In, IsPlain,
  is_equal-symmetric,
}
use tigris.Index.Keys.{deleted-has, deleted-keeps, replaced-keeps, replaced-In, replaced-has}
use tigris.Index.Phases.{update_phases}

module _ (p : Parsers) (collator : Collator) where
  abbrev key_of : Key → IndexRow p.Float → IndexKey p.Float
  key_of = build_index_key p collator

  -- Two rows of one document have different keys.
  abbrev pub IsDistinct : Key → List (IndexRow p.Float) → Type 0
  IsDistinct pk rows =
      (a b : IndexRow p.Float) → In a rows → In b rows → key_of pk a ≡ key_of pk b → a ≡ b

  -- A row of the old document that is equal to one of the new has its key.
  abbrev pub AreFaithful : Key → List (IndexRow p.Float) → List (IndexRow p.Float) → Type 0
  AreFaithful pk old new =
      (o r : IndexRow p.Float)
      → In o old
      → In r new
      → is_equal p collator o r ≡ true
      → key_of pk o ≡ key_of pk r

  module _ (s : IndexTx p.Float) where
    -- Under the primary key, the index holds the keys of the rows and no others.
    abbrev pub IsExact : Key → List (IndexRow p.Float) → s.Tx → Type 0
    IsExact pk rows t =
        (j : IndexKey p.Float)
        → j.primary_key ≡ pk
        → (s.has j t ≡ true) ↔ ((r : IndexRow p.Float) × In r rows × (key_of pk r ≡ j))

    -- What is stored under the other primary keys is the same.
    abbrev pub KeepsOthers : Key → s.Tx → s.Tx → Type 0
    KeepsOthers pk t t' =
        (j : IndexKey p.Float) → j.primary_key ≢ pk → (s.has j t ≡ true) ↔ (s.has j t' ≡ true)

    module _ (store : IsIndexStore s) (law : IsSymmetric p collator) (pk : Key)
        (new old : List (IndexRow p.Float)) (plain_new : All (IsPlain p collator) new)
        (plain_old : All (IsPlain p collator) old) (distinct : IsDistinct pk old)
        (faithful : AreFaithful pk old new) (t t1 t' : s.Tx)
        (deleted : delete_keys p collator s
            (map (build_index_key p collator pk) (remove_duplicate_rows p collator new old))
            t
          ≡ (none, t1))
        (stored : replace_keys p collator s
            (map (build_index_key p collator pk) (remove_duplicate_rows p collator old new))
            t1
          ≡ (none, t')) where
      symmetric :
          (o r : IndexRow p.Float)
          → In o old
          → In r new
          → is_equal p collator o r ≡ true
          → is_equal p collator r o ≡ true
      symmetric o r i j =
          is_equal-symmetric p collator law o r (All-In (IsPlain p collator) o old plain_old i)
            (All-In (IsPlain p collator) r new plain_new j)

      symmetric_back :
          (o r : IndexRow p.Float)
          → In o old
          → In r new
          → is_equal p collator r o ≡ true
          → is_equal p collator o r ≡ true
      symmetric_back o r i j =
          is_equal-symmetric p collator law r o (All-In (IsPlain p collator) r new plain_new j)
            (All-In (IsPlain p collator) o old plain_old i)

      -- A key of an old row that is equal to a new one is not removed.
      kept :
          (o r : IndexRow p.Float)
          → In o old
          → In r new
          → is_equal p collator o r ≡ true
          → ¬ In (key_of pk o) (map (key_of pk) (remove_duplicate_rows p collator new old))
      kept o r i j e k =
          let (o', i', e') =
            In-of_map (key_of pk) (key_of pk o) (remove_duplicate_rows p collator new old) k in
          let (i'', absent) = In-removed p collator new old o' i' in
          let same : o' ≡ o = distinct o' o i'' i e' in
          let there : contains_index_row p collator new o' ≡ true =
            rw same (In-contains p collator new o r j (symmetric o r i j e)) in
          true≢false (sym there ∙ absent)

      new_held :
          (exact : IsExact pk old t) (r : IndexRow p.Float)
          → In r new
          → s.has (key_of pk r) t' ≡ true
      unfolding build_index_key
      new_held exact r j = elim (Bool-cases (contains_index_row p collator old r)) [
        | inr e ↦
            replaced-In p collator s store
              (map (key_of pk) (remove_duplicate_rows p collator old new)) (key_of pk r) t1 t'
              stored
              (In-map (key_of pk) r (remove_duplicate_rows p collator old new)
                (removed-In p collator old new r j e))
        | inl e ↦
            let (o, i, e') = contains-In p collator old r e in
            let one_key = faithful o r i j e' in
            let held : s.has (key_of pk o) t ≡ true = (exact (key_of pk o) refl).1 (o, i, refl) in
            let held1 =
              deleted-keeps p collator s store
                (map (key_of pk) (remove_duplicate_rows p collator new old)) (key_of pk o) t t1
                deleted (kept o r i j e') held in
            rw (← one_key) (
              replaced-keeps p collator s store
                (map (key_of pk) (remove_duplicate_rows p collator old new)) (key_of pk o) t1 t'
                stored held1)
      ]

      of_new :
          (exact : IsExact pk old t) (j : IndexKey p.Float)
          → j.primary_key ≡ pk
          → s.has j t' ≡ true
          → (r : IndexRow p.Float) × In r new × (key_of pk r ≡ j)
      of_new exact j own held =
          elim (replaced-has p collator s store
            (map (key_of pk) (remove_duplicate_rows p collator old new)) j t1 t' stored held) [
              | inl i ↦
                  let (r, i', e) =
                    In-of_map (key_of pk) j (remove_duplicate_rows p collator old new) i in
                  (r, (In-removed p collator old new r i').0, e)
              | inr held1 ↦
                  let (held0, absent) =
                    deleted-has p collator s store
                      (map (key_of pk) (remove_duplicate_rows p collator new old)) j t t1 deleted
                      held1 in
                  let (o, i, e) = (exact j own).0 held0 in
                  elim (Bool-cases (contains_index_row p collator new o)) [
                    | inr missing ↦ absurd (
                        absent (
                          subst
                            (λ k. In k (map (key_of pk) (remove_duplicate_rows p collator new old)))
                            e
                            (In-map (key_of pk) o (remove_duplicate_rows p collator new old)
                              (removed-In p collator new old o i missing))))
                    | inl there ↦
                        let (r, i', e') = contains-In p collator new o there in
                        (r, i', sym (faithful o r i i' (symmetric_back o r i i' e')) ∙ e)
                  ]
            ]

      -- A key of another document is none of the rows'.
      not_own :
          (rows : List (IndexRow p.Float)) (j : IndexKey p.Float)
          → j.primary_key ≢ pk
          → ¬ In j (map (key_of pk) rows)
      unfolding build_index_key
      not_own rows j other i =
          let (r, i', e) = In-of_map (key_of pk) j rows i in
          other (ap (λ (k : IndexKey p.Float). k.primary_key) (sym e))

      others : KeepsOthers pk t t'
      others j other = (
        λ held.
            replaced-keeps p collator s store
              (map (key_of pk) (remove_duplicate_rows p collator old new)) j t1 t' stored
              (deleted-keeps p collator s store
                (map (key_of pk) (remove_duplicate_rows p collator new old)) j t t1 deleted
                (not_own (remove_duplicate_rows p collator new old) j other) held),
        λ held.
            elim (replaced-has p collator s store
              (map (key_of pk) (remove_duplicate_rows p collator old new)) j t1 t' stored held) [
                | inl i ↦ absurd (not_own (remove_duplicate_rows p collator old new) j other i)
                | inr held1 ↦
                    (deleted-has p collator s store
                      (map (key_of pk) (remove_duplicate_rows p collator new old)) j t t1 deleted
                      held1).0
              ],
      )

      applied-IsExact : IsExact pk old t → IsExact pk new t' × KeepsOthers pk t t'
      applied-IsExact exact = (
        λ j own. (
          of_new exact j own,
          λ found. let (r, i, e) = found in subst (λ k. s.has k t' ≡ true) e (new_held exact r i),
        ),
        others,
      )

    module _ (store : IsIndexStore s) (json : JsonParser) (q : Indexer) where
      -- Update keeps the index exact: where it held, under the primary key of a document, the keys of
      -- the old rows and no others, it then holds those of the new rows and no others, and the keys
      -- of other documents are as before. No error is answered, the rows of both documents are built,
      -- none of them stands for a nested array, the old rows have different keys, and an old row that
      -- is equal to a new one has its key.
      pub update-IsExact :
          (new_td old_td : Option TableData) (pk : Key) (new old : List (IndexRow p.Float))
          (t t' : s.Tx)
          → build_table_rows p json q new_td ≡ ok new
          → build_table_rows p json q old_td ≡ ok old
          → All (IsPlain p collator) new
          → All (IsPlain p collator) old
          → IsDistinct pk old
          → AreFaithful pk old new
          → IsExact pk old t
          → IsSymmetric p collator
          → update p collator s json q new_td old_td pk t ≡ (none, t')
          → IsExact pk new t' × KeepsOthers pk t t'
      update-IsExact new_td old_td pk new old t t' e e' plain_new plain_old distinct faithful exact
            law h =
          let (t1, deleted, stored) =
            update_phases p collator s store json q new_td old_td pk new old t t' e e' plain_new
              plain_old h in
          applied-IsExact store law pk new old plain_new plain_old distinct faithful t t1 t' deleted
            stored exact
