-- ===== src/Index/Stale.antt =====
-- secondary_indexer.go: an empty text and null are equal rows with different keys.
mod Tests
use mathlib.Core.Path.{subst}
use mathlib.Core.Bool.{true≢false}
use tigris.Base.{
  ◌≡◌, refl, sym, ◌∙◌, Bool, true, false, Option, none, List, [], ◌∷◌, ◌++◌, map, ◌⊎◌, inl, inr,
  All, append-All, ok, String,
}
use text.Mathlib.TextPositions.{eq_refl}
use tigris.Kv.Data.{TableData}
use tigris.Kv.Fdb.{Key}
use tigris.Schema.FieldType
use tigris.Value.{Parsers, null_value, compare_to}
use tigris.Value.Collation.{Collator}
use tigris.Index.Json.{JsonParser}
use tigris.Index.Row.{IndexRow, Indexer, row_name, new_null_row}
use tigris.Index.Rows.{build_table_rows}
use tigris.Index.{
  IndexTx, IsIndexStore, is_equal, contains_index_row, remove_duplicate_rows, build_index_key,
  update,
}
use tigris.Index.Same.{In, In-map, In-of_map, In-contains, In-removed, IsPlain}
use tigris.Index.Keys.{deleted-keeps, replaced-keeps, replaced-has, deleted-has}
use tigris.Index.Phases.{update_phases}

-- The row of a field of type string that holds the empty text.
unfoldable pub empty_row : {F : Type 0} → String → IndexRow F
empty_row name = record {
  value = null_value;
  name = name;
  pos = 0;
  stub = false;
  data_type = FieldType.string;
  null = false;
}

pub In-middle : {A : Type 0} (x : A) (xs ys : List A) → In x (xs ++ x ∷ ys)
In-middle x [] ys = inl refl
In-middle x (z ∷ zs) ys = inr (In-middle x zs ys)

In-append :
    {A : Type 0} (x y : A) (xs ys : List A) → In x (xs ++ y ∷ ys) → In x (xs ++ ys) ⊎ (y ≡ x)
In-append x y [] ys (inl e) = inr e
In-append x y [] ys (inr i) = inl i
In-append x y (z ∷ zs) ys (inl e) = inl (inl e)
In-append x y (z ∷ zs) ys (inr i) = elim (In-append x y zs ys i) [
  | inl j ↦ inl (inr j)
  | inr e ↦ inr e
]

append_within-All :
    {A : Type 0} (P : A → Type 0) (y : A) (xs ys : List A)
    → P y
    → All P (xs ++ ys)
    → All P (xs ++ y ∷ ys)
append_within-All P y [] ys p h = (p, h)
append_within-All P y (x ∷ xs) ys p (q, h) = (q, append_within-All P y xs ys p h)

unheld : (b : Bool) → ¬ (b ≡ true) → b ≡ false
unheld true h = absurd (h refl)
unheld false h = refl

module _ (p : Parsers) (collator : Collator) where
  empty-equals-null :
      (name : String) → is_equal p collator (empty_row name) (new_null_row name 0) ≡ true
  unfolding is_equal empty_row new_null_row row_name compare_to
  empty-equals-null name = rw (eq_refl name) refl

  null-equals-empty :
      (name : String) → is_equal p collator (new_null_row name 0) (empty_row name) ≡ true
  unfolding is_equal empty_row new_null_row row_name compare_to
  null-equals-empty name = rw (eq_refl name) refl

  module _ (s : IndexTx p.Float) (store : IsIndexStore s) (json : JsonParser) (q : Indexer) where
    -- The key of a row is none of what is left, if a row of the other document equals it.
    not_left :
        (pk : Key) (before after others : List (IndexRow p.Float)) (own equal : IndexRow p.Float)
        → In equal others
        → is_equal p collator equal own ≡ true
        → ¬ In
            (build_index_key p collator pk own)
            (map (build_index_key p collator pk) (before ++ after))
        → ¬ In (build_index_key p collator pk own) (
            map
              (build_index_key p collator pk)
              (remove_duplicate_rows p collator others (before ++ own ∷ after)))
    not_left pk before after others own equal there e absent i =
        let (r, j, one_key) =
          In-of_map (build_index_key p collator pk) (build_index_key p collator pk own)
            (remove_duplicate_rows p collator others (before ++ own ∷ after)) i in
        let (k, missing) = In-removed p collator others (before ++ own ∷ after) r j in
        elim (In-append r own before after k) [
          | inl another ↦ absent (
              subst (λ x. In x (map (build_index_key p collator pk) (before ++ after))) one_key
                (In-map (build_index_key p collator pk) r (before ++ after) another))
          | inr same ↦
              let found : contains_index_row p collator others r ≡ true =
                rw (← same) (In-contains p collator others own equal there e) in
              true≢false (sym found ∙ missing)
        ]

    null-IsPlain : (name : String) → IsPlain p collator (new_null_row name 0)
    unfolding new_null_row
    null-IsPlain name = (refl, tt)

    empty-IsPlain : (name : String) → IsPlain p collator (empty_row name)
    unfolding empty_row
    empty-IsPlain name = (refl, tt)

    -- A text that was empty and is set to null, or is removed where the index is not sparse, keeps the key
    -- of the empty text in the index: Update neither deletes it nor stores the key of null, by which such
    -- documents are found. The row of the text stands anywhere among the indexed rows of its document, and
    -- the other rows of the two documents may differ, as that of the time of the update does. None of the
    -- rows is of a nested array; the index has the key of the empty text and lacks that of null, and no
    -- other row of the old document has the first, and none of the new one the second. No error is answered.
    pub update_empty-stale :
        (new_td old_td : Option TableData) (pk : Key) (name : String)
        (before after old_before old_after : List (IndexRow p.Float)) (t t' : s.Tx)
        → build_table_rows p json q new_td ≡ ok (before ++ new_null_row name 0 ∷ after)
        → build_table_rows p json q old_td ≡ ok (old_before ++ empty_row name ∷ old_after)
        → All (IsPlain p collator) (before ++ after)
        → All (IsPlain p collator) (old_before ++ old_after)
        → ¬ In
            (build_index_key p collator pk (empty_row name))
            (map (build_index_key p collator pk) (old_before ++ old_after))
        → ¬ In
            (build_index_key p collator pk (new_null_row name 0))
            (map (build_index_key p collator pk) (before ++ after))
        → s.has (build_index_key p collator pk (empty_row name)) t ≡ true
        → s.has (build_index_key p collator pk (new_null_row name 0)) t ≡ false
        → update p collator s json q new_td old_td pk t ≡ (none, t')
        → (s.has (build_index_key p collator pk (empty_row name)) t' ≡ true)
          × (s.has (build_index_key p collator pk (new_null_row name 0)) t' ≡ false)
    update_empty-stale new_td old_td pk name before after old_before old_after t t' e e' plain
          old_plain no_empty no_null held lacks h =
        let null_row = new_null_row name 0 in
        let text_row = empty_row name in
        let key_of = build_index_key p collator pk in
        let new = before ++ null_row ∷ after in
        let old = old_before ++ text_row ∷ old_after in
        let (t1, deleted, stored) =
          update_phases p collator s store json q new_td old_td pk new old t t' e e'
            (append_within-All (IsPlain p collator) null_row before after (null-IsPlain name) plain)
            (append_within-All (IsPlain p collator) text_row old_before old_after
              (empty-IsPlain name) old_plain)
            h in
        (
          replaced-keeps p collator s store (map key_of (remove_duplicate_rows p collator old new))
              (key_of text_row) t1 t' stored
              (deleted-keeps p collator s store
                (map key_of (remove_duplicate_rows p collator new old)) (key_of text_row) t t1
                deleted
                (not_left pk old_before old_after new text_row null_row
                  (In-middle null_row before after) (null-equals-empty name) no_empty)
                held),
          unheld (s.has (key_of null_row) t') (λ there.
              elim (replaced-has p collator s store
                (map key_of (remove_duplicate_rows p collator old new)) (key_of null_row) t1 t'
                stored there) [
                  | inl i ↦
                      not_left pk before after old null_row text_row
                        (In-middle text_row old_before old_after) (empty-equals-null name) no_null i
                  | inr there1 ↦ true≢false (
                      sym
                        (deleted-has p collator s store
                          (map key_of (remove_duplicate_rows p collator new old)) (key_of null_row)
                          t t1 deleted there1).0
                      ∙ lacks)
                ]),
        )
