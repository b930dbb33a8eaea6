-- ===== src/Index/Stale/Tests.antt =====
-- An update of a document with two empty texts, which sets the time of the update.
use mathlib.Core.Bool.{true≢false}
use tigris.Base.{
  ℕ, ◌≡◌, ◌≢◌, refl, sym, ◌∙◌, ap, Bool, true, false, some, List, [], ◌∷◌, ◌++◌, map, inl, inr, All,
  eq_iff, arith, str_eq, String,
}
use tigris.Kv.Data.{Bytes, Timestamp, TableData}
use tigris.Schema.FieldType
use tigris.Value.{compare_to, date_time_value, to_secondary_order, secondary_null_order}
use tigris.Value.Collation.{compare_bytes}
use tigris.Index.Row.{IndexRow, Indexer, QueryableField, row_name, new_null_row}
use tigris.Index.Rows.{build_table_rows}
use tigris.Index.{IndexKey, build_index_key, update}
use tigris.Index.Same.{In}
use tigris.Index.Stale.{empty_row, update_empty-stale}
use tigris.Index.Sample.{
  parsers, collator, json, IndexKey-discrete, held_unless, tx, self, store, field, indexer, doc, pk,
}

abbrev key_of : IndexRow ℕ → IndexKey ℕ
key_of r = build_index_key parsers collator pk r

abbrev nick : QueryableField
nick = record field { field_name = "nick" }

abbrev two_fields : Indexer
two_fields = record indexer { queryable_fields = field ∷ (nick ∷ []) }

abbrev at : ℕ → Timestamp
at n = record { seconds = n; nanoseconds = 0 }

-- Created at 1.
abbrev written_at : ℕ → Bytes → TableData
written_at n text = record (doc text) { created_at = some (at 1); updated_at = some (at n) }

abbrev time_row : String → ℕ → IndexRow ℕ
time_row name n = record {
  value = date_time_value (n ∷ []);
  name = name;
  pos = 0;
  stub = false;
  data_type = FieldType.date_time;
  null = false;
}

abbrev times : ℕ → List (IndexRow ℕ)
times n = time_row "_tigris_created_at" 1 ∷ (time_row "_tigris_updated_at" n ∷ [])

other_names :
    (x : IndexRow ℕ) (rows : List (IndexRow ℕ))
    → All (λ r. str_eq (key_of r).name (key_of x).name ≡ false) rows
    → ¬ In (key_of x) (map key_of rows)
other_names x [] h i = elim i [ ]
other_names x (r ∷ rows) (other, h) (inl e) =
    let same = (eq_iff (key_of r).name (key_of x).name).1 (ap (λ (k : IndexKey ℕ). k.name) e) in
    true≢false (sym same ∙ other)
other_names x (r ∷ rows) (other, h) (inr i) = other_names x rows h i

abbrev none_held : IndexKey ℕ → Bool
none_held j = false

tx_empty : IndexKey ℕ → Bool
tx_empty = held_unless (key_of (empty_row "name")) true none_held

tx_null : IndexKey ℕ → Bool
tx_null =
    (update parsers collator tx json two_fields (some (written_at 9 []))
      (some (written_at 2 (34 ∷ []))) pk tx_empty).1

orders_differ : key_of (empty_row "name") ≢ key_of (new_null_row "name" 0)
unfolding build_index_key empty_row new_null_row to_secondary_order secondary_null_order
orders_differ h =
    let h' : ◌≡◌ {A = ℕ} 15 5 = ap (λ (k : IndexKey ℕ). k.order) h in absurd (omega arith)

lacks_null : tx_empty (key_of (new_null_row "name" 0)) ≡ false
unfolding tx_empty held_unless
lacks_null =
    elim (IndexKey-discrete (key_of (empty_row "name")) (key_of (new_null_row "name" 0)))
      as (λ d. (elim d [ yes e ↦ true | no n ↦ false ]) ≡ false) [
        | yes e ↦ absurd (orders_differ e)
        | no n ↦ refl
      ]

update_empty-stale_example :
    (tx_null (key_of (empty_row "name")) ≡ true)
    × (tx_null (key_of (new_null_row "name" 0)) ≡ false)
unfolding tx_null update compare_to compare_bytes build_table_rows empty_row new_null_row tx_empty
    held_unless build_index_key row_name
update_empty-stale_example =
    update_empty-stale parsers collator tx store json two_fields (some (written_at 9 []))
      (some (written_at 2 (34 ∷ []))) pk "name" (times 9) (new_null_row "nick" 0 ∷ []) (times 2)
      (empty_row "nick" ∷ []) tx_empty tx_null refl refl
      ((refl, tt), ((refl, tt), ((refl, tt), tt))) ((refl, tt), ((refl, tt), ((refl, tt), tt)))
      (other_names (empty_row "name") (times 2 ++ empty_row "nick" ∷ []) (refl, (refl, (refl, tt))))
      (other_names (new_null_row "name" 0) (times 9 ++ new_null_row "nick" 0 ∷ [])
        (refl, (refl, (refl, tt))))
      (self (key_of (empty_row "name")) true none_held) lacks_null refl
