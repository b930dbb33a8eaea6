-- ===== src/Index/Tests.antt =====
-- The theorems on the secondary index at concrete documents.
use mathlib.Core.Bool.{true≢false}
use tigris.Base.{
  ℕ, zero, suc, ◌≡◌, refl, sym, ◌∙◌, ap, Bool, true, false, Option, none, some, List, [], ◌∷◌, ◌++◌,
  inl, inr, All, leb, Error, eq_iff, arith, str_eq, failed, length,
}
use tigris.Kv.Data.{Bytes}
use tigris.Value.{compare_to}
use tigris.Value.Collation.{compare_bytes, compare_string}
use tigris.Index.Row.{IndexRow, row_name}
use tigris.Index.Rows.{build_table_rows}
use tigris.Index.{IndexKey, is_equal, build_index_key, update}
use tigris.Index.Same.{In, IsPlain}
use tigris.Index.Bulk.{Attempt, build_all, should_retry_bulk_index}
use tigris.Index.Complete.{Builds, build_all-Builds}
use tigris.Index.Endless.{Retried, build_all-endless}
use tigris.Index.Exact.{IsDistinct, AreFaithful, IsExact, KeepsOthers, update-IsExact}
use tigris.Index.Sample.{
  parsers, collator, symmetric, json, tx, store, indexer, doc, pk, stamp_row, name_row, rows,
  a_text, b_text, rows_a, rows_b,
}

plain : (text : Bytes) → leb 1 (length text) ≡ true → All (IsPlain parsers collator) (rows text)
plain [] h = cc
plain (x ∷ text) h = ((refl, tt), ((refl, tt), ((refl, (refl, refl)), tt)))

abbrev key_of : IndexRow ℕ → IndexKey ℕ
key_of r = build_index_key parsers collator pk r

apart :
    (x y a b : IndexRow ℕ)
    → x ≡ a
    → y ≡ b
    → str_eq (key_of x).name (key_of y).name ≡ false
    → key_of a ≡ key_of b
    → a ≡ b
apart x y a b e f other h =
    let same_name : (key_of x).name ≡ (key_of y).name =
      ap (λ r. (key_of r).name) e
      ∙ ap (λ (k : IndexKey ℕ). k.name) h
      ∙ sym (ap (λ r. (key_of r).name) f) in
    absurd (true≢false (sym ((eq_iff (key_of x).name (key_of y).name).1 same_name) ∙ other))

distinct : (text : Bytes) → IsDistinct parsers collator pk (rows text)
unfolding build_index_key
distinct text a b (inl e) (inl f) h = sym e ∙ f
distinct text a b (inl e) (inr (inl f)) h =
    apart (stamp_row "_tigris_created_at") (stamp_row "_tigris_updated_at") a b e f refl h
distinct text a b (inl e) (inr (inr (inl f))) h =
    apart (stamp_row "_tigris_created_at") (name_row text) a b e f refl h
distinct text a b (inl e) (inr (inr (inr i))) h = elim i [ ]
distinct text a b (inr (inl e)) (inl f) h =
    apart (stamp_row "_tigris_updated_at") (stamp_row "_tigris_created_at") a b e f refl h
distinct text a b (inr (inl e)) (inr (inl f)) h = sym e ∙ f
distinct text a b (inr (inl e)) (inr (inr (inl f))) h =
    apart (stamp_row "_tigris_updated_at") (name_row text) a b e f refl h
distinct text a b (inr (inl e)) (inr (inr (inr i))) h = elim i [ ]
distinct text a b (inr (inr (inl e))) (inl f) h =
    apart (name_row text) (stamp_row "_tigris_created_at") a b e f refl h
distinct text a b (inr (inr (inl e))) (inr (inl f)) h =
    apart (name_row text) (stamp_row "_tigris_updated_at") a b e f refl h
distinct text a b (inr (inr (inl e))) (inr (inr (inl f))) h = sym e ∙ f
distinct text a b (inr (inr (inl e))) (inr (inr (inr i))) h = elim i [ ]
distinct text a b (inr (inr (inr i))) j h = elim i [ ]

unequal :
    (x y o r : IndexRow ℕ)
    → x ≡ o
    → y ≡ r
    → is_equal parsers collator x y ≡ false
    → is_equal parsers collator o r ≡ true
    → key_of o ≡ key_of r
unequal x y o r e f other h =
    let e' : is_equal parsers collator x y ≡ true =
      ap (λ z. is_equal parsers collator z y) e ∙ ap (λ z. is_equal parsers collator o z) f ∙ h in
    absurd (true≢false (sym e' ∙ other))

one_key : (x o r : IndexRow ℕ) → x ≡ o → x ≡ r → key_of o ≡ key_of r
one_key x o r e f = ap key_of (sym e ∙ f)

faithful : AreFaithful parsers collator pk (rows a_text) (rows b_text)
unfolding is_equal compare_to row_name compare_string compare_bytes
faithful o r (inl e) (inl f) h = one_key (stamp_row "_tigris_created_at") o r e f
faithful o r (inl e) (inr (inl f)) h =
    unequal (stamp_row "_tigris_created_at") (stamp_row "_tigris_updated_at") o r e f refl h
faithful o r (inl e) (inr (inr (inl f))) h =
    unequal (stamp_row "_tigris_created_at") (name_row b_text) o r e f refl h
faithful o r (inl e) (inr (inr (inr i))) h = elim i [ ]
faithful o r (inr (inl e)) (inl f) h =
    unequal (stamp_row "_tigris_updated_at") (stamp_row "_tigris_created_at") o r e f refl h
faithful o r (inr (inl e)) (inr (inl f)) h = one_key (stamp_row "_tigris_updated_at") o r e f
faithful o r (inr (inl e)) (inr (inr (inl f))) h =
    unequal (stamp_row "_tigris_updated_at") (name_row b_text) o r e f refl h
faithful o r (inr (inl e)) (inr (inr (inr i))) h = elim i [ ]
faithful o r (inr (inr (inl e))) (inl f) h =
    unequal (name_row a_text) (stamp_row "_tigris_created_at") o r e f refl h
faithful o r (inr (inr (inl e))) (inr (inl f)) h =
    unequal (name_row a_text) (stamp_row "_tigris_updated_at") o r e f refl h
faithful o r (inr (inr (inl e))) (inr (inr (inl f))) h =
    unequal (name_row a_text) (name_row b_text) o r e f refl h
faithful o r (inr (inr (inl e))) (inr (inr (inr i))) h = elim i [ ]
faithful o r (inr (inr (inr i))) j h = elim i [ ]

abbrev none_held : IndexKey ℕ → Bool
none_held j = false

-- The index after the document "a" is indexed.
tx_a : IndexKey ℕ → Bool
tx_a = (update parsers collator tx json indexer (some (doc (34 ∷ a_text))) none pk none_held).1

tx_b : IndexKey ℕ → Bool
tx_b =
    (update parsers collator tx json indexer (some (doc (34 ∷ b_text))) (some (doc (34 ∷ a_text)))
      pk tx_a).1

tx_a-IsExact : IsExact parsers collator tx pk (rows a_text) tx_a
unfolding tx_a update build_table_rows
tx_a-IsExact =
    (update-IsExact parsers collator tx store json indexer (some (doc (34 ∷ a_text))) none pk
      (rows a_text) [] none_held tx_a refl refl (plain a_text refl) tt (λ a b i j h. elim i [ ])
      (λ o r i j h. elim i [ ]) (λ j own. ((λ h. cc), λ found. elim found.1 [ ])) symmetric refl).0

update-IsExact_example :
    IsExact parsers collator tx pk (rows b_text) tx_b × KeepsOthers parsers collator tx pk tx_a tx_b
unfolding tx_b update compare_to compare_string compare_bytes
update-IsExact_example =
    update-IsExact parsers collator tx store json indexer (some (doc (34 ∷ b_text)))
      (some (doc (34 ∷ a_text))) pk (rows b_text) (rows a_text) tx_a tx_b rows_b rows_a
      (plain b_text refl) (plain a_text refl) (distinct a_text) faithful tx_a-IsExact symmetric refl

-- Documents are numbers, and the list of those indexed is the store.
abbrev note : ℕ → List ℕ → Option Error × List ℕ
note d t = (none, d ∷ t)

abbrev carried_out : Attempt
carried_out = record { start = none; commit = none }

abbrev too_large : Attempt
too_large = record { start = none; commit = some (failed "transaction exceeds limit") }

abbrev noted_own : (d : ℕ) (t : List ℕ) → In d (note d t).1
noted_own d t = inl refl

abbrev noted_kept : (d e : ℕ) (t : List ℕ) → In e t → In e (note d t).1
noted_kept d e t i = inr i

build_all-Builds_example :
    Builds note
      (λ d t. In d t)
      (λ d t. refl)
      noted_own
      noted_kept
      (1 ∷ (2 ∷ []))
      []
      (build_all note (1 ∷ (2 ∷ [])) (carried_out ∷ (carried_out ∷ (carried_out ∷ []))) [])
build_all-Builds_example =
    build_all-Builds note (λ d t. In d t) (λ d t. refl) noted_own noted_kept (1 ∷ (2 ∷ []))
      (carried_out ∷ (carried_out ∷ (carried_out ∷ []))) []
      ((refl, refl), ((refl, refl), ((refl, refl), tt))) (omega arith)

abbrev failing : ℕ → List Attempt
failing zero = []
failing (suc n) = too_large ∷ failing n

failing-Retried : (n : ℕ) → All (Retried note (λ d t. refl)) (failing n)
unfolding should_retry_bulk_index
failing-Retried zero = tt
failing-Retried (suc n) =
    ((refl, (failed "transaction exceeds limit", refl, refl)), failing-Retried n)

build_all-endless_example :
    build_all note (1 ∷ []) (failing 8 ++ carried_out ∷ (carried_out ∷ [])) [] ≡ none
build_all-endless_example =
    build_all-endless note (λ d t. refl) (1 ∷ []) (failing 8) (carried_out ∷ (carried_out ∷ [])) []
      (λ e. cc) (failing-Retried 8) ((refl, refl), ((refl, refl), tt)) (omega arith)
