-- ===== src/Index/Keys.antt =====
-- secondary_indexer.go: the loops of Update that delete and store keys, by the keys that are held.
use mathlib.Core.Bool.{true≢false}
use tigris.Base.{
  ◌≡◌, refl, sym, ◌∙◌, ap, true, Option, none, some, List, [], ◌∷◌, ◌⊎◌, inl, inr, Error,
}
use tigris.Value.{Parsers}
use tigris.Value.Collation.{Collator}
use tigris.Index.Row.{IndexRow}
use tigris.Index.{IndexKey, IndexTx, IsIndexStore, delete_keys, replace_keys, continue}
use tigris.Index.Same.{In}

module _ (p : Parsers) (collator : Collator) (s : IndexTx p.Float) (store : IsIndexStore s) where
  abbrev IxKey : Type 0
  IxKey = IndexKey p.Float

  abbrev Row : Type 0
  Row = IndexRow p.Float

  pub continue-ok :
      (r : Option Error × s.Tx) (next : s.Tx → Option Error × s.Tx) (t' : s.Tx)
      → continue p collator s r next ≡ (none, t')
      → (r.0 ≡ none) × (next r.1 ≡ (none, t'))
  continue-ok (none, t) next t' h = (refl, h)
  continue-ok (some e, t) next t' h =
      let h' : ◌≡◌ {A = Option Error × s.Tx} (some e, t) (none, t') = h in cc h'

  pub deleted-has :
      (ks : List IxKey) (j : IxKey) (t t' : s.Tx)
      → delete_keys p collator s ks t ≡ (none, t')
      → s.has j t' ≡ true
      → (s.has j t ≡ true) × ¬ In j ks
  unfolding delete_keys
  deleted-has [] j t t' h k =
      let e : t ≡ t' = ap (λ (q : Option Error × s.Tx). q.1) h in (rw e k, λ i. elim i [ ])
  deleted-has (x ∷ ks) j t t' h k =
      let (none_x, h') = continue-ok (s.delete x t) (delete_keys p collator s ks) t' h in
      let (before, absent) = deleted-has ks j (s.delete x t).1 t' h' k in
      (
        store.has-of_delete x j t before,
        λ i. elim i [
          | inl own ↦
              let gone = store.has-delete_self x t none_x in
              true≢false (sym before ∙ rw (← own) gone)
          | inr later ↦ absent later
        ],
      )

  pub deleted-keeps :
      (ks : List IxKey) (j : IxKey) (t t' : s.Tx)
      → delete_keys p collator s ks t ≡ (none, t')
      → ¬ In j ks
      → s.has j t ≡ true
      → s.has j t' ≡ true
  unfolding delete_keys
  deleted-keeps [] j t t' h absent k =
      let e : t ≡ t' = ap (λ (q : Option Error × s.Tx). q.1) h in rw (← e) k
  deleted-keeps (x ∷ ks) j t t' h absent k =
      let (none_x, h') = continue-ok (s.delete x t) (delete_keys p collator s ks) t' h in
      deleted-keeps ks j (s.delete x t).1 t' h' (λ i. absent (inr i))
        (store.has-delete_keeps x j t (λ e. absent (inl e)) k)

  pub replaced-keeps :
      (ks : List IxKey) (j : IxKey) (t t' : s.Tx)
      → replace_keys p collator s ks t ≡ (none, t')
      → s.has j t ≡ true
      → s.has j t' ≡ true
  unfolding replace_keys
  replaced-keeps [] j t t' h k =
      let e : t ≡ t' = ap (λ (q : Option Error × s.Tx). q.1) h in rw (← e) k
  replaced-keeps (x ∷ ks) j t t' h k =
      let (none_x, h') = continue-ok (s.replace x t) (replace_keys p collator s ks) t' h in
      replaced-keeps ks j (s.replace x t).1 t' h' (store.has-replace_keeps x j t k)

  pub replaced-In :
      (ks : List IxKey) (j : IxKey) (t t' : s.Tx)
      → replace_keys p collator s ks t ≡ (none, t')
      → In j ks
      → s.has j t' ≡ true
  unfolding replace_keys
  replaced-In [] j t t' h i = elim i [ ]
  replaced-In (x ∷ ks) j t t' h i =
      let (none_x, h') = continue-ok (s.replace x t) (replace_keys p collator s ks) t' h in
      elim i [
        | inl own ↦
            replaced-keeps ks j (s.replace x t).1 t' h'
              (rw (← own) (store.has-replace_self x t none_x))
        | inr later ↦ replaced-In ks j (s.replace x t).1 t' h' later
      ]

  pub replaced-has :
      (ks : List IxKey) (j : IxKey) (t t' : s.Tx)
      → replace_keys p collator s ks t ≡ (none, t')
      → s.has j t' ≡ true
      → In j ks ⊎ (s.has j t ≡ true)
  unfolding replace_keys
  replaced-has [] j t t' h k =
      let e : t ≡ t' = ap (λ (q : Option Error × s.Tx). q.1) h in inr (rw e k)
  replaced-has (x ∷ ks) j t t' h k =
      let (none_x, h') = continue-ok (s.replace x t) (replace_keys p collator s ks) t' h in
      elim (replaced-has ks j (s.replace x t).1 t' h' k) [
        | inl later ↦ inl (inr later)
        | inr before ↦ elim (store.has-of_replace x j t before) [
          | inl own ↦ inl (inl own)
          | inr kept ↦ inr kept
        ]
      ]
