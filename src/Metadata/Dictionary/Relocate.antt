-- ===== src/Metadata/Dictionary/Relocate.antt =====
-- server/metadata/dictionary.go: a soft delete and an update leave the identifiers unique.
use mathlib.Core.Path.{subst}
use tigris.Base.{
  ℕ, ◌≡◌, ◌≢◌, refl, sym, ◌∙◌, ap, ◌⊎◌, inl, inr, Option, none, some, Error, Result, ok, err,
  Result-cases,
}
use tigris.Kv.Data.{Bytes, Timestamp, TableData}
use tigris.Transaction.Session.{TableKey}
use tigris.Metadata.Subspace.{MetaTx, IsMetaStore, Extends}
use tigris.Metadata.Dictionary.{NameRegistry, Jsons, counter_key}
use tigris.Metadata.Dictionary.Effects.{Moves}
use tigris.Metadata.Dictionary.Unique.{
  entry_id, HasEntry, IsUnique, relocated-IsUnique, not_counter, one_id,
}

module _ (s : MetaTx) (store : IsMetaStore s) (r : NameRegistry) (json : Jsons) (now : Timestamp)
    (id_in : Bytes → Option ℕ) (apart : r.encoding ≢ r.reserved) where
  abbrev Unique : ℕ → s.Tx → Type 0
  Unique n t = IsUnique s store r json now id_in n t

  abbrev Entry : TableKey → ℕ → s.Tx → Type 0
  Entry k i t = HasEntry s store r json now id_in k i t

  fewer-IsUnique :
      (n : ℕ) (t t' : s.Tx)
      → s.stored (counter_key r) t' ≡ s.stored (counter_key r) t
      → ((k : TableKey) (i : ℕ) → Entry k i t' → Entry k i t)
      → Unique n t
      → Unique n t'
  fewer-IsUnique n t t' same old (next, below, unique) = (
    rw same next,
    (λ k i h. below k i (old k i h)),
    λ k j i h g. unique k j i (old k i h) (old j i g),
  )

  moved_to :
      (t : s.Tx) (to : TableKey) (x : TableData) (t1 : s.Tx) (t' : s.Tx) (j : TableKey)
      (y : TableData)
      → s.replace to x t1 ≡ (none, t')
      → s.stored j t' ≡ some y
      → ((to ≡ j) × (x ≡ y)) ⊎ (s.stored j t1 ≡ some y)
  moved_to t to x t1 t' j y h held =
      store.stored-of_replace to j x y t1
        (subst (λ u. s.stored j u ≡ some y) (sym (ap (λ (q : Option Error × s.Tx). q.1) h)) held)

  counter_apart : (k : TableKey) → k.table ≡ r.encoding → ¬ Extends k (counter_key r)
  unfolding counter_key
  counter_apart k own extended = apart (sym own ∙ extended.0)

  kept_counter :
      (to : TableKey) (x : TableData) (t1 t' : s.Tx)
      → to.table ≡ r.encoding
      → s.replace to x t1 ≡ (none, t')
      → s.stored (counter_key r) t' ≡ s.stored (counter_key r) t1
  kept_counter to x t1 t' own h =
      subst (λ u. s.stored (counter_key r) u ≡ s.stored (counter_key r) t1)
        (ap (λ (q : Option Error × s.Tx). q.1) h)
        (store.stored-replace_ne to (counter_key r) x t1
          (not_counter s store r json now id_in apart to own))

  module _ (from to : TableKey) (x : TableData) (t t1 t' : s.Tx)
      (own_from : from.table ≡ r.encoding) (own_to : to.table ≡ r.encoding)
      (held : s.stored from t ≡ some x) (deleted : s.delete from t ≡ (none, t1))
      (replaced : s.replace to x t1 ≡ (none, t')) where
    after_delete :
        (j : TableKey) (y : TableData)
        → s.stored j t1 ≡ some y
        → (s.stored j t ≡ some y) × (from ≢ j)
    after_delete j y there =
        let e0 : (s.delete from t).0 ≡ none = ap (λ (q : Option Error × s.Tx). q.0) deleted in
        let e1 : (s.delete from t).1 ≡ t1 = ap (λ (q : Option Error × s.Tx). q.1) deleted in
        let there' = subst (λ u. s.stored j u ≡ some y) (sym e1) there in
        (
          store.stored-of_delete from j y t there',
          λ same.
              let gone = store.stored-delete_self from t e0 in
              let gone' : s.stored j (s.delete from t).1 ≡ none =
                subst (λ z. s.stored z (s.delete from t).1 ≡ none) same gone in
              none_some (sym gone' ∙ there'),
        )
      where
        none_some : {y : TableData} → ◌≡◌ {A = Option TableData} none (some y) → ⊥
        none_some h = cc

    same_counter : s.stored (counter_key r) t' ≡ s.stored (counter_key r) t
    same_counter =
        kept_counter to x t1 t' own_to replaced
        ∙ subst (λ u. s.stored (counter_key r) u ≡ s.stored (counter_key r) t)
            (ap (λ (q : Option Error × s.Tx). q.1) deleted)
            (store.stored-delete_ne from (counter_key r) t (counter_apart from own_from))

    step-IsUnique : (n : ℕ) → Unique n t → Unique n t'
    step-IsUnique n unique = elim (Result-cases (entry_id id_in x)) [
      | inl (i0, e) ↦
          relocated-IsUnique s store r json now id_in apart n i0 from to t t'
            (own_from, (x, held, e)) same_counter
            (λ k i h.
              let (own, (y, there, id_y)) = h in
              elim (moved_to t to x t1 t' k y replaced there) [
                | inl (at_to, same) ↦ inl (
                  at_to,
                  one_id s store r json now id_in x i0 i e
                      (subst (λ z. entry_id id_in z ≡ ok i) (sym same) id_y),
                )
                | inr there1 ↦
                    let (there0, differ) = after_delete k y there1 in
                    inr ((own, (y, there0, id_y)), inr differ)
              ])
            unique
      | inr (e, no_id) ↦
          fewer-IsUnique n t t' same_counter
            (λ k i h.
              let (own, (y, there, id_y)) = h in
              elim (moved_to t to x t1 t' k y replaced there) [
                | inl (at_to, same) ↦
                    absurd
                      (ok_err (sym (subst (λ z. entry_id id_in z ≡ ok i) (sym same) id_y) ∙ no_id))
                | inr there1 ↦ (own, (y, (after_delete k y there1).0, id_y))
              ])
            unique
    ]
      where
        ok_err : {i : ℕ} {e : Error} → ◌≡◌ {A = Result ℕ} (ok i) (err e) → ⊥
        ok_err h = cc

  pub moved-IsUnique :
      (n : ℕ) (from to : TableKey) (t t' : s.Tx)
      → from.table ≡ r.encoding
      → to.table ≡ r.encoding
      → Moves s store from to t t'
      → Unique n t
      → Unique n t'
  moved-IsUnique n from to t t' own_from own_to (inl (nothing, same)) unique =
      subst (Unique n) (sym same) unique
  moved-IsUnique n from to t t' own_from own_to (inr (x, held, (t1, deleted, replaced))) unique =
      step-IsUnique from to x t t1 t' own_from own_to held deleted replaced n unique

  -- A row that is replaced by one with the same identifier.
  pub changed-IsUnique :
      (n i0 : ℕ) (k : TableKey) (x y : TableData) (t t' : s.Tx)
      → k.table ≡ r.encoding
      → s.stored k t ≡ some x
      → entry_id id_in x ≡ ok i0
      → entry_id id_in y ≡ ok i0
      → s.replace k y t ≡ (none, t')
      → Unique n t
      → Unique n t'
  changed-IsUnique n i0 k x y t t' own held id_x id_y replaced unique =
      relocated-IsUnique s store r json now id_in apart n i0 k k t t' (own, (x, held, id_x))
        (kept_counter k y t t' own replaced)
        (λ j i h.
          let (own_j, (z, there, id_z)) = h in
          elim (moved_to t k y t t' j z replaced there) [
            | inl (at_k, same) ↦ inl (
              at_k,
              one_id s store r json now id_in y i0 i id_y
                  (subst (λ w. entry_id id_in w ≡ ok i) (sym same) id_z),
            )
            | inr there0 ↦ inr ((own_j, (z, there0, id_z)), inl refl)
          ])
        unique
