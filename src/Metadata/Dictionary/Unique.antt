-- ===== src/Metadata/Dictionary/Unique.antt =====
-- server/metadata/dictionary.go: no identifier is stored twice.
use mathlib.Core.Path.{subst}
use tigris.Base.{
  ℕ, ◌+◌, ◌<◌, ◌≡◌, ◌≢◌, sym, ◌∙◌, ap, ◌⊎◌, inl, inr, Option, none, some, Error, Result, ok, err,
  internal, ◌==◌, if◌then◌else◌, arith, ok-injective,
}
use tigris.Kv.Data.{Bytes, Timestamp, TableData, new_table_data}
use tigris.Transaction.Session.{TableKey}
use tigris.Metadata.Subspace.{MetaTx, IsMetaStore, uint32_to_byte, byte_to_uint32}
use tigris.Metadata.Dictionary.{NameRegistry, Jsons, counter_key}
use tigris.Metadata.Dictionary.Counter.{next_id, Allocates, byte_to_uint32-uint32_to_byte}

-- The identifier in the JSON of a metadata of any kind, if it has one.
abbrev from_json : Option ℕ → Result ℕ
from_json none = err (internal "no id")
from_json (some i) = ok i

abbrev pub entry_id : (Bytes → Option ℕ) → TableData → Result ℕ
entry_id id_in x = if x.ver == 0 then byte_to_uint32 x.raw_data else from_json (id_in x.raw_data)

module _ (s : MetaTx) (store : IsMetaStore s) (r : NameRegistry) (json : Jsons) (now : Timestamp)
    (id_in : Bytes → Option ℕ) where
  -- A row of the dictionary with its identifier.
  abbrev pub HasEntry : TableKey → ℕ → s.Tx → Type 0
  HasEntry k i t =
      (k.table ≡ r.encoding)
      × ((x : TableData) × (s.stored k t ≡ some x) × (entry_id id_in x ≡ ok i))

  -- `n` is the next identifier, every identifier that is stored is below it, and each is that of one
  -- key alone.
  abbrev pub IsUnique : ℕ → s.Tx → Type 0
  IsUnique n t =
      (next_id s store r json now (s.stored (counter_key r) t) ≡ ok n)
      × ((k : TableKey) (i : ℕ) → HasEntry k i t → i < n)
      × ((k j : TableKey) (i : ℕ) → HasEntry k i t → HasEntry j i t → k ≡ j)

  counted :
      (n : ℕ)
      → n + 1 < 4294967296
      → next_id s store r json now (some (new_table_data now (uint32_to_byte n))) ≡ ok (n + 1)
  unfolding new_table_data
  counted n room = rw (byte_to_uint32-uint32_to_byte n (omega arith)) (ap ok (omega arith))

  pub one_id : (x : TableData) (i j : ℕ) → entry_id id_in x ≡ ok i → entry_id id_in x ≡ ok j → i ≡ j
  one_id x i j e f = ok-injective (sym e ∙ f)

  module _ (apart : r.encoding ≢ r.reserved) where
    pub not_counter : (k : TableKey) → k.table ≡ r.encoding → k ≢ counter_key r
    unfolding counter_key
    not_counter k own e = apart (sym own ∙ ap (λ (z : TableKey). z.table) e)

    -- Each row of `t'` is at `to`, with the identifier that `from` has in `t`, or was in `t`; in that
    -- case it is not at `from`, if the two keys differ.
    pub relocated-IsUnique :
        (n i0 : ℕ) (from to : TableKey) (t t' : s.Tx)
        → HasEntry from i0 t
        → s.stored (counter_key r) t' ≡ s.stored (counter_key r) t
        → ((k : TableKey) (i : ℕ)
            → HasEntry k i t'
            → ((to ≡ k) × (i0 ≡ i)) ⊎ (HasEntry k i t × ((from ≡ to) ⊎ (from ≢ k))))
        → IsUnique n t
        → IsUnique n t'
    relocated-IsUnique n i0 from to t t' had same_counter origin (next, below, unique) = (
      rw same_counter next,
      λ k i h. elim (origin k i h) [
        | inl (at_to, same) ↦ subst (λ z. z < n) same (below from i0 had)
        | inr (old, elsewhere) ↦ below k i old
      ],
      λ k j i h g. elim (origin k i h) [
        | inl (at_to, same) ↦ elim (origin j i g) [
          | inl (at_to', same') ↦ sym at_to ∙ at_to'
          | inr (old', elsewhere') ↦
              let found : from ≡ j =
                unique from j i (subst (λ z. HasEntry from z t) same had) old' in
              elim elsewhere' [
                | inl one ↦ sym at_to ∙ sym one ∙ found
                | inr differ ↦ absurd (differ found)
              ]
        ]
        | inr (old, elsewhere) ↦ elim (origin j i g) [
          | inl (at_to', same') ↦
              let found : from ≡ k =
                unique from k i (subst (λ z. HasEntry from z t) same' had) old in
              elim elsewhere [
                | inl one ↦ sym found ∙ one ∙ at_to'
                | inr differ ↦ absurd (differ found)
              ]
          | inr (old', elsewhere') ↦ unique k j i old old'
        ]
      ],
    )

    module _ (n : ℕ) (k : TableKey) (x : TableData) (t t1 t' : s.Tx) (own : k.table ≡ r.encoding)
        (id : entry_id id_in x ≡ ok n) (allocates : Allocates s store r json now n t t1)
        (inserted : s.insert k x t1 ≡ (none, t')) where
      origin_of : (j : TableKey) (i : ℕ) → HasEntry j i t' → ((k ≡ j) × (n ≡ i)) ⊎ HasEntry j i t
      origin_of j i (own_j, (y, held, id_y)) =
          elim (store.stored-of_insert k j x y t1 (
            subst (λ u. s.stored j u ≡ some y)
              (sym (ap (λ (q : Option Error × s.Tx). q.1) inserted)) held)) [
                | inl (same_key, same_row) ↦ inl (
                  same_key,
                  one_id x n i id (subst (λ z. entry_id id_in z ≡ ok i) (sym same_row) id_y),
                )
                | inr held1 ↦ inr (
                  own_j,
                  (y, sym (allocates.2 j (λ e. not_counter j own_j (sym e))) ∙ held1, id_y),
                )
              ]

      pub inserted-IsUnique : n + 1 < 4294967296 → IsUnique n t → IsUnique (n + 1) t'
      inserted-IsUnique room (next, below, unique) =
          let kept : s.stored (counter_key r) t' ≡ some (new_table_data now (uint32_to_byte n)) =
            subst (λ u. s.stored (counter_key r) u ≡ s.stored (counter_key r) t1)
              (ap (λ (q : Option Error × s.Tx). q.1) inserted)
              (store.stored-insert_ne k (counter_key r) x t1 (not_counter k own))
            ∙ allocates.1 in
          (
            rw kept (counted n room),
            λ j i h. elim (origin_of j i h) [
              | inl (at_k, same) ↦ omega arith
              | inr old ↦ omega (arith, below j i old)
            ],
            λ j l i h g. elim (origin_of j i h) [
              | inl (at_k, same) ↦ elim (origin_of l i g) [
                | inl (at_k', same') ↦ sym at_k ∙ at_k'
                | inr old ↦ absurd (omega (arith, below l i old))
              ]
              | inr old ↦ elim (origin_of l i g) [
                | inl (at_k', same') ↦ absurd (omega (arith, below j i old))
                | inr old' ↦ unique j l i old old'
              ]
            ],
          )
