-- ===== src/Schema/Update/Others.antt =====
-- schema/migration.go: applyObjectFieldDelta, and the members of the row.
use tigris.Base.{
  ℕ, ◌≡◌, ◌≢◌, refl, sym, ◌∙◌, ap, Bool, false, Option, none, some, List, [], ◌∷◌, String, str_eq,
  eq_iff, str_eq-false, Bool-cases, inl, inr, ok, ok-injective, >>=-eq-ok,
}
use tigris.Schema.FieldType.{FieldType, bool, int64, string, is_type, unknown}
use tigris.Schema.Migration.{VersionDeltaField, VersionDelta}
use tigris.Schema.Convert.{
  Library, Value, boolean, Members, no_member, member, convert_type, convert_from_bool,
}
use tigris.Schema.Update.{
  get_member, set_member, delete_member, Fate, kept, dropped, settle, last_of, set_or_delete,
  apply_to_value, apply_primitive_field_delta, apply_object_field_delta, apply_deltas,
}

-- A member other than `k` reads the same.
module _ {F : Type 0} where
  abbrev Agree : String → Members F → Members F → Type 0
  Agree k m m' = (n : String) → n ≢ k → get_member m' n ≡ get_member m n

  Agree-member :
      (k l : String) (v : Value F) (m m' : Members F)
      → Agree k m m'
      → Agree k (member l v m) (member l v m')
  unfolding get_member
  Agree-member k l v m m' h n different = elim (Bool-cases (str_eq l n)) [
    | inl e ↦ rw e
    | inr e ↦ rw e (h n different)
  ]

  get-delete_member : (doc : Members F) (k : String) → Agree k doc (delete_member doc k)
  unfolding get_member delete_member
  get-delete_member no_member k n different = refl
  get-delete_member (member l v rest) k n different = elim (Bool-cases (str_eq l k)) [
    | inl e ↦
        let same : l ≡ k = (eq_iff l k).0 e in
        let other : str_eq l n ≡ false = str_eq-false l n (λ e'. different (sym e' ∙ same)) in
        rw (e, other)
    | inr e ↦
        rw e (Agree-member k l v rest (delete_member rest k) (get-delete_member rest k) n different)
  ]

  get-set_member : (doc : Members F) (k : String) (w : Value F) → Agree k doc (set_member doc k w)
  unfolding get_member set_member
  get-set_member no_member k w n different =
      let other : str_eq k n ≡ false = str_eq-false k n (λ e'. different (sym e')) in rw other
  get-set_member (member l v rest) k w n different = elim (Bool-cases (str_eq l k)) [
    | inl e ↦
        let same : l ≡ k = (eq_iff l k).0 e in
        let other : str_eq l n ≡ false = str_eq-false l n (λ e'. different (sym e' ∙ same)) in
        rw (e, other)
    | inr e ↦
        rw e (Agree-member k l v rest (set_member rest k w) (get-set_member rest k w) n different)
  ]

  settle-Agree :
      (k l : String) (v : Value F) (rest : Members F) (fate : Fate F)
      → l ≡ k
      → Agree k (member l v rest) (settle l rest fate).0
  unfolding get_member
  settle-Agree k l v rest (kept w b) same n different =
      let other : str_eq l n ≡ false = str_eq-false l n (λ e'. different (sym e' ∙ same)) in
      rw other
  settle-Agree k l v rest dropped same n different =
      let other : str_eq l n ≡ false = str_eq-false l n (λ e'. different (sym e' ∙ same)) in
      rw other

  set_or_delete-Agree :
      (doc : Members F) (k : String) (o : Option (Value F)) → Agree k doc (set_or_delete doc k o).0
  set_or_delete-Agree doc k none = get-delete_member doc k
  set_or_delete-Agree doc k (some v) = get-set_member doc k v

module _ {F : Type 0} (lib : Library F) (change : VersionDeltaField) where
  apply_primitive-Agree :
      (doc : Members F) (k : String) (r : Members F × Bool)
      → last_of change.key_path ≡ some k
      → apply_primitive_field_delta lib change doc ≡ ok r
      → Agree k doc r.0
  unfolding apply_primitive_field_delta
  apply_primitive-Agree doc k r e h n different = elim (Bool-cases (is_type change.to unknown)) [
    | inl gone ↦ rw (← ok-injective (rw (e, gone) at h)) (get-delete_member doc k n different)
    | inr there ↦
        rw (← ok-injective (rw (e, there) at h))
          (set_or_delete-Agree doc k (convert_type lib change (get_member doc k)) n different)
  ]

  apply_object-Agree :
      (doc : Members F) (k : String) (ks : List String) (r : Members F × Bool)
      → last_of change.key_path ≡ last_of (k ∷ ks)
      → apply_object_field_delta lib change doc (k ∷ ks) ≡ ok r
      → Agree k doc r.0
  unfolding apply_object_field_delta
  apply_object-Agree no_member k [] r e h n different =
      apply_primitive-Agree no_member k r e h n different
  apply_object-Agree (member l v rest) k [] r e h n different =
      apply_primitive-Agree (member l v rest) k r e h n different
  apply_object-Agree no_member k (j ∷ ks) r e h n different =
      ap (λ (q : Members F × Bool). get_member q.0 n) (sym (ok-injective h))
  apply_object-Agree (member l v rest) k (j ∷ ks) r e h n different =
      elim (Bool-cases (str_eq l k)) [
        | inl named ↦
            let (fate, h1, h2) =
              >>=-eq-ok (apply_to_value lib change v (j ∷ ks)) (λ fate. ok (settle l rest fate))
                (rw named at h) in
            rw (← ok-injective h2) (settle-Agree k l v rest fate ((eq_iff l k).0 named) n different)
        | inr other ↦
            let (q, h1, h2) =
              >>=-eq-ok (apply_object_field_delta lib change rest (k ∷ j ∷ ks))
                (λ (q : Members F × Bool). ok (member l v q.0, q.1)) (rw other at h) in
            rw (← ok-injective h2)
              (Agree-member k l v rest q.0 (apply_object-Agree rest k (j ∷ ks) q e h1) n different)
      ]

  -- The use of a change on a row, whether it succeeds or not, leaves every member of the row as it
  -- was but the one under the first name of the key path.
  pub apply_object_field_delta-others :
      (doc : Members F) (k : String) (ks : List String) (r : Members F × Bool) (n : String)
      → change.key_path ≡ k ∷ ks
      → apply_object_field_delta lib change doc change.key_path ≡ ok r
      → n ≢ k
      → get_member r.0 n ≡ get_member doc n
  apply_object_field_delta-others doc k ks r n e h different =
      apply_object-Agree doc k ks r (ap last_of e)
        (ap (apply_object_field_delta lib change doc) (sym e) ∙ h) n different

abbrev pub change_at_version : ℕ → String → FieldType → FieldType → VersionDelta
change_at_version version k from to = record {
  version = version;
  fields = record { key_path = k ∷ []; from = from; to = to; max_length = 0 } ∷ [];
}

-- A row whose member is a Boolean, on which a delta to int64 and then one from int64 to string are
-- used, has lost the member.
pub apply_deltas-boolean :
    {F : Type 0} (lib : Library F) (k : String) (b : Bool) (rest : Members F) (v w : ℕ)
    → apply_deltas lib
        (change_at_version v k bool int64 ∷ change_at_version w k int64 string ∷ [])
        (member k (boolean b) rest)
      ≡ ok rest
unfolding apply_deltas apply_object_field_delta convert_type convert_from_bool get_member set_member
    delete_member
apply_deltas-boolean lib k b rest v w =
    let same = (eq_iff k k).1 refl in rw same (rw same (rw same (rw same refl)))
