-- ===== src/Schema/Rules/Deltas.antt =====
-- schema/rules.go and schema/migration.go: the deltas of a schema that the validator accepts.
use tigris.Base.{
  ◌≡◌, refl, sym, ap, ◌∙◌, String, true, false, Option, none, some, List, [], ◌∷◌, ◌++◌, str_eq,
  All, append-All, Bool-cases, Option-cases, some-injective, inl, inr, Error, invalid_argument,
}
use tigris.Schema.FieldType.{object, array, is_type}
use tigris.Schema.Field.{FieldHead, Field, Fields, nil, cons, array_to_map, is_set}
use tigris.Schema.Migration.{
  VersionDeltaField, is_shortened, field_delta, nested_fields, build_schema_delta_low,
}
use tigris.Schema.Rules.{
  is_compatible, or_else, validate_field, is_map_of, nested_of, validate_low, validate,
}

-- No field of an object is a map.
unfoldable pub HasNoMap : Fields → Type 0
HasNoMap nil = Unit
HasNoMap (cons x nested rest) =
    (is_set x.additional_properties ≡ false) × HasNoMap nested × HasNoMap rest

HasNoMap-found :
    (fs : Fields) (name : String) (c : FieldHead) (nested : Fields)
    → HasNoMap fs
    → array_to_map fs name ≡ some (c, nested)
    → (is_set c.additional_properties ≡ false) × HasNoMap nested
unfolding HasNoMap array_to_map
HasNoMap-found nil name c nested h e = cc e
HasNoMap-found (cons x xs rest) name c nested (plain, inner, h) e =
    elim (Option-cases (array_to_map rest name)) [
      | inr (y, e') ↦ HasNoMap-found rest name c nested h (e' ∙ rw e' at e)
      | inl e' ↦ elim (Bool-cases (str_eq x.field_name name)) [
        | inl named ↦
            let q : some (x, xs) ≡ some (c, nested) = rw (e', named) at e in
            let p = some-injective q in
            (
              ap (λ (y : Field). is_set y.0.additional_properties) (sym p) ∙ plain,
              rw (← ap (λ (y : Field). y.1) p) inner,
            )
        | inr other ↦ let q : none ≡ some (c, nested) = rw (e', other) at e in cc q
      ]
    ]

or_else-none : (a b : Option Error) → or_else a b ≡ none → (a ≡ none) × (b ≡ none)
or_else-none none b h = (refl, h)
or_else-none (some e) b h = cc h

-- The type of the field is kept.
abbrev pub KeepsType : VersionDeltaField → Type 0
KeepsType c = is_type c.from c.to ≡ true

is_compatible-type :
    (f c : FieldHead) → is_compatible false f c ≡ none → is_type f.data_type c.data_type ≡ true
unfolding is_compatible
is_compatible-type f c h = elim (Bool-cases (is_type f.data_type c.data_type)) [
  | inl e ↦ e
  | inr e ↦
      let q : some (invalid_argument "data type mismatch for field") ≡ none = rw e at h in cc q
]

field_delta-KeepsType :
    (kp : List String) (f c : FieldHead) (cn : Fields) (nested : List VersionDeltaField)
    → is_type f.data_type c.data_type ≡ true
    → All KeepsType nested
    → All KeepsType (field_delta kp f (some (c, cn)) nested)
unfolding field_delta
field_delta-KeepsType kp f c cn nested e h =
    elim (Bool-cases (is_shortened f.max_length c.max_length)) [
      | inl e' ↦ rw (e, e') (e, tt)
      | inr e' ↦ elim (Bool-cases (is_type f.data_type object)) [
        | inl o ↦ rw (e, e', o) h
        | inr o ↦ elim (Bool-cases (is_type f.data_type array)) [
          | inl a ↦ rw (e, e', o, a) h
          | inr a ↦ rw (e, e', o, a) tt
        ]
      ]
    ]

validate_low-KeepsType :
    (kp : List String) (existing current : Fields)
    → HasNoMap current
    → validate_low false existing current false ≡ none
    → All KeepsType (build_schema_delta_low kp existing current)
unfolding validate_low build_schema_delta_low
validate_low-KeepsType kp nil current n h = tt
validate_low-KeepsType kp (cons f nested rest) current n h =
    let o = array_to_map current f.field_name in
    let kp' = kp ++ f.field_name ∷ [] in
    let (first, others) =
      or_else-none
        (validate_field false false f o (validate_low false nested (nested_of o) (is_map_of o)))
        (validate_low false rest current false) h in
    append-All KeepsType (field_delta kp' f o (build_schema_delta_low kp' nested (nested_fields o)))
      (build_schema_delta_low kp rest current)
      (elim (Option-cases o) [
        | inl e ↦
            let q : some (invalid_argument "removing a field is a backward incompatible change")
                ≡ none =
              rw e at first in
            cc q
        | inr ((c, cn), e) ↦
            let (kept, inner) =
              or_else-none (is_compatible false f c)
                (validate_low false nested cn (is_set c.additional_properties)) (rw e at first) in
            let (plain, n') = HasNoMap-found current f.field_name c cn n e in
            rw e (
              field_delta-KeepsType kp' f c cn (build_schema_delta_low kp' nested cn)
                (is_compatible-type f c kept)
                (validate_low-KeepsType kp' nested cn n' (rw plain at inner)))
      ])
      (validate_low-KeepsType kp rest current n others)

-- Between a schema and a new one that the validator accepts, where incompatible changes are not
-- allowed and no field of the new one is a map, no field is removed and none changes its type: each
-- change of the delta, at any depth, has the same type before and after.
pub validate-KeepsType :
    (existing current : Fields)
    → HasNoMap current
    → validate false existing current ≡ none
    → All KeepsType (build_schema_delta_low [] existing current)
unfolding validate
validate-KeepsType existing current n h = validate_low-KeepsType [] existing current n h
