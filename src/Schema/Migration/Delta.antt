-- ===== src/Schema/Migration/Delta.antt =====
-- schema/migration.go: buildSchemaDelta, and the tree that is built from its deltas.
use tigris.Base.{
  ℕ, ◌≡◌, refl, String, true, false, Option, none, some, List, [], ◌∷◌, ◌++◌, eq_iff, Bool-cases,
  inl, inr, All, append-All, ok, arith, ◌==◌,
}
use tigris.Schema.FieldType.{FieldType, object, array, is_type, type_number}
use tigris.Schema.Field.{FieldHead, Field, Fields, nil, cons, array_to_map}
use tigris.Schema.Migration.{
  VersionDeltaField, VersionDelta, is_shortened, field_delta, nested_fields, build_schema_delta_low,
  build_schema_delta, unless_empty, consecutive_deltas, build_schema_deltas, FieldVersion,
  FieldVersions, no_key, or_unchanged, add_at, add_change, add_changes, add_deltas,
  build_field_versions, add_field_version,
}

-- No two fields of an object have one name.
unfoldable pub IsDistinct : Fields → Type 0
IsDistinct nil = Unit
IsDistinct (cons x nested rest) =
    (array_to_map rest x.field_name ≡ none) × IsDistinct nested × IsDistinct rest

Embeds : Fields → Fields → Type 0
Embeds nil whole = Unit
Embeds (cons x nested rest) whole =
    (array_to_map whole x.field_name ≡ some (x, nested)) × Embeds rest whole

Embeds-cons :
    (fs : Fields) (y : FieldHead) (n whole : Fields) → Embeds fs whole → Embeds fs (cons y n whole)
unfolding Embeds array_to_map
Embeds-cons nil y n whole h = tt
Embeds-cons (cons x nested rest) y n whole (e, h) = (rw e, Embeds-cons rest y n whole h)

IsDistinct-Embeds : (fs : Fields) → IsDistinct fs → Embeds fs fs
unfolding Embeds IsDistinct array_to_map
IsDistinct-Embeds nil h = tt
IsDistinct-Embeds (cons x nested rest) (new, _, h) = (
  rw (new, (eq_iff x.field_name x.field_name).1 refl),
  Embeds-cons rest x nested rest (IsDistinct-Embeds rest h),
)

is_type_refl : (t : FieldType) → is_type t t ≡ true
is_type_refl t = let e : (type_number t == type_number t) ≡ true = ground arith in e

is_shortened_refl : (m : Option ℕ) → is_shortened m m ≡ false
is_shortened_refl none = refl
is_shortened_refl (some n) = ground arith

field_delta-same :
    (kp : List String) (x : FieldHead) (nested : Fields)
    → field_delta kp x (some (x, nested)) [] ≡ []
unfolding field_delta
field_delta-same kp x nested =
    rw (is_type_refl x.data_type, is_shortened_refl x.max_length)
      (elim (Bool-cases (is_type x.data_type object)) [
        | inl e ↦ rw e
        | inr e ↦ elim (Bool-cases (is_type x.data_type array)) [
          | inl e' ↦ rw (e, e')
          | inr e' ↦ rw (e, e')
        ]
      ])

build-Embeds :
    (kp : List String) (fs whole : Fields)
    → IsDistinct fs
    → Embeds fs whole
    → build_schema_delta_low kp fs whole ≡ []
unfolding build_schema_delta_low Embeds IsDistinct
build-Embeds kp nil whole d h = refl
build-Embeds kp (cons x nested rest) whole (_, d, d') (e, h) =
    rw
      (
        e,
        build-Embeds (kp ++ x.field_name ∷ []) nested nested d (IsDistinct-Embeds nested d),
        field_delta-same (kp ++ x.field_name ∷ []) x nested,
      )
      (build-Embeds kp rest whole d' h)

-- A schema in which no two fields of an object have one name does not differ from itself, at any
-- depth.
pub build_schema_delta_low-same :
    (key_path : List String) (fs : Fields)
    → IsDistinct fs
    → build_schema_delta_low key_path fs fs ≡ []
build_schema_delta_low-same key_path fs d = build-Embeds key_path fs fs d (IsDistinct-Embeds fs d)

abbrev HasPath : VersionDeltaField → Type 0
HasPath c = (k : String) × ((ks : List String) × (c.key_path ≡ k ∷ ks))

path-append :
    (kp : List String) (n : String) → (k : String) × ((ks : List String) × (kp ++ n ∷ [] ≡ k ∷ ks))
path-append [] n = (n, ([], refl))
path-append (k ∷ kp) n = (k, (kp ++ n ∷ [], refl))

field_delta-HasPath :
    (kp : List String) (n : String) (x : FieldHead) (o : Option Field)
    (nested : List VersionDeltaField)
    → All HasPath nested
    → All HasPath (field_delta (kp ++ n ∷ []) x o nested)
unfolding field_delta
field_delta-HasPath kp n x none nested h = (path-append kp n, tt)
field_delta-HasPath kp n x (some (y, ys)) nested h =
    elim (Bool-cases (is_type x.data_type y.data_type)) [
      | inr e ↦ rw e (path-append kp n, tt)
      | inl e ↦ elim (Bool-cases (is_shortened x.max_length y.max_length)) [
        | inl e' ↦ rw (e, e') (path-append kp n, tt)
        | inr e' ↦ elim (Bool-cases (is_type x.data_type object)) [
          | inl e'' ↦ rw (e, e', e'') h
          | inr e'' ↦ elim (Bool-cases (is_type x.data_type array)) [
            | inl e3 ↦ rw (e, e', e'', e3) h
            | inr e3 ↦ rw (e, e', e'', e3) tt
          ]
        ]
      ]
    ]

build-HasPath :
    (kp : List String) (fs second : Fields) → All HasPath (build_schema_delta_low kp fs second)
unfolding build_schema_delta_low
build-HasPath kp nil second = tt
build-HasPath kp (cons x nested rest) second =
    let kp' = kp ++ x.field_name ∷ [] in
    let o = array_to_map second x.field_name in
    append-All HasPath _ (build_schema_delta_low kp rest second)
      (field_delta-HasPath kp x.field_name x o (build_schema_delta_low kp' nested (nested_fields o))
        (build-HasPath kp' nested (nested_fields o)))
      (build-HasPath kp rest second)

abbrev HasPaths : VersionDelta → Type 0
HasPaths d = All HasPath d.fields

unless_empty-HasPaths :
    (cs : List VersionDeltaField) (d : VersionDelta) → HasPaths d → All HasPaths (unless_empty cs d)
unless_empty-HasPaths [] d h = tt
unless_empty-HasPaths (c ∷ cs) d h = (h, tt)

or_unchanged-HasPaths : (ds : List VersionDelta) → All HasPaths ds → All HasPaths (or_unchanged ds)
or_unchanged-HasPaths [] h = (tt, tt)
or_unchanged-HasPaths (d ∷ ds) h = h

add_at-path :
    (f : FieldVersions) (v : FieldVersion) (path : List String) (k : String) (ks : List String)
    → path ≡ k ∷ ks
    → add_at f v path ≡ ok (add_field_version f k ks v)
add_at-path f v path k ks e = rw e

consecutive_deltas-HasPaths : (vs : List (ℕ × Fields)) → All HasPaths (consecutive_deltas vs)
unfolding consecutive_deltas build_schema_delta
consecutive_deltas-HasPaths [] = tt
consecutive_deltas-HasPaths (v ∷ []) = tt
consecutive_deltas-HasPaths (v ∷ w ∷ rest) =
    let d = build_schema_delta v.1 w in
    append-All HasPaths (unless_empty d.fields d) (consecutive_deltas (w ∷ rest))
      (unless_empty-HasPaths d.fields d (build-HasPath [] v.1 w.1))
      (consecutive_deltas-HasPaths (w ∷ rest))

add_changes-returns :
    (f : FieldVersions) (version : ℕ) (cs : List VersionDeltaField)
    → All HasPath cs
    → (f' : FieldVersions) × (add_changes f version cs ≡ ok f')
unfolding add_changes add_change
add_changes-returns f version [] h = (f, refl)
add_changes-returns f version (c ∷ cs) ((k, (ks, e)), h) =
    let v : FieldVersion = record { change = c; version = version } in
    let f1 = add_field_version f k ks v in
    let (f', e') = add_changes-returns f1 version cs h in
    (f', rw (add_at-path f v c.key_path k ks e) e')

add_deltas-returns :
    (f : FieldVersions) (ds : List VersionDelta)
    → All HasPaths ds
    → (f' : FieldVersions) × (add_deltas f ds ≡ ok f')
unfolding add_deltas
add_deltas-returns f [] h = (f, refl)
add_deltas-returns f (d ∷ ds) (p, h) =
    let (f1, e) = add_changes-returns f d.version d.fields p in
    let (f', e') = add_deltas-returns f1 ds h in (f', rw e e')

-- From the deltas of any history of schemas the tree of the versions of fields is built, without an
-- index out of range.
pub build_field_versions-returns :
    (schemas : List (ℕ × Fields))
    → (f : FieldVersions) × (build_field_versions (build_schema_deltas schemas) ≡ ok f)
unfolding build_field_versions build_schema_deltas
build_field_versions-returns schemas =
    add_deltas-returns no_key (build_schema_deltas schemas)
      (or_unchanged-HasPaths (consecutive_deltas schemas) (consecutive_deltas-HasPaths schemas))
