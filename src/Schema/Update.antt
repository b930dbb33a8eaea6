-- ===== src/Schema/Update.antt =====
-- schema/migration.go: the use of the deltas of a schema on a row of an older version.
pub mod Compatible
pub mod Others
use tigris.Base.{
  ℕ, suc, zero, ◌+◌, ◌/◌, Bool, true, false, Option, none, some, List, [], ◌∷◌, String, str_eq, ltb,
  leb, if◌then◌else◌, length, drop, Result, ok, err, panic, ◌>>=◌,
}
use tigris.Schema.FieldType.{unknown, is_type}
use tigris.Schema.Migration.{VersionDeltaField, VersionDelta}
use tigris.Schema.Convert.{
  Library, Value, nil_value, boolean, text, number, float, integer, go_int, binary, map_value,
  array_value, Members, no_member, member, Values, no_value, value, convert_type,
}

-- The map of an object, whose keys are distinct: a missing key reads as nil.
unfoldable pub get_member : {F : Type 0} → Members F → String → Value F
get_member no_member k = nil_value
get_member (member n v rest) k = if str_eq n k then v else get_member rest k

unfoldable pub set_member : {F : Type 0} → Members F → String → Value F → Members F
set_member no_member k w = member k w no_member
set_member (member n v rest) k w =
    if str_eq n k then member n w rest else member n v (set_member rest k w)

unfoldable pub delete_member : {F : Type 0} → Members F → String → Members F
delete_member no_member k = no_member
delete_member (member n v rest) k = if str_eq n k then rest else member n v (delete_member rest k)

abbrev pub tail_of : List String → List String
tail_of [] = []
tail_of (k ∷ ks) = ks

abbrev pub last_of : List String → Option String
last_of [] = none
last_of (k ∷ []) = some k
last_of (k ∷ j ∷ ks) = last_of (j ∷ ks)

-- What becomes of the member under a key: it stays, with what the function answers, or is deleted
-- and the answer is false.
pub data Fate (F : Type 0) : Type 0 where
  kept : Value F → Bool → Fate F
  dropped : Fate F

abbrev pub settle : {F : Type 0} → String → Members F → Fate F → Members F × Bool
settle n rest (kept v b) = (member n v rest, b)
settle n rest dropped = (rest, false)

abbrev pub set_or_delete : {F : Type 0} → Members F → String → Option (Value F) → Members F × Bool
set_or_delete doc k none = (delete_member doc k, false)
set_or_delete doc k (some v) = (set_member doc k v, true)

module _ {F : Type 0} (lib : Library F) (change : VersionDeltaField) where
  abbrev pub apply_at_key : Members F → Option String → Result (Members F × Bool)
  apply_at_key doc none = err (panic "index out of range")
  apply_at_key doc (some k) =
      if is_type change.to unknown
      then ok (delete_member doc k, true)
      else ok (set_or_delete doc k (convert_type lib change (get_member doc k)))

  unfoldable pub apply_primitive_field_delta : Members F → Result (Members F × Bool)
  unfolding delete_member set_member get_member
  apply_primitive_field_delta doc = apply_at_key doc (last_of change.key_path)

  abbrev pub fate_of_array : Values F × Bool → Fate F
  fate_of_array (a, true) = kept (array_value a) true
  fate_of_array (a, false) = dropped

  abbrev pub converted : Option (Value F) → Value F × Bool
  converted none = (nil_value, false)
  converted (some v) = (v, true)

  abbrev pub delete_head : Members F → List String → Result (Members F)
  delete_head m [] = err (panic "index out of range")
  delete_head m (k ∷ ks) = ok (delete_member m k)

  -- `path` is what is left of the key path at the index of the code. applyObjectFieldDelta
  -- descends to the member under the first name while two names are left.
  unfoldable mutual
    unfolding apply_primitive_field_delta

    pub apply_object_field_delta : Members F → List String → Result (Members F × Bool)
    apply_object_field_delta doc [] = apply_primitive_field_delta doc
    apply_object_field_delta doc (k ∷ []) = apply_primitive_field_delta doc
    apply_object_field_delta no_member (k ∷ j ∷ ks) = ok (no_member, false)
    apply_object_field_delta (member n v rest) (k ∷ j ∷ ks) =
        if str_eq n k
        then (apply_to_value v (j ∷ ks) >>= λ fate. ok (settle n rest fate))
        else (apply_object_field_delta rest (k ∷ j ∷ ks) >>= λ r. ok (member n v r.0, r.1))

    pub apply_to_value : Value F → List String → Result (Fate F)
    apply_to_value (map_value m) path =
        apply_object_field_delta m path >>= λ r. ok (kept (map_value r.0) r.1)
    apply_to_value (array_value a) path =
        apply_array_field_delta a path >>= λ r. ok (fate_of_array r)
    apply_to_value nil_value path = ok (kept nil_value false)
    apply_to_value (boolean b) path = ok (kept (boolean b) false)
    apply_to_value (text t) path = ok (kept (text t) false)
    apply_to_value (number t) path = ok (kept (number t) false)
    apply_to_value (float x) path = ok (kept (float x) false)
    apply_to_value (integer i) path = ok (kept (integer i) false)
    apply_to_value (go_int i) path = ok (kept (go_int i) false)
    apply_to_value (binary b) path = ok (kept (binary b) false)

    -- An element that does not convert ends the walk.
    pub apply_array_field_delta : Values F → List String → Result (Values F × Bool)
    apply_array_field_delta no_value path = ok (no_value, true)
    apply_array_field_delta (value v vs) path = apply_to_element v path >>= λ r.
        if r.1
        then (apply_array_field_delta vs path >>= λ r'. ok (value r.0 r'.0, r'.1))
        else ok (value r.0 vs, false)

    pub apply_to_element : Value F → List String → Result (Value F × Bool)
    apply_to_element (map_value m) path = apply_object_field_delta m (tail_of path) >>= λ r.
        if r.1
        then ok (map_value r.0, true)
        else (delete_head r.0 path >>= λ m'. ok (map_value m', false))
    apply_to_element (array_value a) path =
        apply_array_field_delta a (tail_of path) >>= λ r. ok (array_value r.0, r.1)
    apply_to_element v path = ok (converted (convert_type lib change v))

abbrev pub version_at : List VersionDelta → ℕ → ℕ
version_at [] i = 0
version_at (d ∷ ds) zero = d.version
version_at (d ∷ ds) (suc i) = version_at ds i

-- sort.Search between `i` and `j`, on fuel.
unfoldable pub search : (ℕ → Bool) → ℕ → ℕ → ℕ → ℕ
search f zero i j = i
search f (suc fuel) i j =
    let h = (i + j) / 2 in
    let above = search f fuel (h + 1) j in
    let below = search f fuel i h in if ltb i j then (if f h then below else above) else i

abbrev pub last_version : List VersionDelta → Option ℕ
last_version [] = none
last_version (d ∷ []) = some d.version
last_version (d ∷ e ∷ ds) = last_version (e ∷ ds)

-- CompatibleSchemaSince; without a delta the code indexes out of range.
unfoldable pub compatible_schema_since : List VersionDelta → ℕ → Result Bool
compatible_schema_since deltas version = elim (last_version deltas) [
  | none ↦ err (panic "index out of range")
  | some last ↦ ok (leb last version)
]

module _ {F : Type 0} (lib : Library F) where
  unfoldable pub apply_fields : List VersionDeltaField → Members F → Result (Members F)
  apply_fields [] doc = ok doc
  apply_fields (d ∷ ds) doc =
      apply_object_field_delta lib d doc d.key_path >>= λ r. apply_fields ds r.0

  unfoldable pub apply_schema_delta : VersionDelta → Members F → Result (Members F)
  unfolding apply_fields
  apply_schema_delta delta doc = apply_fields delta.fields doc

  unfoldable pub apply_deltas : List VersionDelta → Members F → Result (Members F)
  unfolding apply_schema_delta
  apply_deltas [] doc = ok doc
  apply_deltas (d ∷ ds) doc = apply_schema_delta d doc >>= λ doc'. apply_deltas ds doc'

  -- UpdateRowSchema. Each round of the search leaves fewer indices.
  unfoldable pub update_row_schema : List VersionDelta → Members F → ℕ → Result (Members F)
  unfolding search apply_deltas
  update_row_schema deltas doc version =
      let i = search (λ h. ltb version (version_at deltas h)) (length deltas) 0 (length deltas) in
      apply_deltas (drop i deltas) doc
