-- ===== src/Schema/Migration/Tree.antt =====
-- schema/migration.go: lookupFieldVersion in the tree of buildFieldVersions.
use mathlib.Core.List.{append-nil, append_assoc}
use tigris.Base.{
  ℕ, ◌≡◌, refl, sym, ◌∙◌, ap, String, Bool, true, false, List, [], ◌∷◌, ◌++◌, str_eq, eq_iff,
  if◌then◌else◌, Bool-cases, inl, inr, ok, >>=-eq-ok, ok-injective,
}
use tigris.Schema.Migration.{
  VersionDeltaField, VersionDelta, FieldVersion, FieldVersions, no_key, key, fresh_path,
  add_field_version, lookup_field_version, add_at, add_change, add_changes, add_deltas,
  build_field_versions,
}

unfoldable pub same_path : String → List String → String → List String → Bool
same_path q [] k [] = str_eq q k
same_path q [] k (j ∷ ks) = false
same_path q (p ∷ qs) k [] = false
same_path q (p ∷ qs) k (j ∷ ks) = if str_eq q k then same_path p qs j ks else false

-- The change, where it is one of the field.
abbrev pub if_same : Bool → FieldVersion → List FieldVersion
if_same true v = v ∷ []
if_same false v = []

str_eq_via : (q k n : String) → str_eq k n ≡ true → str_eq q k ≡ str_eq q n
str_eq_via q k n h = ap (str_eq q) ((eq_iff k n).0 h)

str_eq_apart : (q k n : String) → str_eq k n ≡ false → str_eq q n ≡ true → str_eq q k ≡ false
str_eq_apart q k n h e =
    let same : q ≡ n = (eq_iff q n).0 e in
    elim (Bool-cases (str_eq q k)) [
      | inr other ↦ other
      | inl e' ↦
          let wrong : true ≡ false = sym ((eq_iff k n).1 (sym ((eq_iff q k).0 e') ∙ same)) ∙ h in
          cc wrong
    ]

same_path-apart :
    (q k : String) (qs ks : List String) → str_eq q k ≡ false → same_path q qs k ks ≡ false
unfolding same_path
same_path-apart q k [] [] h = h
same_path-apart q k [] (j ∷ ks) h = refl
same_path-apart q k (p ∷ qs) [] h = refl
same_path-apart q k (p ∷ qs) (j ∷ ks) h = rw h

lookup-fresh_path :
    (q : String) (qs : List String) (k : String) (ks : List String) (v : FieldVersion)
    → lookup_field_version (fresh_path k ks v) q qs ≡ if_same (same_path q qs k ks) v
unfolding lookup_field_version fresh_path same_path
lookup-fresh_path q [] k [] v = elim (Bool-cases (str_eq q k)) [ inl e ↦ rw e | inr e ↦ rw e ]
lookup-fresh_path q (p ∷ qs) k [] v = elim (Bool-cases (str_eq q k)) [ inl e ↦ rw e | inr e ↦ rw e ]
lookup-fresh_path q [] k (j ∷ ks) v = elim (Bool-cases (str_eq q k)) [ inl e ↦ rw e | inr e ↦ rw e ]
lookup-fresh_path q (p ∷ qs) k (j ∷ ks) v = elim (Bool-cases (str_eq q k)) [
  | inl e ↦ rw e (lookup-fresh_path p qs j ks v)
  | inr e ↦ rw e
]

-- A change that is added to the tree is found last among those of its field, and those of the other
-- fields are as they were.
pub lookup-add_field_version :
    (f : FieldVersions) (k : String) (ks : List String) (v : FieldVersion) (q : String)
    (qs : List String)
    → lookup_field_version (add_field_version f k ks v) q qs
      ≡ lookup_field_version f q qs ++ if_same (same_path q qs k ks) v
unfolding lookup_field_version add_field_version same_path
lookup-add_field_version no_key k ks v q qs = lookup-fresh_path q qs k ks v
lookup-add_field_version (key n vs child rest) k [] v q [] = elim (Bool-cases (str_eq k n)) [
  | inl e ↦ elim (Bool-cases (str_eq q n)) [
    | inl e' ↦ rw (e, str_eq_via q k n e, e')
    | inr e' ↦ rw (e, str_eq_via q k n e, e') (sym (append-nil (lookup_field_version rest q [])))
  ]
  | inr e ↦ elim (Bool-cases (str_eq q n)) [
    | inl e' ↦ rw (e, e', str_eq_apart q k n e e') (sym (append-nil vs))
    | inr e' ↦ rw (e, e') (lookup-add_field_version rest k [] v q [])
  ]
]
lookup-add_field_version (key n vs child rest) k [] v q (p ∷ qs) = elim (Bool-cases (str_eq k n)) [
  | inl e ↦ rw e (sym (append-nil _))
  | inr e ↦ elim (Bool-cases (str_eq q n)) [
    | inl e' ↦ rw (e, e') (sym (append-nil _))
    | inr e' ↦ rw (e, e') (lookup-add_field_version rest k [] v q (p ∷ qs))
  ]
]
lookup-add_field_version (key n vs child rest) k (j ∷ ks) v q [] = elim (Bool-cases (str_eq k n)) [
  | inl e ↦ rw e (sym (append-nil _))
  | inr e ↦ elim (Bool-cases (str_eq q n)) [
    | inl e' ↦ rw (e, e') (sym (append-nil _))
    | inr e' ↦ rw (e, e') (lookup-add_field_version rest k (j ∷ ks) v q [])
  ]
]
lookup-add_field_version (key n vs child rest) k (j ∷ ks) v q (p ∷ qs) =
    elim (Bool-cases (str_eq k n)) [
      | inl e ↦ elim (Bool-cases (str_eq q n)) [
        | inl e' ↦ rw (e, str_eq_via q k n e, e') (lookup-add_field_version child j ks v p qs)
        | inr e' ↦ rw (e, str_eq_via q k n e, e') (sym (append-nil _))
      ]
      | inr e ↦ elim (Bool-cases (str_eq q n)) [
        | inl e' ↦ rw (e, e', str_eq_apart q k n e e') (sym (append-nil _))
        | inr e' ↦ rw (e, e') (lookup-add_field_version rest k (j ∷ ks) v q (p ∷ qs))
      ]
    ]

-- The changes of a field among those of a version, and among all deltas, in order.
abbrev pub change_at : String → List String → FieldVersion → List String → List FieldVersion
change_at q qs v [] = []
change_at q qs v (k ∷ ks) = if_same (same_path q qs k ks) v

abbrev pub change_of : String → List String → ℕ → VersionDeltaField → List FieldVersion
change_of q qs version c = change_at q qs (record { change = c; version = version }) c.key_path

unfoldable pub changes_of : String → List String → ℕ → List VersionDeltaField → List FieldVersion
changes_of q qs version [] = []
changes_of q qs version (c ∷ cs) = change_of q qs version c ++ changes_of q qs version cs

unfoldable pub history_of : String → List String → List VersionDelta → List FieldVersion
unfolding changes_of
history_of q qs [] = []
history_of q qs (d ∷ ds) = changes_of q qs d.version d.fields ++ history_of q qs ds

lookup-add_at :
    (f f' : FieldVersions) (v : FieldVersion) (path : List String) (q : String) (qs : List String)
    → add_at f v path ≡ ok f'
    → lookup_field_version f' q qs ≡ lookup_field_version f q qs ++ change_at q qs v path
lookup-add_at f f' v [] q qs h = cc
lookup-add_at f f' v (k ∷ ks) q qs h =
    rw (← ok-injective h) (lookup-add_field_version f k ks v q qs)

lookup-add_change :
    (f f' : FieldVersions) (version : ℕ) (c : VersionDeltaField) (q : String) (qs : List String)
    → add_change f version c ≡ ok f'
    → lookup_field_version f' q qs ≡ lookup_field_version f q qs ++ change_of q qs version c
unfolding add_change
lookup-add_change f f' version c q qs h =
    lookup-add_at f f' (record { change = c; version = version }) c.key_path q qs h

lookup-add_changes :
    (f f' : FieldVersions) (version : ℕ) (cs : List VersionDeltaField) (q : String)
    (qs : List String)
    → add_changes f version cs ≡ ok f'
    → lookup_field_version f' q qs ≡ lookup_field_version f q qs ++ changes_of q qs version cs
unfolding add_changes changes_of
lookup-add_changes f f' version [] q qs h = rw (← ok-injective h) (sym (append-nil _))
lookup-add_changes f f' version (c ∷ cs) q qs h =
    let (f1, h1, h2) = >>=-eq-ok (add_change f version c) (λ f1. add_changes f1 version cs) h in
    lookup-add_changes f1 f' version cs q qs h2
    ∙ rw (lookup-add_change f f1 version c q qs h1) (
        append_assoc (lookup_field_version f q qs) (change_of q qs version c)
          (changes_of q qs version cs))

lookup-add_deltas :
    (f f' : FieldVersions) (ds : List VersionDelta) (q : String) (qs : List String)
    → add_deltas f ds ≡ ok f'
    → lookup_field_version f' q qs ≡ lookup_field_version f q qs ++ history_of q qs ds
unfolding add_deltas history_of
lookup-add_deltas f f' [] q qs h = rw (← ok-injective h) (sym (append-nil _))
lookup-add_deltas f f' (d ∷ ds) q qs h =
    let (f1, h1, h2) = >>=-eq-ok (add_changes f d.version d.fields) (λ f1. add_deltas f1 ds) h in
    lookup-add_deltas f1 f' ds q qs h2
    ∙ rw (lookup-add_changes f f1 d.version d.fields q qs h1) (
        append_assoc (lookup_field_version f q qs) (changes_of q qs d.version d.fields)
          (history_of q qs ds))

-- The tree that is built from deltas, looked up by the path of a field, answers the changes of that
-- very field, each with its version, in the order of the deltas.
pub lookup-build_field_versions :
    (deltas : List VersionDelta) (f : FieldVersions) (q : String) (qs : List String)
    → build_field_versions deltas ≡ ok f
    → lookup_field_version f q qs ≡ history_of q qs deltas
unfolding build_field_versions lookup_field_version
lookup-build_field_versions deltas f q qs h = lookup-add_deltas no_key f deltas q qs h
