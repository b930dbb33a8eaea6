-- ===== src/Metadata/Namespaces/Maps.antt =====
-- server/metadata/dictionary.go: the maps of the namespaces.
use tigris.Base.{
  ℕ, ◌≡◌, ◌≢◌, refl, sym, ◌∙◌, ap, true, String, some, List, [], ◌∷◌, str_eq, str_eq-false, eq_iff,
  Bool-cases, inl, inr, arith, some-injective,
}
use tigris.Metadata.Entries.{set_name, find_name}
use tigris.Metadata.Namespaces.{NamespaceMetadata, set_id, has_id, any_id}

pub has_id-set_id_self :
    (m : NamespaceMetadata) (l : List (ℕ × NamespaceMetadata))
    → has_id m.id (set_id m.id m l) ≡ true
unfolding has_id set_id
has_id-set_id_self m [] = ground arith
has_id-set_id_self m ((j, n) ∷ rest) = ground (arith, has_id-set_id_self m rest)

pub has_id-set_id :
    (i k : ℕ) (m : NamespaceMetadata) (l : List (ℕ × NamespaceMetadata))
    → has_id i l ≡ true
    → has_id i (set_id k m l) ≡ true
unfolding has_id set_id
has_id-set_id i k m [] h = cc
has_id-set_id i k m ((j, n) ∷ rest) h = ground (arith, has_id-set_id i k m rest)

pub find_name-set_name_self :
    (name : String) (m : NamespaceMetadata) (l : List (String × NamespaceMetadata))
    → find_name name (set_name name m l) ≡ some m
unfolding find_name set_name
find_name-set_name_self name m [] = rw ((eq_iff name name).1 refl) refl
find_name-set_name_self name m ((n, b) ∷ rest) = elim (Bool-cases (str_eq name n)) [
  | inl e ↦ rw (e, (eq_iff name name).1 refl) refl
  | inr e ↦ rw (e, e) (find_name-set_name_self name m rest)
]

pub find_name-set_name_ne :
    (name other : String) (m : NamespaceMetadata) (l : List (String × NamespaceMetadata))
    → name ≢ other
    → find_name name (set_name other m l) ≡ find_name name l
unfolding find_name set_name
find_name-set_name_ne name other m [] differ = rw (str_eq-false name other differ) refl
find_name-set_name_ne name other m ((n, b) ∷ rest) differ = elim (Bool-cases (str_eq other n)) [
  | inl e ↦
      let same : other ≡ n = (eq_iff other n).0 e in
      rw (e, str_eq-false name other differ, str_eq-false name n (λ q. differ (q ∙ sym same))) refl
  | inr e ↦ elim (Bool-cases (str_eq name n)) [
    | inl e' ↦ rw (e, e') refl
    | inr e' ↦ rw (e, e') (find_name-set_name_ne name other m rest differ)
  ]
]

pub any_id-find_name :
    (name : String) (m : NamespaceMetadata) (l : List (String × NamespaceMetadata))
    → find_name name l ≡ some m
    → any_id m.id l ≡ true
unfolding find_name any_id
any_id-find_name name m [] h = cc
any_id-find_name name m ((n, b) ∷ rest) h = elim (Bool-cases (str_eq name n)) [
  | inl e ↦
      let same : b ≡ m = some-injective (rw e at h) in
      ground (arith, ap (λ (x : NamespaceMetadata). x.id) same)
  | inr e ↦ ground (arith, any_id-find_name name m rest (rw e at h))
]
