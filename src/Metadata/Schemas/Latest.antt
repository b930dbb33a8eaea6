-- ===== src/Metadata/Schemas/Latest.antt =====
-- server/metadata/schema.go: the versions that GetLatest and GetNotGreater answer.
use tigris.Base.{
  ℕ, ◌≤◌, ◌<◌, ◌≡◌, refl, sym, ◌∙◌, ap, ◌⊎◌, inl, inr, Option, none, some, List, [], ◌∷◌, leb, All,
  Bool-cases, Option-cases, some-injective, arith, ok, err, not_found,
}
use tigris.Kv.Data.{TableData}
use tigris.Kv.Fdb.{Key}
use tigris.Transaction.Session.{TableKey}
use tigris.Metadata.Subspace.{MetaTx}
use tigris.Metadata.Schemas.{
  Version, read_versions, insert_version, sort_versions, last_not_greater, schema_get,
  get_not_greater,
}

abbrev pub In : Version → List Version → Type 0
In v [] = ⊥
In v (w ∷ vs) = (v ≡ w) ⊎ In v vs

abbrev pub Ascending : List Version → Type 0
Ascending [] = Unit
Ascending (v ∷ vs) = All (λ w. v.version ≤ w.version) vs × Ascending vs

insert_version-All :
    (P : Version → Type 0) (v : Version) (vs : List Version)
    → P v
    → All P vs
    → All P (insert_version v vs)
unfolding insert_version
insert_version-All P v [] p h = (p, tt)
insert_version-All P v (w ∷ vs) p (q, h) = elim (Bool-cases (leb v.version w.version)) [
  | inl e ↦ rw e (p, (q, h))
  | inr e ↦ rw e (q, insert_version-All P v vs p h)
]

of_insert_version-All :
    (P : Version → Type 0) (v : Version) (vs : List Version)
    → All P (insert_version v vs)
    → P v × All P vs
unfolding insert_version
of_insert_version-All P v [] h = h
of_insert_version-All P v (w ∷ vs) h = elim (Bool-cases (leb v.version w.version)) [
  | inl e ↦ rw e at h
  | inr e ↦
      let (q, rest) = rw e at h in let (p, all) = of_insert_version-All P v vs rest in (p, (q, all))
]

insert_version-In :
    (r v : Version) (vs : List Version) → In r (insert_version v vs) → (r ≡ v) ⊎ In r vs
unfolding insert_version
insert_version-In r v [] h = h
insert_version-In r v (w ∷ vs) h = elim (Bool-cases (leb v.version w.version)) [
  | inl e ↦ rw e at h
  | inr e ↦
      let h' : (r ≡ w) ⊎ In r (insert_version v vs) = rw e at h in
      elim h' [
        | inl same ↦ inr (inl same)
        | inr later ↦ elim (insert_version-In r v vs later) [
          | inl same ↦ inl same
          | inr old ↦ inr (inr old)
        ]
      ]
]

above-All :
    (m n : ℕ) (vs : List Version)
    → m ≤ n
    → All (λ w. n ≤ w.version) vs
    → All (λ w. m ≤ w.version) vs
above-All m n [] le h = tt
above-All m n (v ∷ vs) le (p, h) = (omega arith, above-All m n vs le h)

insert_version-Ascending :
    (v : Version) (vs : List Version) → Ascending vs → Ascending (insert_version v vs)
unfolding insert_version
insert_version-Ascending v [] h = (tt, tt)
insert_version-Ascending v (w ∷ vs) (first, rest) = elim (Bool-cases (leb v.version w.version)) [
  | inl e ↦
      let le : v.version ≤ w.version = ground arith in
      rw e ((le, above-All v.version w.version vs le first), (first, rest))
  | inr e ↦
      let le : w.version ≤ v.version = ground arith in
      rw e (
        insert_version-All (λ u. w.version ≤ u.version) v vs le first,
        insert_version-Ascending v vs rest,
      )
]

sort_versions-Ascending : (vs : List Version) → Ascending (sort_versions vs)
unfolding sort_versions
sort_versions-Ascending [] = tt
sort_versions-Ascending (v ∷ vs) =
    insert_version-Ascending v (sort_versions vs) (sort_versions-Ascending vs)

sort_versions-In : (r : Version) (vs : List Version) → In r (sort_versions vs) → In r vs
unfolding sort_versions
sort_versions-In r [] h = h
sort_versions-In r (v ∷ vs) h = elim (insert_version-In r v (sort_versions vs) h) [
  | inl same ↦ inl same
  | inr old ↦ inr (sort_versions-In r vs old)
]

of_sort_versions-All :
    (P : Version → Type 0) (vs : List Version) → All P (sort_versions vs) → All P vs
unfolding sort_versions
of_sort_versions-All P [] h = h
of_sort_versions-All P (v ∷ vs) h =
    let (p, rest) = of_insert_version-All P v (sort_versions vs) h in
    (p, of_sort_versions-All P vs rest)

-- The greatest of the versions that are not greater than `n`.
abbrev pub IsGreatest : ℕ → Version → List Version → Type 0
IsGreatest n r vs = In r vs × (r.version ≤ n) × All (λ w. w.version ≤ n → w.version ≤ r.version) vs

-- One that is in an ascending list is not below its first.
first_below :
    (m : ℕ) (r : Version) (vs : List Version)
    → All (λ w. m ≤ w.version) vs
    → In r vs
    → m ≤ r.version
first_below m r (v ∷ vs) (p, h) (inl same) = rw same p
first_below m r (v ∷ vs) (p, h) (inr later) = first_below m r vs h later
first_below m r [] h there = absurd there

last_not_greater-none :
    (n : ℕ) (vs : List Version) → last_not_greater n vs ≡ none → All (λ w. n < w.version) vs
last_not_greater-none n [] h = tt
last_not_greater-none n (v ∷ vs) h = elim (Option-cases (last_not_greater n vs)) [
  | inr (w, e) ↦ let h' : ◌≡◌ {A = Option Version} (some w) none = rw e at h in cc h'
  | inl e ↦ elim (Bool-cases (leb v.version n)) [
    | inl e' ↦ let h' : ◌≡◌ {A = Option Version} (some v) none = rw (e, e') at h in cc h'
    | inr e' ↦ (ground arith, last_not_greater-none n vs e)
  ]
]

-- Nothing is required of versions that are greater.
greater-All :
    (n m : ℕ) (vs : List Version)
    → All (λ w. n < w.version) vs
    → All (λ w. w.version ≤ n → w.version ≤ m) vs
greater-All n m [] h = tt
greater-All n m (v ∷ vs) (p, h) = ((λ le. omega arith), greater-All n m vs h)

last_not_greater-some :
    (n : ℕ) (r : Version) (vs : List Version)
    → Ascending vs
    → last_not_greater n vs ≡ some r
    → IsGreatest n r vs
last_not_greater-some n r [] up h = cc h
last_not_greater-some n r (v ∷ vs) (first, up) h = elim (Option-cases (last_not_greater n vs)) [
  | inr (w, e) ↦
      let same : w ≡ r = some-injective (rw e at h) in
      let (there, le, above) = last_not_greater-some n r vs up (e ∙ ap some same) in
      (inr there, le, ((λ _. first_below v.version r vs first there), above))
  | inl e ↦ elim (Bool-cases (leb v.version n)) [
    | inr e' ↦ let h' : ◌≡◌ {A = Option Version} none (some r) = rw (e, e') at h in cc h'
    | inl e' ↦
        let same : v ≡ r = some-injective (rw (e, e') at h) in
        (
          inl (sym same),
          rw (← same) (ground arith),
          ((λ _. rw same (omega arith)), greater-All n r.version vs (last_not_greater-none n vs e)),
        )
  ]
]

module _ (s : MetaTx) (key : TableKey) (t : s.Tx) (rows : List (Key × TableData))
    (vs : List Version) (read : s.read key t ≡ ok (rows, none))
    (versions : read_versions rows none ≡ ok vs) where
  got : schema_get s key t ≡ ok (sort_versions vs)
  unfolding schema_get
  got = rw (read, versions) refl

  -- Where the rows under the key of all revisions are read without an error and are the versions `vs`,
  -- in any order, GetNotGreater answers one of them that is not greater than the version asked for, and
  -- is the greatest such; or, that it is not found, where all of them are greater.
  pub get_not_greater-IsGreatest :
      (n : ℕ)
      → ((r : Version) × (get_not_greater s key n t ≡ ok r) × IsGreatest n r vs)
        ⊎ ((get_not_greater s key n t ≡ err (not_found "schema version not found"))
            × All (λ w. n < w.version) vs)
  unfolding get_not_greater
  get_not_greater-IsGreatest n = elim (Option-cases (last_not_greater n (sort_versions vs))) [
    | inr (r, e) ↦
        let (there, le, above) =
          last_not_greater-some n r (sort_versions vs) (sort_versions-Ascending vs) e in
        inl (
          r,
          rw (got, e) refl,
          (
            sort_versions-In r vs there,
            le,
            of_sort_versions-All (λ w. w.version ≤ n → w.version ≤ r.version) vs above,
          ),
        )
    | inl e ↦ inr (
      rw (got, e) refl,
      of_sort_versions-All (λ w. n < w.version) vs (last_not_greater-none n (sort_versions vs) e),
    )
  ]
