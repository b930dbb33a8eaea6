-- ===== src/Index/Same.antt =====
-- secondary_indexer.go: IsEqual, and what is left of two lists of rows.
use tigris.Base.{
  ◌≡◌, refl, ◌∙◌, ap, Bool, true, false, ◌&&◌, List, [], ◌∷◌, map, ◌⊎◌, inl, inr, Bool-cases,
  eq_iff, if◌then◌else◌, some, arith, All, String,
}
use tigris.Kv.Fdb.{Key}
use tigris.Value.{Parsers, compare_to}
use tigris.Value.Order.{IsSymmetric, IsSensitive, compare_to-same}
use tigris.Value.Collation.{Collator, Comparison, wrong, less, same, more, is_same}
use tigris.Index.Row.{IndexRow, row_name}
use tigris.Index.{
  is_equal, contains_index_row, remove_duplicate_rows, build_index_key, create_keys, seen,
}

-- Membership with the place kept.
abbrev pub In : {A : Type 0} → A → List A → Type 0
In x [] = ⊥
In x (y ∷ ys) = (y ≡ x) ⊎ In x ys

pub All-In : {A : Type 0} (P : A → Type 0) (x : A) (xs : List A) → All P xs → In x xs → P x
All-In P x [] hs i = elim i [ ]
All-In P x (y ∷ ys) (h, hs) (inl e) = rw (← e) h
All-In P x (y ∷ ys) (h, hs) (inr i) = All-In P x ys hs i

pub In-map : {A B : Type 0} (f : A → B) (x : A) (xs : List A) → In x xs → In (f x) (map f xs)
In-map f x [] i = elim i [ ]
In-map f x (y ∷ ys) (inl e) = inl (ap f e)
In-map f x (y ∷ ys) (inr i) = inr (In-map f x ys i)

pub In-of_map :
    {A B : Type 0} (f : A → B) (k : B) (xs : List A)
    → In k (map f xs)
    → (x : A) × In x xs × (f x ≡ k)
In-of_map f k [] i = elim i [ ]
In-of_map f k (y ∷ ys) (inl e) = (y, inl refl, e)
In-of_map f k (y ∷ ys) (inr i) = let (x, j, e) = In-of_map f k ys i in (x, inr j, e)

if_none : {A : Type 0} (b c : Bool) (x y : A) → b ≡ false → (if b && c then x else y) ≡ y
if_none true c x y h = cc
if_none false c x y h = refl

module _ (p : Parsers) (collator : Collator) where
  abbrev Row : Type 0
  Row = IndexRow p.Float

  pub contains-In :
      (rows : List Row) (f : Row)
      → contains_index_row p collator rows f ≡ true
      → (r : Row) × In r rows × (is_equal p collator r f ≡ true)
  unfolding contains_index_row
  contains-In [] f h = cc
  contains-In (r ∷ rows) f h = elim (Bool-cases (is_equal p collator r f)) [
    | inl e ↦ (r, inl refl, e)
    | inr e ↦
        let (r', i, e') = contains-In rows f (rw (e, contains_index_row) at h) in (r', inr i, e')
  ]

  pub In-contains :
      (rows : List Row) (f r : Row)
      → In r rows
      → is_equal p collator r f ≡ true
      → contains_index_row p collator rows f ≡ true
  unfolding contains_index_row
  In-contains [] f r i h = elim i [ ]
  In-contains (r' ∷ rows) f r (inl e) h = rw e (rw h)
  In-contains (r' ∷ rows) f r (inr i) h = ground (arith, In-contains rows f r i h)

  pub In-removed :
      (rows removes : List Row) (r : Row)
      → In r (remove_duplicate_rows p collator rows removes)
      → In r removes × (contains_index_row p collator rows r ≡ false)
  unfolding remove_duplicate_rows
  In-removed rows [] r h = elim h [ ]
  In-removed rows (r' ∷ removes) r h = elim (Bool-cases (contains_index_row p collator rows r')) [
    | inl e ↦
        let (i, c) = In-removed rows removes r (rw (e, remove_duplicate_rows) at h) in (inr i, c)
    | inr e ↦
        let h' : (r' ≡ r) ⊎ In r (remove_duplicate_rows p collator rows removes) =
          rw (e, remove_duplicate_rows) at h in
        elim h' [
          | inl own ↦ (inl own, rw (← own) e)
          | inr i ↦ let (j, c) = In-removed rows removes r i in (inr j, c)
        ]
  ]

  pub removed-In :
      (rows removes : List Row) (r : Row)
      → In r removes
      → contains_index_row p collator rows r ≡ false
      → In r (remove_duplicate_rows p collator rows removes)
  unfolding remove_duplicate_rows
  removed-In rows [] r i c = elim i [ ]
  removed-In rows (r' ∷ removes) r (inl own) c =
      let e : contains_index_row p collator rows r' ≡ false = rw own c in rw e (inl own)
  removed-In rows (r' ∷ removes) r (inr i) c =
      elim (Bool-cases (contains_index_row p collator rows r')) [
        | inl e ↦ rw e (removed-In rows removes r i c)
        | inr e ↦ rw e (inr (removed-In rows removes r i c))
      ]

  -- A row that stands for an element and not for a nested array, with a value as of the index.
  abbrev pub IsPlain : Row → Type 0
  IsPlain r = (r.stub ≡ false) × IsSensitive r.value

  create_keys-map :
      (primary_key : Key) (stubs : List String) (rows : List Row)
      → All IsPlain rows
      → create_keys p collator primary_key stubs rows
        ≡ map (build_index_key p collator primary_key) rows
  unfolding create_keys
  create_keys-map primary_key stubs [] h = refl
  create_keys-map primary_key stubs (r ∷ rows) ((no_stub, s), h) =
      if_none r.stub (seen (row_name r) stubs) _ _ no_stub
      ∙ ap (◌∷◌ (build_index_key p collator primary_key r))
          (create_keys-map primary_key (row_name r ∷ stubs) rows h)

  removed-All :
      (P : Row → Type 0) (rows removes : List Row)
      → All P removes
      → All P (remove_duplicate_rows p collator rows removes)
  unfolding remove_duplicate_rows
  removed-All P rows [] h = h
  removed-All P rows (r ∷ removes) (h, hs) =
      elim (Bool-cases (contains_index_row p collator rows r)) [
        | inl e ↦ rw e (removed-All P rows removes hs)
        | inr e ↦ rw e (h, removed-All P rows removes hs)
      ]

  pub keys_of_removed :
      (primary_key : Key) (rows removes : List Row)
      → All IsPlain removes
      → create_keys p collator primary_key [] (remove_duplicate_rows p collator rows removes)
        ≡ map
            (build_index_key p collator primary_key)
            (remove_duplicate_rows p collator rows removes)
  keys_of_removed primary_key rows removes h =
      create_keys-map primary_key [] (remove_duplicate_rows p collator rows removes)
        (removed-All IsPlain rows removes h)

  is_same-eq : (c : Comparison) → is_same c ≡ true → c ≡ same
  is_same-eq same h = refl
  is_same-eq less h = cc
  is_same-eq more h = cc
  is_same-eq wrong h = cc

  pub is_equal-symmetric :
      IsSymmetric p collator
      → (r o : Row) → IsPlain r
      → IsPlain o
      → is_equal p collator r o ≡ true
      → is_equal p collator o r ≡ true
  unfolding is_equal
  is_equal-symmetric law r o plain plain' h =
      let e : compare_to p collator r.value (some o.value) ≡ same =
        is_same-eq (compare_to p collator r.value (some o.value)) (ground arith) in
      let e' : compare_to p collator o.value (some r.value) ≡ same =
        compare_to-same p collator law r.value o.value plain.1 plain'.1 e in
      ground (arith, eq_iff (row_name r) (row_name o), eq_iff (row_name o) (row_name r))
