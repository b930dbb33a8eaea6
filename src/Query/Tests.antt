-- ===== src/Query/Tests.antt =====
-- The theorems on query plans, applied to small filters. The only part of a value's key is the
-- value.
use tigris.Base.{
  ℕ, ◌+◌, ◌≤◌, ◌<◌, ◌≡◌, refl, sym, ◌≢◌, eq_iff, String, Bool, true, false, none, some, List, [],
  ◌∷◌, Result, ok, err, invalid_argument, ltb, leb, ◌==◌, str_eq, if◌then◌else◌, All, arith,
  ok-injective,
}
use mathlib.Core.Bool.{true≢false}
use tigris.Schema.FieldType.{unknown, int64}
use tigris.Query.Filter.{
  LogicalOp, and_op, or_op, MatcherType, eq, gt, gte, lt, lte, Selector, selector, logical, Filters,
  nil, cons, matches_all,
}
use tigris.Query.Plan.{
  equal, range, full_range, primary_index, secondary_index, Fieldable, QueryPlan, new_query_plan,
}
use tigris.Query.Strict.{compose_strict}
use tigris.Query.Strict.PrimaryKey.{compose_strict-Covers, compose_strict_forgets, Covers, EqHolds}
use tigris.Query.KeyBuilder.{build}
use tigris.Query.KeyBuilder.Queue.{build-returns, size_all}
use tigris.Query.KeyBuilder.Covers.{build-OwnKeys, OwnKeys, no_or_all}
use tigris.Query.KeyBuilder.Misses.{build-misses, either}
use tigris.Query.Range.{
  Bounds, is_greater, is_less, exclusive, is_gt, is_lte, compose_range, field_bounds,
}
use tigris.Query.Range.Ends.{IsOrdered, Encloses, compose_range-Encloses}
use tigris.Query.Range.Kind.{field_bounds_kind, kind_of, count_bounds}

abbrev encode : List ℕ → Result (List ℕ)
encode parts = ok parts

abbrev build_parts : String → ℕ → List ℕ
build_parts name v = v ∷ []

abbrev key : String → Fieldable
key name = record { name = name; type = int64 }

abbrev on : String → MatcherType → ℕ → Selector ℕ
on name m v = record { name = name; data_type = int64; matcher = m; value = v }

-- A document whose field a is 1 and whose other fields are 2.
abbrev doc : String → ℕ
doc name = if str_eq name "a" then 1 else 2

abbrev accepts : Selector ℕ → Bool
accepts s = if doc s.name == s.value then true else false

abbrev plan : List (List ℕ) → QueryPlan (List ℕ)
plan keys = new_query_plan equal "" unknown keys primary_index

abbrev conditions : List (Selector ℕ)
conditions = on "b" eq 2 ∷ on "c" eq 2 ∷ on "a" eq 1 ∷ []

conditions-compose :
    compose_strict encode build_parts true primary_index conditions (key "a" ∷ key "b" ∷ []) and_op
    ≡ ok (plan ((1 ∷ 2 ∷ []) ∷ []) ∷ [])
unfolding compose_strict
conditions-compose = refl

compose_strict-Covers_example :
    Covers encode build_parts doc primary_index
      (key "a" ∷ key "b" ∷ [])
      (plan ((1 ∷ 2 ∷ []) ∷ []) ∷ [])
compose_strict-Covers_example =
    compose_strict-Covers encode build_parts doc primary_index conditions (key "a" ∷ key "b" ∷ [])
      (plan ((1 ∷ 2 ∷ []) ∷ []) ∷ []) conditions-compose
      ((λ _. refl), ((λ _. refl), ((λ _. refl), tt)))

b-differs : ◌≢◌ {A = String} "a" "b"
b-differs h = true≢false (sym ((eq_iff "a" "b").1 h))

compose_strict_forgets_example :
    compose_strict encode build_parts true primary_index
      (on "a" eq 1 ∷ on "b" eq 2 ∷ on "a" eq 3 ∷ [])
      (key "a" ∷ [])
      or_op
    ≡ compose_strict encode build_parts true primary_index
        (on "a" eq 1 ∷ on "a" eq 3 ∷ [])
        (key "a" ∷ [])
        or_op
compose_strict_forgets_example =
    compose_strict_forgets encode build_parts (on "b" eq 2) refl true primary_index or_op
      (on "a" eq 1 ∷ []) (on "a" eq 3 ∷ []) (key "a" ∷ []) (b-differs, tt)

abbrev composed :
    List (Selector ℕ) → List Fieldable → LogicalOp → Result (List (QueryPlan (List ℕ)))
composed sels keys op = compose_strict encode build_parts true primary_index sels keys op

-- a = 1 and (c = 2 and (b = 2 and a = 1)).
abbrev nested : Filters ℕ
nested = cons (selector (on "b" eq 2)) (
    cons (selector (on "a" eq 1)) (
      cons (logical and_op (cons (selector (on "a" eq 1)) (cons (selector (on "b" eq 2)) nil)))
        nil))

nested-size : size_all nested ≤ 5
unfolding size_all
nested-size = omega arith

build-returns_example :
    (r : Result (List (QueryPlan (List ℕ)))) × (build composed primary_index
        (key "a" ∷ key "b" ∷ [])
        5
        nested
      ≡ some r)
build-returns_example =
    build-returns composed primary_index (key "a" ∷ key "b" ∷ []) 5 nested nested-size

accepts-EqHolds : (s : Selector ℕ) → accepts s ≡ true → EqHolds build_parts doc s
accepts-EqHolds s h _ = ground arith

nested-build :
    build composed primary_index (key "a" ∷ key "b" ∷ []) 5 nested
    ≡ some (ok (plan ((1 ∷ 2 ∷ []) ∷ (1 ∷ 2 ∷ []) ∷ []) ∷ []))
unfolding build compose_strict
nested-build = refl

nested-matches : (matches_all accepts (λ _. false) nested ≡ true) × (no_or_all nested ≡ true)
unfolding matches_all no_or_all
nested-matches = (refl, refl)

build-OwnKeys_example :
    All
      (OwnKeys encode build_parts doc (key "a" ∷ key "b" ∷ []))
      (plan ((1 ∷ 2 ∷ []) ∷ (1 ∷ 2 ∷ []) ∷ []) ∷ [])
build-OwnKeys_example =
    build-OwnKeys encode build_parts doc accepts (λ _. false) accepts-EqHolds
      (key "a" ∷ key "b" ∷ []) 5 nested (plan ((1 ∷ 2 ∷ []) ∷ (1 ∷ 2 ∷ []) ∷ []) ∷ []) nested-build
      nested-matches.0 nested-matches.1

-- a = 7 or b = 2: the document is matched, and only 7 is looked up.
build-misses_example :
    (matches_all accepts
        (λ _. false)
        (either encode build_parts accepts (λ _. false) (key "a") (on "a" eq 7) (on "b" eq 2))
      ≡ true)
    × (build composed primary_index
          (key "a" ∷ [])
          1
          (either encode build_parts accepts (λ _. false) (key "a") (on "a" eq 7) (on "b" eq 2))
        ≡ some (ok (new_query_plan equal "a" int64 ((7 ∷ []) ∷ []) primary_index ∷ [])))
build-misses_example =
    build-misses encode build_parts accepts (λ _. false) (key "a") (on "a" eq 7) (on "b" eq 2) 0
      (7 ∷ []) refl refl refl b-differs refl refl

-- Keys in order: a value counts double, and what is added to it one.
abbrev order_encode : List ℕ → Result ℕ
order_encode (v ∷ []) = ok (v + v)
order_encode (v ∷ after ∷ []) = ok (v + v + 1)
order_encode _ = err (invalid_argument "parts")

-- The value of the document's field is 5.
abbrev meets_by : MatcherType → ℕ → Bool
meets_by eq v = if v == 5 then true else false
meets_by gt v = ltb v 5
meets_by gte v = leb v 5
meets_by lt v = ltb 5 v
meets_by lte v = leb 5 v

abbrev meets : Selector ℕ → Bool
meets s = meets_by s.matcher s.value

abbrev Lower : String → ℕ → Type 0
Lower name k = k ≤ 10

abbrev Upper : String → ℕ → Type 0
Upper name k = 10 < k

above-Lower :
    (m : MatcherType) (v k : ℕ)
    → meets_by m v ≡ true
    → is_greater m ≡ true
    → order_encode (exclusive 255 (is_gt m) (v ∷ [])) ≡ ok k
    → k ≤ 10
above-Lower gt v k a h e = let q : v + v + 1 ≡ k = ok-injective e in ground arith
above-Lower gte v k a h e = let q : v + v ≡ k = ok-injective e in ground arith
above-Lower eq v k a h e = cc h
above-Lower lt v k a h e = cc h
above-Lower lte v k a h e = cc h

below-Upper :
    (m : MatcherType) (v k : ℕ)
    → meets_by m v ≡ true
    → is_less m ≡ true
    → order_encode (exclusive 255 (is_lte m) (v ∷ [])) ≡ ok k
    → 10 < k
below-Upper lt v k a h e = let q : v + v ≡ k = ok-injective e in ground arith
below-Upper lte v k a h e = let q : v + v + 1 ≡ k = ok-injective e in ground arith
below-Upper eq v k a h e = cc h
below-Upper gt v k a h e = cc h
below-Upper gte v k a h e = cc h

meets-IsOrdered : IsOrdered order_encode build_parts 255 0 1000 meets Lower Upper
meets-IsOrdered = record {
  above = λ s k. above-Lower s.matcher s.value k;
  below = λ s k. below-Upper s.matcher s.value k;
  lowest = λ name k e. let q : 0 ≡ k = ok-injective e in omega arith;
  highest = λ name k e. let q : 2000 ≡ k = ok-injective e in omega arith;
}

abbrev between : List (Selector ℕ)
between = on "a" gte 3 ∷ on "a" lt 9 ∷ []

abbrev between_plan : QueryPlan ℕ
between_plan = new_query_plan range "a" int64 (6 ∷ 18 ∷ []) secondary_index

between-compose :
    compose_range order_encode build_parts 255 0 1000 secondary_index between (key "a" ∷ []) and_op
    ≡ ok (between_plan ∷ [])
unfolding compose_range
between-compose = refl

compose_range-Encloses_example :
    All (Encloses order_encode build_parts 255 0 1000 meets Lower Upper) (between_plan ∷ [])
compose_range-Encloses_example =
    compose_range-Encloses order_encode build_parts 255 0 1000 meets Lower Upper meets-IsOrdered
      secondary_index between (key "a" ∷ []) and_op (between_plan ∷ []) between-compose
      (refl, (refl, tt))

-- Two conditions on the same side.
abbrev above_both : List (Selector ℕ)
above_both = on "a" gte 3 ∷ on "a" gt 4 ∷ []

abbrev above_both_bounds : Bounds ℕ
above_both_bounds = record { begin = some 9; end = some 2000; range_type = range }

above_both-bounds :
    field_bounds order_encode build_parts 255 0 1000
      (key "a")
      above_both
      (record { begin = none; end = none; range_type = full_range })
    ≡ ok above_both_bounds
unfolding field_bounds
above_both-bounds = refl

field_bounds_kind_example : range ≡ kind_of (count_bounds (key "a") above_both)
field_bounds_kind_example =
    field_bounds_kind order_encode build_parts 255 0 1000 (key "a") above_both above_both_bounds
      above_both-bounds
