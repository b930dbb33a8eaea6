-- ===== src/Query/Range.antt =====
-- query/filter/key_builder.go: RangeKeyComposer and QueryPlanFromSort, plans of ranges of keys.
pub mod Ends
pub mod Kind
use tigris.Base.{
  ℕ, zero, suc, ◌+◌, String, Bool, true, false, ◌&&◌, ◌||◌, Option, none, some, List, [], ◌∷◌, ◌++◌,
  map, str_eq, ltb, if◌then◌else◌, length, Result, ok, err, invalid_argument, panic, ◌>>=◌,
}
use tigris.Schema.FieldType.{FieldType, unknown}
use tigris.Query.Filter.{
  LogicalOp, and_op, or_op, MatcherType, eq, gt, gte, lt, lte, Selector, Filter, selector, logical,
  other, Filters, nil, cons,
}
use tigris.Query.Plan.{
  IndexType, QueryPlanType, equal, range, full_range, Fieldable, QueryPlan, new_query_plan, is_eq,
  is_secondary, is_primary,
}

abbrev pub is_greater : MatcherType → Bool
is_greater gt = true
is_greater gte = true
is_greater _ = false

abbrev pub is_less : MatcherType → Bool
is_less lt = true
is_less lte = true
is_less _ = false

abbrev pub is_range : MatcherType → Bool
is_range m = is_greater m || is_less m

abbrev pub is_gt : MatcherType → Bool
is_gt gt = true
is_gt _ = false

abbrev pub is_lte : MatcherType → Bool
is_lte lte = true
is_lte _ = false

-- The part `after` is added to the parts of a key that does not count itself at that end.
abbrev pub exclusive : {P : Type 0} → P → Bool → List P → List P
exclusive after true parts = parts ++ after ∷ []
exclusive after false parts = parts

-- What the loop of RangeKeyComposer.Compose over the selectors keeps for a field.
pub record Bounds (K : Type 0) : Type 0 where
  pub begin : Option K
  pub end : Option K
  pub range_type : QueryPlanType

-- `after` is the part 0xFF, `least` and `greatest` the values below and above all others.
module _ {V P K : Type 0} (encode : List P → Result K) (build_parts : String → V → List P)
    (after : P) (least greatest : V) where
  abbrev pub missing_end : Selector V → Bounds K → Result (Bounds K)
  missing_end s b = elim b.end [
    | some _ ↦ ok (record b { range_type = range })
    | none ↦ do e ← encode (build_parts s.name greatest); ok (record b { end = some e })
  ]

  abbrev pub missing_begin : Selector V → Bounds K → Result (Bounds K)
  missing_begin s b = elim b.begin [
    | some _ ↦ ok (record b { range_type = range })
    | none ↦ do e ← encode (build_parts s.name least); ok (record b { begin = some e })
  ]

  unfoldable pub add_bound : Selector V → Bounds K → Result (Bounds K)
  add_bound s b =
      if is_greater s.matcher
      then (do
        k ← encode (exclusive after (is_gt s.matcher) (build_parts s.name s.value))
        missing_end s (record b { begin = some k }))
      else (do
        k ← encode (exclusive after (is_lte s.matcher) (build_parts s.name s.value))
        missing_begin s (record b { end = some k }))

  unfoldable pub field_bounds : Fieldable → List (Selector V) → Bounds K → Result (Bounds K)
  unfolding add_bound
  field_bounds k [] b = ok b
  field_bounds k (s ∷ rest) b =
      if str_eq k.name s.name && is_range s.matcher
      then (add_bound s b >>= λ b'. field_bounds k rest b')
      else field_bounds k rest b

  abbrev pub bounds_plan : IndexType → Fieldable → Bounds K → List (QueryPlan K)
  bounds_plan index_type k b = elim b.begin [
    | none ↦ []
    | some l ↦ elim b.end [
      | none ↦ []
      | some r ↦ new_query_plan b.range_type k.name k.type (l ∷ r ∷ []) index_type ∷ []
    ]
  ]

  unfoldable pub range_plans :
      IndexType → List (Selector V) → List Fieldable → Result (List (QueryPlan K))
  unfolding field_bounds new_query_plan
  range_plans index_type selectors [] = ok []
  range_plans index_type selectors (k ∷ ks) = do
    b ← field_bounds k selectors (record { begin = none; end = none; range_type = full_range })
    rest ← range_plans index_type selectors ks
    ok (bounds_plan index_type k b ++ rest)

  -- RangeKeyComposer.Compose.
  unfoldable pub compose_range :
      IndexType → List (Selector V) → List Fieldable → LogicalOp → Result (List (QueryPlan K))
  unfolding range_plans
  compose_range index_type selectors keys parent = do
    plans ← range_plans index_type selectors keys
    if ltb 0 (length plans) then ok plans else err (invalid_argument "No range query found")

  unfoldable pub find_field : List Fieldable → String → Option Fieldable
  find_field [] name = none
  find_field (k ∷ ks) name = if str_eq k.name name then some k else find_field ks name

  -- QueryPlanFromSort: the first of the sort fields counts, by its name and order.
  unfoldable pub query_plan_from_sort :
      Option (List (String × Bool)) → List Fieldable → IndexType → Result (Option (QueryPlan K))
  unfolding find_field
  query_plan_from_sort none fields index_type = ok none
  query_plan_from_sort (some []) fields index_type = ok none
  query_plan_from_sort (some ((name, ascending) ∷ _)) fields index_type =
      elim (find_field fields name) [
        | none ↦ err (invalid_argument "Sort field is not indexed")
        | some field ↦ do
          l ← encode (build_parts field.name least)
          r ← encode (build_parts field.name greatest)
          ok (
              some (record {
                query_type = full_range;
                field_name = field.name;
                data_type = field.type;
                keys = l ∷ r ∷ [];
                ascending = ascending;
                index_type = index_type;
                from = none;
              }))
      ]
