-- ===== src/Query/Strict.antt =====
-- query/filter/key_builder.go: StrictEqKeyComposer, plans of single keys from conditions of
-- equality. `V` is a value, `P` a part of a key, `K` an encoded key; how parts are built and encoded
-- is the caller's.
pub mod PrimaryKey
pub mod Either
use tigris.Base.{
  ℕ, zero, suc, ◌+◌, String, Bool, true, false, ◌&&◌, ◌||◌, Option, none, some, List, [], ◌∷◌, ◌++◌,
  map, str_eq, ltb, if◌then◌else◌, length, Result, ok, err, invalid_argument, panic, ◌>>=◌,
}
use tigris.Schema.FieldType.{FieldType, unknown}
use tigris.Query.Filter.{
  LogicalOp, and_op, or_op, MatcherType, eq, gt, gte, lt, lte, Selector, Filter, selector, logical,
  other, Filters, nil, cons,
}
use tigris.Query.Plan.{
  IndexType, QueryPlanType, equal, range, full_range, Fieldable, QueryPlan, new_query_plan, is_eq,
  is_secondary, is_primary,
}

module _ {V P K : Type 0} (encode : List P → Result K) (build_parts : String → V → List P) where
  -- The inner loop of StrictEqKeyComposer.Compose over the selectors.
  unfoldable pub repeated_fields : Bool → Fieldable → List (Selector V) → Result (List (Selector V))
  repeated_fields match_all k [] = ok []
  repeated_fields match_all k (s ∷ rest) =
      let more = repeated_fields match_all k rest in
      if is_eq s.matcher
      then (do found ← more; ok (if str_eq k.name s.name then s ∷ found else found))
      else if match_all
      then err (invalid_argument "filters only supporting $eq comparison")
      else more

  -- The first composite key is extended, and copied for each further selector of the field.
  unfoldable pub extend :
      List (List (Selector V)) → Selector V → List (Selector V) → List (List (Selector V))
  extend [] s more = []
  extend (c ∷ cs) s more = (c ++ s ∷ []) ∷ (cs ++ map (λ r. c ++ r ∷ []) more)

  abbrev pub is_and : LogicalOp → Bool
  is_and and_op = true
  is_and or_op = false

  unfoldable pub add_fields :
      Bool
      → LogicalOp
      → List (List (Selector V))
      → List (Selector V)
      → Result (List (List (Selector V)))
  unfolding extend
  add_fields match_all parent composite [] =
      if match_all
      then err (invalid_argument "filters doesn't contains primary key fields")
      else ok composite
  add_fields match_all parent composite (s ∷ more) =
      if ltb 0 (length more) && is_and parent && match_all
      then err (invalid_argument "reusing same fields for conditions on equality")
      else if match_all
      then ok (extend composite s more)
      else ok (composite ++ (s ∷ more) ∷ [])

  -- The outer loop over the keys that the user defined.
  unfoldable pub composite_keys :
      Bool
      → LogicalOp
      → List (Selector V)
      → List (List (Selector V))
      → List Fieldable
      → Result (List (List (Selector V)))
  unfolding repeated_fields add_fields
  composite_keys match_all parent selectors composite [] = ok composite
  composite_keys match_all parent selectors composite (k ∷ ks) = do
    found ← repeated_fields match_all k selectors
    composite' ← add_fields match_all parent composite found
    composite_keys match_all parent selectors composite' ks

  unfoldable pub selector_parts : List (Selector V) → List P
  selector_parts [] = []
  selector_parts (s ∷ rest) = build_parts s.name s.value ++ selector_parts rest

  -- The field that a plan of one selector is for.
  abbrev pub plan_field : List (Selector V) → String × FieldType
  plan_field (s ∷ []) = (s.name, s.data_type)
  plan_field _ = ("", unknown)

  unfoldable pub and_plan : IndexType → List (Selector V) → Result (List (QueryPlan K))
  unfolding selector_parts new_query_plan
  and_plan index_type k = do
    key ← encode (selector_parts k)
    let field = plan_field k
    ok (new_query_plan equal field.0 field.1 (key ∷ []) index_type ∷ [])

  unfoldable pub or_plans : IndexType → ℕ → List (Selector V) → Result (List (QueryPlan K))
  unfolding new_query_plan
  or_plans index_type count [] = ok []
  or_plans index_type count (s ∷ rest) =
      if ltb 1 count
      then err (invalid_argument "OR is not supported with composite primary keys")
      else do
        key ← encode (build_parts s.name s.value)
        plans ← or_plans index_type count rest
        ok (new_query_plan equal s.name s.data_type (key ∷ []) index_type ∷ plans)

  abbrev pub composite_plans :
      IndexType → LogicalOp → ℕ → List (Selector V) → Result (List (QueryPlan K))
  composite_plans index_type and_op count k = and_plan index_type k
  composite_plans index_type or_op count k = or_plans index_type count k

  unfoldable pub query_plans :
      IndexType → LogicalOp → ℕ → List (List (Selector V)) → Result (List (QueryPlan K))
  unfolding and_plan or_plans
  query_plans index_type parent count [] = ok []
  query_plans index_type parent count (k ∷ ks) = do
    plans ← composite_plans index_type parent count k
    rest ← query_plans index_type parent count ks
    ok (plans ++ rest)

  -- StrictEqKeyComposer.Compose.
  unfoldable pub compose_strict :
      Bool
      → IndexType
      → List (Selector V)
      → List Fieldable
      → LogicalOp
      → Result (List (QueryPlan K))
  unfolding composite_keys query_plans
  compose_strict match_all index_type selectors keys parent = do
    composite ← composite_keys match_all parent selectors (if match_all then [] ∷ [] else []) keys
    query_plans index_type parent (length keys) composite
