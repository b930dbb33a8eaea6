-- ===== src/Query/KeyBuilder.antt =====
-- query/filter/key_builder.go: KeyBuilder.Build, which walks a filter level by level.
pub mod Queue
pub mod Covers
pub mod Misses
use tigris.Base.{
  ℕ, zero, suc, ◌+◌, String, Bool, true, false, ◌&&◌, ◌||◌, Option, none, some, List, [], ◌∷◌, ◌++◌,
  map, str_eq, ltb, if◌then◌else◌, length, Result, ok, err, invalid_argument, panic, ◌>>=◌,
}
use tigris.Schema.FieldType.{FieldType, unknown}
use tigris.Query.Filter.{
  LogicalOp, and_op, or_op, MatcherType, eq, gt, gte, lt, lte, Selector, Filter, selector, logical,
  other, Filters, nil, cons,
}
use tigris.Query.Plan.{
  IndexType, QueryPlanType, equal, range, full_range, Fieldable, QueryPlan, new_query_plan, is_eq,
  is_secondary, is_primary,
}

-- KeyBuilder.Build over any composer.
module _ {V K : Type 0}
    (compose : List (Selector V) → List Fieldable → LogicalOp → Result (List (QueryPlan K)))
    (index_type : IndexType) (keys : List Fieldable) where
  unfoldable pub top_selectors : Filters V → List (Selector V)
  top_selectors nil = []
  top_selectors (cons (selector s) fs) = s ∷ top_selectors fs
  top_selectors (cons (logical op gs) fs) = top_selectors fs
  top_selectors (cons (other name) fs) = top_selectors fs

  -- What the first loop puts in the queue: the logical filters.
  unfoldable pub top_logical : Filters V → List (Filter V)
  top_logical nil = []
  top_logical (cons (selector s) fs) = top_logical fs
  top_logical (cons (logical op gs) fs) = logical op gs ∷ top_logical fs
  top_logical (cons (other name) fs) = top_logical fs

  -- What a level puts in the queue: all but its selectors.
  unfoldable pub rest_of_level : Filters V → List (Filter V)
  rest_of_level nil = []
  rest_of_level (cons (selector s) fs) = rest_of_level fs
  rest_of_level (cons (logical op gs) fs) = logical op gs ∷ rest_of_level fs
  rest_of_level (cons (other name) fs) = other name ∷ rest_of_level fs

  abbrev pub is_or : LogicalOp → Bool
  is_or or_op = true
  is_or and_op = false

  unfoldable pub level_plans : List (Selector V) → LogicalOp → Result (List (QueryPlan K))
  level_plans [] op = ok []
  level_plans (s ∷ ss) op = compose (s ∷ ss) keys op

  -- The loop over the queue, on fuel: none when the fuel runs out.
  unfoldable pub build_queue :
      ℕ → List (Filter V) → List (QueryPlan K) → Option (Result (List (QueryPlan K)))
  unfolding level_plans top_selectors rest_of_level
  build_queue fuel [] all_keys = some (ok all_keys)
  build_queue zero (f ∷ queue) all_keys = none
  build_queue (suc fuel) (selector s ∷ queue) all_keys = build_queue fuel queue all_keys
  build_queue (suc fuel) (other name ∷ queue) all_keys = build_queue fuel queue all_keys
  build_queue (suc fuel) (logical op fs ∷ queue) all_keys =
      if is_or op && is_secondary index_type
      then some (err (invalid_argument "$or filter is not yet supported for secondary index"))
      else elim (level_plans (top_selectors fs) op) [
        | err e ↦ some (err e)
        | ok plans ↦ build_queue fuel (queue ++ rest_of_level fs) (all_keys ++ plans)
      ]

  unfoldable pub plan_keys : List (QueryPlan K) → List K
  plan_keys [] = []
  plan_keys (p ∷ ps) = p.keys ++ plan_keys ps

  -- For a primary key the plans are one, and no plan at all is a panic.
  unfoldable pub combine : List (QueryPlan K) → Result (List (QueryPlan K))
  unfolding plan_keys
  combine [] = if is_primary index_type then err (panic "index out of range") else ok []
  combine (p ∷ ps) =
      if is_primary index_type
      then ok (record p { keys = p.keys ++ plan_keys ps } ∷ [])
      else ok (p ∷ ps)

  abbrev pub finish_build :
      Option (Result (List (QueryPlan K))) → Option (Result (List (QueryPlan K)))
  finish_build none = none
  finish_build (some (err e)) = some (err e)
  finish_build (some (ok all_keys)) = some (combine all_keys)

  unfoldable pub build : ℕ → Filters V → Option (Result (List (QueryPlan K)))
  unfolding build_queue combine top_logical
  build fuel filters = elim (level_plans (top_selectors filters) and_op) [
    | err e ↦ some (err e)
    | ok plans ↦ finish_build (build_queue fuel (top_logical filters) plans)
  ]
