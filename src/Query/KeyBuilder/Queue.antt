-- ===== src/Query/KeyBuilder/Queue.antt =====
-- query/filter/key_builder.go: the queue of filters in Build.
use tigris.Base.{
  ℕ, zero, suc, ◌+◌, ◌≤◌, ◌≡◌, refl, some, List, [], ◌∷◌, ◌++◌, arith, inl, inr, Result, ok, err,
  Result-cases, Bool-cases, ◌&&◌, invalid_argument,
}
use tigris.Query.Filter.{
  LogicalOp, and_op, Selector, Filter, selector, logical, other, Filters, nil, cons,
}
use tigris.Query.Plan.{IndexType, Fieldable, QueryPlan, is_secondary}
use tigris.Query.KeyBuilder.{
  top_selectors, top_logical, rest_of_level, level_plans, build_queue, combine, finish_build, build,
  is_or,
}

-- The number of filters at all levels.
unfoldable mutual
  pub size : {V : Type 0} → Filter V → ℕ
  size (selector s) = 1
  size (logical op fs) = suc (size_all fs)
  size (other name) = 1

  pub size_all : {V : Type 0} → Filters V → ℕ
  size_all nil = 0
  size_all (cons x xs) = size x + size_all xs

module _ {V : Type 0} where
  queue_size : List (Filter V) → ℕ
  unfolding size
  queue_size [] = 0
  queue_size (x ∷ xs) = size x + queue_size xs

  queue_size-append :
      (xs ys : List (Filter V)) → queue_size (xs ++ ys) ≡ queue_size xs + queue_size ys
  unfolding queue_size
  queue_size-append [] ys = omega arith
  queue_size-append (x ∷ xs) ys = omega (arith, queue_size-append xs ys)

module _ {V K : Type 0}
    (compose : List (Selector V) → List Fieldable → LogicalOp → Result (List (QueryPlan K)))
    (index_type : IndexType) (keys : List Fieldable) where
  queue_size-rest_of_level :
      (fs : Filters V) → queue_size (rest_of_level compose index_type keys fs) ≤ size_all fs
  unfolding queue_size rest_of_level size size_all
  queue_size-rest_of_level nil = omega arith
  queue_size-rest_of_level (cons (selector s) fs) = omega (arith, queue_size-rest_of_level fs)
  queue_size-rest_of_level (cons (logical op gs) fs) = omega (arith, queue_size-rest_of_level fs)
  queue_size-rest_of_level (cons (other name) fs) = omega (arith, queue_size-rest_of_level fs)

  queue_size-top_logical :
      (fs : Filters V) → queue_size (top_logical compose index_type keys fs) ≤ size_all fs
  unfolding queue_size top_logical size size_all
  queue_size-top_logical nil = omega arith
  queue_size-top_logical (cons (selector s) fs) = omega (arith, queue_size-top_logical fs)
  queue_size-top_logical (cons (logical op gs) fs) = omega (arith, queue_size-top_logical fs)
  queue_size-top_logical (cons (other name) fs) = omega (arith, queue_size-top_logical fs)

  build_queue-returns :
      (fuel : ℕ) (queue : List (Filter V)) (all_keys : List (QueryPlan K))
      → queue_size queue ≤ fuel
      → (r : Result (List (QueryPlan K))) × (build_queue compose index_type keys fuel queue all_keys
          ≡ some r)
  unfolding build_queue queue_size size
  build_queue-returns fuel [] all_keys h = (ok all_keys, refl)
  build_queue-returns zero (selector s ∷ queue) all_keys h = absurd omega arith
  build_queue-returns zero (logical op fs ∷ queue) all_keys h = absurd omega arith
  build_queue-returns zero (other s ∷ queue) all_keys h = absurd omega arith
  build_queue-returns (suc fuel) (selector s ∷ queue) all_keys h =
      build_queue-returns fuel queue all_keys (omega arith)
  build_queue-returns (suc fuel) (other s ∷ queue) all_keys h =
      build_queue-returns fuel queue all_keys (omega arith)
  build_queue-returns (suc fuel) (logical op fs ∷ queue) all_keys h =
      elim (Bool-cases (is_or compose index_type keys op && is_secondary index_type)) [
        | inl e ↦
            (err (invalid_argument "$or filter is not yet supported for secondary index"), rw e)
        | inr e ↦
            elim (Result-cases
              (level_plans compose index_type keys (top_selectors compose index_type keys fs) op)) [
                | inr (x, e') ↦ (err x, rw (e, e'))
                | inl (plans, e') ↦
                    let enough : queue_size (queue ++ rest_of_level compose index_type keys fs)
                        ≤ fuel =
                      omega (
                        arith,
                        queue_size-append queue (rest_of_level compose index_type keys fs),
                        queue_size-rest_of_level fs,
                      ) in
                    let (r, e'') =
                      build_queue-returns fuel (queue ++ rest_of_level compose index_type keys fs)
                        (all_keys ++ plans) enough in
                    (r, rw (e, e') e'')
              ]
      ]

  finish_build-returns :
      (r : Result (List (QueryPlan K)))
      → (r' : Result (List (QueryPlan K))) × (finish_build compose index_type keys (some r)
          ≡ some r')
  finish_build-returns (ok plans) = (combine compose index_type keys plans, refl)
  finish_build-returns (err x) = (err x, refl)

  -- Build ends: fuel for each filter at every level gives a result.
  pub build-returns :
      (fuel : ℕ) (filters : Filters V)
      → size_all filters ≤ fuel
      → (r : Result (List (QueryPlan K))) × (build compose index_type keys fuel filters ≡ some r)
  unfolding build
  build-returns fuel filters h =
      elim (Result-cases (
        level_plans compose index_type keys (top_selectors compose index_type keys filters)
          and_op)) [
            | inr (x, e) ↦ (err x, rw (e, build))
            | inl (plans, e) ↦
                let enough : queue_size (top_logical compose index_type keys filters) ≤ fuel =
                  omega (arith, queue_size-top_logical filters) in
                let (r, e') =
                  build_queue-returns fuel (top_logical compose index_type keys filters) plans
                    enough in
                let (r', e'') = finish_build-returns r in (r', rw (e, build, e') e'')
          ]
