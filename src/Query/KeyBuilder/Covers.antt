-- ===== src/Query/KeyBuilder/Covers.antt =====
-- query/filter/key_builder.go: Build for a primary key, and a document that the filter matches.
use tigris.Base.{
  ℕ, zero, suc, ◌≡◌, refl, String, Bool, true, false, none, some, List, [], ◌∷◌, ◌++◌, inl, inr,
  Result, ok, err, Result-cases, append-All, some-injective, Option-cases, Bool-cases,
  if◌then◌else◌, All, ok-injective,
}
use tigris.Query.Filter.{
  LogicalOp, and_op, or_op, Selector, Filter, selector, logical, other, Filters, nil, cons, matches,
  matches_all,
}
use tigris.Query.Plan.{primary_index, Fieldable, QueryPlan, new_query_plan}
use tigris.Query.Strict.{compose_strict}
use tigris.Query.Strict.PrimaryKey.{EqHolds, key_parts, compose_strict-Covers}
use tigris.Query.KeyBuilder.{
  top_selectors, top_logical, rest_of_level, level_plans, build_queue, plan_keys, combine,
  finish_build, build,
}

-- No $or at any level.
unfoldable mutual
  pub no_or : {V : Type 0} → Filter V → Bool
  no_or (selector s) = true
  no_or (logical and_op fs) = no_or_all fs
  no_or (logical or_op fs) = false
  no_or (other name) = true

  pub no_or_all : {V : Type 0} → Filters V → Bool
  no_or_all nil = true
  no_or_all (cons x xs) = if no_or x then no_or_all xs else false

module _ {V P K : Type 0} (encode : List P → Result K) (build_parts : String → V → List P)
    (doc : String → V) (keys : List Fieldable) where
  -- Each key is the encoding of the document's primary key.
  abbrev pub IsOwn : K → Type 0
  IsOwn key = encode (key_parts build_parts doc keys) ≡ ok key

  abbrev pub OwnKeys : QueryPlan K → Type 0
  OwnKeys p = All IsOwn p.keys

module _ {V P K : Type 0} (encode : List P → Result K) (build_parts : String → V → List P)
    (doc : String → V) (accepts : Selector V → Bool) (rest : String → Bool)
    (sound : (s : Selector V) → accepts s ≡ true → EqHolds build_parts doc s)
    (keys : List Fieldable) where
  -- The filter matches the document, and no $or is in it.
  Sat : Filter V → Type 0
  Sat x = (matches accepts rest x ≡ true) × (no_or x ≡ true)

  SatAll : Filters V → Type 0
  SatAll fs = (matches_all accepts rest fs ≡ true) × (no_or_all fs ≡ true)

  SatAll-cons : (x : Filter V) (xs : Filters V) → SatAll (cons x xs) → Sat x × SatAll xs
  unfolding SatAll Sat matches_all no_or_all
  SatAll-cons x xs (m, n) = elim (Bool-cases (matches accepts rest x)) [
    | inl e ↦ elim (Bool-cases (no_or x)) [
      | inl e' ↦ ((e, e'), (rw e at m, rw e' at n))
      | inr e' ↦ let wrong : false ≡ true = rw e' at n in cc wrong
    ]
    | inr e ↦ let wrong : false ≡ true = rw e at m in cc wrong
  ]

  abbrev composed : List (Selector V) → List Fieldable → LogicalOp → Result (List (QueryPlan K))
  composed sels keys op = compose_strict encode build_parts true primary_index sels keys op

  top_selectors-hold :
      (fs : Filters V)
      → SatAll fs
      → All (EqHolds build_parts doc) (top_selectors composed primary_index keys fs)
  unfolding top_selectors Sat matches
  top_selectors-hold nil h = tt
  top_selectors-hold (cons (selector s) fs) h =
      let (now, later) = SatAll-cons (selector s) fs h in
      (sound s now.0, top_selectors-hold fs later)
  top_selectors-hold (cons (logical op gs) fs) h =
      top_selectors-hold fs (SatAll-cons (logical op gs) fs h).1
  top_selectors-hold (cons (other name) fs) h =
      top_selectors-hold fs (SatAll-cons (other name) fs h).1

  rest_of_level-Sat :
      (fs : Filters V) → SatAll fs → All Sat (rest_of_level composed primary_index keys fs)
  unfolding rest_of_level
  rest_of_level-Sat nil h = tt
  rest_of_level-Sat (cons (selector s) fs) h =
      rest_of_level-Sat fs (SatAll-cons (selector s) fs h).1
  rest_of_level-Sat (cons (logical op gs) fs) h =
      let (now, later) = SatAll-cons (logical op gs) fs h in (now, rest_of_level-Sat fs later)
  rest_of_level-Sat (cons (other name) fs) h =
      let (now, later) = SatAll-cons (other name) fs h in (now, rest_of_level-Sat fs later)

  top_logical-Sat :
      (fs : Filters V) → SatAll fs → All Sat (top_logical composed primary_index keys fs)
  unfolding top_logical
  top_logical-Sat nil h = tt
  top_logical-Sat (cons (selector s) fs) h = top_logical-Sat fs (SatAll-cons (selector s) fs h).1
  top_logical-Sat (cons (logical op gs) fs) h =
      let (now, later) = SatAll-cons (logical op gs) fs h in (now, top_logical-Sat fs later)
  top_logical-Sat (cons (other name) fs) h = top_logical-Sat fs (SatAll-cons (other name) fs h).1

  abbrev IsOwn' : K → Type 0
  IsOwn' = IsOwn encode build_parts doc keys

  abbrev Own : QueryPlan K → Type 0
  Own = OwnKeys encode build_parts doc keys

  level_plans-OwnKeys :
      (sels : List (Selector V)) (plans : List (QueryPlan K))
      → level_plans composed primary_index keys sels and_op ≡ ok plans
      → All (EqHolds build_parts doc) sels
      → All Own plans
  unfolding level_plans new_query_plan
  level_plans-OwnKeys [] plans h holds = let e : [] ≡ plans = ok-injective h in rw (← e) tt
  level_plans-OwnKeys (s ∷ ss) plans h holds =
      let (field, key, own, e) =
        compose_strict-Covers encode build_parts doc primary_index (s ∷ ss) keys plans h holds in
      rw e ((own, tt), tt)

  build_queue-OwnKeys :
      (fuel : ℕ) (queue : List (Filter V)) (all_keys plans : List (QueryPlan K))
      → build_queue composed primary_index keys fuel queue all_keys ≡ some (ok plans)
      → All Sat queue
      → All Own all_keys
      → All Own plans
  unfolding build_queue Sat SatAll no_or matches
  build_queue-OwnKeys fuel [] all_keys plans h sat own =
      let e : all_keys ≡ plans = ok-injective (some-injective h) in rw (← e) own
  build_queue-OwnKeys zero (x ∷ queue) all_keys plans h sat own = cc
  build_queue-OwnKeys (suc fuel) (selector s ∷ queue) all_keys plans h (_, sat) own =
      build_queue-OwnKeys fuel queue all_keys plans h sat own
  build_queue-OwnKeys (suc fuel) (other s ∷ queue) all_keys plans h (_, sat) own =
      build_queue-OwnKeys fuel queue all_keys plans h sat own
  build_queue-OwnKeys (suc fuel) (logical or_op fs ∷ queue) all_keys plans h ((_, wrong), sat) own =
      cc wrong
  build_queue-OwnKeys (suc fuel) (logical and_op fs ∷ queue) all_keys plans h (now, sat) own =
      elim (Result-cases (
        level_plans composed primary_index keys (top_selectors composed primary_index keys fs)
          and_op)) [
            | inr (x, e) ↦ let wrong : some (Result.err x) ≡ some (ok plans) = rw e at h in cc wrong
            | inl (more, e) ↦
                build_queue-OwnKeys fuel (queue ++ rest_of_level composed primary_index keys fs)
                  (all_keys ++ more) plans (rw e at h)
                  (append-All Sat queue (rest_of_level composed primary_index keys fs) sat
                    (rest_of_level-Sat fs now))
                  (append-All Own all_keys more own (
                    level_plans-OwnKeys (top_selectors composed primary_index keys fs) more e
                      (top_selectors-hold fs now)))
          ]

  plan_keys-IsOwn :
      (plans : List (QueryPlan K))
      → All Own plans
      → All IsOwn' (plan_keys composed primary_index keys plans)
  unfolding plan_keys
  plan_keys-IsOwn [] own = tt
  plan_keys-IsOwn (p ∷ ps) (first, own) =
      append-All IsOwn' p.keys (plan_keys composed primary_index keys ps) first
        (plan_keys-IsOwn ps own)

  finish_build-OwnKeys :
      (r : Result (List (QueryPlan K))) (plans : List (QueryPlan K))
      → finish_build composed primary_index keys (some r) ≡ some (ok plans)
      → ((all_keys : List (QueryPlan K)) → r ≡ ok all_keys → All Own all_keys)
      → All Own plans
  unfolding combine
  finish_build-OwnKeys (err x) plans h own = cc h
  finish_build-OwnKeys (ok []) plans h own = cc h
  finish_build-OwnKeys (ok (p ∷ ps)) plans h own =
      let (first, others) = own (p ∷ ps) refl in
      let e = ok-injective (some-injective h) in
      rw (← e) (
        append-All IsOwn' p.keys (plan_keys composed primary_index keys ps) first
            (plan_keys-IsOwn ps others),
        tt,
      )

  -- The plans that Build answers for a primary key, from a filter without $or that matches a
  -- document: every key of every plan is the encoding of the document's own primary key. A selector
  -- of equality that accepts the document has the value of the document's field.
  pub build-OwnKeys :
      (fuel : ℕ) (filters : Filters V) (plans : List (QueryPlan K))
      → build composed primary_index keys fuel filters ≡ some (ok plans)
      → matches_all accepts rest filters ≡ true
      → no_or_all filters ≡ true
      → All (OwnKeys encode build_parts doc keys) plans
  unfolding build SatAll
  build-OwnKeys fuel filters plans h m n =
      elim (Result-cases (
        level_plans composed primary_index keys (top_selectors composed primary_index keys filters)
          and_op)) [
            | inr (x, e) ↦
                let wrong : some (Result.err x) ≡ some (ok plans) = rw (e, build) at h in cc wrong
            | inl (first, e) ↦
                elim (Option-cases (
                  build_queue composed primary_index keys fuel
                    (top_logical composed primary_index keys filters) first)) [
                      | inl e' ↦
                          let wrong : none ≡ some (ok plans) = rw (e, build, e') at h in cc wrong
                      | inr (r, e') ↦
                          finish_build-OwnKeys r plans (rw (e, build, e') at h) (λ all_keys e''.
                            build_queue-OwnKeys fuel
                              (top_logical composed primary_index keys filters) first all_keys
                              (rw e'' at e') (top_logical-Sat filters (m, n))
                              (level_plans-OwnKeys
                                (top_selectors composed primary_index keys filters) first e
                                (top_selectors-hold filters (m, n))))
                    ]
          ]
