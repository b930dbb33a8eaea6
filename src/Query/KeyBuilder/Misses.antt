-- ===== src/Query/KeyBuilder/Misses.antt =====
-- query/filter/key_builder.go: Build for a primary key and an $or with another field.
use tigris.Base.{ℕ, suc, ◌≡◌, ◌≢◌, String, Bool, true, some, List, [], ◌∷◌, Result, ok}
use tigris.Query.Filter.{
  or_op, eq, Selector, selector, logical, Filters, nil, cons, matches, matches_all, matches_any,
}
use tigris.Query.Plan.{equal, primary_index, Fieldable, new_query_plan}
use tigris.Query.Strict.{compose_strict}
use tigris.Query.Strict.PrimaryKey.{compose_strict_forgets}
use tigris.Query.Strict.Either.{compose_strict_one}
use tigris.Query.KeyBuilder.{
  build, build_queue, top_selectors, top_logical, rest_of_level, level_plans, combine, plan_keys,
}

module _ {V P K : Type 0} (encode : List P → Result K) (build_parts : String → V → List P)
    (accepts : Selector V → Bool) (rest : String → Bool) (k : Fieldable) (a b : Selector V) where
  abbrev pub either : Filters V
  either = cons (logical or_op (cons (selector b) (cons (selector a) nil))) nil

  -- An $or of an equality `b` on another field, true of a document, and an equality `a` on the only
  -- key: the filter matches the document, and the plan has one key, that of the value in `a`.
  pub build-misses :
      (fuel : ℕ) (key : K)
      → a.matcher ≡ eq
      → b.matcher ≡ eq
      → k.name ≡ a.name
      → k.name ≢ b.name
      → encode (build_parts a.name a.value) ≡ ok key
      → accepts b ≡ true
      → (matches_all accepts rest either ≡ true)
        × (build
              (λ sels keys op. compose_strict encode build_parts true primary_index sels keys op)
              primary_index
              (k ∷ [])
              (suc fuel)
              either
            ≡ some (ok (new_query_plan equal a.name a.data_type (key ∷ []) primary_index ∷ [])))
  unfolding matches matches_all matches_any build build_queue top_selectors top_logical
      rest_of_level level_plans combine plan_keys new_query_plan
  build-misses fuel key ea eb named different he accepted =
      let e =
        compose_strict_forgets encode build_parts b eb true primary_index or_op [] (a ∷ []) (k ∷ [])
          (different, tt) in
      let e' = compose_strict_one encode build_parts primary_index k a key ea named he in
      (rw accepted, rw (build, e, e'))
