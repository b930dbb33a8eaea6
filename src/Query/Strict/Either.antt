-- ===== src/Query/Strict/Either.antt =====
-- query/filter/key_builder.go: StrictEqKeyComposer.Compose for an OR.
use tigris.Base.{◌≡◌, String, [], ◌∷◌, List, Result, ok, true, eq_iff}
use tigris.Query.Filter.{or_op, eq, Selector}
use tigris.Query.Plan.{IndexType, equal, Fieldable, new_query_plan}
use tigris.Query.Strict.{
  compose_strict, repeated_fields, extend, add_fields, composite_keys, query_plans, or_plans,
}

pub compose_strict_one :
    {V P K : Type 0} (encode : List P → Result K) (build_parts : String → V → List P)
    (index_type : IndexType) (k : Fieldable) (a : Selector V) (key : K)
    → a.matcher ≡ eq
    → k.name ≡ a.name
    → encode (build_parts a.name a.value) ≡ ok key
    → compose_strict encode build_parts true index_type (a ∷ []) (k ∷ []) or_op
      ≡ ok (new_query_plan equal a.name a.data_type (key ∷ []) index_type ∷ [])
unfolding compose_strict repeated_fields extend add_fields composite_keys query_plans or_plans
compose_strict_one encode build_parts index_type k a key ea named he =
    let same = (eq_iff k.name a.name).1 named in rw (ea, same, he)
