-- ===== src/Query/Filter.antt =====
-- query/filter/filter.go, logical.go, selector.go and comparison.go: the shape of a filter, over the
-- values `V` of the package value.
use tigris.Base.{
  ℕ, suc, String, Bool, true, false, Result, ok, err, failed, ltb, if◌then◌else◌, invalid_argument,
  str_eq,
}
use tigris.Schema.FieldType.{FieldType}

pub data LogicalOp : Type 0 where
  and_op or_op : LogicalOp

pub data MatcherType : Type 0 where
  eq gt gte lt lte : MatcherType

unfoldable pub new_matcher : String → Result MatcherType
new_matcher key =
    if str_eq key "$eq"
    then ok eq
    else if str_eq key "$gt"
    then ok gt
    else if str_eq key "$gte"
    then ok gte
    else if str_eq key "$lt"
    then ok lt
    else if str_eq key "$lte"
    then ok lte
    else err (invalid_argument "unsupported operand")

pub record Selector (V : Type 0) : Type 0 where
  pub name : String
  pub data_type : FieldType
  pub matcher : MatcherType
  pub value : V

-- `other` stands for a filter that is neither a selector nor logical, by its text.
mutual
  pub data Filter (V : Type 0) : Type 0 where
    selector : Selector V → Filter V
    logical : LogicalOp → Filters V → Filter V
    other : String → Filter V

  pub data Filters (V : Type 0) : Type 0 where
    nil : Filters V
    cons : Filter V → Filters V → Filters V

abbrev pub count_filters : {V : Type 0} → Filters V → ℕ
count_filters nil = 0
count_filters (cons x xs) = suc (count_filters xs)

unfoldable pub new_logical_filter : {V : Type 0} → LogicalOp → Filters V → Result (Filter V)
new_logical_filter op fs =
    if ltb (count_filters fs) 2
    then err (failed "filter needs minimum 2 filters")
    else ok (logical op fs)

-- Matches, given whether a selector and a filter of another kind accepts the document.
unfoldable mutual
  pub matches : {V : Type 0} → (Selector V → Bool) → (String → Bool) → Filter V → Bool
  matches accepts rest (selector s) = accepts s
  matches accepts rest (logical and_op fs) = matches_all accepts rest fs
  matches accepts rest (logical or_op fs) = matches_any accepts rest fs
  matches accepts rest (other name) = rest name

  pub matches_all : {V : Type 0} → (Selector V → Bool) → (String → Bool) → Filters V → Bool
  matches_all accepts rest nil = true
  matches_all accepts rest (cons x xs) =
      if matches accepts rest x then matches_all accepts rest xs else false

  pub matches_any : {V : Type 0} → (Selector V → Bool) → (String → Bool) → Filters V → Bool
  matches_any accepts rest nil = false
  matches_any accepts rest (cons x xs) =
      if matches accepts rest x then true else matches_any accepts rest xs
