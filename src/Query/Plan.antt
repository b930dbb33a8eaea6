-- ===== src/Query/Plan.antt =====
-- query/filter/key_builder.go: the plans, and the fields that they are for.
use tigris.Base.{String, Bool, true, false, Option, none, List}
use tigris.Schema.FieldType.{FieldType}
use tigris.Query.Filter.{MatcherType, eq}

pub data IndexType : Type 0 where
  unknown_index primary_index secondary_index : IndexType

pub data QueryPlanType : Type 0 where
  equal range full_range : QueryPlanType

-- A field of the schema, by what the builder asks of it.
pub record Fieldable : Type 0 where
  pub name : String
  pub type : FieldType

-- `from` is set by the planner only.
pub record QueryPlan (K : Type 0) : Type 0 where
  pub query_type : QueryPlanType
  pub field_name : String
  pub data_type : FieldType
  pub keys : List K
  pub ascending : Bool
  pub index_type : IndexType
  pub from : Option K

unfoldable pub new_query_plan :
    {K : Type 0} → QueryPlanType → String → FieldType → List K → IndexType → QueryPlan K
new_query_plan query_type field_name data_type keys index_type = record {
  query_type = query_type;
  field_name = field_name;
  data_type = data_type;
  keys = keys;
  ascending = true;
  index_type = index_type;
  from = none;
}

abbrev pub is_eq : MatcherType → Bool
is_eq eq = true
is_eq _ = false

abbrev pub is_secondary : IndexType → Bool
is_secondary secondary_index = true
is_secondary _ = false

abbrev pub is_primary : IndexType → Bool
is_primary primary_index = true
is_primary _ = false
