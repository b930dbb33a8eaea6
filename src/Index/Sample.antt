-- ===== src/Index/Sample.antt =====
-- Documents, an index as a set of keys, and libraries, for the tests of the secondary index.
use tigris.Base.{
  ℕ, ◌≡◌, ◌≢◌, refl, Bool, true, false, none, some, List, [], ◌∷◌, ◌⊎◌, inl, inr, ok, String,
}
use native.Mathlib.Decide.{ℕ_discrete}
use tigris.Kv.Data.{Bytes, TableData}
use tigris.Kv.Listed.{String-discrete, Part-discrete}
use tigris.Kv.Fdb.{Key, int}
use tigris.Schema.FieldType
use tigris.Value.{Parsers, null_value, string_value}
use tigris.Value.Collation.{Collator, collation_sort_key, compare_bytes}
use tigris.Value.Order.{IsSymmetric, compare_bytes-same}
use tigris.Index.Json.{JsonParser, ValueType, Found}
use tigris.Index.Row.{IndexRow, Indexer, QueryableField}
use tigris.Index.Rows.{build_table_rows}
use tigris.Index.{IndexKey, IndexTx, IsIndexStore}

abbrev pub parsers : Parsers
parsers = record {
  Float = ℕ;
  cmp = λ a b. compare_bytes (a ∷ []) (b ∷ []);
  parse_bool = λ b. none;
  parse_float = λ b. none;
  parse_int = λ b. none;
  decode_base64 = λ b. none;
  is_array = λ b. none;
}

abbrev pub collator : Collator
collator = record { compare = λ i a b. compare_bytes a b; key_from_string = λ i b. b }

pub symmetric : IsSymmetric parsers collator
symmetric = record {
  cmp-same = λ a b h. compare_bytes-same (a ∷ []) (b ∷ []) h;
  compare-same = λ i a b h. compare_bytes-same a b h;
}

-- A document is null, or a quote and the text of its only member.
abbrev pub member : Bytes → Found
member [] = record { value = []; type = ValueType.null; fail = none }
member (q ∷ text) = record { value = text; type = ValueType.string; fail = none }

abbrev pub json : JsonParser
json = record {
  get = λ doc path. member doc;
  array_each = λ doc path. ([], none);
  object_each = λ doc. ([], none);
  to_lower = λ s. s;
  to_rfc3339 = λ ts. ts.seconds ∷ [];
}

pub IndexKey-discrete : Discrete (IndexKey ℕ)
IndexKey-discrete = hlevel (ℕ_discrete, Part-discrete, String-discrete)

unfoldable pub held_unless : IndexKey ℕ → Bool → (IndexKey ℕ → Bool) → IndexKey ℕ → Bool
held_unless k b t j = elim (IndexKey-discrete k j) [ yes e ↦ b | no n ↦ t j ]

-- A transaction is the set of the keys that it holds.
abbrev pub tx : IndexTx ℕ
tx = record {
  Tx = IndexKey ℕ → Bool;
  has = λ j t. t j;
  delete = λ k t. (none, held_unless k false t);
  replace = λ k t. (none, held_unless k true t);
  read = λ k t. ok none;
}

pub self : (k : IndexKey ℕ) (b : Bool) (t : IndexKey ℕ → Bool) → held_unless k b t k ≡ b
unfolding held_unless
self k b t = elim (IndexKey-discrete k k) as (λ d. elim d [ yes e ↦ b | no n ↦ t k ] ≡ b) [
  | yes e ↦ refl
  | no n ↦ absurd (n refl)
]

pub keeps : (k j : IndexKey ℕ) (t : IndexKey ℕ → Bool) → t j ≡ true → held_unless k true t j ≡ true
unfolding held_unless
keeps k j t h = elim (IndexKey-discrete k j) as (λ d. elim d [ yes e ↦ true | no n ↦ t j ] ≡ true) [
  | yes e ↦ refl
  | no n ↦ h
]

pub of_replace :
    (k j : IndexKey ℕ) (t : IndexKey ℕ → Bool)
    → held_unless k true t j ≡ true
    → (k ≡ j) ⊎ (t j ≡ true)
unfolding held_unless
of_replace k j t =
    elim (IndexKey-discrete k j)
      as (λ d. (elim d [ yes e ↦ true | no n ↦ t j ]) ≡ true → (k ≡ j) ⊎ (t j ≡ true)) [
        | yes e ↦ λ h. inl e
        | no n ↦ λ h. inr h
      ]

pub delete_keeps :
    (k j : IndexKey ℕ) (t : IndexKey ℕ → Bool) → k ≢ j → t j ≡ true → held_unless k false t j ≡ true
unfolding held_unless
delete_keeps k j t other h =
    elim (IndexKey-discrete k j) as (λ d. elim d [ yes e ↦ false | no n ↦ t j ] ≡ true) [
      | yes e ↦ absurd (other e)
      | no n ↦ h
    ]

pub of_delete :
    (k j : IndexKey ℕ) (t : IndexKey ℕ → Bool) → held_unless k false t j ≡ true → t j ≡ true
unfolding held_unless
of_delete k j t =
    elim (IndexKey-discrete k j)
      as (λ d. (elim d [ yes e ↦ false | no n ↦ t j ]) ≡ true → t j ≡ true) [
        | yes e ↦ λ h. cc
        | no n ↦ λ h. h
      ]

pub store : IsIndexStore tx
store = record {
  has-replace_self = λ k t h. self k true t;
  has-replace_keeps = keeps;
  has-of_replace = of_replace;
  has-delete_self = λ k t h. self k false t;
  has-delete_keeps = delete_keeps;
  has-of_delete = of_delete;
}

abbrev pub field : QueryableField
field = record {
  field_name = "name";
  indexed = true;
  data_type = FieldType.string;
  sub_type = FieldType.unknown;
  unflatten_name = "a";
}

abbrev pub indexer : Indexer
indexer = record {
  collation = collation_sort_key;
  encoded_table_index_name = 1 ∷ [];
  queryable_fields = field ∷ [];
  index_all = false;
  sparse = false;
}

abbrev pub doc : Bytes → TableData
doc text = record {
  ver = 0;
  encoding = 0;
  created_at = none;
  updated_at = none;
  raw_data = text;
  raw_size = 0;
  compression = none;
  total_chunks = none;
}

abbrev pub pk : Key
pk = int 7 ∷ []

abbrev pub stamp_row : String → IndexRow ℕ
stamp_row name = record {
  value = null_value;
  name = name;
  pos = 0;
  stub = false;
  data_type = FieldType.null;
  null = false;
}

abbrev pub name_row : Bytes → IndexRow ℕ
name_row text = record {
  value = string_value text collation_sort_key;
  name = "name";
  pos = 0;
  stub = false;
  data_type = FieldType.string;
  null = false;
}

abbrev pub rows : Bytes → List (IndexRow ℕ)
rows text = stamp_row "_tigris_created_at" ∷ (stamp_row "_tigris_updated_at" ∷ (name_row text ∷ []))

-- "a" and "b"
abbrev pub a_text : Bytes
a_text = 97 ∷ []

abbrev pub b_text : Bytes
b_text = 98 ∷ []

pub rows_a : build_table_rows parsers json indexer (some (doc (34 ∷ a_text))) ≡ ok (rows a_text)
unfolding build_table_rows
rows_a = refl

pub rows_b : build_table_rows parsers json indexer (some (doc (34 ∷ b_text))) ≡ ok (rows b_text)
unfolding build_table_rows
rows_b = refl
