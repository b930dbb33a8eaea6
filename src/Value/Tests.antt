-- ===== src/Value/Tests.antt =====
-- Values at concrete data.
use tigris.Base.{ℕ, ◌≡◌, refl, some, none, [], ◌∷◌, ok}
use tigris.Schema.FieldType.{string}
use tigris.Value.{
  Parsers, int_value, null_value, compare_to, new_value_using_collation, slt64, is_null,
}
use tigris.Value.Collation.{Collator, more, compare_bytes, collation_sort_key}

abbrev parsers : Parsers
parsers = record {
  Float = ℕ;
  cmp = λ a b. compare_bytes (a ∷ []) (b ∷ []);
  parse_bool = λ b. none;
  parse_float = λ b. none;
  parse_int = λ b. none;
  decode_base64 = λ b. none;
  is_array = λ b. none;
}

abbrev collator : Collator
collator = record { compare = λ i a b. compare_bytes a b; key_from_string = λ i b. b }

-- 1 is more than -1.
one_above : compare_to parsers collator (int_value 1) (some (int_value 18446744073709551615)) ≡ more
unfolding compare_to slt64
one_above = refl

-- The text null is read as null.
null_read :
    new_value_using_collation parsers string (110 ∷ (117 ∷ (108 ∷ (108 ∷ [])))) collation_sort_key
    ≡ ok null_value
unfolding new_value_using_collation is_null
null_read = refl
