-- ===== src/Query/Match/Tests.antt =====
-- Matchers at concrete values.
use tigris.Base.{ℕ, ◌≡◌, ◌≢◌, refl, true, false, some, [], ◌∷◌, ok}
use tigris.Value.{int_value, string_value, text, compare_to, compare_typed, is_null_value}
use tigris.Value.Collation.{Comparison, wrong, less, compare_string, compare_bytes, case_sensitive}
use tigris.Query.Filter.{lt}
use tigris.Query.Match.{Elements, one, arr_matches, value_matches}
use tigris.Query.Match.Between.{IsOrder, compare_bytes-more, value_matches_between}
use tigris.Index.Sample.{parsers, collator}

abbrev numbers : Elements ℕ
numbers = record {
  compare_float = λ a b. compare_bytes (a ∷ []) (b ∷ []);
  to_integer = λ x. some x;
  of_integer = λ n. n;
  parse_float = λ b. ok 0;
  parse_int = λ b. ok 0;
  parse_boolean = λ b. ok false;
  unmarshal = λ b. ok [];
}

is_order : IsOrder parsers collator
is_order = record {
  cmp-more = λ a b c. compare_bytes-more (a ∷ []) (b ∷ []) (c ∷ []);
  compare-more = λ i. compare_bytes-more;
}

less_wrong : ◌≢◌ {A = Comparison} less wrong
less_wrong e = cc

value_matches_between_example :
    compare_to parsers collator
      (string_value (1 ∷ []) case_sensitive)
      (some (string_value (3 ∷ []) case_sensitive))
    ≡ less
unfolding compare_to value_matches compare_bytes compare_typed compare_string is_null_value
value_matches_between_example =
    value_matches_between parsers collator numbers is_order case_sensitive
      (string_value (2 ∷ []) case_sensitive) (string_value (1 ∷ []) case_sensitive)
      (string_value (3 ∷ []) case_sensitive) (refl, refl) (refl, refl) (refl, refl) less_wrong
      less_wrong refl refl

-- A text is an element that is less than a number.
text_below : arr_matches parsers collator numbers lt (int_value 5) (one (text (9 ∷ [])) ∷ []) ≡ true
unfolding arr_matches
text_below = refl
