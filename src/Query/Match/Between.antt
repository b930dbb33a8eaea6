-- ===== src/Query/Match/Between.antt =====
-- value/value.go and query/filter/comparison.go: values are ordered, and the bounds of a value that
-- matches are too.
use tigris.Base.{ℕ, ◌≡◌, ◌≢◌, refl, Bool, true, false, some, [], ◌∷◌, arith}
use tigris.Kv.Data.{Bytes}
use tigris.Value.{
  Parsers, Value, array_value, int_value, double_value, string_value, date_time_value, bytes_value,
  bool_value, null_value, compare_to, compare_typed, compare_int, compare_bool, is_empty,
  is_null_value, slt64,
}
use tigris.Value.Collation.{
  Comparison, wrong, less, more, compare_bytes, compare_string, Collator, Case, is_case_insensitive,
}
use tigris.Query.Filter.{gt, lt}
use tigris.Query.Match.{Elements, accepts_comparison, value_matches}

-- What the libraries document of their comparisons: they are orders.
pub record IsOrder (p : Parsers) (collator : Collator) : Type 0 where
  pub cmp-more : (a b c : p.Float) → p.cmp a b ≡ more → p.cmp a c ≡ less → p.cmp b c ≡ less
  pub compare-more :
      (i : Bool) (a b c : Bytes)
      → collator.compare i a b ≡ more
      → collator.compare i a c ≡ less
      → collator.compare i b c ≡ less

pub compare_bytes-more :
    (a b c : Bytes) → compare_bytes a b ≡ more → compare_bytes a c ≡ less → compare_bytes b c ≡ less
unfolding compare_bytes
compare_bytes-more [] [] c h k = cc
compare_bytes-more [] (y ∷ b) c h k = cc
compare_bytes-more (x ∷ a) b [] h k = cc
compare_bytes-more (x ∷ a) [] (z ∷ c) h k = refl
compare_bytes-more (x ∷ a) (y ∷ b) (z ∷ c) h k = ground (arith, compare_bytes-more a b c)

compare_int-more :
    (a b c : ℕ) → compare_int a b ≡ more → compare_int a c ≡ less → compare_int b c ≡ less
unfolding slt64
compare_int-more a b c h k = ground arith

compare_bool-more :
    (a b c : Bool) → compare_bool a b ≡ more → compare_bool a c ≡ less → compare_bool b c ≡ less
compare_bool-more true b true h k = cc
compare_bool-more true b false h k = cc
compare_bool-more false true c h k = cc
compare_bool-more false false c h k = cc

-- As values are read from the JSON of a field with a collation: an empty text is null.
abbrev pub IsRead : {F : Type 0} → Case → Value F → Type 0
IsRead c (string_value b d) = (d ≡ c) × (is_empty b ≡ false)
IsRead c (date_time_value b) = is_empty b ≡ false
IsRead c (bytes_value b) = is_empty b ≡ false
IsRead c _ = Unit

module _ (p : Parsers) (collator : Collator) (lib : Elements p.Float)
    (order : IsOrder p collator) where
  strings-less :
      (c d e f : Case) (x y z : Bytes)
      → c ≡ f
      → d ≡ f
      → e ≡ f
      → compare_string collator c x y ≡ more
      → compare_string collator c x z ≡ less
      → compare_string collator d y z ≡ less
  unfolding compare_string
  strings-less c d e f x y z cf df ef h k =
      let h' : collator.compare (is_case_insensitive f) x y ≡ more = rw cf at h in
      let k' : collator.compare (is_case_insensitive f) x z ≡ less = rw cf at k in
      rw df (order.compare-more (is_case_insensitive f) x y z h' k')

  compare_to-less :
      (c : Case) (v a b : Value p.Float)
      → IsRead c v
      → IsRead c a
      → IsRead c b
      → compare_to p collator a (some v) ≢ wrong
      → compare_to p collator v (some a) ≡ more
      → compare_to p collator v (some b) ≡ less
      → compare_to p collator a (some b) ≡ less
  unfolding compare_to is_null_value compare_typed compare_bytes
  compare_to-less c (array_value x) (array_value y) (array_value z) rv ra rb t h k =
      compare_bytes-more x y z h k
  compare_to-less c (int_value x) null_value (int_value z) rv ra rb t h k = refl
  compare_to-less c (int_value x) (int_value y) (int_value z) rv ra rb t h k =
      compare_int-more x y z h k
  compare_to-less c (double_value x) null_value (double_value z) rv ra rb t h k = refl
  compare_to-less c (double_value x) (double_value y) (double_value z) rv ra rb t h k =
      order.cmp-more x y z h k
  compare_to-less c (bool_value x) null_value (bool_value z) rv ra rb t h k = refl
  compare_to-less c (bool_value x) (bool_value y) (bool_value z) rv ra rb t h k =
      compare_bool-more x y z h k
  compare_to-less c (string_value x i) null_value (string_value z j) rv ra rb t h k = refl
  compare_to-less c (string_value x i) (string_value y d) (string_value z j) rv ra rb t h k =
      rw rb.1 (strings-less i d j c x y z rv.0 ra.0 rb.0 (rw ra.1 at h) (rw rb.1 at k))
  compare_to-less c (date_time_value x) null_value (date_time_value z) rv ra rb t h k = refl
  compare_to-less c (date_time_value x) (date_time_value y) (date_time_value z) rv ra rb t h k =
      rw rb (compare_bytes-more x y z (rw ra at h) (rw rb at k))
  compare_to-less c (bytes_value x) null_value (bytes_value z) rv ra rb t h k = refl
  compare_to-less c (bytes_value x) (bytes_value y) (bytes_value z) rv ra rb t h k =
      rw rb (compare_bytes-more x y z (rw ra at h) (rw rb at k))
  compare_to-less c v a b rv ra rb t h k = ground arith

  of_gt : (o : Comparison) → accepts_comparison gt o ≡ true → o ≡ more
  unfolding accepts_comparison
  of_gt more h = refl
  of_gt o h = cc

  of_lt : (o : Comparison) → o ≢ wrong → accepts_comparison lt o ≡ true → o ≡ less
  unfolding accepts_comparison
  of_lt less n h = refl
  of_lt wrong n h = absurd (n refl)
  of_lt o n h = cc

  -- A value that matches two exclusive bounds by Matches, a lower one and an upper one: the lower bound
  -- is less than the upper. The three are read with one collation, the lower bound compares with the
  -- value and the value with the upper bound without an error of their types, and the comparisons of
  -- floats and of texts are orders. Values are numbers, texts, times, bytes, Booleans, arrays or null;
  -- the elements of an array, which ArrMatches tests one at a time, are not meant.
  pub value_matches_between :
      (c : Case) (v a b : Value p.Float)
      → IsRead c v
      → IsRead c a
      → IsRead c b
      → compare_to p collator a (some v) ≢ wrong
      → compare_to p collator v (some b) ≢ wrong
      → value_matches p collator lib gt a v ≡ true
      → value_matches p collator lib lt b v ≡ true
      → compare_to p collator a (some b) ≡ less
  unfolding value_matches
  value_matches_between c v a b rv ra rb ta tb above below =
      compare_to-less c v a b rv ra rb ta (of_gt (compare_to p collator v (some a)) above)
        (of_lt (compare_to p collator v (some b)) tb below)
