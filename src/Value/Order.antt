-- ===== src/Value/Order.antt =====
-- value/value.go: equality by CompareTo.
use tigris.Base.{ℕ, [], ◌∷◌, ◌≡◌, refl, Bool, true, false, some, Bool-cases, inl, inr, arith}
use tigris.Kv.Data.{Bytes}
use tigris.Value.{
  Parsers, Value, array_value, int_value, double_value, string_value, date_time_value, bytes_value,
  bool_value, null_value, max_value, compare_to, compare_typed, compare_int, compare_bool,
  unless_null, is_empty, is_null_value, slt64,
}
use tigris.Value.Collation.{
  same, more, compare_bytes, compare_string, Collator, is_case_insensitive,
}

-- What the libraries document of their comparisons: equality does not depend on the order.
pub record IsSymmetric (p : Parsers) (collator : Collator) : Type 0 where
  pub cmp-same : (a b : p.Float) → p.cmp a b ≡ same → p.cmp b a ≡ same
  pub compare-same :
      (i : Bool) (a b : Bytes) → collator.compare i a b ≡ same → collator.compare i b a ≡ same

-- As the values of the secondary index: a text is not empty, and its collation respects the case.
abbrev pub IsSensitive : {F : Type 0} → Value F → Type 0
IsSensitive (string_value b c) = (is_case_insensitive c ≡ false) × (is_empty b ≡ false)
IsSensitive _ = Unit

pub compare_bytes-same : (a b : Bytes) → compare_bytes a b ≡ same → compare_bytes b a ≡ same
unfolding compare_bytes
compare_bytes-same [] [] h = h
compare_bytes-same [] (y ∷ b) h = cc
compare_bytes-same (x ∷ a) [] h = cc
compare_bytes-same (x ∷ a) (y ∷ b) h = ground (arith, compare_bytes-same a b)

compare_int-same : (a b : ℕ) → compare_int a b ≡ same → compare_int b a ≡ same
unfolding slt64
compare_int-same a b h = ground arith

compare_bool-same : (a b : Bool) → compare_bool a b ≡ same → compare_bool b a ≡ same
compare_bool-same true true h = h
compare_bool-same true false h = cc
compare_bool-same false true h = cc
compare_bool-same false false h = h

module _ (p : Parsers) (collator : Collator) (law : IsSymmetric p collator) where
  flag-same :
      (a b : Bytes) (i j : Bool)
      → i ≡ false
      → j ≡ false
      → collator.compare i a b ≡ same
      → collator.compare j b a ≡ same
  flag-same a b true j s r h = cc
  flag-same a b false true s r h = cc
  flag-same a b false false s r h = law.compare-same false a b h

  typed-same :
      (v w : Value p.Float)
      → IsSensitive v
      → IsSensitive w
      → compare_typed p collator v w ≡ same
      → compare_typed p collator w v ≡ same
  unfolding compare_typed compare_string
  typed-same (int_value a) (int_value b) s r h = compare_int-same a b h
  typed-same (double_value a) (double_value b) s r h = law.cmp-same a b h
  typed-same (string_value a c) (string_value b d) s r h =
      flag-same a b (is_case_insensitive c) (is_case_insensitive d) s.0 r.0 h
  typed-same (date_time_value a) (date_time_value b) s r h = compare_bytes-same a b h
  typed-same (bytes_value a) (bytes_value b) s r h = compare_bytes-same a b h
  typed-same (bool_value a) (bool_value b) s r h = compare_bool-same a b h
  typed-same v w s r h = cc

  -- A text that is not null is compared as its type is.
  from_typed :
      (v w : Value p.Float)
      → IsSensitive v
      → IsSensitive w
      → is_null_value (some v) ≡ false
      → unless_null p collator v (some w) ≡ same
      → unless_null p collator w (some v) ≡ same
  from_typed v w s r full h = elim (Bool-cases (is_null_value (some w))) [
    | inl e ↦ let h' : more ≡ same = rw e at h in cc
    | inr e ↦ rw full (typed-same v w s r (rw e at h))
  ]

  pub compare_to-same :
      (v w : Value p.Float)
      → IsSensitive v
      → IsSensitive w
      → compare_to p collator v (some w) ≡ same
      → compare_to p collator w (some v) ≡ same
  unfolding compare_to is_null_value compare_typed compare_bytes
  compare_to-same (array_value a) (array_value b) s r h = compare_bytes-same a b h
  compare_to-same (int_value a) (int_value b) s r h =
      from_typed (int_value a) (int_value b) s r refl h
  compare_to-same (double_value a) (double_value b) s r h =
      from_typed (double_value a) (double_value b) s r refl h
  compare_to-same (string_value a c) (string_value b d) s r h =
      from_typed (string_value a c) (string_value b d) s r s.1 h
  compare_to-same (date_time_value []) (date_time_value []) s r h = h
  compare_to-same (date_time_value (x ∷ a)) (date_time_value b) s r h =
      from_typed (date_time_value (x ∷ a)) (date_time_value b) s r refl h
  compare_to-same (bytes_value (x ∷ a)) (bytes_value b) s r h =
      from_typed (bytes_value (x ∷ a)) (bytes_value b) s r refl h
  compare_to-same (bool_value a) (bool_value b) s r h =
      from_typed (bool_value a) (bool_value b) s r refl h
  compare_to-same null_value null_value s r h = refl
  compare_to-same max_value max_value s r h = refl
  compare_to-same v w s r h = ground arith
