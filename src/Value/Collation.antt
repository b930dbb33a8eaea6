-- ===== src/Value/Collation.antt =====
-- value/collation.go with api/server/v1/collation.go: how texts compare. The collator of the library
-- golang.org/x/text is a parameter.
use tigris.Base.{
  ℕ, Bool, true, false, ◌&&◌, Option, none, some, [], ◌∷◌, String, str_eq, ltb, ◌==◌, if◌then◌else◌,
  length, take, Error, invalid_argument,
}
use tigris.Kv.Data.{Bytes}

-- -2 with an error, -1, 0 and 1.
pub data Comparison : Type 0 where
  wrong less same more : Comparison

abbrev pub is_same : Comparison → Bool
is_same same = true
is_same _ = false

-- bytes.Compare, and the order of Go's strings.
unfoldable pub compare_bytes : Bytes → Bytes → Comparison
compare_bytes [] [] = same
compare_bytes [] (y ∷ ys) = less
compare_bytes (x ∷ xs) [] = more
compare_bytes (x ∷ xs) (y ∷ ys) =
    let rest = compare_bytes xs ys in if ltb x y then less else if ltb y x then more else rest

abbrev pub bytes_eq : Bytes → Bytes → Bool
bytes_eq [] [] = true
bytes_eq (x ∷ xs) (y ∷ ys) = (x == y) && bytes_eq xs ys
bytes_eq _ _ = false

-- The case of a collation: none, "ci", "cs" and "csk".
pub data Case : Type 0 where
  undefined case_insensitive case_sensitive collation_sort_key : Case

unfoldable pub to_collation_type : String → Case
to_collation_type s =
    if str_eq s "ci"
    then case_insensitive
    else if str_eq s "cs"
    then case_sensitive
    else if str_eq s "csk"
    then collation_sort_key
    else undefined

unfoldable pub is_valid : String → Option Error
unfolding to_collation_type
is_valid s = elim (to_collation_type s) [
  | undefined ↦ some (invalid_argument "collation is not supported")
  | _ ↦ none
]

abbrev pub is_case_insensitive : Case → Bool
is_case_insensitive case_insensitive = true
is_case_insensitive _ = false

abbrev pub is_collation_sort_key : Case → Bool
is_collation_sort_key collation_sort_key = true
is_collation_sort_key _ = false

-- The collator for English, told whether the case is ignored.
pub record Collator : Type 0 where
  pub compare : Bool → Bytes → Bytes → Comparison
  pub key_from_string : Bool → Bytes → Bytes

unfoldable pub compare_string : Collator → Case → Bytes → Bytes → Comparison
compare_string l c a b = l.compare (is_case_insensitive c) a b

abbrev pub index_max_string_len : ℕ
index_max_string_len = 64

unfoldable pub generate_sort_key : Collator → Case → Bytes → Bytes
generate_sort_key l c input =
    l.key_from_string (is_case_insensitive c)
      (if ltb index_max_string_len (length input) then take index_max_string_len input else input)
