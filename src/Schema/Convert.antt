-- ===== src/Schema/Convert.antt =====
-- schema/migration.go: the conversions of values from one type to another.
use tigris.Base.{
  ℕ, suc, zero, ◌+◌, ◌-◌, ◌*◌, ◌/◌, ◌%◌, Bool, true, false, not, ◌&&◌, Option, none, some, [], ◌∷◌,
  ◌++◌, String, ltb, ◌==◌, if◌then◌else◌, length, take,
}
use tigris.Base.Int32.{slt}
use tigris.Kv.Data.{Bytes}
use tigris.Schema.FieldType.{FieldType, bool, int32, int64, double, string, byte, uuid, date_time}
use tigris.Schema.Migration.{VersionDeltaField}

-- Go's int64, by its value: n, or -1 - n.
pub data ℤ : Type 0 where
  pos negsuc : ℕ → ℤ

-- What the code takes from the standard library and the package uuid, with `F` for float64.
pub record Library (F : Type 0) : Type 0 where
  pub parse_int32 : Bytes → Option ℤ
  pub parse_int64 : Bytes → Option ℤ
  pub parse_float : Bytes → Option F
  pub format_int : ℤ → Bytes
  pub format_float : F → Bytes
  pub to_float : ℤ → F
  pub floor_int64 : F → ℤ
  pub is_zero : F → Bool
  pub float64_bits : F → ℕ
  pub float64_from_bits : ℕ → F
  pub decode_base64 : Bytes → Option Bytes
  pub parse_uuid : Bytes → Bool
  pub uuid_from_bytes : Bytes → Option Bytes
  pub parse_rfc3339 : Bytes → Bool
  pub format_unix : ℤ → Bytes

-- The values of a decoded document, and those that the conversions make: `integer` is int64, `go_int`
-- is int, and `binary` is []byte.
mutual
  pub data Value (F : Type 0) : Type 0 where
    nil_value : Value F
    boolean : Bool → Value F
    text : Bytes → Value F
    number : Bytes → Value F
    float : F → Value F
    integer : ℤ → Value F
    go_int : ℕ → Value F
    binary : Bytes → Value F
    map_value : Members F → Value F
    array_value : Values F → Value F

  pub data Members (F : Type 0) : Type 0 where
    no_member : Members F
    member : String → Value F → Members F → Members F

  pub data Values (F : Type 0) : Type 0 where
    no_value : Values F
    value : Value F → Values F → Values F

-- binary.BigEndian.
abbrev pub put_uint : ℕ → ℕ → Bytes
put_uint zero n = []
put_uint (suc k) n = put_uint k (n / 256) ++ (n % 256) ∷ []

unfoldable pub get_uint : ℕ → Bytes → ℕ
get_uint acc [] = acc
get_uint acc (b ∷ bs) = get_uint (acc * 256 + b) bs

abbrev pub uint64_of : ℤ → ℕ
uint64_of (pos n) = n
uint64_of (negsuc n) = 18446744073709551615 - n

abbrev pub int64_of : ℕ → ℤ
int64_of n = if ltb n 9223372036854775808 then pos n else negsuc (18446744073709551615 - n)

abbrev pub in_int32 : ℤ → Bool
in_int32 (pos n) = ltb n 2147483647
in_int32 (negsuc n) = ltb n 2147483647

abbrev pub int_is_zero : ℤ → Bool
int_is_zero (pos n) = if n == 0 then true else false
int_is_zero (negsuc n) = false

-- The cut to a maximal length, where there is one.
abbrev pub cut_to : ℕ → Bytes → Bytes
cut_to max_length val =
    if slt 0 max_length && ltb max_length (length val) then take max_length val else val

abbrev bytes_eq : Bytes → Bytes → Bool
bytes_eq [] [] = true
bytes_eq [] (y ∷ ys) = false
bytes_eq (x ∷ xs) [] = false
bytes_eq (x ∷ xs) (y ∷ ys) = if x == y then bytes_eq xs ys else false

-- The text of the two Booleans.
abbrev pub true_word : Bytes
true_word = 116 ∷ 114 ∷ 117 ∷ 101 ∷ []

abbrev pub false_word : Bytes
false_word = 102 ∷ 97 ∷ 108 ∷ 115 ∷ 101 ∷ []

module _ {F : Type 0} (lib : Library F) where
  unfoldable pub convert_from_bool : FieldType → Bool → Option (Value F)
  convert_from_bool bool val = some (boolean val)
  convert_from_bool int32 val = some (go_int (if val then 1 else 0))
  convert_from_bool int64 val = some (go_int (if val then 1 else 0))
  convert_from_bool double val = some (go_int (if val then 1 else 0))
  convert_from_bool string val = some (text (if val then true_word else false_word))
  convert_from_bool byte val = some (binary (if val then 1 ∷ [] else 0 ∷ []))
  convert_from_bool _ val = none

  abbrev of_size : ℕ → Bytes → Option (Value F) → Option (Value F)
  of_size n val v = if length val == n then v else none

  abbrev of_text : Option Bytes → Option (Value F)
  of_text none = none
  of_text (some s) = some (text s)

  abbrev first_is_set : Bytes → Option (Value F)
  first_is_set [] = none
  first_is_set (b ∷ _) = some (boolean (if b == 0 then false else true))

  unfoldable pub convert_from_bytes : FieldType → Bytes → ℕ → Option (Value F)
  unfolding get_uint
  convert_from_bytes string val max_length = some (text (cut_to max_length val))
  convert_from_bytes byte val max_length = some (binary (cut_to max_length val))
  convert_from_bytes uuid val max_length = of_size 16 val (of_text (lib.uuid_from_bytes val))
  convert_from_bytes int64 val max_length =
      of_size 8 val (some (integer (int64_of (get_uint 0 val))))
  convert_from_bytes int32 val max_length = of_size 4 val (some (integer (pos (get_uint 0 val))))
  convert_from_bytes bool val max_length = of_size 1 val (first_is_set val)
  convert_from_bytes double val max_length =
      of_size 8 val (some (float (lib.float64_from_bits (get_uint 0 val))))
  convert_from_bytes date_time val max_length =
      of_size 8 val (some (text (lib.format_unix (int64_of (get_uint 0 val)))))
  convert_from_bytes _ val max_length = none

  unfoldable pub convert_from_int64 : FieldType → ℤ → Option (Value F)
  convert_from_int64 bool val = some (boolean (not (int_is_zero val)))
  convert_from_int64 int32 val = if in_int32 val then some (integer val) else none
  convert_from_int64 int64 val = some (integer val)
  convert_from_int64 double val = some (float (lib.to_float val))
  convert_from_int64 string val = some (text (lib.format_int val))
  convert_from_int64 byte val = some (binary (put_uint 8 (uint64_of val)))
  convert_from_int64 _ val = none

  unfoldable pub convert_from_double : FieldType → F → Option (Value F)
  convert_from_double bool val = some (boolean (not (lib.is_zero val)))
  convert_from_double int32 val =
      if in_int32 (lib.floor_int64 val) then some (integer (lib.floor_int64 val)) else none
  convert_from_double int64 val = some (integer (lib.floor_int64 val))
  convert_from_double double val = some (float val)
  convert_from_double string val = some (text (lib.format_float val))
  convert_from_double byte val = some (binary (put_uint 8 (lib.float64_bits val)))
  convert_from_double _ val = none

  abbrev of_integer : Option ℤ → Option (Value F)
  of_integer none = none
  of_integer (some i) = some (integer i)

  abbrev of_float : Option F → Option (Value F)
  of_float none = none
  of_float (some x) = some (float x)

  abbrev of_word : Bytes → Option (Value F)
  of_word val =
      if bytes_eq val true_word
      then some (boolean true)
      else if bytes_eq val false_word
      then some (boolean false)
      else none

  unfoldable pub convert_from_string : FieldType → Bytes → ℕ → Option (Value F)
  convert_from_string bool val max_length = of_word val
  convert_from_string int32 val max_length = of_integer (lib.parse_int32 val)
  convert_from_string int64 val max_length = of_integer (lib.parse_int64 val)
  convert_from_string double val max_length = of_float (lib.parse_float val)
  convert_from_string string val max_length = some (text (cut_to max_length val))
  convert_from_string byte val max_length = some (binary (cut_to max_length val))
  convert_from_string uuid val max_length = if lib.parse_uuid val then some (text val) else none
  convert_from_string date_time val max_length =
      if lib.parse_rfc3339 val then some (text val) else none
  convert_from_string _ val max_length = none

  abbrev then_convert : {A : Type 0} → Option A → (A → Option (Value F)) → Option (Value F)
  then_convert none f = none
  then_convert (some a) f = f a

  abbrev convert_text : FieldType → VersionDeltaField → Bytes → Option (Value F)
  convert_text byte change v =
      then_convert (lib.decode_base64 v) (λ b. convert_from_bytes change.to b change.max_length)
  convert_text _ change v = convert_from_string change.to v change.max_length

  abbrev convert_number : FieldType → VersionDeltaField → Bytes → Option (Value F)
  convert_number int64 change v = then_convert (lib.parse_int64 v) (convert_from_int64 change.to)
  convert_number int32 change v = then_convert (lib.parse_int64 v) (convert_from_int64 change.to)
  convert_number double change v = then_convert (lib.parse_float v) (convert_from_double change.to)
  convert_number _ change v = none

  unfoldable pub convert_type : VersionDeltaField → Value F → Option (Value F)
  unfolding convert_from_bool convert_from_bytes convert_from_int64 convert_from_double
      convert_from_string
  convert_type change (boolean v) = convert_from_bool change.to v
  convert_type change (text v) = convert_text change.from change v
  convert_type change (number v) = convert_number change.from change v
  convert_type change (float v) = convert_from_double change.to v
  convert_type change (integer v) = convert_from_int64 change.to v
  convert_type change _ = none
