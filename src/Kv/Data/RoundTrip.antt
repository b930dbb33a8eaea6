-- ===== src/Kv/Data/RoundTrip.antt =====
-- internal/data.go: Encode and Decode.
use tigris.Base.{
  ℕ, ◌+◌, ◌-◌, ◌*◌, ◌/◌, ◌%◌, ◌<◌, ◌≡◌, refl, ap, List, [], ◌∷◌, ◌++◌, arith, le→ltb, ◌∙◌, length,
  take, drop, length-append, Result, ok, ◌>>=◌,
}
use tigris.Kv.Data.{
  Bytes, TableData, Proto, table_data_proto_type, encode, decode, decode_internal_proto,
}

-- A codec that gives back each row that it writes.
abbrev pub RoundTrips : (TableData → Result Bytes) → (Bytes → Result TableData) → Type 0
RoundTrips enc dec = (x : TableData) → (b : Bytes) × (enc x ≡ ok b) × (dec b ≡ ok x)

-- Marshalled attributes are short, and unmarshal to themselves.
abbrev pub Marshals : Proto → Type 0
Marshals p =
    (x : TableData)
    → (b : Bytes) × (p.marshal (record x { raw_data = [] }) ≡ ok b)
      × (p.unmarshal b ≡ ok (record x { raw_data = [] }))
      × (length b < 65534)

take-append {ℓ} : {A : Type ℓ} (xs ys : List A) → take (length xs) (xs ++ ys) ≡ xs
take-append [] ys = refl
take-append (x ∷ xs) ys = ap (λ t. x ∷ t) (take-append xs ys)

drop-append {ℓ} : {A : Type ℓ} (xs ys : List A) → drop (length xs) (xs ++ ys) ≡ ys
drop-append [] ys = refl
drop-append (x ∷ xs) ys = drop-append xs ys

header_size : (n : ℕ) → n < 65534 → (n % 65536 / 256 * 256 + n % 65536 % 256 + 2) % 65536 ≡ n + 2
header_size n h = omega arith

decode_internal_proto-append :
    (p : Proto) (md raw : Bytes)
    → length md < 65534
    → decode_internal_proto p ((length md % 65536 / 256) ∷ (length md % 65536 % 256) ∷ (md ++ raw))
      ≡ (do v ← p.unmarshal md; ok (record v { raw_data = raw }))
unfolding decode_internal_proto
decode_internal_proto-append p md raw h =
    let e : length md + 2 - 2 ≡ length md = omega arith in
    rw (header_size (length md) h) (
      rw (
        e,
        take-append md raw,
        drop-append md raw,
        le→ltb (length md + 2) 2 (omega arith),
        le→ltb (length (md ++ raw) + 2) (length md + 2) (omega (arith, length-append md raw)),
      ))

-- Every row is encoded, and its bytes decode to the row, if the attributes of rows marshal to fewer
-- than 65534 bytes that unmarshal to them.
pub decode-encode :
    (p : Proto)
    → Marshals p
    → (x : TableData) → (b : Bytes) × (encode p x ≡ ok b) × (decode p b ≡ ok x)
unfolding encode decode
decode-encode p m x =
    let (b, e, u, short) = m x in
    let framed = decode_internal_proto-append p b x.raw_data short in
    (
      table_data_proto_type
          ∷ (length b % 65536 / 256)
          ∷ (length b % 65536 % 256)
          ∷ (b ++ x.raw_data),
      rw e,
      framed ∙ rw u,
    )
