-- ===== src/Kv/Data.antt =====
-- internal/data.go: the payload of a row with its attributes, and its bytes in the database.
pub mod RoundTrip
use tigris.Base.{
  ℕ, ◌+◌, ◌-◌, ◌*◌, ◌/◌, ◌%◌, Bool, false, ◌||◌, Option, none, some, List, [], ◌∷◌, ◌++◌, ltb, ◌==◌,
  if◌then◌else◌, length, take, drop, Result, ok, err, internal, panic, ◌>>=◌,
}
use tigris.Base.Int32.{int32, slt, sdiv}

abbrev pub Bytes : Type 0
Bytes = List ℕ

pub record Timestamp : Type 0 where
  pub seconds : ℕ
  pub nanoseconds : ℕ

pub record TableData : Type 0 where
  pub ver : ℕ
  pub encoding : ℕ
  pub created_at : Option Timestamp
  pub updated_at : Option Timestamp
  pub raw_data : Bytes
  pub raw_size : ℕ
  pub compression : Option ℕ
  pub total_chunks : Option ℕ

-- `now` is the reading of the clock.
unfoldable pub new_table_data : Timestamp → Bytes → TableData
new_table_data now bytes = record {
  ver = 0;
  encoding = 0;
  created_at = some now;
  updated_at = none;
  raw_data = bytes;
  raw_size = 0;
  compression = none;
  total_chunks = none;
}

unfoldable pub new_table_data_with_version : Timestamp → Bytes → ℕ → TableData
unfolding new_table_data
new_table_data_with_version now bytes version = record (new_table_data now bytes) { ver = version }

unfoldable pub clone_with_attributes_only : TableData → Bytes → TableData
clone_with_attributes_only x bytes = record {
  ver = x.ver;
  encoding = x.encoding;
  created_at = x.created_at;
  updated_at = x.updated_at;
  raw_data = bytes;
  raw_size = x.raw_size;
  compression = x.compression;
  total_chunks = x.total_chunks;
}

unfoldable pub is_chunked_data : TableData → Bool
is_chunked_data x = elim x.total_chunks [ none ↦ false | some n ↦ slt 1 n ]

unfoldable pub actual_user_payload_size : TableData → ℕ
actual_user_payload_size x = int32 (length x.raw_data)

unfoldable pub set_total_chunks : ℕ → TableData → TableData
unfolding actual_user_payload_size
set_total_chunks chunk_size x = record x {
  total_chunks =
      some (sdiv (int32 (actual_user_payload_size x + chunk_size + 4294967295)) chunk_size);
}

-- What marshals the attributes, and the codec of rows that older versions wrote.
pub record Proto : Type 0 where
  pub marshal : TableData → Result Bytes
  pub unmarshal : Bytes → Result TableData
  pub decode_bincode : Bytes → Result TableData

abbrev pub table_data_type : ℕ
table_data_type = 1

abbrev pub table_data_proto_type : ℕ
table_data_proto_type = 4

-- One byte of type, two bytes for the size of the attributes, the attributes, the payload.
unfoldable pub encode : Proto → TableData → Result Bytes
encode p x = do
  md ← p.marshal (record x { raw_data = [] })
  let size = length md % 65536
  ok (table_data_proto_type ∷ (size / 256) ∷ (size % 256) ∷ (md ++ x.raw_data))

-- The end of the attributes is computed in uint16.
unfoldable pub decode_internal_proto : Proto → Bytes → Result TableData
decode_internal_proto p (hi ∷ lo ∷ rest) =
    let end = (hi * 256 + lo + 2) % 65536 in
    if ltb end 2 || ltb (length rest + 2) end
    then err (panic "slice bounds out of range")
    else do v ← p.unmarshal (take (end - 2) rest); ok (record v { raw_data = drop (end - 2) rest })
decode_internal_proto p _ = err (panic "index out of range")

unfoldable pub decode : Proto → Bytes → Result TableData
unfolding decode_internal_proto
decode p [] = err (internal "unable to decode table data is empty")
decode p (kind ∷ rest) =
    if kind == table_data_type
    then p.decode_bincode rest
    else if kind == table_data_proto_type
    then decode_internal_proto p rest
    else err (internal "unable to decode")
