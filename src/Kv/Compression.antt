-- ===== src/Kv/Compression.antt =====
-- store/kv/compression.go: payloads above a threshold are compressed on their way to the chunk store.
pub mod RoundTrip
use tigris.Base.{ℕ, Bool, ◌&&◌, Option, none, some, if◌then◌else◌, Error, Result, ok, err}
use tigris.Base.Int32.{slt}
use tigris.Kv.Data.{
  Bytes, Timestamp, TableData, clone_with_attributes_only, actual_user_payload_size,
}
use tigris.Kv.Fdb.{Fdb, Key}
use tigris.Kv.KeyValue.{Codec, KeyValue}
use tigris.Kv.Chunk.{ChunkIterator, chunk_insert, chunk_replace, chunk_next, chunk_read, chunk_err}

-- The zstd library, and the level that the code sets.
pub record Zstd : Type 0 where
  pub encode_all : Bytes → Bytes
  pub decode_all : Bytes → Result Bytes
  pub level : ℕ

abbrev pub min_compression_threshold : ℕ
min_compression_threshold = 1000

pub should_compress : Bool → TableData → Bool
unfolding actual_user_payload_size
should_compress enabled x = slt min_compression_threshold (actual_user_payload_size x) && enabled

pub compress : Zstd → Bool → TableData → TableData
unfolding should_compress clone_with_attributes_only
compress z enabled x =
    if should_compress enabled x
    then record (clone_with_attributes_only x (z.encode_all x.raw_data)) {
      compression = some z.level;
    }
    else x

-- DecompressIterator.
pub record DecompressIterator : Type 0 where
  pub base : ChunkIterator
  pub err : Option Error

abbrev pub decompressed :
    KeyValue → ChunkIterator → Option Error → Result Bytes → Option KeyValue × DecompressIterator
decompressed v base prior (ok raw) = (
  some (record v { value = record v.value { raw_data = raw } }),
  record { base = base; err = prior },
)
decompressed v base prior (err e) = (none, record { base = base; err = some e })

abbrev pub decompress_row :
    Zstd → Option KeyValue → ChunkIterator → Option Error → Option KeyValue × DecompressIterator
decompress_row z none base prior = (none, record { base = base; err = prior })
decompress_row z (some v) base prior = elim v.value.compression [
  | none ↦ (some v, record { base = base; err = prior })
  | some _ ↦ decompressed v base prior (z.decode_all v.value.raw_data)
]

pub decompress_next : Zstd → Codec → DecompressIterator → Option KeyValue × DecompressIterator
decompress_next z c it = let (v, base) = chunk_next c it.base in decompress_row z v base it.err

pub decompress_err : DecompressIterator → Option Error
decompress_err it = elim it.err [ some e ↦ some e | none ↦ chunk_err it.base ]

-- `compressing` and `chunking` are the `enabled` of the two stores.
module _ (f : Fdb) (c : Codec) (z : Zstd) (now : ℕ → Timestamp) (compressing chunking : Bool)
    (table : Bytes) (key : Key) where
  pub compress_insert : TableData → f.Tx → Option Error × f.Tx
  compress_insert x t = chunk_insert f c now chunking table key (compress z compressing x) t

  pub compress_replace : TableData → f.Tx → Option Error × f.Tx
  compress_replace x t = chunk_replace f c now chunking table key (compress z compressing x) t

  pub compress_read : Bool → f.Tx → DecompressIterator
  compress_read rev t = record { base = chunk_read f c table key rev t; err = none }
