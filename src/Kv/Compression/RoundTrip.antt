-- ===== src/Kv/Compression/RoundTrip.antt =====
-- The stores stacked as StoreForDatabase and StoreForSearch stack them: compression over chunking.
use tigris.Base.{
  ℕ, ◌<◌, ◌≤◌, ◌≡◌, ◌∙◌, Bool, false, Option, none, some, [], arith, length, inl, inr, Bool-cases,
  ok,
}
use tigris.Kv.Data.{Bytes, Timestamp, TableData, set_total_chunks}
use tigris.Kv.Data.RoundTrip.{RoundTrips}
use tigris.Kv.Fdb.{Fdb, IsLawful, Key}
use tigris.Kv.KeyValue.{Codec, KeyValue}
use tigris.Kv.Chunk.{ChunkIterator, iterator_at}
use tigris.Kv.Chunk.Short.{stored_form, chunk_replace_free}
use tigris.Kv.Compression.{
  Zstd, should_compress, compress, decompress_row, decompress_next, compress_replace, compress_read,
}

-- What is compressed decompresses to itself.
abbrev pub Decompresses : Zstd → Type 0
Decompresses z = (b : Bytes) → z.decode_all (z.encode_all b) ≡ ok b

raw_data-stored_form :
    (enabled : Bool) (x : TableData) → (stored_form enabled x).raw_data ≡ x.raw_data
unfolding set_total_chunks
raw_data-stored_form enabled x = ground arith

compression-stored_form :
    (enabled : Bool) (x : TableData) → (stored_form enabled x).compression ≡ x.compression
unfolding set_total_chunks
compression-stored_form enabled x = ground arith

total_chunks-compress :
    (z : Zstd) (enabled : Bool) (x : TableData)
    → (compress z enabled x).total_chunks ≡ x.total_chunks
unfolding compress
total_chunks-compress z enabled x = ground arith

-- What `compress` makes is no longer than the longer of its two answers.
pub compress_bound :
    (z : Zstd) (enabled : Bool) (x : TableData) (n : ℕ)
    → length x.raw_data ≤ n
    → length (z.encode_all x.raw_data) ≤ n
    → length (compress z enabled x).raw_data ≤ n
unfolding compress
compress_bound z enabled x n h k = ground arith

abbrev pub payload : Option KeyValue → Option Bytes
payload none = none
payload (some v) = some v.value.raw_data

-- A row that carries what `compress` made of `x` decompresses to the payload of `x`.
decompress_row-compress :
    (z : Zstd) (enabled : Bool) (x : TableData) (v : KeyValue) (base : ChunkIterator)
    → Decompresses z
    → x.compression ≡ none
    → v.value.raw_data ≡ (compress z enabled x).raw_data
    → v.value.compression ≡ (compress z enabled x).compression
    → let r = decompress_row z (some v) base none in
      (payload r.0 ≡ some x.raw_data) × (r.1 ≡ record { base = base; err = none })
unfolding compress
decompress_row-compress z enabled x v base unzip plain raw kind =
    elim (Bool-cases (should_compress enabled x)) [
      | inl large ↦ ground (arith, unzip x.raw_data)
      | inr small ↦ ground arith
    ]

-- A payload that replaces a free key is read back as it was given, whichever of the two stores is
-- enabled: one row, and the iterator then stands at the end with no error. Zstd and the codec give
-- back what they encode, the payload was neither chunked nor compressed before, what is stored is
-- shorter than 2 ^ 31 - 99000 bytes, and the transaction has not failed.
pub decompress_next-compress_replace :
    (f : Fdb) (c : Codec) (z : Zstd) (now : ℕ → Timestamp) (compressing chunking : Bool)
    (table : Bytes) (key : Key) (x : TableData) (t : f.Tx)
    → IsLawful f
    → RoundTrips c.encode c.decode
    → Decompresses z
    → f.failure t ≡ none
    → f.scan t (table, key) ≡ []
    → x.total_chunks ≡ none
    → x.compression ≡ none
    → length (compress z compressing x).raw_data < 2147384648
    → let r = compress_replace f c z now compressing chunking table key x t in
      let n =
        decompress_next z c (compress_read f c z now compressing chunking table key false r.1) in
      (r.0 ≡ none)
      × (payload n.0 ≡ some x.raw_data)
      × (n.1 ≡ record { base = record { base = iterator_at [] none none; err = none }; err = none })
unfolding compress_replace compress_read decompress_next
decompress_next-compress_replace f c z now compressing chunking table key x t laws rt unzip alive
      empty one plain small =
    let x' = compress z compressing x in
    let (done, next) =
      chunk_replace_free f laws c rt now table key chunking x' t alive empty
        (total_chunks-compress z compressing x ∙ one) small in
    let v : KeyValue = record {
      key = key;
      fdb_key = (table, key);
      value = stored_form chunking x';
    } in
    let (same, end) =
      decompress_row-compress z compressing x v
        (record { base = iterator_at [] none none; err = none }) unzip plain
        (raw_data-stored_form chunking x') (compression-stored_form chunking x') in
    rw next (done, same, end)
