-- ===== src/Kv/Tests.antt =====
-- The theorems of the stores at concrete payloads, over the transaction of `Listed`.
use tigris.Base.{
  ℕ, zero, suc, ◌+◌, ◌≤◌, ◌≡◌, refl, ap, true, false, Option, none, some, List, [], ◌∷◌, arith,
  length, All, Result, ok, err, internal,
}
use tigris.Kv.Data.{
  Bytes, Timestamp, TableData, Proto, encode, decode, set_total_chunks, new_table_data,
}
use tigris.Kv.Data.RoundTrip.{RoundTrips, Marshals, decode-encode}
use tigris.Kv.Fdb.{Key, str, int, Row}
use tigris.Kv.KeyValue.{internal_codec, duplicate_key}
use tigris.Kv.Listed.{
  find_single, scan_rows, scan_rows-nil, scan_rows-cons, listed, listed-IsLawful,
}
use tigris.Kv.Chunk.{
  execute_chunks, chunk_size, chunk_key, chunk_insert, chunk_replace, chunk_next, chunk_read,
  iterator_at,
}
use tigris.Kv.Chunk.Write.{chunk_rows}
use tigris.Kv.Chunk.RoundTrip.{chunk_next-chunk_replace}
use tigris.Kv.Chunk.Cut.{execute_chunks_cuts}
use tigris.Kv.Chunk.Loop.{concat, for_chunks, FitsIn}
use tigris.Kv.Chunk.Short.{stored_form, chunk_replace_free, chunk_replace_leaves_chunks}
use tigris.Kv.Chunk.Insert.{chunk_insert_taken}
use tigris.Kv.Compression.{Zstd, compress, compress_replace, compress_read, decompress_next}
use tigris.Kv.Compression.RoundTrip.{payload, compress_bound, decompress_next-compress_replace}

-- A wire format: thirteen numbers for the attributes.
abbrev number : Option ℕ → Bytes → Bytes
number none rest = 0 ∷ 0 ∷ rest
number (some n) rest = 1 ∷ n ∷ rest

abbrev time : Option Timestamp → Bytes → Bytes
time none rest = 0 ∷ 0 ∷ 0 ∷ rest
time (some t) rest = 1 ∷ t.seconds ∷ t.nanoseconds ∷ rest

abbrev to_number : ℕ → ℕ → Option ℕ
to_number zero n = none
to_number (suc _) n = some n

abbrev to_time : ℕ → ℕ → ℕ → Option Timestamp
to_time zero s n = none
to_time (suc _) s n = some (record { seconds = s; nanoseconds = n })

abbrev wire : TableData → Bytes
wire x =
    x.ver
    ∷ x.encoding
    ∷ x.raw_size
    ∷ number x.compression
        (number x.total_chunks (time x.created_at (time x.updated_at x.raw_data)))

abbrev unwire : Bytes → Result TableData
unwire (v ∷ e ∷ s ∷ c ∷ c' ∷ t ∷ t' ∷ a ∷ a' ∷ a'' ∷ u ∷ u' ∷ u'' ∷ raw) = ok (record {
  ver = v;
  encoding = e;
  created_at = to_time a a' a'';
  updated_at = to_time u u' u'';
  raw_data = raw;
  raw_size = s;
  compression = to_number c c';
  total_chunks = to_number t t';
})
unwire _ = err (internal "truncated")

abbrev proto : Proto
proto = record { marshal = λ x. ok (wire x); unmarshal = unwire; decode_bincode = unwire }

proto-Marshals : Marshals proto
proto-Marshals x = (wire (record x { raw_data = [] }), refl, ground arith, ground arith)

rt : RoundTrips (internal_codec proto).encode (internal_codec proto).decode
rt = decode-encode proto proto-Marshals

repeat : ℕ → ℕ → Bytes
repeat zero b = []
repeat (suc n) b = b ∷ repeat n b

length-repeat : (n b : ℕ) → length (repeat n b) ≡ n
unfolding repeat
length-repeat zero b = refl
length-repeat (suc n) b = ap suc (length-repeat n b)

abbrev now : ℕ → Timestamp
now n = record { seconds = n; nanoseconds = 0 }

abbrev user_table : Bytes
user_table = 100 ∷ 97 ∷ 116 ∷ 97 ∷ []

abbrev user_key : Key
user_key = str "pkey" ∷ int 7 ∷ []

abbrev value_of : Bytes → TableData
value_of raw = record {
  ver = 1;
  encoding = 2;
  created_at = some (now 5);
  updated_at = none;
  raw_data = raw;
  raw_size = 0;
  compression = none;
  total_chunks = none;
}

-- 250000 bytes, which make three chunks.
abbrev long_value : TableData
long_value = value_of (repeat 250000 65)

abbrev short_value : TableData
short_value = value_of (104 ∷ 105 ∷ [])

decode-encode_example :
    (b : Bytes) × (encode proto long_value ≡ ok b) × (decode proto b ≡ ok long_value)
decode-encode_example = decode-encode proto proto-Marshals long_value

execute_chunks_cuts_example :
    (ps : List Bytes) × (execute_chunks chunk_size long_value
        (λ chunk piece (s : ℕ). (none, s + length piece))
        0
      ≡ for_chunks (λ chunk piece (s : ℕ). (none, s + length piece)) 0 ps 0)
    × (concat ps ≡ long_value.raw_data)
    × All (FitsIn chunk_size) ps
    × ((set_total_chunks chunk_size long_value).total_chunks ≡ some (length ps))
execute_chunks_cuts_example =
    execute_chunks_cuts long_value (λ chunk piece (s : ℕ). (none, s + length piece)) 0
      (rw (length-repeat 250000 65) (omega arith))

chunk_replace_free_example :
    let r =
      chunk_replace listed (internal_codec proto) now false user_table user_key long_value [] in
    (r.0 ≡ none)
    × (chunk_next
          (internal_codec proto)
          (chunk_read listed (internal_codec proto) user_table user_key false r.1)
        ≡ (
          some (record {
            key = user_key;
            fdb_key = (user_table, user_key);
            value = stored_form false long_value;
          }),
          record { base = iterator_at [] none none; err = none },
        ))
chunk_replace_free_example =
    chunk_replace_free listed listed-IsLawful (internal_codec proto) rt now user_table user_key
      false long_value [] refl (scan_rows-nil (user_table, user_key)) refl
      (rw (length-repeat 250000 65) (omega arith))

chunk_next-chunk_replace_example :
    let r =
      chunk_replace listed (internal_codec proto) now true user_table user_key long_value [] in
    (r.0 ≡ none)
    × (chunk_next
          (internal_codec proto)
          (chunk_read listed (internal_codec proto) user_table user_key false r.1)
        ≡ (
          some (record {
            key = user_key;
            fdb_key = (user_table, user_key);
            value = set_total_chunks chunk_size long_value;
          }),
          record { base = iterator_at [] none none; err = none },
        ))
chunk_next-chunk_replace_example =
    chunk_next-chunk_replace listed listed-IsLawful (internal_codec proto) rt now user_table
      user_key long_value [] refl (rw (length-repeat 250000 65) (omega arith))
      (rw (length-repeat 250000 65) (omega arith))

abbrev chunked : List Row
chunked =
    chunk_rows listed listed-IsLawful (internal_codec proto) rt now user_table user_key short_value
      0 ((1 ∷ []) ∷ (2 ∷ []) ∷ (3 ∷ []) ∷ [])

chunk_rows-own :
    (i : ℕ) (ps : List Bytes)
    → let rows =
        chunk_rows listed listed-IsLawful
          (internal_codec proto)
          rt
          now
          user_table
          user_key
          short_value
          i
          ps in
      scan_rows rows (user_table, user_key) ≡ rows
unfolding chunk_rows
chunk_rows-own i [] = scan_rows-nil (user_table, user_key)
chunk_rows-own i (p ∷ ps) = rw (scan_rows-cons, chunk_rows-own (suc i) ps)

chunk_replace_leaves_chunks_example :
    let r =
      chunk_replace listed
        (internal_codec proto)
        now
        true
        user_table
        user_key
        short_value
        chunked in
    let first =
      chunk_next
        (internal_codec proto)
        (chunk_read listed (internal_codec proto) user_table user_key false r.1) in
    (first.0
      ≡ some (record { key = user_key; fdb_key = (user_table, user_key); value = short_value }))
    × ((chunk_next (internal_codec proto) first.1).0
        ≡ some (record {
          key = chunk_key user_key 1;
          fdb_key = (user_table, chunk_key user_key 1);
          value = new_table_data (now 1) (2 ∷ []);
        }))
chunk_replace_leaves_chunks_example =
    chunk_replace_leaves_chunks listed listed-IsLawful (internal_codec proto) rt now user_table
      user_key true short_value short_value (1 ∷ []) (2 ∷ []) ((3 ∷ []) ∷ []) chunked refl
      (chunk_rows-own 0 ((1 ∷ []) ∷ (2 ∷ []) ∷ (3 ∷ []) ∷ [])) (omega arith) refl

abbrev taken : List Row
taken = ((user_table, user_key), 9 ∷ []) ∷ []

chunk_insert_taken_example :
    chunk_insert listed (internal_codec proto) now true user_table user_key long_value taken
    ≡ (some duplicate_key, taken)
chunk_insert_taken_example =
    chunk_insert_taken listed listed-IsLawful (internal_codec proto) rt now user_table user_key true
      long_value taken (9 ∷ []) refl (find_single (user_table, user_key) (9 ∷ []))

abbrev unmark : Bytes → Result Bytes
unmark [] = err (internal "no frame")
unmark (b ∷ rest) = ok rest

-- Compression that marks its output.
abbrev zstd : Zstd
zstd = record { encode_all = λ b. 40 ∷ b; decode_all = unmark; level = 2 }

length-compress : length (compress zstd true long_value).raw_data ≤ 250001
length-compress =
    compress_bound zstd true long_value 250001 (rw (length-repeat 250000 65) (omega arith))
      (rw (length-repeat 250000 65) (omega arith))

decompress_next-compress_replace_example :
    let r =
      compress_replace listed
        (internal_codec proto)
        zstd
        now
        true
        true
        user_table
        user_key
        long_value
        [] in
    let n = decompress_next zstd (internal_codec proto) (
      compress_read listed
        (internal_codec proto)
        zstd
        now
        true
        true
        user_table
        user_key
        false
        r.1) in
    (r.0 ≡ none)
    × (payload n.0 ≡ some (repeat 250000 65))
    × (n.1 ≡ record { base = record { base = iterator_at [] none none; err = none }; err = none })
decompress_next-compress_replace_example =
    decompress_next-compress_replace listed (internal_codec proto) zstd now true true user_table
      user_key long_value [] listed-IsLawful rt (λ b. refl) refl
      (scan_rows-nil (user_table, user_key)) refl refl (omega (arith, length-compress))
