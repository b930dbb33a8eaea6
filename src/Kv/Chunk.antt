-- ===== src/Kv/Chunk.antt =====
-- store/kv/chunk.go: payloads above the chunk size are cut over several rows, and merged on reading.
pub mod Loop
pub mod Cut
pub mod Write
pub mod Read
pub mod RoundTrip
pub mod Short
pub mod Insert
use tigris.Base.{
  ℕ, zero, suc, ◌+◌, ◌-◌, String, Bool, true, false, ◌&&◌, Option, none, some, List, [], ◌∷◌, ◌++◌,
  str_eq, ltb, ◌==◌, if◌then◌else◌, length, take, drop, Error, Result, ok, err, failed,
}
use tigris.Base.Int32.{int32, slt}
use tigris.Kv.Data.{
  Bytes, Timestamp, TableData, new_table_data, clone_with_attributes_only, is_chunked_data,
  actual_user_payload_size, set_total_chunks,
}
use tigris.Kv.Fdb.{Fdb, FdbKey, Key, Part, str, int, bytes, Row}
use tigris.Kv.KeyValue.{
  Codec, KeyValue, KeyValueIterator, FdbIterator, kv_insert, kv_replace, kv_delete, kv_read,
  kv_next,
}

-- KB99, `var chunkSize`.
abbrev pub chunk_size : ℕ
chunk_size = 99000

abbrev pub chunk_identifier : String
chunk_identifier = "_C_"

-- `if err != nil { return err }`, and the rest.
unfoldable pub continue {ℓ} : {S : Type ℓ} → Option Error → S → Option Error × S → Option Error × S
continue (some e) s rest = (some e, s)
continue none s rest = rest

-- The loop of executeChunks, on fuel: `size` bytes from `start` on to each call of `cb`.
pub execute_from {ℓ} :
    {S : Type ℓ} (size : ℕ) (doc : Bytes) (cb : ℕ → Bytes → S → Option Error × S)
    → ℕ
    → ℕ
    → ℕ
    → S
    → Option Error × S
execute_from size doc cb zero start chunk s = (none, s)
execute_from size doc cb (suc fuel) start chunk s =
    let end = if ltb (length doc) (start + size) then length doc else start + size in
    let (e, s') = cb chunk (take (end - start) (drop start doc)) s in
    let rest = execute_from size doc cb fuel (start + size) (int32 (chunk + 1)) s' in
    if ltb start (length doc) then continue e s' rest else (none, s)

-- The start grows by at least one byte a round.
pub execute_chunks {ℓ} :
    {S : Type ℓ} → ℕ → TableData → (ℕ → Bytes → S → Option Error × S) → S → Option Error × S
unfolding execute_from continue
execute_chunks size x cb s = execute_from size x.raw_data cb (suc (length x.raw_data)) 0 0 s

pub is_chunking_needed : Bool → TableData → Bool
unfolding actual_user_payload_size
is_chunking_needed enabled x = slt (int32 chunk_size) (actual_user_payload_size x) && enabled

abbrev pub chunk_key : Key → ℕ → Key
chunk_key key chunk = key ++ str chunk_identifier ∷ int chunk ∷ []

-- `now` is the reading of the clock at each chunk.
module _ (f : Fdb) (c : Codec) (now : ℕ → Timestamp) where
  pub insert_chunk : Bytes → Key → TableData → ℕ → Bytes → f.Tx → Option Error × f.Tx
  insert_chunk table key x chunk piece t =
      if chunk == 0
      then kv_insert f c table key (clone_with_attributes_only x piece) t
      else kv_replace f c table (chunk_key key chunk) (new_table_data (now chunk) piece) t

  pub chunk_insert : Bool → Bytes → Key → TableData → f.Tx → Option Error × f.Tx
  unfolding is_chunking_needed insert_chunk
  chunk_insert enabled table key x t =
      if is_chunking_needed enabled x
      then (let x' = set_total_chunks chunk_size x in
          execute_chunks chunk_size x' (insert_chunk table key x') t)
      else kv_insert f c table key x t

  pub replace_chunk : Bytes → Key → TableData → ℕ → Bytes → f.Tx → Option Error × f.Tx
  replace_chunk table key x chunk piece t =
      if chunk == 0
      then kv_replace f c table key (clone_with_attributes_only x piece) t
      else kv_replace f c table (chunk_key key chunk) (new_table_data (now chunk) piece) t

  abbrev replace_cleaned : Bytes → Key → TableData → Option Error × f.Tx → Option Error × f.Tx
  replace_cleaned table key x (some e, t) = (some e, t)
  replace_cleaned table key x (none, t) = execute_chunks chunk_size x (replace_chunk table key x) t

  pub chunk_replace : Bool → Bytes → Key → TableData → f.Tx → Option Error × f.Tx
  unfolding is_chunking_needed replace_chunk
  chunk_replace enabled table key x t =
      if is_chunking_needed enabled x
      then replace_cleaned table key (set_total_chunks chunk_size x) (kv_delete f c table key t)
      else kv_replace f c table key x t

-- ChunkIterator.
pub record ChunkIterator : Type 0 where
  pub base : KeyValueIterator
  pub err : Option Error

pub last_two : Key → Option (Part × Part)
last_two [] = none
last_two (a ∷ []) = none
last_two (a ∷ b ∷ []) = some (a, b)
last_two (a ∷ b ∷ x ∷ rest) = last_two (b ∷ x ∷ rest)

abbrev is_chunk_identifier : Part → Bool
is_chunk_identifier (str s) = str_eq s chunk_identifier
is_chunk_identifier _ = false

abbrev is_chunk_number : ℕ → Part → Bool
is_chunk_number exp (int n) = exp == int32 n
is_chunk_number exp _ = false

-- The error that validChunkKey sets.
pub valid_chunk_key : Key → ℕ → Option Error
unfolding last_two
valid_chunk_key key exp_chunk = elim (last_two key) [
  | none ↦ some (failed "key shorter than expected chunked key")
  | some (identifier, number) ↦
      if is_chunk_identifier identifier
      then if is_chunk_number exp_chunk number
        then none
        else some (failed "chunk number mismatch found")
      else some (failed "chunk identifier not found in the key")
]

-- How the loop of Next ends.
pub data Merge : Type 0 where
  broken : KeyValueIterator → Error → Merge
  merged : KeyValueIterator → Bytes → ℕ → Bool → Merge

abbrev pub iterator_at : List Row → Option Error → Option Error → KeyValueIterator
iterator_at rows fail e = record { base = record { rows = rows; fail = fail }; err = e }

-- The error of the chunk iterator after a check that may set it.
abbrev first_error : Option Error → Option Error → Option Error
first_error (some e) prior = some e
first_error none prior = prior

module _ (c : Codec) where
  -- The rounds of the loop, which reads a row in each: `prior` is the error set before.
  pub merge_chunks : List Row → Option Error → Option Error → ℕ → ℕ → Bytes → Bool → Merge
  merge_chunks [] fail prior total chunk buf has_next =
      if slt chunk total
      then merged (iterator_at [] fail fail) buf chunk false
      else merged (iterator_at [] fail none) buf chunk has_next
  merge_chunks (r ∷ rest) fail prior total chunk buf has_next = elim (slt chunk total) [
    | false ↦ merged (iterator_at (r ∷ rest) fail none) buf chunk has_next
    | true ↦ elim (c.decode r.1) [
      | err e ↦ merged (iterator_at rest fail (some e)) buf chunk false
      | ok d ↦ elim (first_error (valid_chunk_key r.0.1 chunk) prior) [
        | some e ↦ broken (iterator_at rest fail none) e
        | none ↦ merge_chunks rest fail prior total (int32 (chunk + 1)) (buf ++ d.raw_data) true
      ]
    ]
  ]

  abbrev pub total_chunks_of : TableData → ℕ
  total_chunks_of x = elim x.total_chunks [ none ↦ 0 | some n ↦ n ]

  -- What Next makes of the merged chunks.
  abbrev pub finish : KeyValue → Option Error → Merge → Option KeyValue × ChunkIterator
  finish v prior (broken it e) = (none, record { base = it; err = some e })
  finish v prior (merged it buf chunk has_next) = elim it.err [
    | some e ↦ (none, record { base = it; err = some e })
    | none ↦
        if chunk == total_chunks_of v.value
        then (
          if has_next then some (record v { value = record v.value { raw_data = buf } }) else none,
          record { base = it; err = prior },
        )
        else (
          none,
          record {
            base = it;
            err = some (failed "mismatch in total chunk read versus total chunks expected");
          },
        )
  ]

  abbrev next_of :
      Option KeyValue → KeyValueIterator → Option Error → Option KeyValue × ChunkIterator
  next_of none it prior = (none, record { base = it; err = prior })
  next_of (some v) it prior =
      if is_chunked_data v.value
      then finish v prior (
          merge_chunks it.base.rows it.base.fail prior (total_chunks_of v.value) 1 v.value.raw_data
            false)
      else (some v, record { base = it; err = prior })

  pub chunk_next : ChunkIterator → Option KeyValue × ChunkIterator
  chunk_next it = let (v, base) = kv_next c it.base in next_of v base it.err

pub chunk_err : ChunkIterator → Option Error
chunk_err it = elim it.err [ some e ↦ some e | none ↦ it.base.err ]

pub chunk_read : (f : Fdb) (c : Codec) → Bytes → Key → Bool → f.Tx → ChunkIterator
chunk_read f c table key rev t = record { base = kv_read f c table key rev t; err = none }
