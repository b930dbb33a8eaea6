-- ===== src/Kv/Chunk/Insert.antt =====
-- store/kv/chunk.go: Insert at a key that holds a row.
use tigris.Base.{
  ℕ, ◌<◌, ◌≡◌, refl, Bool, true, Option, none, some, arith, ltb, length, Bool-cases, inl, inr,
  Error,
}
use tigris.Kv.Data.{Bytes, Timestamp, TableData, set_total_chunks}
use tigris.Kv.Data.RoundTrip.{RoundTrips}
use tigris.Kv.Fdb.{Fdb, IsLawful, Key}
use tigris.Kv.KeyValue.{Codec, kv_insert, ftx_insert, duplicate_key}
use tigris.Kv.Chunk.{chunk_size, is_chunking_needed, execute_chunks, insert_chunk, chunk_insert}

-- A first call that fails ends the loop.
execute_chunks-fail {ℓ} :
    {S : Type ℓ} (size : ℕ) (x : TableData) (cb : ℕ → Bytes → S → Option Error × S) (s : S)
    (e : Error)
    → ((piece : Bytes) → cb 0 piece s ≡ (some e, s))
    → 0 < length x.raw_data
    → execute_chunks size x cb s ≡ (some e, s)
unfolding execute_chunks
execute_chunks-fail size x cb s e h long =
    let more : ltb 0 (length x.raw_data) ≡ true = ground arith in rw (more, h)

is_chunking_needed-pos :
    (enabled : Bool) (x : TableData) → is_chunking_needed enabled x ≡ true → 0 < length x.raw_data
unfolding is_chunking_needed
is_chunking_needed-pos enabled x h = ground arith

raw_data-set_total_chunks :
    (size : ℕ) (x : TableData) → (set_total_chunks size x).raw_data ≡ x.raw_data
unfolding set_total_chunks
raw_data-set_total_chunks size x = refl

module _ (f : Fdb) (laws : IsLawful f) (c : Codec) (rt : RoundTrips c.encode c.decode)
    (now : ℕ → Timestamp) (table : Bytes) (key : Key) where
  kv_insert-taken :
      (d : TableData) (t : f.Tx) (b : Bytes)
      → f.failure t ≡ none
      → f.stored t (table, key) ≡ some b
      → kv_insert f c table key d t ≡ (some duplicate_key, t)
  kv_insert-taken d t b alive taken =
      rw ((rt d).1, kv_insert) (rw (alive, ftx_insert) (rw (taken, ftx_insert)))

  insert_chunk-taken :
      (x : TableData) (piece : Bytes) (t : f.Tx) (b : Bytes)
      → f.failure t ≡ none
      → f.stored t (table, key) ≡ some b
      → insert_chunk f c now table key x 0 piece t ≡ (some duplicate_key, t)
  unfolding insert_chunk
  insert_chunk-taken x piece t b alive taken = kv_insert-taken _ t b alive taken

  -- Insert of a payload of any size at a key that holds a row fails as a duplicate and leaves the
  -- transaction as it was, whether chunking is enabled or not. The transaction has not failed, and
  -- the codec encodes every row.
  pub chunk_insert_taken :
      (enabled : Bool) (x : TableData) (t : f.Tx) (b : Bytes)
      → f.failure t ≡ none
      → f.stored t (table, key) ≡ some b
      → chunk_insert f c now enabled table key x t ≡ (some duplicate_key, t)
  unfolding chunk_insert
  chunk_insert_taken enabled x t b alive taken = elim (Bool-cases (is_chunking_needed enabled x)) [
    | inl needed ↦
        let long = is_chunking_needed-pos enabled x needed in
        rw needed (
          execute_chunks-fail chunk_size (set_total_chunks chunk_size x)
            (insert_chunk f c now table key (set_total_chunks chunk_size x)) t duplicate_key
            (λ piece. insert_chunk-taken (set_total_chunks chunk_size x) piece t b alive taken)
            (rw (raw_data-set_total_chunks chunk_size x) long))
    | inr whole ↦ rw whole (kv_insert-taken x t b alive taken)
  ]
