-- ===== src/Kv/Chunk/Short.antt =====
-- store/kv/chunk.go: Replace and Next, for a payload of any size.
use mathlib.Core.List.{append-nil}
use tigris.Base.{
  ℕ, ◌≤◌, ◌<◌, ◌≡◌, refl, ap, ◌∙◌, Bool, true, false, Option, none, some, List, [], ◌∷◌, arith,
  length, if◌then◌else◌, Bool-cases, inl, inr,
}
use tigris.Kv.Data.{Bytes, Timestamp, TableData, new_table_data, set_total_chunks, is_chunked_data}
use tigris.Kv.Data.RoundTrip.{RoundTrips}
use tigris.Kv.Fdb.{Fdb, IsLawful, FdbKey, Key, Row}
use tigris.Kv.KeyValue.{Codec, KeyValue, kv_replace}
use tigris.Kv.Chunk.{
  chunk_size, chunk_key, is_chunking_needed, chunk_replace, ChunkIterator, chunk_next, chunk_read,
  iterator_at,
}
use tigris.Kv.Chunk.Write.{datum, chunk_rows}
use tigris.Kv.Chunk.RoundTrip.{chunk_read-alive, chunk_next-chunk_replace}

-- The form in which Replace stores a payload.
abbrev pub stored_form : Bool → TableData → TableData
stored_form enabled x = if is_chunking_needed enabled x then set_total_chunks chunk_size x else x

is_chunked_data-none : (x : TableData) → x.total_chunks ≡ none → is_chunked_data x ≡ false
unfolding is_chunked_data
is_chunked_data-none x e = ground arith

total_chunks-new : (t : Timestamp) (b : Bytes) → (new_table_data t b).total_chunks ≡ none
unfolding new_table_data
total_chunks-new t b = refl

is_chunking_needed_iff :
    (enabled : Bool) (x : TableData)
    → length x.raw_data < 2147384648
    → is_chunking_needed enabled x ≡ true
    → (enabled ≡ true) × (chunk_size < length x.raw_data)
unfolding is_chunking_needed
is_chunking_needed_iff enabled x small h = ground arith

is_chunking_needed-short :
    (enabled : Bool) (x : TableData)
    → length x.raw_data ≤ chunk_size
    → is_chunking_needed enabled x ≡ false
unfolding is_chunking_needed
is_chunking_needed-short enabled x h = ground arith

module _ (f : Fdb) (laws : IsLawful f) (c : Codec) (rt : RoundTrips c.encode c.decode)
    (now : ℕ → Timestamp) (table : Bytes) (key : Key) where
  -- Next at a row of its own.
  chunk_next-row :
      (k : FdbKey) (d : TableData) (rest : List Row)
      → is_chunked_data d ≡ false
      → chunk_next c (record { base = iterator_at ((k, (rt d).0) ∷ rest) none none; err = none })
        ≡ (
          some (record { key = k.1; fdb_key = k; value = d }),
          record { base = iterator_at rest none none; err = none },
        )
  unfolding chunk_next
  chunk_next-row k d rest whole = rw ((rt d).2, whole)

  chunk_replace-whole :
      (enabled : Bool) (x : TableData) (t : f.Tx)
      → is_chunking_needed enabled x ≡ false
      → chunk_replace f c now enabled table key x t ≡ (none, f.set t (table, key) (rt x).0)
  unfolding chunk_replace
  chunk_replace-whole enabled x t whole = rw (whole, (rt x).1, kv_replace)

  scan-free :
      (t : f.Tx) (v : Bytes)
      → f.scan t (table, key) ≡ []
      → f.scan (f.set t (table, key) v) (table, key) ≡ ((table, key), v) ∷ []
  scan-free t v empty =
      let last = laws.scan-set_last t table key [] v (rw empty tt) in
      (simp (append-nil, empty) at last)

  replace_whole_rows :
      (x : TableData) (t : f.Tx) (rest : List Row)
      → f.failure t ≡ none
      → x.total_chunks ≡ none
      → f.scan (f.set t (table, key) (rt x).0) (table, key) ≡ ((table, key), (rt x).0) ∷ rest
      → chunk_next c (chunk_read f c table key false (f.set t (table, key) (rt x).0)) ≡ (
        some (record { key = key; fdb_key = (table, key); value = x }),
        record { base = iterator_at rest none none; err = none },
      )
  replace_whole_rows x t rest alive one rows =
      rw
        (
          chunk_read-alive f c table key (f.set t (table, key) (rt x).0)
              (laws.failure-set t (table, key) (rt x).0 ∙ alive),
          rows,
        )
        (chunk_next-row (table, key) x rest (is_chunked_data-none x one))

  -- Where the key held nothing, a payload of any size is read back as one row, whether chunking is
  -- enabled or not: as it was given, or with the number of its chunks. The payload was not chunked
  -- before and is shorter than 2 ^ 31 - 99000 bytes, and the transaction has not failed.
  pub chunk_replace_free :
      (enabled : Bool) (x : TableData) (t : f.Tx)
      → f.failure t ≡ none
      → f.scan t (table, key) ≡ []
      → x.total_chunks ≡ none
      → length x.raw_data < 2147384648
      → let r = chunk_replace f c now enabled table key x t in
        (r.0 ≡ none)
        × (chunk_next c (chunk_read f c table key false r.1) ≡ (
          some (record { key = key; fdb_key = (table, key); value = stored_form enabled x }),
          record { base = iterator_at [] none none; err = none },
        ))
  chunk_replace_free enabled x t alive empty one small =
      elim (Bool-cases (is_chunking_needed enabled x)) [
        | inl needed ↦
            let (on, long) = is_chunking_needed_iff enabled x small needed in
            rw (needed, on)
              (chunk_next-chunk_replace f laws c rt now table key x t alive long small)
        | inr whole ↦
            rw (whole, chunk_replace-whole enabled x t whole)
              (refl, replace_whole_rows x t [] alive one (scan-free t (rt x).0 empty))
      ]

  -- A payload that is not cut and replaces one that was cut over two or more rows leaves the old
  -- rows behind: a read answers with the new payload, and then with the second piece of the old
  -- one as a row of its own. The key's rows are those of the old payload, and the transaction has
  -- not failed.
  pub chunk_replace_leaves_chunks :
      (enabled : Bool) (old x : TableData) (p q : Bytes) (ps : List Bytes) (t : f.Tx)
      → f.failure t ≡ none
      → f.scan t (table, key) ≡ chunk_rows f laws c rt now table key old 0 (p ∷ q ∷ ps)
      → length x.raw_data ≤ chunk_size
      → x.total_chunks ≡ none
      → let r = chunk_replace f c now enabled table key x t in
        let first = chunk_next c (chunk_read f c table key false r.1) in
        (first.0 ≡ some (record { key = key; fdb_key = (table, key); value = x }))
        × ((chunk_next c first.1).0
            ≡ some (record {
              key = chunk_key key 1;
              fdb_key = (table, chunk_key key 1);
              value = new_table_data (now 1) q;
            }))
  unfolding chunk_rows
  chunk_replace_leaves_chunks enabled old x p q ps t alive rows short one =
      let whole = is_chunking_needed-short enabled x short in
      let after =
        laws.scan-set_first t (table, key) (rt (datum now old 0 p)).0 (rt x).0
          (chunk_rows f laws c rt now table key old 1 (q ∷ ps)) (simp append-nil at rows) in
      rw
        (
          chunk_replace-whole enabled x t whole,
          replace_whole_rows x t (chunk_rows f laws c rt now table key old 1 (q ∷ ps)) alive one
              after,
        )
        (
          refl,
          ap (λ (n : Option KeyValue × ChunkIterator). n.0)
              (chunk_next-row (table, chunk_key key 1) (datum now old 1 q)
                (chunk_rows f laws c rt now table key old 2 ps)
                (is_chunked_data-none (new_table_data (now 1) q) (total_chunks-new (now 1) q))),
        )
