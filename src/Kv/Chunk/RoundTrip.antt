-- ===== src/Kv/Chunk/RoundTrip.antt =====
-- store/kv/chunk.go: Replace and Next, for a payload that is cut over several rows.
use mathlib.Core.List.{append-nil}
use tigris.Base.{
  ℕ, suc, ◌+◌, ◌-◌, ◌/◌, ◌<◌, ◌≡◌, refl, ap, ◌∙◌, true, false, Option, none, some, List, [], ◌∷◌,
  ◌++◌, arith, ◌==◌, length, Error,
}
use tigris.Kv.Data.{
  Bytes, Timestamp, TableData, set_total_chunks, clone_with_attributes_only, is_chunked_data,
}
use tigris.Kv.Data.RoundTrip.{RoundTrips}
use tigris.Kv.Fdb.{Fdb, IsLawful, Key, Row}
use tigris.Kv.KeyValue.{Codec, KeyValue, ftx_read}
use tigris.Kv.Chunk.{
  chunk_size, replace_chunk, chunk_replace, chunk_next, chunk_read, iterator_at, total_chunks_of,
  finish, merged,
}
use tigris.Kv.Chunk.Loop.{pieces, concat, for_chunks, concat-pieces, length-pieces}
use tigris.Kv.Chunk.Cut.{set_total_chunks-pieces, is_chunking_needed-long, execute_chunks-pieces}
use tigris.Kv.Chunk.Write.{datum, chunk_row, chunk_rows, for_chunks-replace}
use tigris.Kv.Chunk.Read.{merge_chunks-rows}

is_chunked_data-many :
    (x : TableData) (n : ℕ)
    → x.total_chunks ≡ some (suc (suc n))
    → suc (suc n) < 2147483648
    → is_chunked_data x ≡ true
unfolding is_chunked_data
is_chunked_data-many x n total small = ground arith

is_chunked_data-clone :
    (x : TableData) (p : Bytes)
    → is_chunked_data (clone_with_attributes_only x p) ≡ is_chunked_data x
unfolding is_chunked_data clone_with_attributes_only
is_chunked_data-clone x p = refl

total_chunks_of-eq :
    (c : Codec) (x : TableData) (n : ℕ) → x.total_chunks ≡ some n → total_chunks_of c x ≡ n
total_chunks_of-eq c x n total = ground arith

finish-merged :
    (c : Codec) (v : KeyValue) (rest : List Row) (fail : Option Error) (buf : Bytes) (n : ℕ)
    → total_chunks_of c v.value ≡ n
    → finish c v none (merged (iterator_at rest fail none) buf n true) ≡ (
      some (record v { value = record v.value { raw_data = buf } }),
      record { base = iterator_at rest fail none; err = none },
    )
finish-merged c v rest fail buf n e = let same : (n == n) ≡ true = ground arith in rw (e, same)

module _ (f : Fdb) (laws : IsLawful f) (c : Codec) (rt : RoundTrips c.encode c.decode)
    (now : ℕ → Timestamp) (table : Bytes) (key : Key) (x : TableData) where
  abbrev merged_value : List Bytes → KeyValue
  merged_value ps = record {
    key = key ++ [];
    fdb_key = (table, key ++ []);
    value = record x { raw_data = concat ps };
  }

  chunk_rows-cons :
      (i : ℕ) (p : Bytes) (ps : List Bytes)
      → chunk_rows f laws c rt now table key x i (p ∷ ps)
        ≡ chunk_row f laws c rt now table key x i p
          ∷ chunk_rows f laws c rt now table key x (suc i) ps
  unfolding chunk_rows
  chunk_rows-cons i p ps = refl

  chunk_next-rows :
      (p q : Bytes) (ps : List Bytes) (rest : List Row) (fail : Option Error)
      → x.total_chunks ≡ some (length (p ∷ q ∷ ps))
      → length (p ∷ q ∷ ps) < 2147483648
      → chunk_next c (record {
        base =
            iterator_at (chunk_rows f laws c rt now table key x 0 (p ∷ q ∷ ps) ++ rest) fail none;
        err = none;
      })
        ≡ (
          some (merged_value (p ∷ q ∷ ps)),
          record { base = iterator_at rest fail none; err = none },
        )
  unfolding chunk_next clone_with_attributes_only concat
  chunk_next-rows p q ps rest fail total small =
      let chunked : is_chunked_data x ≡ true = is_chunked_data-many x (length ps) total small in
      let e : total_chunks_of c x ≡ 1 + length (q ∷ ps) =
        total_chunks_of-eq c x (1 + length (q ∷ ps)) (total ∙ ap some (omega arith)) in
      rw
        (
          chunk_rows-cons 0 p (q ∷ ps),
          (rt (datum now x 0 p)).2,
          is_chunked_data-clone x p,
          chunked,
          e,
          merge_chunks-rows f laws c rt now table key x 0 (q ∷ ps) rest fail p false (omega arith),
        )
        (finish-merged c
          (record {
            key = key ++ [];
            fdb_key = (table, key ++ []);
            value = clone_with_attributes_only x p;
          })
          rest fail (p ++ concat (q ∷ ps)) (1 + length (q ∷ ps)) e)

two_of :
    (ps : List Bytes)
    → 1 < length ps
    → (p : Bytes) × (q : Bytes) × (qs : List Bytes) × (ps ≡ p ∷ q ∷ qs)
two_of [] h = elim h [ ]
two_of (p ∷ []) h = absurd (omega arith)
two_of (p ∷ q ∷ qs) h = (p, q, qs, refl)

pub chunk_read-alive :
    (f : Fdb) (c : Codec) (table : Bytes) (key : Key) (t : f.Tx)
    → f.failure t ≡ none
    → chunk_read f c table key false t
      ≡ record { base = iterator_at (f.scan t (table, key)) none none; err = none }
unfolding chunk_read
chunk_read-alive f c table key t alive = rw (alive, ftx_read)

module _ (f : Fdb) (laws : IsLawful f) (c : Codec) (rt : RoundTrips c.encode c.decode)
    (now : ℕ → Timestamp) (table : Bytes) (key : Key) (x : TableData) where
  abbrev pub numbered : TableData
  numbered = set_total_chunks chunk_size x

  abbrev pub cut : List Bytes
  cut = pieces chunk_size (suc (length x.raw_data)) x.raw_data

  length-cut : length cut ≡ (length x.raw_data + chunk_size - 1) / chunk_size
  length-cut =
      length-pieces chunk_size (suc (length x.raw_data)) x.raw_data (omega arith) (omega arith)

  raw_data-numbered : numbered.raw_data ≡ x.raw_data
  unfolding set_total_chunks
  raw_data-numbered = refl

  replaced : f.Tx → Option Error × f.Tx
  replaced t =
      for_chunks (replace_chunk f c now table key numbered) 0 cut (f.clear_prefix t (table, key))

  replaced-rows :
      (t : f.Tx)
      → f.failure t ≡ none
      → ((replaced t).0 ≡ none)
        × (f.scan (replaced t).1 (table, key) ≡ chunk_rows f laws c rt now table key numbered 0 cut)
        × (f.failure (replaced t).1 ≡ none)
  unfolding replaced
  replaced-rows t alive =
      let empty = laws.scan-clear t (table, key) in
      let (e, rows, same) =
        for_chunks-replace f laws c rt now table key numbered 0 cut (f.clear_prefix t (table, key))
          (λ j le. rw empty tt) in
      (e, rows ∙ rw empty, same ∙ laws.failure-clear t (table, key) ∙ alive)

  chunk_replace-replaced :
      (t : f.Tx)
      → chunk_size < length x.raw_data
      → length x.raw_data < 2147384648
      → chunk_replace f c now true table key x t ≡ replaced t
  unfolding chunk_replace replaced set_total_chunks
  chunk_replace-replaced t long small = rw (is_chunking_needed-long x long small) (
      execute_chunks-pieces numbered (replace_chunk f c now table key numbered)
        (f.clear_prefix t (table, key)) small)

  pub numbered_whole : record numbered { raw_data = concat cut } ≡ numbered
  unfolding set_total_chunks
  numbered_whole =
      ap (λ raw. record numbered { raw_data = raw })
        (concat-pieces chunk_size (suc (length x.raw_data)) x.raw_data (omega arith) (omega arith))

  pub next-cut :
      chunk_size < length x.raw_data
      → length x.raw_data < 2147384648
      → chunk_next c (record {
        base = iterator_at (chunk_rows f laws c rt now table key numbered 0 cut) none none;
        err = none;
      })
        ≡ (
          some (record {
            key = key;
            fdb_key = (table, key);
            value = record numbered { raw_data = concat cut };
          }),
          record { base = iterator_at [] none none; err = none },
        )
  next-cut long small =
      let n = length-cut in
      let (p, q, qs, e) = two_of cut (omega arith) in
      let l = ap (λ (ps : List Bytes). length ps) e in
      let whole =
        chunk_next-rows f laws c rt now table key numbered p q qs [] none
          (set_total_chunks-pieces x small ∙ ap (λ ps. some (length ps)) e) (omega arith) in
      rw e (simp append-nil at whole)

  -- A payload above the chunk size that replaces whatever the key held, chunked or not, is read
  -- back as one row: the attributes, the number of chunks and the whole payload, and no row more.
  -- The codec gives back what it encodes, the transaction has not failed, and the payload is
  -- shorter than 2 ^ 31 - 99000 bytes.
  pub chunk_next-chunk_replace :
      (t : f.Tx)
      → f.failure t ≡ none
      → chunk_size < length x.raw_data
      → length x.raw_data < 2147384648
      → let r = chunk_replace f c now true table key x t in
        (r.0 ≡ none)
        × (chunk_next c (chunk_read f c table key false r.1) ≡ (
          some
              (record { key = key; fdb_key = (table, key); value = set_total_chunks chunk_size x }),
          record { base = iterator_at [] none none; err = none },
        ))
  chunk_next-chunk_replace t alive long small =
      let (e, rows, same) = replaced-rows t alive in
      rw
        (
          chunk_replace-replaced t long small,
          chunk_read-alive f c table key (replaced t).1 same,
          rows,
        )
        (e, next-cut long small ∙ rw numbered_whole)
