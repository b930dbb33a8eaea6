-- ===== src/Kv/Chunk/Read.antt =====
-- store/kv/chunk.go: the loop of ChunkIterator.Next over the rows of chunks.
use mathlib.Core.List.{append-nil, append_assoc}
use tigris.Base.{
  ℕ, suc, ◌+◌, ◌<◌, ◌≡◌, refl, ap, Bool, true, false, Option, none, some, List, [], ◌∷◌, ◌++◌,
  arith, ◌==◌, length, Error,
}
use tigris.Base.Int32.{int32, slt}
use tigris.Kv.Data.{Bytes, Timestamp, TableData, new_table_data}
use tigris.Kv.Data.RoundTrip.{RoundTrips}
use tigris.Kv.Fdb.{Fdb, IsLawful, Key, Part, str, int, Row}
use tigris.Kv.KeyValue.{Codec}
use tigris.Kv.Chunk.{
  last_two, chunk_identifier, valid_chunk_key, chunk_key, merged, merge_chunks, iterator_at,
}
use tigris.Kv.Chunk.Loop.{concat}
use tigris.Kv.Chunk.Write.{datum, chunk_row, chunk_rows}

last_two-append : (key : Key) (a b : Part) → last_two (key ++ a ∷ b ∷ []) ≡ some (a, b)
unfolding last_two
last_two-append [] a b = refl
last_two-append (x ∷ []) a b = refl
last_two-append (x ∷ y ∷ []) a b = refl
last_two-append (x ∷ y ∷ z ∷ rest) a b = last_two-append (y ∷ z ∷ rest) a b

-- The key of a chunk passes the check of its number.
pub valid_chunk_key-chunk_key :
    (key : Key) (n : ℕ) → n < 4294967296 → valid_chunk_key (chunk_key key n) n ≡ none
unfolding valid_chunk_key
valid_chunk_key-chunk_key key n h =
    let e : (n == int32 n) ≡ true = ground arith in
    rw (last_two-append key (str chunk_identifier) (int n), valid_chunk_key) (rw e)

abbrev pub any_read : List Bytes → Bool → Bool
any_read [] has_next = has_next
any_read (p ∷ ps) has_next = true

any_read-true : (ps : List Bytes) → any_read ps true ≡ true
any_read-true [] = refl
any_read-true (p ∷ ps) = refl

module _ (f : Fdb) (laws : IsLawful f) (c : Codec) (rt : RoundTrips c.encode c.decode)
    (now : ℕ → Timestamp) (table : Bytes) (key : Key) (x : TableData) where
  abbrev all_rows : ℕ → List Bytes → List Row
  all_rows = chunk_rows f laws c rt now table key x

  merge_chunks-stop :
      (rest : List Row) (fail : Option Error) (total : ℕ) (buf : Bytes) (has_next : Bool)
      → merge_chunks c rest fail none total total buf has_next
        ≡ merged (iterator_at rest fail none) buf total has_next
  unfolding merge_chunks
  merge_chunks-stop [] fail total buf has_next =
      let e : slt total total ≡ false = ground arith in rw e
  merge_chunks-stop (r ∷ rest) fail total buf has_next =
      let e : slt total total ≡ false = ground arith in rw (e, merge_chunks)

  merge_chunks-row :
      (n : ℕ) (p : Bytes) (rest : List Row) (fail : Option Error) (total : ℕ) (buf : Bytes)
      (has_next : Bool)
      → suc n < total
      → total < 2147483648
      → merge_chunks c
          (chunk_row f laws c rt now table key x (suc n) p ∷ rest)
          fail
          none
          total
          (suc n)
          buf
          has_next
        ≡ merge_chunks c rest fail none total (suc (suc n)) (buf ++ p) true
  unfolding merge_chunks new_table_data
  merge_chunks-row n p rest fail total buf has_next h small =
      let e : slt (suc n) total ≡ true = ground arith in
      let s : int32 (suc n + 1) ≡ suc (suc n) = omega arith in
      rw (
        e,
        (rt (datum now x (suc n) p)).2,
        valid_chunk_key-chunk_key key (suc n) (omega arith),
        s,
        merge_chunks,
      )

  pub merge_chunks-rows :
      (n : ℕ) (ps : List Bytes) (rest : List Row) (fail : Option Error) (buf : Bytes)
      (has_next : Bool)
      → suc n + length ps < 2147483648
      → merge_chunks c
          (all_rows (suc n) ps ++ rest)
          fail
          none
          (suc n + length ps)
          (suc n)
          buf
          has_next
        ≡ merged
            (iterator_at rest fail none)
            (buf ++ concat ps)
            (suc n + length ps)
            (any_read ps has_next)
  unfolding chunk_rows concat
  merge_chunks-rows n [] rest fail buf has_next small =
      let e : suc n + 0 ≡ suc n = omega arith in
      rw (e, append-nil) (merge_chunks-stop rest fail (suc n) buf has_next)
  merge_chunks-rows n (p ∷ ps) rest fail buf has_next small =
      let e : suc n + suc (length ps) ≡ suc (suc n) + length ps = omega arith in
      rw
        (
          merge_chunks-row n p (all_rows (suc (suc n)) ps ++ rest) fail (suc n + suc (length ps))
              buf has_next (omega arith) small,
          e,
          merge_chunks-rows (suc n) ps rest fail (buf ++ p) true (omega arith),
          append_assoc buf p (concat ps),
        )
        (ap
          (merged (iterator_at rest fail none) (buf ++ (p ++ concat ps)) (suc (suc n) + length ps))
          (any_read-true ps))
