-- ===== src/Kv/Chunk/Write.antt =====
-- store/kv/chunk.go: the rows that Replace writes.
use mathlib.Core.List.{append-nil, append_assoc}
use tigris.Base.{
  ℕ, zero, suc, ◌≤◌, ◌<◌, ◌≡◌, refl, ap, ◌∙◌, sym, false, none, List, [], ◌∷◌, ◌++◌, arith, ◌==◌,
  All,
}
use tigris.Kv.Data.{Bytes, Timestamp, TableData, new_table_data, clone_with_attributes_only}
use tigris.Kv.Data.RoundTrip.{RoundTrips}
use tigris.Kv.Fdb.{Fdb, IsLawful, Key, str, int, Row}
use tigris.Kv.KeyValue.{Codec, kv_replace}
use tigris.Kv.Chunk.{continue, chunk_identifier, chunk_key, replace_chunk}
use tigris.Kv.Chunk.Loop.{for_chunks}

abbrev pub suffix : ℕ → Key
suffix zero = []
suffix (suc n) = str chunk_identifier ∷ int (suc n) ∷ []

module _ (now : ℕ → Timestamp) (x : TableData) where
  abbrev pub datum : ℕ → Bytes → TableData
  datum zero piece = clone_with_attributes_only x piece
  datum (suc n) piece = new_table_data (now (suc n)) piece

All-append {ℓ κ} :
    {A : Type ℓ} (P : A → Type κ) (xs : List A) (y : A) → All P xs → P y → All P (xs ++ y ∷ [])
All-append P [] y h p = (p, tt)
All-append P (x ∷ xs) y h p = (h.0, All-append P xs y h.1 p)

module _ (f : Fdb) (laws : IsLawful f) (c : Codec) (rt : RoundTrips c.encode c.decode)
    (now : ℕ → Timestamp) (table : Bytes) (key : Key) (x : TableData) where
  abbrev pub chunk_row : ℕ → Bytes → Row
  chunk_row i piece = ((table, key ++ suffix i), (rt (datum now x i piece)).0)

  unfoldable pub chunk_rows : ℕ → List Bytes → List Row
  chunk_rows i [] = []
  chunk_rows i (p ∷ ps) = chunk_row i p ∷ chunk_rows (suc i) ps

  written : ℕ → Bytes → f.Tx → f.Tx
  written i piece t = f.set t (table, key ++ suffix i) (rt (datum now x i piece)).0

  kv_replace-ok :
      (k : Key) (d : TableData) (t : f.Tx)
      → kv_replace f c table k d t ≡ (none, f.set t (table, k) (rt d).0)
  kv_replace-ok k d t = rw ((rt d).1, kv_replace)

  replace_chunk-eq :
      (i : ℕ) (piece : Bytes) (t : f.Tx)
      → replace_chunk f c now table key x i piece t ≡ (none, written i piece t)
  unfolding replace_chunk written
  replace_chunk-eq zero piece t =
      kv_replace-ok key (datum now x 0 piece) t
      ∙ ap (λ k. (none, f.set t (table, k) (rt (datum now x 0 piece)).0)) (sym (append-nil key))
  replace_chunk-eq (suc n) piece t =
      let e : suc n == 0 ≡ false = ground arith in
      rw e (kv_replace-ok (chunk_key key (suc n)) (datum now x (suc n) piece) t)

  failure-written : (i : ℕ) (piece : Bytes) (t : f.Tx) → f.failure (written i piece t) ≡ f.failure t
  unfolding written
  failure-written i piece t = laws.failure-set t _ _

  before-suffix : (i j : ℕ) → i < j → f.Before (table, key ++ suffix i) (table, key ++ suffix j)
  before-suffix i zero h = elim h [ ]
  before-suffix zero (suc j) h =
      rw append-nil (laws.before-append table key (str chunk_identifier) (int (suc j) ∷ []))
  before-suffix (suc i) (suc j) h =
      laws.before-int table key (str chunk_identifier) (suc i) (suc j) h

  abbrev Follows : ℕ → f.Tx → Type 0
  Follows i t =
      (j : ℕ) → i ≤ j → All (λ r. f.Before r.0 (table, key ++ suffix j)) (f.scan t (table, key))

  scan-written :
      (i : ℕ) (piece : Bytes) (t : f.Tx)
      → Follows i t
      → f.scan (written i piece t) (table, key) ≡ f.scan t (table, key) ++ chunk_row i piece ∷ []
  unfolding written
  scan-written i piece t h = laws.scan-set_last t table key (suffix i) _ (h i (omega arith))

  Follows-written :
      (i : ℕ) (piece : Bytes) (t : f.Tx) → Follows i t → Follows (suc i) (written i piece t)
  Follows-written i piece t h j le =
      rw (scan-written i piece t h) (All-append _ _ _ (h j (omega arith)) (before-suffix i j le))

  pub for_chunks-replace :
      (i : ℕ) (ps : List Bytes) (t : f.Tx)
      → Follows i t
      → let r = for_chunks (replace_chunk f c now table key x) i ps t in
        (r.0 ≡ none)
        × (f.scan r.1 (table, key) ≡ f.scan t (table, key) ++ chunk_rows i ps)
        × (f.failure r.1 ≡ f.failure t)
  unfolding for_chunks chunk_rows continue
  for_chunks-replace i [] t h = (refl, sym (append-nil _), refl)
  for_chunks-replace i (p ∷ ps) t h = rw (replace_chunk-eq i p t) (
      let (e, rows, alive) =
        for_chunks-replace (suc i) ps (written i p t) (Follows-written i p t h) in
      (
        e,
        rows
            ∙ rw (scan-written i p t h)
                (append_assoc (f.scan t (table, key)) (chunk_row i p ∷ []) (chunk_rows (suc i) ps)),
        alive ∙ failure-written i p t,
      ))
