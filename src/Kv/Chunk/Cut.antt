-- ===== src/Kv/Chunk/Cut.antt =====
-- store/kv/chunk.go: executeChunks at the chunk size.
use tigris.Base.{
  ℕ, suc, ◌+◌, ◌-◌, ◌/◌, ◌<◌, ◌≡◌, ap, ◌∙◌, sym, true, Option, some, List, arith, length, All,
  Error,
}
use tigris.Base.Int32.{int32, sdiv}
use tigris.Kv.Data.{Bytes, TableData, set_total_chunks}
use tigris.Kv.Chunk.{chunk_size, is_chunking_needed, execute_chunks}
use tigris.Kv.Chunk.Loop.{
  pieces, concat, for_chunks, execute_from-pieces, concat-pieces, length-pieces, FitsIn,
  pieces-FitsIn,
}

pub set_total_chunks-pieces :
    (x : TableData)
    → length x.raw_data < 2147384648
    → (set_total_chunks chunk_size x).total_chunks
      ≡ some (length (pieces chunk_size (suc (length x.raw_data)) x.raw_data))
unfolding set_total_chunks
set_total_chunks-pieces x small = ap some (
    let e : sdiv (int32 (int32 (length x.raw_data) + chunk_size + 4294967295)) chunk_size
        ≡ (length x.raw_data + chunk_size - 1) / chunk_size =
      ground arith in
    e
    ∙ sym
        (length-pieces chunk_size (suc (length x.raw_data)) x.raw_data (omega arith) (omega arith)))

pub is_chunking_needed-long :
    (x : TableData)
    → chunk_size < length x.raw_data
    → length x.raw_data < 2147384648
    → is_chunking_needed true x ≡ true
unfolding is_chunking_needed
is_chunking_needed-long x long small = ground arith

pub execute_chunks-pieces {ℓ} :
    {S : Type ℓ} (x : TableData) (cb : ℕ → Bytes → S → Option Error × S) (s : S)
    → length x.raw_data < 2147384648
    → execute_chunks chunk_size x cb s
      ≡ for_chunks cb 0 (pieces chunk_size (suc (length x.raw_data)) x.raw_data) s
unfolding execute_chunks
execute_chunks-pieces x cb s small =
    execute_from-pieces chunk_size x.raw_data cb (suc (length x.raw_data)) 0 0 s (omega arith)
      (omega arith) (omega arith)

-- The loop hands its function pieces that make up the payload, none of them empty or above the chunk
-- size, numbered from 0 and as many as the attributes count, and stops where the function fails. The
-- payload is shorter than 2 ^ 31 - 99000 bytes.
pub execute_chunks_cuts {ℓ} :
    {S : Type ℓ} (x : TableData) (cb : ℕ → Bytes → S → Option Error × S) (s : S)
    → length x.raw_data < 2147384648
    → (ps : List Bytes) × (execute_chunks chunk_size x cb s ≡ for_chunks cb 0 ps s)
      × (concat ps ≡ x.raw_data)
      × All (FitsIn chunk_size) ps
      × ((set_total_chunks chunk_size x).total_chunks ≡ some (length ps))
execute_chunks_cuts x cb s small = (
  pieces chunk_size (suc (length x.raw_data)) x.raw_data,
  execute_chunks-pieces x cb s small,
  concat-pieces chunk_size (suc (length x.raw_data)) x.raw_data (omega arith) (omega arith),
  pieces-FitsIn chunk_size (suc (length x.raw_data)) x.raw_data (omega arith),
  set_total_chunks-pieces x small,
)
