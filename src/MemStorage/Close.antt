-- ===== src/MemStorage/Close.antt =====
-- `storage_close` of src/ms_mem_storage.c: what it frees, in its order.
pub mod Once
use libms.Base.{ℕ, zero, suc, ◌+◌, ◌*◌, Option, none, some, List, [], ◌∷◌, ◌++◌, Outcome, ok, ◌>>=◌}
use libms.MemStorage.{Buf, Block, MemStorage, piece_num_of_per_block, block_num, load_block}

-- The buffer of a piece by its number in the file, a block, the array of the blocks or the storage.
pub data Freed : Type 0 where
  piece_buf block_at : ℕ → Freed
  block_table whole_storage : Freed

-- `if (piece->buf)`
abbrev pub free_buf : Option Buf → ℕ → List Freed → List Freed
free_buf none k rest = rest
free_buf (some _) k rest = Freed.piece_buf k ∷ rest

-- The pieces of a block from one on.
unfoldable pub close_pieces : Block → ℕ → ℕ → ℕ → List Freed
close_pieces block index_for_block index_for_piece zero = []
close_pieces block index_for_block index_for_piece (suc left) =
    free_buf (block index_for_piece) (index_for_block * piece_num_of_per_block + index_for_piece)
      (close_pieces block index_for_block (index_for_piece + 1) left)

unfoldable pub close_blocks : MemStorage → ℕ → ℕ → Outcome (List Freed)
close_blocks st index_for_block zero = ok []
close_blocks st index_for_block (suc left) = do
  found ← load_block st index_for_block
  rest ← close_blocks st (index_for_block + 1) left
  ok (elim found [
    | none ↦ rest
    | some b ↦
        close_pieces b index_for_block 0 piece_num_of_per_block
        ++ (Freed.block_at index_for_block ∷ rest)
  ])

unfoldable pub storage_close : MemStorage → Outcome (List Freed)
storage_close st = do
  freed ← close_blocks st 0 (block_num st.estimate_size)
  ok (freed ++ (Freed.block_table ∷ Freed.whole_storage ∷ []))
