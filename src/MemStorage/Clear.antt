-- ===== src/MemStorage/Clear.antt =====
-- `clear_buffer_for` of src/ms_mem_storage.c and what decides which pieces it may free.
pub mod Sweeps
pub mod Evicts
use libms.Base.{
  ℕ, zero, suc, ◌+◌, ◌-◌, ◌*◌, ◌%◌, ◌^◌, ◌≤◌, Bool, true, false, ◌&&◌, ◌||◌, Option, none, some,
  List, [], ◌∷◌, length, ltb, leb, ◌==◌, if◌then◌else◌, Outcome, ok, fault, ◌>>=◌, ◌>>◌, to_int,
}
use libms.MemStorage.{
  Buf, Block, MemStorage, piece_unit_size, block_unit_size, piece_num_of_per_block, block_num,
  block_index, piece_index, load_block, store_block, update, add64, sub64, leb_int64, max_cache_len,
  max_cache_left, hold_head_size, hold_size,
}

-- `hold_range_from`: the range kept around a reader's position.
abbrev pub hold_from : ℕ → ℕ
hold_from pos = if ltb pos max_cache_left then 0 else pos - max_cache_left

abbrev pub hold_end : ℕ → ℕ
hold_end pos = pos + max_cache_len

-- `should_hold_block`; the product is of `int`s.
unfoldable pub should_hold_block : ℕ → List ℕ → Outcome Bool
should_hold_block index_for_block [] = ok false
should_hold_block index_for_block (pos ∷ hold_pos) = do
  block_start ← to_int (index_for_block * block_unit_size)
  let rest = should_hold_block index_for_block hold_pos
  if leb (hold_from pos) block_start && leb (block_start + block_unit_size) (hold_end pos)
      then ok true
      else rest

-- `should_hold_piece`
unfoldable pub should_hold_piece : ℕ → ℕ → List ℕ → Outcome Bool
should_hold_piece index_for_block index_for_piece [] = ok false
should_hold_piece index_for_block index_for_piece (pos ∷ hold_pos) = do
  piece_start ← to_int (index_for_block * block_unit_size + index_for_piece * piece_unit_size)
  let rest = should_hold_piece index_for_block index_for_piece hold_pos
  if leb (hold_from pos) piece_start && leb (piece_start + piece_unit_size) (hold_end pos)
      then ok true
      else rest

-- `piece_len`: the difference is returned as `size_t`.
unfoldable pub piece_len : ℕ → ℕ → ℕ → Outcome ℕ
piece_len filesize index_for_block index_for_piece = do
  start ← to_int (index_for_block * block_unit_size + index_for_piece * piece_unit_size)
  ok (if ltb filesize (start + piece_unit_size) then sub64 filesize start else piece_unit_size)

-- The variables of the inner loop. `release_len` is an `int`, kept as its 32-bit pattern.
pub record Sweep : Type 0 where
  pub block : Block
  pub buf_count : ℕ
  pub release_count : ℕ
  pub completed : ℕ
  pub release_len : ℕ

-- The entry of a block that was swept: the block is freed too if every buffer in it was.
unfoldable pub block_left : Sweep → Option Block
block_left w =
    if ltb 0 w.release_count && w.release_count == w.buf_count then none else some w.block

unfoldable pub leave_block : MemStorage → ℕ → Sweep → MemStorage
unfolding block_left
leave_block st index_for_block w = record (store_block st index_for_block (block_left w)) {
  completed_size = w.completed;
}

-- `release_len <= 0`
unfoldable pub is_enough : ℕ → Bool
is_enough release_len = release_len == 0 || leb (2 ^ 31) release_len

module _ (filesize : ℕ) (hold_pos : List ℕ) where
  -- The piece is freed.
  unfoldable pub release_piece : ℕ → ℕ → Sweep → Outcome Sweep
  release_piece index_for_block index_for_piece w = do
    n ← piece_len filesize index_for_block index_for_piece
    ok (record {
      block = update w.block index_for_piece none;
      buf_count = w.buf_count + 1;
      release_count = w.release_count + 1;
      completed = sub64 w.completed n;
      release_len = (w.release_len + 2 ^ 64 - n) % 2 ^ 32;
    })

  -- The body of the inner loop.
  unfoldable pub sweep_piece : ℕ → ℕ → Sweep → Outcome Sweep
  sweep_piece index_for_block index_for_piece w = elim (w.block index_for_piece) [
    | none ↦ ok w
    | some b ↦ (do
      held ← should_hold_piece index_for_block index_for_piece hold_pos
      elim held [
        | true ↦ ok (record w { buf_count = w.buf_count + 1 })
        | false ↦ release_piece index_for_block index_for_piece w
      ])
  ]

  -- The inner loop, by the rounds left.
  unfoldable pub sweep_pieces : ℕ → ℕ → ℕ → Sweep → Outcome Sweep
  sweep_pieces zero index_for_block index_for_piece w = ok w
  sweep_pieces (suc rounds) index_for_block index_for_piece w = do
    w' ← sweep_piece index_for_block index_for_piece w
    sweep_pieces rounds index_for_block (index_for_piece + 1) w'

  -- The outer loop, by the rounds left.
  unfoldable pub sweep_blocks : ℕ → ℕ → ℕ → MemStorage → Outcome MemStorage
  unfolding leave_block is_enough
  sweep_blocks zero index_for_block release_len st = ok st
  sweep_blocks (suc rounds) index_for_block release_len st = do
    found ← load_block st index_for_block
    elim found [
      | none ↦ sweep_blocks rounds (index_for_block + 1) release_len st
      | some block ↦ (do
        held ← should_hold_block index_for_block hold_pos
        elim held [
          | true ↦ sweep_blocks rounds (index_for_block + 1) release_len st
          | false ↦ (do
            w ← sweep_pieces piece_num_of_per_block index_for_block 0 (record {
              block = block;
              buf_count = 0;
              release_count = 0;
              completed = st.completed_size;
              release_len = release_len;
            })
            let st' = leave_block st index_for_block w
            elim (is_enough w.release_len) [
              | true ↦ ok st'
              | false ↦ sweep_blocks rounds (index_for_block + 1) w.release_len st'
            ])
        ])
    ]

unfoldable pub clear_buffer_for : MemStorage → ℕ → List ℕ → Outcome MemStorage
unfolding sweep_blocks
clear_buffer_for st len hold_pos =
    elim (leb_int64 (add64 st.completed_size len) (hold_size (length hold_pos))) [
      | true ↦ ok st
      | false ↦
          sweep_blocks st.filesize hold_pos
            (block_num st.estimate_size - block_index hold_head_size) (block_index hold_head_size)
            (len % 2 ^ 32) st
    ]
