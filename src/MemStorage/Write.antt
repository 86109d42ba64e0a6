-- ===== src/MemStorage/Write.antt =====
-- `storage_write` of src/ms_mem_storage.c.
pub mod Pieces
pub mod Refines
pub mod Bytes
use libms.Base.{
  ℕ, zero, suc, ◌+◌, ◌-◌, ◌*◌, ◌/◌, ◌%◌, ◌≡◌, refl, Bool, true, false, ◌||◌, Option, none, some,
  ltb, leb, ◌==◌, if◌then◌else◌, Outcome, ok, fault, Fault, ◌>>=◌, ◌>>◌, ms_assert,
}
use libms.MemStorage.{
  Buf, Block, MemStorage, piece_unit_size, piece_num_of_per_block, block_num, block_index,
  piece_index, malloc_block, memcpy, offset_by, update, load_block, store_block,
  ms_malloc_piece_buf, add64,
}

-- The variables of the loops: the block at hand, `write` and `mem_st->completed_size`.
pub record Progress : Type 0 where
  pub block : Block
  pub write : ℕ
  pub completed : ℕ

module _ (malloc : ℕ → Buf) (buf : Buf) (len : ℕ) where
  -- `write_len`
  abbrev pub write_len : ℕ → ℕ
  write_len write = if ltb (len - write) piece_unit_size then len - write else piece_unit_size

  -- The piece's buffer, new if it had none, after the `memcpy` of `write_len` bytes.
  unfoldable pub filled : Option Buf → ℕ → Buf
  filled old write =
      memcpy (elim old [ none ↦ ms_malloc_piece_buf malloc | some b ↦ b ]) (offset_by buf write)
        (write_len write)

  -- The body of the inner loop up to its `break`, at the piece `index_for_piece`.
  unfoldable pub write_piece : ℕ → Progress → Progress
  write_piece index_for_piece p =
      let n = write_len p.write in
      let old : Option Buf = p.block index_for_piece in
      record {
        block = update p.block index_for_piece (some (filled old p.write));
        write = p.write + n;
        completed = elim old [ none ↦ add64 p.completed n | some b ↦ p.completed ];
      }

  -- The inner loop. It breaks at the end of the block, so 128 rounds are enough.
  unfoldable pub write_pieces : ℕ → ℕ → Progress → Progress
  write_pieces zero index_for_piece p = p
  write_pieces (suc rounds) index_for_piece p =
      let next = write_piece index_for_piece p in
      let rest = write_pieces rounds (index_for_piece + 1) next in
      if ltb p.write len
      then (if leb piece_num_of_per_block (index_for_piece + 1) then next else rest)
      else p

  -- The block at hand, made if the entry is null, when the inner loop begins and when it ends.
  abbrev pub enter : MemStorage → ℕ → Option Block → Progress
  enter st write found = record {
    block = elim found [ none ↦ malloc_block | some b ↦ b ];
    write = write;
    completed = st.completed_size;
  }

  unfoldable pub fill_block : ℕ → ℕ → MemStorage → ℕ → Option Block → MemStorage × ℕ
  fill_block pos index_for_block st write found =
      let p =
        write_pieces piece_num_of_per_block (piece_index (pos + write)) (enter st write found) in
      (
        record (store_block st index_for_block (some p.block)) { completed_size = p.completed },
        p.write,
      )

  -- One round of the outer loop: the block is loaded and filled.
  unfoldable pub write_block : ℕ → ℕ → MemStorage → ℕ → Outcome (MemStorage × ℕ)
  unfolding fill_block
  write_block pos index_for_block st write = do
    found ← load_block st index_for_block
    ok (fill_block pos index_for_block st write found)

  -- The outer loop.
  unfoldable pub write_blocks : ℕ → ℕ → ℕ → MemStorage → ℕ → Outcome (MemStorage × ℕ)
  write_blocks zero pos index_for_block st write = fault Fault.out_of_fuel
  write_blocks (suc fuel) pos index_for_block st write = elim (ltb write len) [
    | false ↦ ok (st, write)
    | true ↦ (do
      (st', write') ← write_block pos index_for_block st write
      elim (leb (block_num st'.estimate_size) (index_for_block + 1)) [
        | true ↦ ok (st', write')
        | false ↦ write_blocks fuel pos (index_for_block + 1) st' write'
      ])
  ]

  unfoldable pub storage_write : MemStorage → ℕ → Outcome (MemStorage × ℕ)
  unfolding write_blocks
  storage_write st pos = do
    ms_assert (pos % piece_unit_size == 0)
    ms_assert (pos + len == st.estimate_size || len % piece_unit_size == 0)
    write_blocks (len + 1) pos (block_index pos) st 0
