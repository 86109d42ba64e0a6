-- ===== src/MemStorage/CachedFrom.antt =====
-- `cached_from` of src/ms_mem_storage.c: the first cached stretch at or after a position.
pub mod Finds
pub mod Loops
pub mod Overflow
pub mod AtEnd
use libms.Base.{
  ℕ, zero, suc, ◌+◌, ◌-◌, ◌*◌, ◌≤◌, Bool, true, false, ◌&&◌, Option, none, some, ltb, leb, ◌==◌,
  if◌then◌else◌, Outcome, ok, fault, ◌>>=◌, ◌>>◌, ms_assert, to_int,
}
use libms.MemStorage.{
  Buf, Block, MemStorage, piece_unit_size, block_unit_size, piece_num_of_per_block, block_num,
  block_index, piece_index, load_block, minus_one,
}

-- `*pos`, `*len` and `find_first`.
pub record Scan : Type 0 where
  pub pos : ℕ
  pub len : ℕ
  pub find_first : Bool

pub data Exit : Type 0 where
  returned went_on : Scan → Exit

-- The end of the stretch is cut off at the estimated size.
unfoldable pub clip : ℕ → Scan → Outcome Scan
clip estimate_size s = do
  ms_assert (leb s.pos estimate_size)
  ok (if ltb estimate_size (s.pos + s.len) then record s { len = estimate_size - s.pos } else s)

module _ (from : ℕ) where
  -- A piece that is cached: it begins the stretch or goes on with it. The products are of `int`s.
  -- The first piece looked at is the one that `from` lies in, so `from - *pos` is less than a piece.
  unfoldable pub mark_piece : ℕ → ℕ → Scan → Outcome Scan
  mark_piece index_for_block index_for_piece s = elim s.find_first [
    | true ↦ ok (record s { len = s.len + piece_unit_size })
    | false ↦ (do
      pos ← to_int (block_unit_size * index_for_block + piece_unit_size * index_for_piece)
      ok (
          if ltb pos from
          then record { pos = from; len = piece_unit_size - (from - pos); find_first = true }
          else record { pos = pos; len = piece_unit_size; find_first = true }))
  ]

  -- Where the inner loop begins.
  abbrev pub first_piece : ℕ → ℕ
  first_piece index_for_block =
      if ltb (block_index from) index_for_block then 0 else piece_index from

module _ (estimate_size from : ℕ) where
  -- The inner loop: `for (; index_for_piece < 128; ++index_for_piece)`, by the rounds left.
  unfoldable pub scan_pieces : ℕ → Block → ℕ → ℕ → Scan → Outcome Exit
  scan_pieces zero block index_for_block index_for_piece s = ok (went_on s)
  scan_pieces (suc rounds) block index_for_block index_for_piece s = elim (block index_for_piece) [
    | none ↦ elim s.find_first [
      | true ↦ (do s' ← clip estimate_size s; ok (returned s'))
      | false ↦ scan_pieces rounds block index_for_block (index_for_piece + 1) s
    ]
    | some b ↦ (do
      s' ← mark_piece from index_for_block index_for_piece s
      scan_pieces rounds block index_for_block (index_for_piece + 1) s')
  ]

  -- The outer loop, `for (; index_for_block < num; ++index_for_block)`, and what follows it.
  unfoldable pub scan_blocks : ℕ → MemStorage → ℕ → Scan → Outcome Scan
  scan_blocks zero st index_for_block s = clip estimate_size s
  scan_blocks (suc rounds) st index_for_block s = do
    found ← load_block st index_for_block
    elim found [
      | none ↦ elim s.find_first [
        | true ↦ (do ms_assert (leb (s.pos + s.len) estimate_size); ok s)
        | false ↦ scan_blocks rounds st (index_for_block + 1) s
      ]
      | some block ↦ (do
        e ←
            scan_pieces (piece_num_of_per_block - first_piece from index_for_block) block
              index_for_block (first_piece from index_for_block) s
        elim e [
          | returned s' ↦ ok s'
          | went_on s' ↦ scan_blocks rounds st (index_for_block + 1) s'
        ])
    ]

-- `(*pos, *len)`; an empty storage answers `(from, -1)`.
unfoldable pub cached_from : MemStorage → ℕ → Outcome (ℕ × ℕ)
unfolding scan_blocks
cached_from st from = elim (st.estimate_size == 0) [
  | true ↦ ok (from, minus_one)
  | false ↦ (do
    s ←
        scan_blocks st.estimate_size from (block_num st.estimate_size - block_index from) st
          (block_index from) (record { pos = 0; len = 0; find_first = false })
    ok (s.pos, s.len))
]
