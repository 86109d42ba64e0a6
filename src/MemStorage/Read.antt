-- ===== src/MemStorage/Read.antt =====
-- `storage_read` of src/ms_mem_storage.c.
pub mod Prefix
use libms.Base.{
  ℕ, zero, suc, ◌+◌, ◌-◌, ◌*◌, ◌/◌, ◌%◌, Bool, true, false, ◌&&◌, ◌||◌, Option, none, some, ltb,
  leb, ◌==◌, if◌then◌else◌, Outcome, ok, fault, Fault, ◌>>=◌, ◌>>◌, ms_assert,
}
use libms.MemStorage.{
  Buf, Block, MemStorage, piece_unit_size, piece_num_of_per_block, block_num, block_index,
  piece_index, load_block,
}

-- The caller's buffer and the bytes read into it so far.
pub record Transfer : Type 0 where
  pub out : Buf
  pub read : ℕ

-- How a loop ends: the function returns from inside it, or goes on behind it.
pub data Exit : Type 0 where
  returned went_on : Transfer → Exit

-- `memcpy(buf + at, src, n)`
abbrev pub copy_to : Buf → ℕ → Buf → ℕ → Buf
copy_to dst at src n o = if leb at o && ltb o (at + n) then src (o - at) else dst o

module _ (pos len : ℕ) where
  -- `offset` and `read_len`
  abbrev pub offset : ℕ → ℕ
  offset read = (pos + read) % piece_unit_size

  abbrev pub read_len : ℕ → ℕ
  read_len read =
      if ltb (len - read) (piece_unit_size - offset read)
      then len - read
      else piece_unit_size - offset read

  -- The `memcpy` from a piece.
  unfoldable pub read_piece : Buf → Transfer → Transfer
  read_piece b t = record {
    out = copy_to t.out t.read (λ o. b (offset t.read + o)) (read_len t.read);
    read = t.read + read_len t.read;
  }

  -- The inner loop. It breaks at the end of the block, so 128 rounds are enough.
  unfoldable pub read_pieces : ℕ → Block → ℕ → Transfer → Exit
  read_pieces zero block index_for_piece t = went_on t
  read_pieces (suc rounds) block index_for_piece t = elim (ltb t.read len) [
    | false ↦ went_on t
    | true ↦ elim (block index_for_piece) [
      | none ↦ returned t
      | some b ↦ elim (leb piece_num_of_per_block (index_for_piece + 1)) [
        | true ↦ went_on (read_piece b t)
        | false ↦ read_pieces rounds block (index_for_piece + 1) (read_piece b t)
      ]
    ]
  ]

  -- The outer loop.
  unfoldable pub read_blocks : ℕ → MemStorage → ℕ → Transfer → Outcome Transfer
  read_blocks zero st index_for_block t = fault Fault.out_of_fuel
  read_blocks (suc fuel) st index_for_block t = elim (ltb t.read len) [
    | false ↦ ok t
    | true ↦ (do
      found ← load_block st index_for_block
      elim found [
        | none ↦ ok t
        | some block ↦
            elim (read_pieces piece_num_of_per_block block (piece_index (pos + t.read)) t) [
              | returned t' ↦ ok t'
              | went_on t' ↦ elim (leb (block_num st.estimate_size) (index_for_block + 1)) [
                | true ↦ ok t'
                | false ↦ read_blocks fuel st (index_for_block + 1) t'
              ]
            ]
      ])
  ]

  unfoldable pub storage_read : MemStorage → Buf → Outcome Transfer
  unfolding read_blocks
  storage_read st buf = do
    ms_assert (st.estimate_size == 0 || leb (pos + len) st.estimate_size)
    if st.estimate_size == 0 && st.filesize == 0
        then ok (record { out = buf; read = 0 })
        else read_blocks (len + 1) st (block_index pos) (record { out = buf; read = 0 })
