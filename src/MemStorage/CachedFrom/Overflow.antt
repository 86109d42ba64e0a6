-- ===== src/MemStorage/CachedFrom/Overflow.antt =====
-- `cached_from` beyond 2 GiB.
use libms.Base.{
  ℕ, zero, suc, ◌+◌, ◌-◌, ◌*◌, ◌/◌, ◌%◌, ◌^◌, ◌≤◌, ◌<◌, ◌≡◌, false, some, fault, Fault, inl, inr,
  arith, Option-cases,
}
use libms.MemStorage.{Buf, Block, MemStorage, piece_unit_size, block_num, block_index, piece_index}
use libms.MemStorage.View.{piece_at, IsValid}
use libms.MemStorage.CachedFrom.{mark_piece, scan_pieces, scan_blocks, cached_from}

scan_pieces-overflow :
    (est from rounds i j : ℕ) (b : Block) (p : Buf)
    → 0 < rounds
    → 2 ^ 31 ≤ i * 2097152 + j * 16384
    → b j ≡ some p
    → scan_pieces est from rounds b i j (record { pos = 0; len = 0; find_first = false })
      ≡ fault Fault.int_overflow
unfolding scan_pieces mark_piece
scan_pieces-overflow est from zero i j b p r h e = absurd (omega arith)
scan_pieces-overflow est from (suc rounds) i j b p r h e = ground (arith, e)

scan_blocks-overflow :
    (st : MemStorage) (from rounds : ℕ) (b : Block) (p : Buf)
    → 0 < rounds
    → block_index from < st.allocated
    → 2 ^ 31 ≤ from
    → st.blocks (block_index from) ≡ some b
    → b (piece_index from) ≡ some p
    → scan_blocks st.estimate_size from rounds st
        (block_index from)
        (record { pos = 0; len = 0; find_first = false })
      ≡ fault Fault.int_overflow
unfolding scan_blocks
scan_blocks-overflow st from zero b p r l h e f = absurd (omega arith)
scan_blocks-overflow st from (suc rounds) b p r l h e f = ground (
  arith,
  e,
  scan_pieces-overflow st.estimate_size from (128 - piece_index from) (block_index from)
      (piece_index from) b p,
)

-- The block and the index in it of a cached piece.
piece_at-some :
    (st : MemStorage) (pos : ℕ) (p : Buf)
    → piece_at st (pos / piece_unit_size) ≡ some p
    → (b : Block) × (st.blocks (block_index pos) ≡ some b) × (b (piece_index pos) ≡ some p)
unfolding piece_at
piece_at-some st pos p e =
    let i : pos / piece_unit_size / 128 ≡ block_index pos = omega arith in
    let j : pos / piece_unit_size % 128 ≡ piece_index pos = omega arith in
    elim (Option-cases (st.blocks (block_index pos))) [
      | inl gap ↦ absurd (cc (rw (i, gap) at e))
      | inr (b, found) ↦ (b, found, rw (i, j, found) at e)
    ]

-- If the piece with the position `from` is cached and begins at 2 GiB or later, `cached_from`
-- overflows an `int`, whatever else is cached.
pub cached_from-overflow :
    (st : MemStorage) (from : ℕ) (p : Buf)
    → IsValid st
    → from < st.estimate_size
    → 2 ^ 31 ≤ from
    → piece_at st (from / piece_unit_size) ≡ some p
    → cached_from st from ≡ fault Fault.int_overflow
unfolding cached_from
cached_from-overflow st from p v lt big e =
    let (b, f, g) = piece_at-some st from p e in
    ground (
      arith,
      scan_blocks-overflow st from (block_num st.estimate_size - block_index from) b p (omega arith)
          (omega (arith, v.entries)) big f g,
    )
