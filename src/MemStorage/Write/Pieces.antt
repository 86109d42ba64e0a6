-- ===== src/MemStorage/Write/Pieces.antt =====
-- What the inner loop of `storage_write` leaves in a block.
use libms.Base.{
  ℕ, zero, suc, ◌+◌, ◌-◌, ◌*◌, ◌≤◌, ◌<◌, ◌≡◌, ◌&&◌, Option, some, ltb, leb, if◌then◌else◌, arith,
  min,
}
use libms.MemStorage.{Buf, Block, piece_unit_size}
use libms.MemStorage.Write.{Progress, filled, write_piece, write_pieces}

module _ (malloc : ℕ → Buf) (buf : Buf) (len : ℕ) where
  -- From the piece `i` on, the pieces take the bytes from `w` on, as far as these go.
  unfoldable pub written : ℕ → ℕ → Block → ℕ → Option Buf
  written i w b j =
      let at : ℕ = w + (j - i) * piece_unit_size in
      if leb i j && ltb at len then some (filled malloc buf len (b j) at) else b j

  pub write_pieces-block :
      (rounds i : ℕ) (p : Progress) (j : ℕ)
      → i < 128
      → 128 ≤ i + rounds
      → j < 128
      → (write_pieces malloc buf len rounds i p).block j ≡ written i p.write p.block j
  unfolding write_pieces write_piece written
  write_pieces-block zero i p j h r hj = absurd (omega arith)
  write_pieces-block (suc rounds) i p j h r hj =
      ground (arith, write_pieces-block rounds (i + 1) (write_piece malloc buf len i p) j)

  -- The loop stops at the end of the bytes or of the block.
  pub write_pieces-write :
      (rounds i : ℕ) (p : Progress)
      → i < 128
      → 128 ≤ i + rounds
      → p.write ≤ len
      → (write_pieces malloc buf len rounds i p).write
        ≡ min len (p.write + (128 - i) * piece_unit_size)
  unfolding write_pieces write_piece
  write_pieces-write zero i p h r w = absurd (omega arith)
  write_pieces-write (suc rounds) i p h r w =
      ground (arith, write_pieces-write rounds (i + 1) (write_piece malloc buf len i p))
