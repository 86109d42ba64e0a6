-- ===== src/MemStorage/Write/Refines.antt =====
-- `storage_write` against a write of the whole range at once.
use libms.Base.{
  ℕ, zero, suc, ◌+◌, ◌-◌, ◌*◌, ◌/◌, ◌%◌, ◌≤◌, ◌<◌, ◌≡◌, refl, ◌&&◌, Option, some, ltb, leb, ◌==◌,
  if◌then◌else◌, dec_lt, ◌∙◌, ap, arith, min, ◌⊎◌, ok,
}
use libms.MemStorage.{
  Buf, MemStorage, piece_unit_size, block_unit_size, block_num, block_index, piece_index,
}
use libms.MemStorage.View.{piece_at, IsValid}
use libms.MemStorage.Write.{enter, fill_block, filled, write_block, write_blocks, storage_write}
use libms.MemStorage.Write.Pieces.{written, write_pieces-block, write_pieces-write}

module _ (malloc : ℕ → Buf) (buf : Buf) (len pos : ℕ) where
  -- The view after the bytes from `w` on have been written.
  unfoldable pub put : ℕ → MemStorage → ℕ → Option Buf
  put w st k =
      if leb ((pos + w) / piece_unit_size) k && ltb (k * piece_unit_size) (pos + len)
      then some (filled malloc buf len (piece_at st k) (k * piece_unit_size - pos))
      else piece_at st k

  -- What one round of the outer loop does.
  record BlockWritten (st st' : MemStorage) (w w' : ℕ) : Type 0 where
    estimate : st'.estimate_size ≡ st.estimate_size
    file : st'.filesize ≡ st.filesize
    array : st'.allocated ≡ st.allocated
    count : w' ≡ min len (w + (128 - piece_index (pos + w)) * piece_unit_size)
    pieces :
        (k : ℕ)
        → piece_at st' k ≡ (if k / 128 == block_index (pos + w) then put w st k else piece_at st k)

  fill_block-piece_at :
      (st : MemStorage) (w i k : ℕ)
      → w < len
      → i ≡ block_index (pos + w)
      → (pos + w) % piece_unit_size ≡ 0
      → piece_at (fill_block malloc buf len pos i st w (st.blocks i)).0 k
        ≡ (if k / 128 == i then put w st k else piece_at st k)
  unfolding fill_block piece_at written put
  fill_block-piece_at st w i k wl e a = ground (
    arith,
    write_pieces-block malloc buf len 128 (piece_index (pos + w))
        (enter malloc buf len st w (st.blocks i)) (k % 128),
  )

  fill_block-BlockWritten :
      (st : MemStorage) (w i : ℕ)
      → w < len
      → i ≡ block_index (pos + w)
      → (pos + w) % piece_unit_size ≡ 0
      → let (st', w') = fill_block malloc buf len pos i st w (st.blocks i) in
        BlockWritten st st' w w'
  fill_block-BlockWritten st w i wl e a = record {
    estimate = unfold fill_block in refl;
    file = unfold fill_block in refl;
    array = unfold fill_block in refl;
    count =
        unfold fill_block in
        write_pieces-write malloc buf len 128 (piece_index (pos + w))
          (enter malloc buf len st w (st.blocks i)) (omega arith) (omega arith) (omega arith);
    pieces = λ k. rw (← e) (fill_block-piece_at st w i k wl e a);
  }

  -- What the call leaves, begun with `w` bytes written.
  pub record Written (st st' : MemStorage) (w : ℕ) : Type 0 where
    pub estimate : st'.estimate_size ≡ st.estimate_size
    pub file : st'.filesize ≡ st.filesize
    pub array : st'.allocated ≡ st.allocated
    pub pieces : (k : ℕ) → piece_at st' k ≡ put w st k

  -- The outer loop, round by round.
  write_blocks-done :
      (fuel i w : ℕ) (st : MemStorage)
      → 0 < fuel
      → w ≡ len
      → write_blocks malloc buf len fuel pos i st w ≡ ok (st, len)
  unfolding write_blocks
  write_blocks-done zero i w st h e = absurd (omega arith)
  write_blocks-done (suc fuel) i w st h e = ground arith

  module _ (st : MemStorage) (w i fuel : ℕ) (wl : w < len) (il : i < st.allocated) where
    write_blocks-last :
        block_num st.estimate_size ≤ i + 1
        → write_blocks malloc buf len (suc fuel) pos i st w
          ≡ ok (fill_block malloc buf len pos i st w (st.blocks i))
    unfolding write_blocks write_block
    write_blocks-last h = ground arith

    write_blocks-next :
        i + 1 < block_num st.estimate_size
        → write_blocks malloc buf len (suc fuel) pos i st w ≡ (
            let (st', w') = fill_block malloc buf len pos i st w (st.blocks i) in
            write_blocks malloc buf len fuel pos (i + 1) st' w')
    unfolding write_blocks write_block
    write_blocks-next h = ground arith

  -- Where the bytes end in this block, its round has written all of them.
  BlockWritten-all :
      {st st' : MemStorage} {w w' : ℕ}
      → w < len
      → (pos + w) % piece_unit_size ≡ 0
      → w' ≡ len
      → BlockWritten st st' w w'
      → Written st st' w
  unfolding put
  BlockWritten-all wl a e b = record {
    estimate = b.estimate;
    file = b.file;
    array = b.array;
    pieces = λ k. ground (arith, b.count, b.pieces k);
  }

  -- Elsewhere the next rounds write what is left.
  BlockWritten-then :
      {st st' last : MemStorage} {w w' : ℕ}
      → w < len
      → (pos + w) % piece_unit_size ≡ 0
      → w' < len
      → BlockWritten st st' w w'
      → Written st' last w'
      → Written st last w
  unfolding put
  BlockWritten-then wl a e b r = record {
    estimate = r.estimate ∙ b.estimate;
    file = r.file ∙ b.file;
    array = r.array ∙ b.array;
    pieces = λ k. ground (arith, b.count, b.pieces k, r.pieces k);
  }

  write_blocks-Written :
      (fuel : ℕ) (st : MemStorage) (w i : ℕ)
      → len < fuel + w
      → w < len
      → pos + len ≤ st.estimate_size
      → st.allocated ≡ block_num st.estimate_size
      → i ≡ block_index (pos + w)
      → (pos + w) % piece_unit_size ≡ 0
      → (st' : MemStorage) × (write_blocks malloc buf len fuel pos i st w ≡ ok (st', len))
        × Written st st' w
  write_blocks-Written zero st w i f wl fits al e a = absurd (omega arith)
  write_blocks-Written (suc fuel) st w i f wl fits al e a =
      let (st', w') = fill_block malloc buf len pos i st w (st.blocks i) in
      let b : BlockWritten st st' w w' = fill_block-BlockWritten st w i wl e a in
      elim (dec_lt w' len) [
        | yes more ↦
            let (last, eq, rest) =
              write_blocks-Written fuel st' w' (i + 1) (omega (arith, b.count)) more
                (omega (arith, b.estimate)) (rw (b.array, b.estimate) al) (omega (arith, b.count))
                (omega (arith, b.count)) in
            (
              last,
              write_blocks-next st w i fuel wl (omega arith) (omega (arith, b.count)) ∙ eq,
              BlockWritten-then wl a more b rest,
            )
        | no all ↦
            let n : w' ≡ len = omega (arith, b.count) in
            (
              st',
              elim (dec_lt (i + 1) (block_num st.estimate_size)) [
                | yes more ↦
                    write_blocks-next st w i fuel wl (omega arith) more
                    ∙ write_blocks-done fuel (i + 1) w' st' (omega arith) n
                | no last ↦
                    write_blocks-last st w i fuel wl (omega arith) (omega arith)
                    ∙ ap (λ (m : ℕ). ok (st', m)) n
              ],
              BlockWritten-all wl a n b,
            )
      ]

  -- A write of whole pieces, or of the end of the file, meets the assertions.
  storage_write-write_blocks :
      (st : MemStorage)
      → pos % piece_unit_size ≡ 0
      → (pos + len ≡ st.estimate_size) ⊎ (len % piece_unit_size ≡ 0)
      → storage_write malloc buf len st pos
        ≡ write_blocks malloc buf len (len + 1) pos (block_index pos) st 0
  unfolding storage_write
  storage_write-write_blocks st a u = ground arith

  pub storage_write-Written :
      (st : MemStorage)
      → IsValid st
      → pos % piece_unit_size ≡ 0
      → (pos + len ≡ st.estimate_size) ⊎ (len % piece_unit_size ≡ 0)
      → pos + len ≤ st.estimate_size
      → (st' : MemStorage) × (storage_write malloc buf len st pos ≡ ok (st', len))
        × Written st st' 0
  unfolding put
  storage_write-Written st v a u fits =
      rw (storage_write-write_blocks st a u) (elim (dec_lt 0 len) [
        | yes some_bytes ↦
            write_blocks-Written (len + 1) st 0 (block_index pos) (omega arith) some_bytes fits
              v.entries (ap (λ (n : ℕ). n / block_unit_size) (omega arith)) (omega arith)
        | no no_bytes ↦ (
          st,
          write_blocks-done (len + 1) (block_index pos) 0 st (omega arith) (omega arith),
          record { estimate = refl; file = refl; array = refl; pieces = λ k. ground arith },
        )
      ])
