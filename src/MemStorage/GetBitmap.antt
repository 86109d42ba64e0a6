-- ===== src/MemStorage/GetBitmap.antt =====
-- `get_bitmap` of src/ms_mem_storage.c: a text with a hexadecimal digit for every four pieces, or
-- for more of them in a large file.
pub mod Fits
mod Tests
use libms.Base.{
  ℕ, zero, suc, ◌+◌, ◌-◌, ◌*◌, ◌/◌, ◌%◌, ◌^◌, Bool, ◌&&◌, Option, none, some, ltb, leb, ◌==◌,
  if◌then◌else◌, Outcome, ok, fault, Fault, ◌>>=◌,
}
use libms.MemStorage.{Buf, Block, Bitmap, MemStorage, block_num, load_block, update}

-- `bit_num`: two divisions that are rounded up.
unfoldable pub bit_num : ℕ → ℕ
bit_num filesize = ((filesize + 16383) / 16384 + 3) / 4

-- The loop that halves `bitnum`; `merge_time` gets to 4 at most.
unfoldable pub merge : ℕ → ℕ → ℕ → ℕ × ℕ
merge zero bitnum merge_time = (bitnum, merge_time)
merge (suc fuel) bitnum merge_time =
    if ltb 128 bitnum && ltb merge_time 4
    then merge fuel (bitnum / 2) (merge_time * 2)
    else (bitnum, merge_time)

-- `bitmap` with `index_for_bitmap`.
pub record Text : Type 0 where
  pub size : ℕ
  pub chars : Buf
  pub index : ℕ

-- `bitmap[index_for_bitmap++] = c`
unfoldable pub put : ℕ → Text → Outcome Text
put c t =
    if ltb t.index t.size
    then ok (record t { chars = update t.chars t.index c; index = t.index + 1 })
    else fault Fault.out_of_bounds

-- The loop for a block that is not there, with so many turns left.
unfoldable pub put_zeros : ℕ → ℕ → Text → Outcome Text
put_zeros bitnum zero t = ok t
put_zeros bitnum (suc n) t = do
  t' ← put 48 t
  if leb bitnum t'.index then ok t' else put_zeros bitnum n t'

-- `hex_map`
abbrev pub hex : ℕ → ℕ
hex d = if ltb d 10 then 48 + d else 55 + d

-- How many pieces have a buffer from one on, `n` at most.
unfoldable pub run : Block → ℕ → ℕ → ℕ
run block piece zero = 0
run block piece (suc n) = elim (block piece) [ none ↦ 0 | some _ ↦ run block (piece + 1) n + 1 ]

-- `piece_bit`, where the bit of these pieces is set if all of them have a buffer.
unfoldable pub set_bit : Block → ℕ → ℕ → ℕ → ℕ → ℕ
set_bit block merge_time piece piece_bit byte =
    if run block piece merge_time == merge_time then piece_bit + 2 ^ (3 - byte) else piece_bit

-- The loop over the pieces of a block, a round for some pieces.
unfoldable pub put_pieces : ℕ → ℕ → Block → ℕ → ℕ → ℕ → ℕ → Text → Outcome Text
put_pieces bitnum merge_time block zero piece piece_bit byte t = fault Fault.out_of_fuel
put_pieces bitnum merge_time block (suc fuel) piece piece_bit byte t =
    if ltb piece 128
    then (let bit : ℕ = set_bit block merge_time piece piece_bit byte in
        if byte == 3
        then (do
          t' ← put (hex bit) t
          if leb bitnum t'.index
              then ok t'
              else put_pieces bitnum merge_time block fuel (piece + merge_time) 0 0 t')
        else put_pieces bitnum merge_time block fuel (piece + merge_time) bit (byte + 1) t)
    else ok t

-- One block.
unfoldable pub put_block : ℕ → ℕ → Option Block → Text → Outcome Text
put_block bitnum merge_time none t = put_zeros bitnum (128 / (4 * merge_time)) t
put_block bitnum merge_time (some block) t = put_pieces bitnum merge_time block 129 0 0 0 t

-- The loop over the blocks, with so many left.
unfoldable pub put_blocks : ℕ → ℕ → MemStorage → ℕ → ℕ → Text → Outcome Text
put_blocks bitnum merge_time st zero index_for_block t = ok t
put_blocks bitnum merge_time st (suc n) index_for_block t = do
  block ← load_block st index_for_block
  t' ← put_block bitnum merge_time block t
  put_blocks bitnum merge_time st n (index_for_block + 1) t'

-- What stands at `mem_st->bitmap` once it was allocated, and is 0 as far as it will be filled.
unfoldable pub cleared : ℕ → Option Bitmap → Text
cleared bitnum none = record { size = bitnum + 1; chars = λ i. 0; index = 0 }
cleared bitnum (some b) = record {
  size = b.size;
  chars = λ i. if ltb i (bitnum + 1) then 0 else b.chars i;
  index = 0;
}

unfoldable pub get_bitmap : MemStorage → Outcome (MemStorage × Option Bitmap)
get_bitmap st =
    if st.filesize == 0
    then ok (st, st.bitmap)
    else (let (bitnum, merge_time) = merge 3 (bit_num st.filesize) 1 in
        (do
          t ←
              put_blocks bitnum merge_time st (block_num st.estimate_size) 0
                (cleared bitnum st.bitmap)
          let bitmap : Bitmap = record { size = t.size; chars = t.chars }
          ok (record st { bitmap = some bitmap }, some bitmap)))
