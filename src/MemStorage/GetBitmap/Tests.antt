-- ===== src/MemStorage/GetBitmap/Tests.antt =====
-- Bitmaps of files, and the theorem at a concrete input.
use libms.Base.{ℕ, ◌≡◌, refl, Option, none, some, Outcome, ok, ◌>>=◌, arith}
use libms.MemStorage.{Bitmap, MemStorage}
use libms.MemStorage.Tests.{small, small-IsValid}
use libms.MemStorage.GetBitmap.{
  bit_num, merge, put, put_zeros, put_block, put_blocks, cleared, get_bitmap,
}
use libms.MemStorage.GetBitmap.Fits.{HasRoom, get_bitmap-HasRoom}

get_bitmap-HasRoom_example :
    (b : Bitmap) × (get_bitmap small ≡ ok (record small { bitmap = some b }, some b))
    × HasRoom 100000 (some b)
get_bitmap-HasRoom_example = get_bitmap-HasRoom small small-IsValid (omega arith) tt

-- A file of five blocks, of which the last is barely begun, with nothing cached.
abbrev five : MemStorage
five = record {
  filesize = 8400000;
  estimate_size = 8400000;
  completed_size = 0;
  blocks = λ i. none;
  allocated = 5;
  bitmap = none;
}

-- The character at a position of the text.
abbrev char_at : ℕ → MemStorage × Option Bitmap → Outcome ℕ
char_at i (st, none) = ok 0
char_at i (st, some b) = ok (b.chars i)

-- 65 bytes were allocated for 64 characters, and none of them is 0.
five_unterminated : (get_bitmap five >>= char_at 64) ≡ ok 48
unfolding get_bitmap merge bit_num put_blocks put_block put_zeros put cleared
five_unterminated = refl
