-- ===== src/MemStorage/Tests.antt =====
-- Runs of the storage on small states, and the theorems at concrete inputs.
use libms.Base.{
  List, ℕ, ◌+◌, ◌-◌, ◌*◌, ◌/◌, ◌%◌, ◌<◌, ◌≡◌, refl, inl, inr, none, some, [], ◌∷◌, ltb, leb, ◌&&◌,
  ◌==◌, if◌then◌else◌, ok, fault, Fault, arith, ◌>>=◌,
}
use libms.MemStorage.{
  Buf, MemStorage, block_num, piece_unit_size, old_size, set_filesize, set_content_size,
  get_filesize, get_estimate_size, get_completed_size, ms_mem_storage_open,
}
use libms.MemStorage.Close.{Freed, storage_close}
use libms.MemStorage.Close.Once.{frees_of, buffers, storage_close-frees_of}
use libms.MemStorage.View.{piece_at, byte_at, IsValid}
use libms.MemStorage.Sizes.{Resized, set_filesize-Resized, set_content_size-Resized}
use libms.MemStorage.Write.{
  storage_write, filled, write_piece, write_pieces, fill_block, write_block,
}
use libms.MemStorage.Write.Bytes.{storage_write-byte_at}
use libms.MemStorage.Read.{Transfer, storage_read}
use libms.MemStorage.Read.Prefix.{Copied, Ended, storage_read-Ends}
use libms.MemStorage.RoundTrip.{storage_read-storage_write}
use libms.MemStorage.CachedFrom.{cached_from, clip, mark_piece, scan_pieces}
use libms.MemStorage.CachedFrom.Finds.{Found}
use libms.MemStorage.CachedFrom.Loops.{cached_from-Found}
use libms.MemStorage.CachedFrom.Overflow.{cached_from-overflow}
use libms.MemStorage.Clear.{
  clear_buffer_for, should_hold_block, should_hold_piece, piece_len, release_piece, sweep_piece,
  sweep_pieces,
}
use libms.MemStorage.Clear.Evicts.{Evicted, clear_buffer_for-Evicted}

-- The buffers that these runs use: memory of zeros, and bytes that count up.
abbrev pub zeros : ℕ → Buf
zeros size o = 0

abbrev pub counting : Buf
counting o = o % 251

-- A storage of `size` bytes with the piece `j` of its block `i` cached.
abbrev pub with_piece : ℕ → ℕ → ℕ → MemStorage
with_piece size i j = record {
  filesize = size;
  estimate_size = size;
  completed_size = 16384;
  blocks = λ i'. if i' == i then some (λ j'. if j' == j then some counting else none) else none;
  allocated = block_num size;
  bitmap = none;
}

pub with_piece-IsValid :
    (size i j : ℕ) → j < 128 → i * 2097152 + j * 16384 < size → IsValid (with_piece size i j)
unfolding piece_at
with_piece-IsValid size i j l h = record {
  entries = refl;
  known = inr refl;
  inside = λ k b e. ground arith;
}

-- 100,000 bytes, of which the second piece is cached.
abbrev pub small : MemStorage
small = with_piece 100000 0 1

pub small-IsValid : IsValid small
small-IsValid = with_piece-IsValid 100000 0 1 (omega arith) (omega arith)

-- The first check of test/test_mem_storage.c: what is written is found.
cached_after_write :
    (do
      st ← set_filesize ms_mem_storage_open 10485760
      (st', n) ← storage_write zeros counting 16384 st 0
      cached_from st' 10)
    ≡ ok (10, 16374)
unfolding set_filesize ms_mem_storage_open storage_write fill_block write_pieces write_piece filled
    cached_from scan_pieces mark_piece clip old_size write_block
cached_after_write = refl

storage_write-byte_at_example :
    (st' : MemStorage) × (storage_write zeros counting 16384 small 32768 ≡ ok (st', 16384))
    × ((p : ℕ)
        → p < 100000
        → byte_at st' p
          ≡ (if leb 32768 p && ltb p 49152 then some (counting (p - 32768)) else byte_at small p))
    × IsValid st'
    × (st'.estimate_size ≡ 100000)
storage_write-byte_at_example =
    storage_write-byte_at zeros counting 16384 32768 small small-IsValid refl (inr refl)
      (omega arith)

storage_read-Ends_example :
    (t : Transfer) × (storage_read 20000 50000 small counting ≡ ok t)
    × Copied 20000 50000 small counting t
    × Ended 20000 50000 small counting t
storage_read-Ends_example = storage_read-Ends 20000 50000 small counting small-IsValid (omega arith)

storage_read-storage_write_example :
    (st' : MemStorage) × (t : Transfer) × (storage_write zeros counting 1696 small 98304
      ≡ ok (st', 1696))
    × (storage_read 98304 1696 st' (zeros 0) ≡ ok t)
    × (t.read ≡ 1696)
    × ((i : ℕ) → i < 1696 → t.out i ≡ counting i)
storage_read-storage_write_example =
    storage_read-storage_write zeros counting (zeros 0) 1696 98304 small small-IsValid refl
      (inl refl) (omega arith)

set_filesize-Resized_example :
    (st' : MemStorage) × (set_filesize small 5000000 ≡ ok st')
    × (get_filesize st' ≡ 5000000)
    × Resized small st' 5000000
set_filesize-Resized_example =
    set_filesize-Resized small small-IsValid 5000000 (omega arith) (omega arith)

set_content_size-Resized_example :
    (st' : MemStorage) × (set_content_size small 0 200000 ≡ ok st')
    × (get_filesize st' ≡ get_filesize small)
    × Resized small st' (
        if get_filesize small == 0 && ltb (get_estimate_size small) (0 + 200000)
        then 0 + 200000
        else get_estimate_size small)
set_content_size-Resized_example = set_content_size-Resized small small-IsValid 0 200000

cached_from-Found_example :
    (pos : ℕ) × (len : ℕ) × (cached_from small 10 ≡ ok (pos, len)) × Found small 10 pos len
cached_from-Found_example = cached_from-Found small 10 small-IsValid (omega arith) (omega arith)

-- A file of 4 GiB whose piece at 2 GiB is cached.
abbrev large : MemStorage
large = with_piece 4294967296 1024 0

large-piece : piece_at large (2147483648 / piece_unit_size) ≡ some counting
unfolding piece_at
large-piece = refl

cached_from-overflow_example : cached_from large 2147483648 ≡ fault Fault.int_overflow
cached_from-overflow_example =
    cached_from-overflow large 2147483648 counting
      (with_piece-IsValid 4294967296 1024 0 (omega arith) (omega arith)) (omega arith) (omega arith)
      large-piece

-- A file of 64 MiB, 50 MiB of it already counted as cached, with a piece in its third block; the
-- reader is at 40 MiB.
abbrev full : MemStorage
full = record (with_piece 67108864 2 5) { completed_size = 52428800 }

full-IsValid : IsValid full
unfolding piece_at
full-IsValid = record { entries = refl; known = inr refl; inside = λ k b e. ground arith }

clear_buffer_for-Evicted_example :
    (st' : MemStorage) × (clear_buffer_for full 16384 (41943040 ∷ []) ≡ ok st')
    × IsValid st'
    × Evicted (41943040 ∷ []) full st'
clear_buffer_for-Evicted_example =
    clear_buffer_for-Evicted (41943040 ∷ []) full 16384 full-IsValid (omega arith)

-- That piece is freed.
full_frees :
    (do st ← clear_buffer_for full 16384 (41943040 ∷ []); ok (get_completed_size st)) ≡ ok 52412416
unfolding clear_buffer_for get_completed_size should_hold_block should_hold_piece sweep_pieces
    sweep_piece release_piece piece_len
full_frees = refl

storage_close-frees_of_example :
    (freed : List Freed) × (storage_close small ≡ ok freed)
    × ((k : ℕ) → frees_of k freed ≡ buffers (piece_at small k))
storage_close-frees_of_example = storage_close-frees_of small small-IsValid
