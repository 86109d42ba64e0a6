-- ===== src/MemStorage.antt =====
-- src/ms_mem_storage.c and .h with src/ms_memory_pool.c: the state of the cache, the index
-- arithmetic, its sizes and the memory it stands on.
pub mod Write
pub mod Read
pub mod CachedFrom
pub mod Clear
pub mod RoundTrip
pub mod Sizes
pub mod Interface
pub mod Tests
pub mod View
pub mod GetBitmap
pub mod Close
pub use libms.Base.{add64, sub64, leb_int64, minus_one}
use libms.Base.{
  ℕ, zero, suc, ◌+◌, ◌-◌, ◌*◌, ◌/◌, ◌%◌, ◌^◌, ◌≡◌, refl, Bool, true, false, ◌&&◌, Option, none,
  some, List, [], ◌∷◌, ltb, leb, ◌==◌, if◌then◌else◌, Outcome, ok, fault, Fault, ◌>>=◌, ◌>>◌,
  ms_assert, to_int,
}

-- What stands at a `char *`: the byte at each offset.
abbrev pub Buf : Type 0
Buf = ℕ → ℕ

abbrev pub piece_unit_size : ℕ
piece_unit_size = 16384

abbrev pub block_unit_size : ℕ
block_unit_size = 2097152

abbrev pub piece_num_of_per_block : ℕ
piece_num_of_per_block = 128

-- `struct ms_block`: the `buf` of each of its 128 pieces, `none` for a null pointer.
abbrev pub Block : Type 0
Block = ℕ → Option Buf

-- The `bitmap` string: the bytes that were allocated for it, and what they hold.
pub record Bitmap : Type 0 where
  pub size : ℕ
  pub chars : Buf

-- `blocks` has `allocated` entries. The counters are `int64_t`, kept as their 64-bit patterns.
pub record MemStorage : Type 0 where
  pub filesize : ℕ
  pub estimate_size : ℕ
  pub completed_size : ℕ
  pub blocks : ℕ → Option Block
  pub allocated : ℕ
  pub bitmap : Option Bitmap

-- `ceil(1.0 * filesize / MS_BLOCK_UNIT_SIZE)`: a division by a power of two, exact in a double
-- below 2 ^ 53.
abbrev pub block_num : ℕ → ℕ
block_num filesize = (filesize + 2097151) / block_unit_size

abbrev pub block_index : ℕ → ℕ
block_index pos = pos / block_unit_size

abbrev pub piece_index : ℕ → ℕ
piece_index pos = pos % block_unit_size / piece_unit_size

-- `malloc_block`: `memset` makes every piece null.
abbrev pub malloc_block : Block
malloc_block i = none

-- `memcpy(dst, src, n)`
abbrev pub memcpy : Buf → Buf → ℕ → Buf
memcpy dst src n o = if ltb o n then src o else dst o

-- A pointer moved on by `n` bytes.
abbrev pub offset_by : Buf → ℕ → Buf
offset_by buf n o = buf (n + o)

abbrev pub update : {A : Type 0} → (ℕ → A) → ℕ → A → ℕ → A
update f i v j = if j == i then v else f j

-- `mem_st->blocks[i]`
abbrev pub load_block : MemStorage → ℕ → Outcome (Option Block)
load_block st i = if ltb i st.allocated then ok (st.blocks i) else fault Fault.out_of_bounds

-- `mem_st->blocks[i] = block`
abbrev pub store_block : MemStorage → ℕ → Option Block → MemStorage
store_block st i b = record st { blocks = update st.blocks i b }

-- ms_memory_pool.c, over what the memory that `malloc` returns for a size holds.
abbrev pub ms_malloc_piece_buf : (ℕ → Buf) → Buf
ms_malloc_piece_buf malloc = malloc piece_unit_size

unfoldable pub get_filesize : MemStorage → ℕ
get_filesize st = st.filesize

unfoldable pub get_estimate_size : MemStorage → ℕ
get_estimate_size st = st.estimate_size

unfoldable pub get_completed_size : MemStorage → ℕ
get_completed_size st = st.completed_size

abbrev pub max_cache_len : ℕ
max_cache_len = 20971520

abbrev pub max_cache_left : ℕ
max_cache_left = 10485760

abbrev pub hold_head_size : ℕ
hold_head_size = 2097152

abbrev pub hold_size : ℕ → ℕ
hold_size pos_count = hold_head_size + (max_cache_left + max_cache_len) * pos_count

-- The variable `old_size` of `realloc_blocks`.
unfoldable pub old_size : MemStorage → ℕ
old_size st = if ltb 0 st.filesize then st.filesize else st.estimate_size

-- The entries from `block_num(old_size)` on are set to null. If the array shrinks, the length given
-- to `memset` is a negative number read as `size_t`.
unfoldable pub realloc_blocks : MemStorage → ℕ → Outcome MemStorage
realloc_blocks st new_size =
    if leb (block_num (old_size st)) (block_num new_size)
    then ok (record st {
      blocks = λ i. if ltb i (block_num (old_size st)) then st.blocks i else none;
      allocated = block_num new_size;
    })
    else fault Fault.out_of_bounds

unfoldable pub set_filesize : MemStorage → ℕ → Outcome MemStorage
unfolding realloc_blocks
set_filesize st filesize = do
  ms_assert (ltb 0 filesize)
  ms_assert (leb st.filesize filesize)
  st' ← realloc_blocks st filesize
  ok (record st' { filesize = filesize; estimate_size = filesize })

unfoldable pub set_content_size : MemStorage → ℕ → ℕ → Outcome MemStorage
unfolding realloc_blocks
set_content_size st from size =
    if ltb 0 st.filesize
    then ok st
    else if ltb st.estimate_size (from + size)
    then (do st' ← realloc_blocks st (from + size); ok (record st' { estimate_size = from + size }))
    else ok st

-- `ms_mem_storage_open`: `memset` leaves no size and no block.
unfoldable pub ms_mem_storage_open : MemStorage
ms_mem_storage_open = record {
  filesize = 0;
  estimate_size = 0;
  completed_size = 0;
  blocks = λ i. none;
  allocated = 0;
  bitmap = none;
}
