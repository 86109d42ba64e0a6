-- ===== src/MemStorage/Interface.antt =====
-- The memory storage as an implementation of the interface.
use libms.Base.{arith, ℕ, ◌^◌, ◌≤◌, ok, ◌>>=◌}
use libms.Storage.{Storage, IsStorage}
use libms.MemStorage.{
  Buf, MemStorage, get_filesize, set_filesize, get_estimate_size, set_content_size,
  get_completed_size, max_cache_len,
}
use libms.MemStorage.View.{IsValid}
use libms.MemStorage.Write.{storage_write}
use libms.MemStorage.Read.{storage_read}
use libms.MemStorage.CachedFrom.{cached_from}
use libms.MemStorage.CachedFrom.AtEnd.{cached_from-ok}
use libms.MemStorage.Clear.{clear_buffer_for}

-- The table that `ms_mem_storage_open` fills in.
abbrev pub mem_storage : (ℕ → Buf) → Storage MemStorage
mem_storage malloc = record {
  get_filesize = get_filesize;
  set_filesize = set_filesize;
  get_estimate_size = get_estimate_size;
  set_content_size = set_content_size;
  get_completed_size = get_completed_size;
  cached_from = cached_from;
  write = λ st buf pos len. storage_write malloc buf len st pos;
  read = λ st buf pos len. do
    t ← storage_read pos len st buf
    ok (t.out, t.read);
  max_cache_len = λ st. max_cache_len;
  clear_buffer_for = clear_buffer_for;
}

pub mem_storage-IsStorage : (malloc : ℕ → Buf) → IsStorage (mem_storage malloc)
unfolding get_estimate_size
mem_storage-IsStorage malloc = record {
  InOrder = λ st. IsValid st × (st.estimate_size ≤ 2 ^ 31);
  cached_from-ok = λ st from (v, small) le. cached_from-ok st from v small le;
  max_cache_len-positive = λ st. omega arith;
}

pub mem_storage-InOrder :
    (malloc : ℕ → Buf) (st : MemStorage)
    → IsValid st
    → st.estimate_size ≤ 2 ^ 31
    → IsStorage.InOrder (mem_storage-IsStorage malloc) st
unfolding mem_storage-IsStorage
mem_storage-InOrder malloc st v small = (v, small)
