-- ===== src/FileStorage.antt =====
-- src/ms_file_storage.c: a storage that keeps its bytes in a file. The calls of the system for its
-- file are a parameter.
mod Tests
pub mod Swapped
use libms.Base.{ℕ, ◌+◌, ◌-◌, ◌*◌, ◌≡◌, ◌&&◌, Outcome, ok, leb, ltb, ◌==◌, if◌then◌else◌, List}
use libms.Storage.{Storage}

-- `pwrite(fd, buf, count, offset)` and `pread(fd, buf, count, offset)`, with the file as their state.
-- A buffer is the byte at each offset; `pread` gives the filled buffer. The results are the counts.
pub record FileIo (F : Type 0) : Type 0 where
  pub pwrite : F → (ℕ → ℕ) → ℕ → ℕ → F × ℕ
  pub pread : F → (ℕ → ℕ) → ℕ → ℕ → (ℕ → ℕ) × ℕ

-- A file that takes all the bytes of a write, and whose bytes are otherwise what they were.
pub record IsFile {F : Type 0} (io : FileIo F) : Type 0 where
  pub byte_at : F → ℕ → ℕ
  pub pwrite-count :
      (file : F) (buf : ℕ → ℕ) (count offset : ℕ)
      → (FileIo.pwrite io file buf count offset).1 ≡ count
  pub pwrite-byte_at :
      (file : F) (buf : ℕ → ℕ) (count offset i : ℕ)
      → byte_at ((FileIo.pwrite io file buf count offset).0) i
        ≡ (if leb offset i && ltb i (offset + count) then buf (i - offset) else byte_at file i)

-- `struct ms_file_storage`, as far as it is used.
pub record FileStorage (F : Type 0) : Type 0 where
  pub fd : F
  pub filesize : ℕ
  pub completed_size : ℕ

module _ {F : Type 0} where
  unfoldable pub get_filesize : FileStorage F → ℕ
  get_filesize st = st.filesize

  unfoldable pub set_filesize : FileStorage F → ℕ → FileStorage F
  set_filesize st filesize = record st { filesize = filesize }

  -- The size that is estimated is the file's.
  unfoldable pub get_estimate_size : FileStorage F → ℕ
  get_estimate_size st = st.filesize

  unfoldable pub max_cache_len : FileStorage F → ℕ
  max_cache_len st = if st.filesize == 0 then 1024 * 1024 * 1024 else st.filesize

  -- Nothing is cleared.
  unfoldable pub clear_buffer_for : FileStorage F → ℕ → List ℕ → FileStorage F
  clear_buffer_for st len hold_pos = st

  unfoldable pub set_content_size : FileStorage F → ℕ → ℕ → FileStorage F
  set_content_size st from size = st

  unfoldable pub get_completed_size : FileStorage F → ℕ
  get_completed_size st = st.completed_size

  -- `*len` is set, and `*pos` keeps the 0 that its only caller gives it.
  unfoldable pub wanted_pos_from : FileStorage F → ℕ → ℕ × ℕ
  wanted_pos_from st from = (0, 0)

  -- `file` is what `open` returns.
  unfoldable pub ms_file_storage_open : F → FileStorage F
  ms_file_storage_open file = record { fd = file; filesize = 0; completed_size = 0 }

module _ {F : Type 0} (io : FileIo F) where
  unfoldable pub storage_write : FileStorage F → (ℕ → ℕ) → ℕ → ℕ → FileStorage F × ℕ
  storage_write st buf pos len =
      let (file, write) = FileIo.pwrite io st.fd buf pos len in (record st { fd = file }, write)

  unfoldable pub storage_read : FileStorage F → (ℕ → ℕ) → ℕ → ℕ → (ℕ → ℕ) × ℕ
  storage_read st buf pos len = FileIo.pread io st.fd buf len pos

  -- The table that `ms_file_storage_open` fills in.
  abbrev pub file_storage : Storage (FileStorage F)
  file_storage = record {
    get_filesize = get_filesize;
    set_filesize = λ st size. ok (set_filesize st size);
    get_estimate_size = get_estimate_size;
    set_content_size = λ st from size. ok (set_content_size st from size);
    get_completed_size = get_completed_size;
    cached_from = λ st from. ok (wanted_pos_from st from);
    write = λ st buf pos len. ok (storage_write st buf pos len);
    read = λ st buf pos len. ok (storage_read st buf pos len);
    max_cache_len = max_cache_len;
    clear_buffer_for = λ st len hold_pos. ok (clear_buffer_for st len hold_pos);
  }
