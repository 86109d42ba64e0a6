-- ===== src/FileStorage/Tests.antt =====
-- A file as the byte at each position, and the theorem at a concrete input.
use libms.Base.{ℕ, ◌+◌, ◌-◌, ◌≡◌, refl, ◌&&◌, leb, ltb, if◌then◌else◌}
use libms.FileStorage.{
  FileIo, IsFile, FileStorage, storage_write, storage_read, ms_file_storage_open,
}

abbrev io : FileIo (ℕ → ℕ)
io = record {
  pwrite = λ file buf count offset.
      ((λ i. if leb offset i && ltb i (offset + count) then buf (i - offset) else file i), count);
  pread = λ file buf count offset. ((λ i. if ltb i count then file (i + offset) else buf i), count);
}

abbrev io-IsFile : IsFile io
io-IsFile = record {
  byte_at = λ file i. file i;
  pwrite-count = λ file buf count offset. refl;
  pwrite-byte_at = λ file buf count offset i. refl;
}

-- An empty file.
abbrev st : FileStorage (ℕ → ℕ)
unfolding ms_file_storage_open
st = ms_file_storage_open (λ i. 0)

abbrev buf : ℕ → ℕ
buf i = i + 65

-- What is written at the beginning is not read there.
first_write : (storage_read io (storage_write io st buf 0 5).0 buf 0 5).0 1 ≡ 0
unfolding storage_read storage_write st
first_write = refl
