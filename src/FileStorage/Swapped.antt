-- ===== src/FileStorage/Swapped.antt =====
-- What a write of src/ms_file_storage.c does to the file.
use libms.Base.{ℕ, ◌+◌, ◌-◌, ◌≡◌, ◌&&◌, leb, ltb, if◌then◌else◌, refl}
use libms.FileStorage.{FileIo, IsFile, FileStorage, storage_write, get_completed_size}

module _ {F : Type 0} (io : FileIo F) (laws : IsFile io) where
  -- In a file that takes what is written, `storage_write` of `len` bytes at `pos` writes `pos`
  -- bytes at `len`, and says that it wrote `pos`; the completed size does not change.
  pub storage_write-swapped :
      (st : FileStorage F) (buf : ℕ → ℕ) (pos len i : ℕ)
      → (IsFile.byte_at laws (storage_write io st buf pos len).0.fd i
          ≡ (if leb len i && ltb i (len + pos) then buf (i - len) else IsFile.byte_at laws st.fd i))
        × ((storage_write io st buf pos len).1 ≡ pos)
        × (get_completed_size (storage_write io st buf pos len).0 ≡ get_completed_size st)
  unfolding storage_write get_completed_size
  storage_write-swapped st buf pos len i = (
    IsFile.pwrite-byte_at laws st.fd buf pos len i,
    IsFile.pwrite-count laws st.fd buf pos len,
    refl,
  )
