-- ===== src/MemStorage/RoundTrip.antt =====
-- What `storage_write` has stored, `storage_read` gives back.
use libms.Base.{ℕ, ◌+◌, ◌/◌, ◌%◌, ◌≤◌, ◌<◌, ◌≡◌, refl, ◌⊎◌, inl, inr, some, none, ok, arith}
use libms.MemStorage.{Buf, MemStorage, piece_unit_size}
use libms.MemStorage.View.{piece_at, byte_at, IsValid}
use libms.MemStorage.Write.{storage_write}
use libms.MemStorage.Write.Bytes.{storage_write-byte_at}
use libms.MemStorage.Read.{Transfer, storage_read}
use libms.MemStorage.Read.Prefix.{Copied, Ended, storage_read-Ends}

byte_at-none :
    (st : MemStorage) (p k : ℕ)
    → p / piece_unit_size ≡ k
    → piece_at st k ≡ none
    → byte_at st p ≡ none
unfolding byte_at
byte_at-none st p k e h = ground arith

-- In a range that is cached throughout, a read gives everything that was asked for.
pub Ended-all :
    (pos len : ℕ) (st : MemStorage) (buf : Buf) (f : ℕ → ℕ) (t : Transfer)
    → ((i : ℕ) → i < len → byte_at st (pos + i) ≡ some (f i))
    → Copied pos len st buf t
    → Ended pos len st buf t
    → (t.read ≡ len) × ((i : ℕ) → i < len → t.out i ≡ f i)
Ended-all pos len st buf f t h c (inr (lt, missing)) = absurd (
    cc
      (h t.read lt, byte_at-none st (pos + t.read) ((pos + t.read) / piece_unit_size) refl missing))
Ended-all pos len st buf f t h c (inl all) = (all, λ i hi. cc (h i hi, c.bytes i (omega arith)))

module _ (malloc : ℕ → Buf) (buf out : Buf) (len pos : ℕ) (st : MemStorage) where
  -- After a write of whole pieces, or up to the end of the file, that fits in the estimated size
  -- of a valid cache, a read of the same range into any buffer ends with no fault, reads as many
  -- bytes as were written, and they are the ones written.
  pub storage_read-storage_write :
      IsValid st
      → pos % piece_unit_size ≡ 0
      → (pos + len ≡ st.estimate_size) ⊎ (len % piece_unit_size ≡ 0)
      → pos + len ≤ st.estimate_size
      → (st' : MemStorage) × (t : Transfer) × (storage_write malloc buf len st pos ≡ ok (st', len))
        × (storage_read pos len st' out ≡ ok t)
        × (t.read ≡ len)
        × ((i : ℕ) → i < len → t.out i ≡ buf i)
  storage_read-storage_write v a u fits =
      let (st', e, bytes, v', size) = storage_write-byte_at malloc buf len pos st v a u fits in
      let (t, r, c, ends) = storage_read-Ends pos len st' out v' (omega (arith, size)) in
      let (all, given) =
        Ended-all pos len st' out buf t (λ i hi. ground (arith, bytes (pos + i))) c ends in
      (st', t, e, r, all, given)
