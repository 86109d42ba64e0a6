-- ===== src/MemStorage/Write/Bytes.antt =====
-- `storage_write` as an update of the cached bytes of the file.
use libms.Base.{
  ℕ, ◌+◌, ◌-◌, ◌/◌, ◌%◌, ◌≤◌, ◌<◌, ◌≡◌, ◌⊎◌, ◌&&◌, some, ltb, leb, if◌then◌else◌, ok, arith,
}
use libms.MemStorage.{Buf, MemStorage, piece_unit_size}
use libms.MemStorage.View.{byte_at, IsValid}
use libms.MemStorage.Write.{filled, storage_write}
use libms.MemStorage.Write.Refines.{put, Written, storage_write-Written}

module _ (malloc : ℕ → Buf) (buf : Buf) (len pos : ℕ) (st : MemStorage) (v : IsValid st)
    (a : pos % piece_unit_size ≡ 0)
    (u : (pos + len ≡ st.estimate_size) ⊎ (len % piece_unit_size ≡ 0))
    (fits : pos + len ≤ st.estimate_size) where
  Written-byte_at :
      {st' : MemStorage}
      → Written malloc buf len pos st st' 0
      → (p : ℕ) → p < st.estimate_size
      → byte_at st' p
        ≡ (if leb pos p && ltb p (pos + len) then some (buf (p - pos)) else byte_at st p)
  unfolding put filled byte_at
  Written-byte_at w p h = ground (arith, w.pieces (p / piece_unit_size))

  Written-IsValid : {st' : MemStorage} → Written malloc buf len pos st st' 0 → IsValid st'
  unfolding put
  Written-IsValid w = record {
    entries = omega (arith, w.estimate, w.array, v.entries);
    known = ground (arith, w.estimate, w.file, v.known);
    inside = λ k b h. ground (arith, w.estimate, w.pieces k, v.inside k b);
  }

  -- A write of whole pieces, or up to the end of the file, that fits in the estimated size of a
  -- valid cache ends with no fault and takes all its bytes; afterwards the cached byte at each
  -- position of the file is the one written there, or else the one cached before, and the cache
  -- is valid and of the same size.
  pub storage_write-byte_at :
      (st' : MemStorage) × (storage_write malloc buf len st pos ≡ ok (st', len))
      × ((p : ℕ)
          → p < st.estimate_size
          → byte_at st' p
            ≡ (if leb pos p && ltb p (pos + len) then some (buf (p - pos)) else byte_at st p))
      × IsValid st'
      × (st'.estimate_size ≡ st.estimate_size)
  storage_write-byte_at =
      let (st', e, w) = storage_write-Written malloc buf len pos st v a u fits in
      (st', e, Written-byte_at w, Written-IsValid w, w.estimate)
