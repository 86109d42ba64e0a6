-- ===== src/MemStorage/Sizes.antt =====
-- The sizes of the cache, set once or growing, keep it valid and keep what is cached.
use libms.Base.{
  ℕ, ◌+◌, ◌≤◌, ◌<◌, ◌≡◌, ◌∙◌, refl, ◌⊎◌, inl, inr, none, ok, arith, ltb, if◌then◌else◌, ◌&&◌,
  Option-cases, Bool-cases, false, lt→ltb, le→leb, le→ltb, sym, ◌==◌,
}
use libms.MemStorage.{
  MemStorage, block_num, realloc_blocks, old_size, set_filesize, set_content_size,
  ms_mem_storage_open, get_filesize, get_estimate_size,
}
use libms.MemStorage.View.{piece_at, IsValid}

-- Nothing is cached in a new storage, and it is valid.
pub ms_mem_storage_open-IsValid :
    IsValid ms_mem_storage_open × ((k : ℕ) → piece_at ms_mem_storage_open k ≡ none)
unfolding ms_mem_storage_open piece_at
ms_mem_storage_open-IsValid =
    (record { entries = refl; known = inl refl; inside = λ k b h. cc }, λ k. refl)

-- The cache `st'` has the estimated size `size`, and the pieces of `st`.
pub record Resized (st st' : MemStorage) (size : ℕ) : Type 0 where
  pub valid : IsValid st'
  pub estimate : get_estimate_size st' ≡ size
  pub kept : (k : ℕ) → piece_at st' k ≡ piece_at st k

old_size-lem : (st : MemStorage) → IsValid st → old_size st ≡ st.estimate_size
unfolding old_size
old_size-lem st v = ground (arith, v.known)

-- `realloc_blocks` to a size that is not smaller.
grown : MemStorage → ℕ → MemStorage
grown st n = record st {
  blocks = λ i. if ltb i (block_num st.estimate_size) then st.blocks i else none;
  allocated = block_num n;
}

module _ (st : MemStorage) (v : IsValid st) (n : ℕ) (h : st.estimate_size ≤ n) where
  realloc_blocks-grown : realloc_blocks st n ≡ ok (grown st n)
  unfolding realloc_blocks grown
  realloc_blocks-grown =
      rw (old_size-lem st v, le→leb (block_num st.estimate_size) (block_num n) (omega arith))

  piece_at-grown : (k : ℕ) → piece_at (grown st n) k ≡ piece_at st k
  unfolding piece_at grown
  piece_at-grown k = elim (Option-cases (piece_at st k)) [
    | inl e ↦ ground (arith, e)
    | inr (b, e) ↦ ground (arith, v.inside k b e)
  ]

  grown-Resized :
      (f : ℕ)
      → (f ≡ 0) ⊎ (f ≡ n)
      → Resized st (record (grown st n) { filesize = f; estimate_size = n }) n
  unfolding grown get_estimate_size piece_at
  grown-Resized f e = record {
    valid = record {
      entries = refl;
      known = e;
      inside = λ k b p. omega (arith, v.inside k b (sym (piece_at-grown k) ∙ p));
    };
    estimate = refl;
    kept = piece_at-grown;
  }

  -- A file size that is positive and not below the estimated size is taken over.
  pub set_filesize-Resized :
      0 < n
      → (st' : MemStorage) × (set_filesize st n ≡ ok st')
        × (get_filesize st' ≡ n)
        × Resized st st' n
  unfolding set_filesize get_filesize get_estimate_size
  set_filesize-Resized p =
      let q : st.filesize ≤ n = omega (arith, v.known) in
      (
        record (grown st n) { filesize = n; estimate_size = n },
        rw (lt→ltb 0 n p, le→leb st.filesize n q, realloc_blocks-grown),
        refl,
        grown-Resized n (inr refl),
      )

  -- While the file size is not known, a content range that goes beyond the estimated size moves it.
  set_content_size-grown :
      (from size : ℕ)
      → st.filesize ≡ 0
      → n ≡ from + size
      → st.estimate_size < n
      → set_content_size st from size ≡ ok (record (grown st n) { estimate_size = n })
  unfolding set_content_size
  set_content_size-grown from size z e lt =
      rw (
        le→ltb 0 st.filesize (omega arith),
        ← e,
        lt→ltb st.estimate_size n lt,
        realloc_blocks-grown,
      )

set_content_size-same :
    (st : MemStorage) (from size : ℕ)
    → (st.filesize == 0 && ltb st.estimate_size (from + size)) ≡ false
    → set_content_size st from size ≡ ok st
unfolding set_content_size
set_content_size-same st from size h = ground arith

-- `set_content_size` ends with no fault on a valid cache: it raises the estimated size to the end
-- of the range, if the file size is not known and the range goes beyond, changes nothing
-- otherwise, and keeps the cache valid with what is cached.
pub set_content_size-Resized :
    (st : MemStorage)
    → IsValid st
    → (from size : ℕ)
    → (st' : MemStorage) × (set_content_size st from size ≡ ok st')
      × (get_filesize st' ≡ get_filesize st)
      × Resized st st' (
          if get_filesize st == 0 && ltb (get_estimate_size st) (from + size)
          then from + size
          else get_estimate_size st)
unfolding get_filesize get_estimate_size grown
set_content_size-Resized st v from size =
    elim (Bool-cases (st.filesize == 0 && ltb st.estimate_size (from + size))) [
      | inl more ↦
          let z : st.filesize ≡ 0 = ground arith in
          let lt : st.estimate_size < from + size = ground arith in
          let n : ℕ = from + size in
          rw more (
            record (grown st n) { estimate_size = n },
            set_content_size-grown st v n (omega arith) from size z refl lt,
            refl,
            grown-Resized st v n (omega arith) st.filesize (inl z),
          )
      | inr same ↦ rw same (
        st,
        set_content_size-same st from size same,
        refl,
        record { valid = v; estimate = unfold get_estimate_size in refl; kept = λ k. refl },
      )
    ]
