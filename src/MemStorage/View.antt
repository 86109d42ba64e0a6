-- ===== src/MemStorage/View.antt =====
-- The cache seen as a partial map from the pieces of the file, counted over all blocks, to their
-- bytes, and what makes a state of it valid.
use libms.Base.{
  ℕ, ◌+◌, ◌*◌, ◌/◌, ◌%◌, ◌<◌, ◌≡◌, ◌⊎◌, ◌≢◌, inl, inr, Bool-cases, ◌==◌, arith, Option, none, some,
}
use libms.MemStorage.{
  Buf, Block, MemStorage, piece_unit_size, piece_num_of_per_block, block_num, update,
}

abbrev pub piece_of : Option Block → ℕ → Option Buf
piece_of none j = none
piece_of (some b) j = b j

unfoldable pub piece_at : MemStorage → ℕ → Option Buf
piece_at st k = piece_of (st.blocks (k / piece_num_of_per_block)) (k % piece_num_of_per_block)

-- The cached byte of the file at a position.
unfoldable pub byte_at : MemStorage → ℕ → Option ℕ
unfolding piece_at
byte_at st p = elim (piece_at st (p / piece_unit_size)) [
  | none ↦ none
  | some b ↦ some (b (p % piece_unit_size))
]

-- The block array has an entry for every block of the estimated size, that size is the file's once
-- it is known, and every cached piece starts inside it.
pub record IsValid (st : MemStorage) : Type 0 where
  pub entries : st.allocated ≡ block_num st.estimate_size
  pub known : (st.filesize ≡ 0) ⊎ (st.filesize ≡ st.estimate_size)
  pub inside : (k : ℕ) (b : Buf) → piece_at st k ≡ some b → k * piece_unit_size < st.estimate_size

module _ (st : MemStorage) where
  pub piece_at-block :
      (i j k : ℕ) (b : Block)
      → st.blocks i ≡ some b
      → j < 128
      → k ≡ i * 128 + j
      → piece_at st k ≡ b j
  unfolding piece_at
  piece_at-block i j k b e h r =
      let q : k / 128 ≡ i = omega arith in let m : k % 128 ≡ j = omega arith in rw (q, m, e)

  pub piece_at-none : (i k : ℕ) → st.blocks i ≡ none → i ≡ k / 128 → piece_at st k ≡ none
  unfolding piece_at
  piece_at-none i k e h = rw (← h, e)

pub update-cases :
    {A : Type 0} (f : ℕ → A) (i : ℕ) (v : A) (j : ℕ)
    → ((j ≡ i) × (update f i v j ≡ v)) ⊎ ((j ≢ i) × (update f i v j ≡ f j))
update-cases f i v j = elim (Bool-cases (j == i)) [
  | inl e ↦ inl (ground arith, rw e)
  | inr e ↦ inr (ground arith, rw e)
]
