-- ===== src/MemStorage/GetBitmap/Fits.antt =====
-- The text that `get_bitmap` of src/ms_mem_storage.c writes stays inside what was allocated for it.
use native.Mathlib.Nat.{suc-mul}
use libms.Base.{
  ℕ, zero, suc, ◌+◌, ◌-◌, ◌*◌, ◌/◌, ◌≤◌, ◌<◌, ◌≡◌, ◌≢◌, ◌⊎◌, inl, inr, refl, sym, subst, ◌∙◌, ap,
  true, false, Option, none, some, ltb, leb, ◌==◌, Bool-cases, Outcome, ok, dec_lt, arith,
}
use libms.MemStorage.{Block, Bitmap, MemStorage, block_num, update}
use libms.MemStorage.View.{IsValid}
use libms.MemStorage.GetBitmap.{
  bit_num, merge, Text, put, put_zeros, hex, set_bit, put_pieces, put_block, put_blocks, cleared,
  get_bitmap,
}

-- How many pieces share a bit, and how many characters a block has then.
abbrev IsMerge : ℕ → ℕ → Type 0
IsMerge m c = ((m ≡ 1) × (c ≡ 32)) ⊎ (((m ≡ 2) × (c ≡ 16)) ⊎ ((m ≡ 4) × (c ≡ 8)))

IsMerge-sizes :
    (m c : ℕ) → IsMerge m c → (128 / (4 * m) ≡ c) × (0 + c * 4 * m ≡ 128) × (c * 4 < 129) × (0 < m)
IsMerge-sizes m c (inl (e, r)) = rw (e, r) (refl, refl, omega arith, omega arith)
IsMerge-sizes m c (inr (inl (e, r))) = rw (e, r) (refl, refl, omega arith, omega arith)
IsMerge-sizes m c (inr (inr (e, r))) = rw (e, r) (refl, refl, omega arith, omega arith)

-- It ends with no fault, at `most`, and inside the buffer.
abbrev Ends : ℕ → ℕ → Outcome Text → Type 0
Ends size most m = (t : Text) × (m ≡ ok t) × (t.size ≡ size) × (t.index ≤ most)

put-Ends : (c : ℕ) (t : Text) → t.index < t.size → Ends t.size (t.index + 1) (put c t)
unfolding put
put-Ends c t h =
    let inside : ltb t.index t.size ≡ true = ground arith in
    (
      record t { chars = update t.chars t.index c; index = t.index + 1 },
      simp inside,
      refl,
      omega arith,
    )

put_zeros-Ends :
    (bitnum n : ℕ) (t : Text)
    → t.index ≤ bitnum
    → bitnum < t.size
    → Ends t.size (t.index + n) (put_zeros bitnum n t)
unfolding put_zeros
put_zeros-Ends bitnum zero t le fits = (t, refl, refl, omega arith)
put_zeros-Ends bitnum (suc n) t le fits =
    let (t', e, same, most) = put-Ends 48 t (omega arith) in
    elim (dec_lt t'.index bitnum) [
      | yes l ↦
          let (t'', r, same', most') = put_zeros-Ends bitnum n t' (omega arith) (omega arith) in
          let on : leb bitnum t'.index ≡ false = ground arith in
          (t'', rw (e, on) r, omega arith, omega arith)
      | no l ↦
          let off : leb bitnum t'.index ≡ true = ground arith in
          (t', rw (e, off) refl, same, omega arith)
    ]

put_pieces-Ends :
    (bitnum m : ℕ) (block : Block) (q fuel piece bit byte : ℕ) (t : Text)
    → 0 < m
    → piece + q * m ≡ 128
    → q < fuel
    → byte < 4
    → t.index ≤ bitnum
    → bitnum < t.size
    → (t' : Text) × (put_pieces bitnum m block fuel piece bit byte t ≡ ok t')
      × (t'.size ≡ t.size)
      × (t'.index * 4 ≤ t.index * 4 + byte + q)
unfolding put_pieces
put_pieces-Ends bitnum m block q zero piece bit byte t pos at enough few le fits =
    absurd (omega arith)
put_pieces-Ends bitnum m block zero (suc fuel) piece bit byte t pos at enough few le fits =
    let end : ltb piece 128 ≡ false = ground arith in (t, rw end refl, refl, omega arith)
put_pieces-Ends bitnum m block (suc q) (suc fuel) piece bit byte t pos at enough few le fits =
    let step = suc-mul q m in
    let inside : ltb piece 128 ≡ true = ground arith in
    let bit' : ℕ = set_bit block m piece bit byte in
    elim (Bool-cases (byte == 3)) [
      | inr e ↦
          let three : byte ≢ 3 = λ z. ground arith in
          let (t', r, same, most) =
            put_pieces-Ends bitnum m block q fuel (piece + m) bit' (byte + 1) t pos (omega arith)
              (omega arith) (omega arith) le fits in
          (t', rw (inside, e) r, same, omega arith)
      | inl e ↦
          let three : byte ≡ 3 = ground arith in
          let (t', r, same, most) = put-Ends (hex bit') t (omega arith) in
          elim (dec_lt t'.index bitnum) [
            | yes l ↦
                let (t'', r', same', most') =
                  put_pieces-Ends bitnum m block q fuel (piece + m) 0 0 t' pos (omega arith)
                    (omega arith) (omega arith) (omega arith) (omega arith) in
                let on : leb bitnum t'.index ≡ false = ground arith in
                (t'', rw (inside, e, r, on) r', omega arith, omega arith)
            | no l ↦
                let off : leb bitnum t'.index ≡ true = ground arith in
                (t', rw (inside, e, r, off) refl, same, omega arith)
          ]
    ]

-- A block adds as many characters as four times the pieces of a bit go into 128.
put_block-Ends :
    (bitnum m c : ℕ) (block : Option Block) (t : Text)
    → IsMerge m c
    → t.index ≤ bitnum
    → bitnum < t.size
    → Ends t.size (t.index + c) (put_block bitnum m block t)
unfolding put_block
put_block-Ends bitnum m c none t shape le fits =
    let (count, _, _, _) = IsMerge-sizes m c shape in rw count (put_zeros-Ends bitnum c t le fits)
put_block-Ends bitnum m c (some block) t shape le fits =
    let (_, whole, few, pos) = IsMerge-sizes m c shape in
    let (t', r, same, most) =
      put_pieces-Ends bitnum m block (c * 4) 129 0 0 0 t pos whole few (omega arith) le fits in
    (t', r, same, omega arith)

-- All blocks but the last fit in front of the end.
put_blocks-Ends :
    (bitnum m c : ℕ) (st : MemStorage) (n b : ℕ) (t : Text)
    → IsMerge m c
    → b + suc n ≤ st.allocated
    → t.index + n * c ≤ bitnum
    → bitnum < t.size
    → (t' : Text) × (put_blocks bitnum m st (suc n) b t ≡ ok t') × (t'.size ≡ t.size)
unfolding put_blocks
put_blocks-Ends bitnum m c st zero b t shape there le fits =
    let (t', r, same, _) = put_block-Ends bitnum m c (st.blocks b) t shape (omega arith) fits in
    let inside : ltb b st.allocated ≡ true = ground arith in (t', rw (inside, r) refl, same)
put_blocks-Ends bitnum m c st (suc n) b t shape there le fits =
    let more = suc-mul n c in
    let (t', r, same, most) = put_block-Ends bitnum m c (st.blocks b) t shape (omega arith) fits in
    let inside : ltb b st.allocated ≡ true = ground arith in
    let (t'', r', same') =
      put_blocks-Ends bitnum m c st n (b + 1) t' shape (omega arith) (omega arith) (omega arith) in
    (t'', rw (inside, r) r', omega arith)

-- How often the count is halved, and that all blocks but the last fit into it.
merge_lem :
    (size : ℕ)
    → 0 < size
    → (bitnum : ℕ) × (m : ℕ) × (c : ℕ) × (n : ℕ) × (merge 3 (bit_num size) 1 ≡ (bitnum, m))
      × IsMerge m c
      × (block_num size ≡ suc n)
      × (n * c ≤ bitnum)
unfolding merge bit_num
merge_lem size some_left =
    let n : ℕ = block_num size - 1 in
    let count : block_num size ≡ suc n = omega arith in
    let digits : ℕ = bit_num size in
    elim (dec_lt 128 digits) [
      | no l ↦ (digits, 1, 32, n, ground arith, inl (refl, refl), count, omega arith)
      | yes l ↦ elim (dec_lt 128 (digits / 2)) [
        | no k ↦ (digits / 2, 2, 16, n, ground arith, inr (inl (refl, refl)), count, omega arith)
        | yes k ↦
            (digits / 2 / 2, 4, 8, n, ground arith, inr (inr (refl, refl)), count, omega arith)
      ]
    ]

-- The text that is there has room for its characters and one more.
abbrev pub HasRoom : ℕ → Option Bitmap → Type 0
HasRoom size none = Unit
HasRoom size (some b) = (merge 3 (bit_num size) 1).0 < b.size

cleared_lem :
    (size bitnum m : ℕ) (o : Option Bitmap)
    → merge 3 (bit_num size) 1 ≡ (bitnum, m)
    → HasRoom size o
    → ((cleared bitnum o).index ≡ 0) × (bitnum < (cleared bitnum o).size)
unfolding cleared
cleared_lem size bitnum m none e h = (refl, omega arith)
cleared_lem size bitnum m (some b) e h = (refl, subst (λ p. p.0 < b.size) e h)

get_bitmap-text :
    (st : MemStorage) (bitnum m n : ℕ) (t : Text)
    → (st.filesize == 0) ≡ false
    → merge 3 (bit_num st.filesize) 1 ≡ (bitnum, m)
    → block_num st.estimate_size ≡ n
    → put_blocks bitnum m st n 0 (cleared bitnum st.bitmap) ≡ ok t
    → get_bitmap st
      ≡ ok (
        record st { bitmap = some (record { size = t.size; chars = t.chars }) },
        some (record { size = t.size; chars = t.chars }),
      )
unfolding get_bitmap
get_bitmap-text st bitnum m n t known e blocks r = rw (known, e, blocks, r) refl

-- On a valid cache of a file of known size, whose text has room for one byte more than its
-- characters if there is one, `get_bitmap` ends with no fault: all that it writes lies in what was
-- allocated, and the text has that room afterwards.
pub get_bitmap-HasRoom :
    (st : MemStorage)
    → IsValid st
    → 0 < st.filesize
    → HasRoom st.filesize st.bitmap
    → (b : Bitmap) × (get_bitmap st ≡ ok (record st { bitmap = some b }, some b))
      × HasRoom st.filesize (some b)
get_bitmap-HasRoom st v some_left room =
    let (bitnum, m, c, n, e, shape, count, le) = merge_lem st.filesize some_left in
    let same : st.filesize ≡ st.estimate_size = elim v.known [
      | inl z ↦ absurd (omega arith)
      | inr k ↦ k
    ] in
    let blocks : block_num st.estimate_size ≡ suc n = ap block_num (sym same) ∙ count in
    let entries : st.allocated ≡ suc n = v.entries ∙ blocks in
    let (zero_index, fits) = cleared_lem st.filesize bitnum m st.bitmap e room in
    let (t, r, size) =
      put_blocks-Ends bitnum m c st n 0 (cleared bitnum st.bitmap) shape (omega arith) (omega arith)
        fits in
    let known : (st.filesize == 0) ≡ false = ground arith in
    (
      record { size = t.size; chars = t.chars },
      get_bitmap-text st bitnum m (suc n) t known e blocks r,
      subst (λ p. p.0 < t.size) (sym e) (omega arith),
    )
