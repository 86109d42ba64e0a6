-- ===== src/MemStorage/CachedFrom/AtEnd.antt =====
-- `cached_from` at the end of the file, where a reader stands that has all of it.
use libms.Base.{
  ℕ, zero, suc, ◌+◌, ◌-◌, ◌*◌, ◌/◌, ◌%◌, ◌^◌, ◌≤◌, ◌<◌, ◌≡◌, ◌⊎◌, inl, inr, refl, true, false, none,
  some, ltb, ◌==◌, ok, if◌then◌else◌, arith, Option-cases, Outcome, to_int, dec_lt, subst, sym, ◌∙◌,
}
use libms.MemStorage.{
  Block, MemStorage, piece_unit_size, block_unit_size, piece_num_of_per_block, block_num, minus_one,
}
use libms.MemStorage.View.{IsValid, piece_at-block}
use libms.MemStorage.CachedFrom.{
  Scan, Exit, returned, went_on, clip, mark_piece, first_piece, scan_pieces, scan_blocks,
  cached_from,
}
use libms.MemStorage.CachedFrom.Loops.{cached_from-Found}

clip-ok : (e : ℕ) (s : Scan) → s.pos ≤ e → (s' : Scan) × (clip e s ≡ ok s')
unfolding clip
clip-ok e s le = (if ltb e (s.pos + s.len) then record s { len = e - s.pos } else s, ground arith)

module _ (e from : ℕ) (block : Block) (i : ℕ) where
  Missing : ℕ → ℕ → Type 0
  Missing j rounds = (k : ℕ) → j ≤ k → k < j + rounds → block k ≡ none

  -- Nothing is found.
  scan_pieces-Missing :
      (rounds j pos len : ℕ)
      → Missing j rounds
      → scan_pieces e from rounds block i j (record { pos = pos; len = len; find_first = false })
        ≡ ok (went_on (record { pos = pos; len = len; find_first = false }))
  unfolding scan_pieces Missing
  scan_pieces-Missing zero j pos len missing = refl
  scan_pieces-Missing (suc rounds) j pos len missing =
      let here : block j ≡ none = missing j (omega arith) (omega arith) in
      rw (scan_pieces, here)
        (scan_pieces-Missing rounds (j + 1) pos len
          (λ k h l. missing k (omega arith) (omega arith)))

  -- What a scan that found the end of the file comes to.
  abbrev Stops : Outcome Exit → Type 0
  Stops m = (s : Scan) × ((m ≡ ok (returned s)) ⊎ ((m ≡ ok (went_on s)) × (s.pos ≤ e)))

  -- The stretch that was found ends.
  scan_pieces-Stops :
      (rounds j pos len : ℕ)
      → pos ≤ e
      → Missing j rounds
      → Stops
          (scan_pieces e from rounds block i j (record { pos = pos; len = len; find_first = true }))
  unfolding scan_pieces Missing
  scan_pieces-Stops zero j pos len le missing =
      (record { pos = pos; len = len; find_first = true }, inr (refl, le))
  scan_pieces-Stops (suc rounds) j pos len le missing =
      let here : block j ≡ none = missing j (omega arith) (omega arith) in
      let (s, cut) = clip-ok e (record { pos = pos; len = len; find_first = true }) le in
      (s, inl (rw (scan_pieces, here, cut) refl))

  abbrev start : Scan
  start = record { pos = 0; len = 0; find_first = false }

  -- The first piece may be cached, the others are not.
  scan_pieces-first :
      (rounds j : ℕ)
      → from ≡ e
      → e ≤ 2 ^ 31
      → block_unit_size * i + piece_unit_size * j < e ⊎ (block j ≡ none)
      → Missing (j + 1) rounds
      → Stops (scan_pieces e from (suc rounds) block i j start)
  unfolding scan_pieces mark_piece
  scan_pieces-first rounds j at small before missing = elim (Option-cases (block j)) [
    | inl none_here ↦ (
      start,
      inr (
        rw (scan_pieces, none_here) (scan_pieces-Missing rounds (j + 1) 0 0 missing),
        omega arith,
      ),
    )
    | inr (b, here) ↦
        let l : block_unit_size * i + piece_unit_size * j < e = elim before [
          | inl l ↦ l
          | inr n ↦ absurd (cc)
        ] in
        let pos : ℕ = block_unit_size * i + piece_unit_size * j in
        let fits : to_int pos ≡ ok pos = ground arith in
        let under : ltb pos from ≡ true = ground arith in
        let (s, or) =
          scan_pieces-Stops rounds (j + 1) from (piece_unit_size - (from - pos)) (omega arith)
            missing in
        (s, rw (scan_pieces, here, fits, under) or)
  ]

module _ (st : MemStorage) (v : IsValid st) (small : st.estimate_size ≤ 2 ^ 31)
    (some_size : 0 < st.estimate_size) where
  e : ℕ
  e = st.estimate_size

  -- A piece behind the end is not cached.
  no_piece :
      (block : Block) (j : ℕ)
      → st.blocks (e / block_unit_size) ≡ some block
      → j < 128
      → e ≤ (e / block_unit_size * 128 + j) * piece_unit_size
      → block j ≡ none
  unfolding e
  no_piece block j there l behind = elim (Option-cases (block j)) [
    | inl n ↦ n
    | inr (b, h) ↦
        let k : ℕ = e / block_unit_size * 128 + j in
        let inside =
          v.inside k b (piece_at-block st (e / block_unit_size) j k block there l refl ∙ h) in
        absurd (omega arith)
  ]

  last_block :
      (block : Block)
      → st.blocks (e / block_unit_size) ≡ some block
      → Stops e e block (e / block_unit_size) (
          scan_pieces e e
            (piece_num_of_per_block - first_piece e (e / block_unit_size))
            block
            (e / block_unit_size)
            (first_piece e (e / block_unit_size))
            (start e e block (e / block_unit_size)))
  unfolding e Missing
  last_block block there =
      let i : ℕ = e / block_unit_size in
      let j : ℕ = e % block_unit_size / piece_unit_size in
      let first : first_piece e i ≡ j = ground arith in
      let rounds : piece_num_of_per_block - j ≡ suc (127 - j) = omega arith in
      let before : (block_unit_size * i + piece_unit_size * j < e) ⊎ (block j ≡ none) =
        elim (dec_lt (block_unit_size * i + piece_unit_size * j) e) [
          | yes l ↦ inl l
          | no l ↦ inr (no_piece block j there (omega arith) (omega arith))
        ] in
      rw (first, rounds)
        (scan_pieces-first e e block i (127 - j) j refl small before
          (λ k h l. no_piece block k there (omega arith) (omega arith)))

  scan_blocks-at_end :
      (rounds : ℕ)
      → rounds ≡ block_num e - e / block_unit_size
      → (s : Scan) × (scan_blocks e e rounds st
            (e / block_unit_size)
            (record { pos = 0; len = 0; find_first = false })
          ≡ ok s)
  unfolding e scan_blocks
  scan_blocks-at_end zero _ =
      clip-ok e (record { pos = 0; len = 0; find_first = false }) (omega arith)
  scan_blocks-at_end (suc (suc rounds)) r = absurd (omega arith)
  scan_blocks-at_end (suc zero) r =
      let i : ℕ = e / block_unit_size in
      let fits : ltb i st.allocated ≡ true = ground (arith, v.entries) in
      elim (Option-cases (st.blocks i)) [
        | inl n ↦
            let (s, cut) =
              clip-ok e (record { pos = 0; len = 0; find_first = false }) (omega arith) in
            (s, rw (scan_blocks, fits, n) cut)
        | inr (block, there) ↦
            let (s, or) = last_block block there in
            elim or [
              | inl done ↦ (s, rw (scan_blocks, fits, there, done) refl)
              | inr (on, le) ↦
                  let (s', cut) = clip-ok e s le in (s', rw (scan_blocks, fits, there, on) cut)
            ]
      ]

  cached_from-at_end : (pos : ℕ) × (len : ℕ) × (cached_from st e ≡ ok (pos, len))
  unfolding cached_from e
  cached_from-at_end =
      let (s, done) = scan_blocks-at_end (block_num e - e / block_unit_size) refl in
      let known : (e == 0) ≡ false = ground arith in
      (s.pos, s.len, rw (cached_from, known, done) refl)

-- Up to the end of the file `cached_from` ends with no fault.
pub cached_from-ok :
    (st : MemStorage) (from : ℕ)
    → IsValid st
    → st.estimate_size ≤ 2 ^ 31
    → from ≤ st.estimate_size
    → (pos : ℕ) × (len : ℕ) × (cached_from st from ≡ ok (pos, len))
unfolding cached_from e
cached_from-ok st from v small le = elim (dec_lt from st.estimate_size) [
  | yes l ↦ let (pos, len, done, _) = cached_from-Found st from v small l in (pos, len, done)
  | no l ↦
      let same : from ≡ st.estimate_size = omega arith in
      elim (dec_lt 0 st.estimate_size) [
        | yes h ↦
            subst (λ p. (pos : ℕ) × (len : ℕ) × (cached_from st p ≡ ok (pos, len))) (sym same)
              (cached_from-at_end st v small h)
        | no h ↦
            let none_known : (st.estimate_size == 0) ≡ true = ground arith in
            (from, minus_one, rw (cached_from, none_known) refl)
      ]
]
