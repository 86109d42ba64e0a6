-- ===== src/MemStorage/Read/Prefix.antt =====
-- `storage_read` takes the longest cached stretch from its position on.
use libms.Base.{
  ℕ, zero, suc, ◌+◌, ◌-◌, ◌*◌, ◌/◌, ◌%◌, ◌≤◌, ◌<◌, ◌≡◌, refl, none, some, ltb, leb, dec_lt, ◌∙◌, ap,
  arith, min, Bool-cases, Option-cases, inl, inr, ◌⊎◌, Outcome, ok, subst, lt→ltb, ltb→lt, ltb→le,
  leb→le, leb→lt,
}
use libms.MemStorage.{
  Buf, Block, MemStorage, piece_unit_size, block_unit_size, block_num, block_index, piece_index,
}
use libms.MemStorage.View.{piece_at, byte_at, IsValid, piece_at-block, piece_at-none}
use libms.MemStorage.Read.{
  Transfer, Exit, returned, went_on, read_piece, read_pieces, read_blocks, storage_read,
}

Exit-cases : (e : Exit) → ((t : Transfer) × (e ≡ returned t)) ⊎ ((t : Transfer) × (e ≡ went_on t))
Exit-cases (returned t) = inl (t, refl)
Exit-cases (went_on t) = inr (t, refl)

module _ (pos len : ℕ) (st : MemStorage) (buf : Buf) where
  -- Bytes read so far are the cached ones, and the rest of the caller's buffer is as it was.
  pub record Copied (t : Transfer) : Type 0 where
    pub count : t.read ≤ len
    pub bytes : (i : ℕ) → i < t.read → byte_at st (pos + i) ≡ some (t.out i)
    pub rest : (i : ℕ) → t.read ≤ i → t.out i ≡ buf i

  -- Read until a piece is missing.
  abbrev pub Stuck : Transfer → Type 0
  Stuck t = (t.read < len) × (piece_at st ((pos + t.read) / piece_unit_size) ≡ none)

  read_piece-Copied :
      (b : Buf) (t : Transfer)
      → t.read < len
      → piece_at st ((pos + t.read) / piece_unit_size) ≡ some b
      → Copied t
      → Copied (read_piece pos len b t)
  unfolding read_piece byte_at
  read_piece-Copied b t h e c = record {
    count = ground arith;
    bytes = λ i hi. ground (arith, c.bytes i);
    rest = λ i hi. ground (arith, c.rest i);
  }

  read-read_piece :
      (b : Buf) (t : Transfer)
      → t.read ≤ len
      → (read_piece pos len b t).read
        ≡ min len (t.read + (piece_unit_size - (pos + t.read) % piece_unit_size))
  unfolding read_piece
  read-read_piece b t h = ground arith

  -- What the inner loop comes to in the block `i`.
  abbrev AfterBlock : ℕ → Exit → Type 0
  AfterBlock i (returned t) = Copied t × Stuck t
  AfterBlock i (went_on t) =
      Copied t × ((t.read ≡ len) ⊎ (pos + t.read ≡ (i + 1) * block_unit_size))

  read_pieces-AfterBlock :
      (rounds i j : ℕ) (b : Block) (t : Transfer)
      → st.blocks i ≡ some b
      → j < 128
      → 128 ≤ j + rounds
      → Copied t
      → (t.read < len → (pos + t.read) / piece_unit_size ≡ i * 128 + j)
      → AfterBlock i (read_pieces pos len rounds b j t)
  unfolding read_pieces
  read_pieces-AfterBlock zero i j b t e h r c k = absurd (omega arith)
  read_pieces-AfterBlock (suc rounds) i j b t e h r c k = elim (Bool-cases (ltb t.read len)) [
    | inr done ↦ rw (done, read_pieces) (c, inl (omega (arith, c.count, ltb→le t.read len done)))
    | inl more ↦
        let lt : t.read < len = ltb→lt t.read len more in
        let at = piece_at-block st i j ((pos + t.read) / piece_unit_size) b e h (k lt) in
        elim (Option-cases (b j)) [
          | inl missing ↦ rw (more, read_pieces, missing) (c, (lt, at ∙ missing))
          | inr (p, found) ↦
              let c' : Copied (read_piece pos len p t) = read_piece-Copied p t lt (at ∙ found) c in
              let n = read-read_piece p t c.count in
              elim (Bool-cases (leb 128 (j + 1))) [
                | inl end ↦
                    rw (more, read_pieces, found, end)
                      (c', omega (arith, n, leb→le 128 (j + 1) end, k lt))
                | inr inside ↦
                    rw (more, read_pieces, found, inside)
                      (read_pieces-AfterBlock rounds i (j + 1) b (read_piece pos len p t) e
                        (omega (arith, leb→lt 128 (j + 1) inside)) (omega arith) c'
                        (λ l. omega (arith, n, k lt)))
              ]
        ]
  ]

  -- All that was asked for is read, or the next piece is missing.
  abbrev pub Ended : Transfer → Type 0
  Ended t = (t.read ≡ len) ⊎ Stuck t

  abbrev Ends : Outcome Transfer → Type 0
  Ends r = (t : Transfer) × (r ≡ ok t) × Copied t × Ended t

  read_blocks-Ends :
      (fuel i : ℕ) (t : Transfer)
      → len < fuel + t.read
      → pos + len ≤ st.estimate_size
      → st.allocated ≡ block_num st.estimate_size
      → Copied t
      → (t.read < len → (pos + t.read) / block_unit_size ≡ i)
      → Ends (read_blocks pos len fuel st i t)
  unfolding read_blocks
  read_blocks-Ends zero i t f fits al c k = absurd (omega (arith, c.count))
  read_blocks-Ends (suc fuel) i t f fits al c k = elim (Bool-cases (ltb t.read len)) [
    | inr done ↦
        (t, rw (done, read_blocks), c, inl (omega (arith, c.count, ltb→le t.read len done)))
    | inl more ↦
        let lt : t.read < len = ltb→lt t.read len more in
        let il : i < st.allocated = omega (arith, k lt) in
        elim (Option-cases (st.blocks i)) [
          | inl missing ↦ (
            t,
            rw (more, read_blocks, lt→ltb i st.allocated il, missing),
            c,
            inr (
              lt,
              piece_at-none st i ((pos + t.read) / piece_unit_size) missing (omega (arith, k lt)),
            ),
          )
          | inr (b, found) ↦
              let ab : AfterBlock i (read_pieces pos len 128 b (piece_index (pos + t.read)) t) =
                read_pieces-AfterBlock 128 i (piece_index (pos + t.read)) b t found (omega arith)
                  (omega arith) c (λ l. omega (arith, k lt)) in
              elim (Exit-cases (read_pieces pos len 128 b (piece_index (pos + t.read)) t)) [
                | inl (t', e) ↦
                    let (c', stuck) = subst (AfterBlock i) e ab in
                    (t', rw (more, read_blocks, lt→ltb i st.allocated il, found, e), c', inr stuck)
                | inr (t', e) ↦
                    let (c', at) = subst (AfterBlock i) e ab in
                    elim (Bool-cases (leb (block_num st.estimate_size) (i + 1))) [
                      | inl last ↦ (
                        t',
                        rw (more, read_blocks, lt→ltb i st.allocated il, found, e, last),
                        c',
                        inl (
                            omega (
                              arith,
                              c'.count,
                              k lt,
                              leb→le (block_num st.estimate_size) (i + 1) last,
                            )),
                      )
                      | inr next ↦
                          rw (more, read_blocks, lt→ltb i st.allocated il, found, e, next)
                            (read_blocks-Ends fuel (i + 1) t' (omega (arith, c'.count, k lt)) fits
                              al c' (λ l. omega arith))
                    ]
              ]
        ]
  ]

  abbrev start : Transfer
  start = record { out = buf; read = 0 }

  start-Copied : Copied start
  start-Copied = record {
    count = omega arith;
    bytes = λ i h. absurd (omega arith);
    rest = λ i h. refl;
  }

  storage_read-empty : IsValid st → st.estimate_size ≡ 0 → storage_read pos len st buf ≡ ok start
  unfolding storage_read
  storage_read-empty v e = ground (arith, v.known)

  storage_read-read_blocks :
      0 < st.estimate_size
      → pos + len ≤ st.estimate_size
      → storage_read pos len st buf ≡ read_blocks pos len (len + 1) st (block_index pos) start
  unfolding storage_read
  storage_read-read_blocks h fits = ground arith

  -- On a valid cache, a read inside the estimated size ends with no fault: it fills the caller's
  -- buffer with the cached bytes from the position on, leaves the rest of that buffer alone, and
  -- stops short only where the piece with the next byte is not cached.
  pub storage_read-Ends :
      IsValid st
      → pos + len ≤ st.estimate_size
      → (t : Transfer) × (storage_read pos len st buf ≡ ok t) × Copied t × Ended t
  storage_read-Ends v fits = elim (dec_lt 0 st.estimate_size) [
    | yes h ↦ rw (storage_read-read_blocks h fits) (
        read_blocks-Ends (len + 1) (block_index pos) start (omega arith) fits v.entries start-Copied
          (λ l. ap (λ (n : ℕ). n / block_unit_size) (omega arith)))
    | no h ↦ (start, storage_read-empty v (omega arith), start-Copied, inl (omega arith))
  ]
