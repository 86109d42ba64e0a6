-- ===== src/MemStorage/Clear/Sweeps.antt =====
-- One block under `clear_buffer_for`: no fault, and only pieces that no reader holds are freed.
use libms.Base.{
  ℕ, zero, suc, ◌+◌, ◌-◌, ◌*◌, ◌%◌, ◌^◌, ◌≤◌, ◌<◌, ◌≡◌, refl, ◌∙◌, ap, subst, ◌⊎◌, inl, inr, Bool,
  true, false, ◌&&◌, none, some, List, [], ◌∷◌, ltb, leb, if◌then◌else◌, ok, arith, Bool-cases,
  Option-cases, dec_lt, le→leb, sym,
}
use libms.MemStorage.{Buf, Block, piece_unit_size, update, sub64}
use libms.MemStorage.View.{update-cases}
use libms.MemStorage.Clear.{
  hold_from, hold_end, should_hold_block, should_hold_piece, piece_len, Sweep, release_piece,
  sweep_piece, sweep_pieces,
}

-- The piece `k` lies in the 10 MiB before a position or the 20 MiB after it.
abbrev pub Around : ℕ → ℕ → Type 0
Around pos k =
    (pos ≤ k * piece_unit_size + 10485760)
    × (k * piece_unit_size + piece_unit_size ≤ pos + 20971520)

abbrev pub Held : List ℕ → ℕ → Type 0
Held [] k = ⊥
Held (pos ∷ hold_pos) k = Around pos k ⊎ Held hold_pos k

-- What the answer of `should_hold_piece` says.
abbrev Says : List ℕ → ℕ → Bool → Type 0
Says hold_pos k true = Held hold_pos k
Says hold_pos k false = ¬ Held hold_pos k

Says-cons :
    (pos k : ℕ) (hold_pos : List ℕ) (held : Bool)
    → ¬ Around pos k
    → Says hold_pos k held
    → Says (pos ∷ hold_pos) k held
Says-cons pos k hold_pos true n s = inr s
Says-cons pos k hold_pos false n s = λ h. elim h [ inl a ↦ n a | inr r ↦ s r ]

-- The test that the code makes.
abbrev around : ℕ → ℕ → ℕ → Bool
around pos start size = leb (hold_from pos) start && leb (start + size) (hold_end pos)

around-Around :
    (pos i j : ℕ)
    → ((around pos (i * 2097152 + j * 16384) 16384 ≡ true) × Around pos (i * 128 + j))
      ⊎ ((around pos (i * 2097152 + j * 16384) 16384 ≡ false) × ¬ Around pos (i * 128 + j))
around-Around pos i j = elim (Bool-cases (around pos (i * 2097152 + j * 16384) 16384)) [
  | inl t ↦ inl (t, ground arith)
  | inr f ↦ inr (f, λ a. ground arith)
]

should_hold_piece-Says :
    (i j : ℕ) (hold_pos : List ℕ)
    → i * 2097152 + j * 16384 ≤ 2147483647
    → (held : Bool) × (should_hold_piece i j hold_pos ≡ ok held) × Says hold_pos (i * 128 + j) held
unfolding should_hold_piece
should_hold_piece-Says i j [] h = (false, refl, λ p. p)
should_hold_piece-Says i j (pos ∷ hold_pos) h =
    let (held, e, says) = should_hold_piece-Says i j hold_pos h in
    let n = le→leb (i * 2097152 + j * 16384) 2147483647 h in
    elim (around-Around pos i j) [
      | inl (t, a) ↦ (true, rw (n, should_hold_piece, t), inl a)
      | inr (t, a) ↦
          (held, rw (n, should_hold_piece, t) e, Says-cons pos (i * 128 + j) hold_pos held a says)
    ]

pub should_hold_block-total :
    (i : ℕ) (hold_pos : List ℕ)
    → i * 2097152 ≤ 2147483647
    → (held : Bool) × (should_hold_block i hold_pos ≡ ok held)
unfolding should_hold_block
should_hold_block-total i [] h = (false, refl)
should_hold_block-total i (pos ∷ hold_pos) h =
    let (held, e) = should_hold_block-total i hold_pos h in
    let n = le→leb (i * 2097152) 2147483647 h in
    elim (Bool-cases (around pos (i * 2097152) 2097152)) [
      | inl t ↦ (true, rw (n, should_hold_block, t))
      | inr t ↦ (held, rw (n, should_hold_block, t) e)
    ]

module _ (filesize : ℕ) (hold_pos : List ℕ) (i : ℕ) (b0 : Block) where
  -- Each piece of the block is as it was, or freed and not held.
  abbrev pub Kept : Block → Type 0
  Kept b = (j : ℕ) → (b j ≡ b0 j) ⊎ ((b j ≡ none) × ¬ Held hold_pos (i * 128 + j))

  -- The pieces before `j` have been swept.
  pub record Swept (j : ℕ) (w : Sweep) : Type 0 where
    pub kept : Kept w.block
    pub counts : w.release_count ≤ w.buf_count
    pub all : w.release_count ≡ w.buf_count → (j' : ℕ) → j' < j → w.block j' ≡ none

  -- One more piece: missing, or held and counted, or freed.
  Swept-gap : (j : ℕ) (w : Sweep) → w.block j ≡ none → Swept j w → Swept (j + 1) w
  Swept-gap j w gap s = record {
    kept = s.kept;
    counts = s.counts;
    all = λ e j' l. elim (dec_lt j' j) [
      | yes before ↦ s.all e j' before
      | no here ↦ let same : j' ≡ j = omega arith in ap w.block same ∙ gap
    ];
  }

  Swept-held :
      (j : ℕ) (w : Sweep) → Swept j w → Swept (j + 1) (record w { buf_count = w.buf_count + 1 })
  Swept-held j w s = record {
    kept = s.kept;
    counts = omega (arith, s.counts);
    all = λ e. absurd (omega (arith, s.counts));
  }

  release_piece-Swept :
      (j : ℕ) (w : Sweep)
      → i * 2097152 + j * 16384 ≤ 2147483647
      → ¬ Held hold_pos (i * 128 + j)
      → Swept j w
      → (w' : Sweep) × (release_piece filesize hold_pos i j w ≡ ok w') × Swept (j + 1) w'
  unfolding release_piece piece_len
  release_piece-Swept j w h free s =
      let start : ℕ = i * 2097152 + j * 16384 in
      let n : ℕ = if ltb filesize (start + 16384) then sub64 filesize start else 16384 in
      (
        record {
          block = update w.block j none;
          buf_count = w.buf_count + 1;
          release_count = w.release_count + 1;
          completed = sub64 w.completed n;
          release_len = (w.release_len + 2 ^ 64 - n) % 2 ^ 32;
        },
        rw (le→leb start 2147483647 h),
        record {
          kept = λ j'. elim (update-cases w.block j none j') [
            | inl (here, e) ↦ inr (e, subst (λ m. ¬ Held hold_pos (i * 128 + m)) (sym here) free)
            | inr (_, e) ↦ rw e (s.kept j')
          ];
          counts = omega (arith, s.counts);
          all = λ e j' l. ground (arith, s.all (omega arith) j');
        },
      )

  -- A cached piece, by the answer of `should_hold_piece`.
  sweep_cached-Swept :
      (j : ℕ) (w : Sweep) (p : Buf) (held : Bool)
      → w.block j ≡ some p
      → i * 2097152 + j * 16384 ≤ 2147483647
      → should_hold_piece i j hold_pos ≡ ok held
      → Says hold_pos (i * 128 + j) held
      → Swept j w
      → (w' : Sweep) × (sweep_piece filesize hold_pos i j w ≡ ok w') × Swept (j + 1) w'
  unfolding sweep_piece
  sweep_cached-Swept j w p true found h e says s =
      (record w { buf_count = w.buf_count + 1 }, ground (arith, found, e), Swept-held j w s)
  sweep_cached-Swept j w p false found h e says s =
      rw (found, sweep_piece, e) (release_piece-Swept j w h says s)

  sweep_piece-Swept :
      (j : ℕ) (w : Sweep)
      → ((p : Buf) → b0 j ≡ some p → i * 2097152 + j * 16384 ≤ 2147483647)
      → Swept j w
      → (w' : Sweep) × (sweep_piece filesize hold_pos i j w ≡ ok w') × Swept (j + 1) w'
  unfolding sweep_piece
  sweep_piece-Swept j w h s = elim (Option-cases (w.block j)) [
    | inl gap ↦ (w, rw (gap, sweep_piece), Swept-gap j w gap s)
    | inr (p, found) ↦
        let was : b0 j ≡ some p = elim (s.kept j) [ inl e ↦ sym e ∙ found | inr (e, _) ↦ cc ] in
        let (held, e, says) = should_hold_piece-Says i j hold_pos (h p was) in
        sweep_cached-Swept j w p held found (h p was) e says s
  ]

  pub sweep_pieces-Swept :
      (rounds j : ℕ) (w : Sweep)
      → j + rounds ≡ 128
      → ((j : ℕ) (p : Buf) → j < 128 → b0 j ≡ some p → i * 2097152 + j * 16384 ≤ 2147483647)
      → Swept j w
      → (w' : Sweep) × (sweep_pieces filesize hold_pos rounds i j w ≡ ok w') × Swept 128 w'
  unfolding sweep_pieces
  sweep_pieces-Swept zero j w r h s =
      (w, refl, let e : j ≡ 128 = omega arith in subst (λ m. Swept m w) e s)
  sweep_pieces-Swept (suc rounds) j w r h s =
      let (w', e, s') = sweep_piece-Swept j w (λ p. h j p (omega arith)) s in
      rw (e, sweep_pieces) (sweep_pieces-Swept rounds (j + 1) w' (omega arith) h s')
