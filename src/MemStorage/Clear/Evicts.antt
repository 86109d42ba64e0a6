-- ===== src/MemStorage/Clear/Evicts.antt =====
-- `clear_buffer_for` on the whole cache.
use libms.Base.{
  ℕ, zero, suc, ◌+◌, ◌-◌, ◌*◌, ◌/◌, ◌%◌, ◌^◌, ◌≤◌, ◌<◌, ◌≡◌, refl, ◌∙◌, subst, ◌⊎◌, inl, inr, Bool,
  true, false, ◌&&◌, none, some, List, length, ltb, ◌==◌, Outcome, ok, arith, Bool-cases,
  Option-cases, lt→ltb, sym,
}
use libms.MemStorage.{
  Buf, Block, MemStorage, piece_unit_size, block_num, add64, leb_int64, hold_size, hold_head_size,
}
use libms.MemStorage.View.{piece_of, piece_at, IsValid, piece_at-block, update-cases}
use libms.MemStorage.Clear.{
  Sweep, block_left, leave_block, is_enough, sweep_blocks, clear_buffer_for,
}
use libms.MemStorage.Clear.Sweeps.{Held, Swept, should_hold_block-total, sweep_pieces-Swept}

module _ (hold_pos : List ℕ) where
  -- What an eviction may do: the sizes stay, and each piece is as it was, or it has been freed,
  -- lies behind the first 2 MiB and is held by no position.
  pub record Evicted (st st' : MemStorage) : Type 0 where
    pub estimate : st'.estimate_size ≡ st.estimate_size
    pub file : st'.filesize ≡ st.filesize
    pub array : st'.allocated ≡ st.allocated
    pub pieces :
        (k : ℕ)
        → (piece_at st' k ≡ piece_at st k)
          ⊎ ((piece_at st' k ≡ none) × (hold_head_size ≤ k * piece_unit_size) × ¬ Held hold_pos k)

  Evicted-refl : (st : MemStorage) → Evicted st st
  Evicted-refl st = record { estimate = refl; file = refl; array = refl; pieces = λ k. inl refl }

  Evicted-trans : {st st' st'' : MemStorage} → Evicted st st' → Evicted st' st'' → Evicted st st''
  Evicted-trans a b = record {
    estimate = b.estimate ∙ a.estimate;
    file = b.file ∙ a.file;
    array = b.array ∙ a.array;
    pieces = λ k. elim (b.pieces k) [
      | inl e ↦ elim (a.pieces k) [
        | inl f ↦ inl (e ∙ f)
        | inr (f, head, free) ↦ inr (e ∙ f, head, free)
      ]
      | inr freed ↦ inr freed
    ];
  }

  Evicted-IsValid : {st st' : MemStorage} → IsValid st → Evicted st st' → IsValid st'
  Evicted-IsValid v q = record {
    entries = omega (arith, v.entries, q.estimate, q.array);
    known = elim v.known [ inl z ↦ inl (q.file ∙ z) | inr e ↦ inr (q.file ∙ e ∙ sym q.estimate) ];
    inside = λ k b e. elim (q.pieces k) [
      | inl same ↦ omega (arith, q.estimate, v.inside k b (sym same ∙ e))
      | inr (gone, _, _) ↦ cc
    ];
  }

  module _ (st : MemStorage) (i : ℕ) (b0 : Block) (w : Sweep) (f : st.blocks i ≡ some b0)
      (h : 1 ≤ i) (s : Swept st.filesize hold_pos i b0 128 w) where
    -- The block's pieces after the sweep, also if the block itself was freed.
    block_left-piece_of : (j : ℕ) → j < 128 → piece_of (block_left w) j ≡ w.block j
    unfolding block_left
    block_left-piece_of j l =
        elim (Bool-cases (ltb 0 w.release_count && w.release_count == w.buf_count)) [
          | inl freed ↦ rw freed (sym (s.all (ground arith) j l))
          | inr kept ↦ rw kept
        ]

    leave_block-Evicted : Evicted st (leave_block st i w)
    unfolding leave_block piece_at
    leave_block-Evicted = record {
      estimate = refl;
      file = refl;
      array = refl;
      pieces = λ k. elim (update-cases st.blocks i (block_left w) (k / 128)) [
        | inl (here, e) ↦
            let left = block_left-piece_of (k % 128) (omega arith) in
            elim (s.kept (k % 128)) [
              | inl same ↦ inl (rw (e, left, same, here, f))
              | inr (gone, free) ↦ inr (
                rw (e, left, gone),
                omega arith,
                subst (λ m. ¬ Held hold_pos m) (omega arith) free,
              )
            ]
        | inr (_, e) ↦ inl (rw e)
      ];
    }

  abbrev Clears : MemStorage → Outcome MemStorage → Type 0
  Clears st r = (st' : MemStorage) × (r ≡ ok st') × IsValid st' × Evicted st st'

  -- Whether or not enough has been released.
  go_on :
      {st st' : MemStorage} {next : Outcome MemStorage} (enough : Bool)
      → IsValid st'
      → Evicted st st'
      → Clears st' next
      → Clears st (elim enough [ true ↦ ok st' | false ↦ next ])
  go_on {st' = st'} true v a c = (st', refl, v, a)
  go_on false v a (st'', e, v', b) = (st'', e, v', Evicted-trans a b)

  -- The cached pieces of a block lie within an `int`.
  in_int :
      (st : MemStorage) (i : ℕ) (b0 : Block)
      → IsValid st
      → st.estimate_size ≤ 2 ^ 31
      → st.blocks i ≡ some b0
      → (j : ℕ) (p : Buf) → j < 128
      → b0 j ≡ some p
      → i * 2097152 + j * 16384 ≤ 2147483647
  in_int st i b0 v small f j p l e =
      let here = piece_at-block st i j (i * 128 + j) b0 f l refl ∙ e in
      omega (arith, v.inside (i * 128 + j) p here)

  sweep_blocks-Clears :
      (rounds i release_len : ℕ) (st : MemStorage)
      → IsValid st
      → st.estimate_size ≤ 2 ^ 31
      → 1 ≤ i
      → rounds ≤ block_num st.estimate_size - i
      → Clears st (sweep_blocks st.filesize hold_pos rounds i release_len st)
  unfolding sweep_blocks
  sweep_blocks-Clears zero i release_len st v small h r = (st, refl, v, Evicted-refl st)
  sweep_blocks-Clears (suc rounds) i release_len st v small h r =
      let load = lt→ltb i st.allocated (omega (arith, v.entries)) in
      elim (Option-cases (st.blocks i)) [
        | inl gap ↦
            rw (load, sweep_blocks, gap)
              (sweep_blocks-Clears rounds (i + 1) release_len st v small (omega arith)
                (omega arith))
        | inr (b0, found) ↦
            let (held, e) = should_hold_block-total i hold_pos (omega arith) in
            elim (Bool-cases held) [
              | inl yes_held ↦
                  rw (load, sweep_blocks, found, e, yes_held)
                    (sweep_blocks-Clears rounds (i + 1) release_len st v small (omega arith)
                      (omega arith))
              | inr not_held ↦
                  let (w, swept, s) =
                    sweep_pieces-Swept st.filesize hold_pos i b0 128 0
                      (record {
                        block = b0;
                        buf_count = 0;
                        release_count = 0;
                        completed = st.completed_size;
                        release_len = release_len;
                      })
                      refl (in_int st i b0 v small found)
                      (record {
                        kept = λ j. inl refl;
                        counts = omega arith;
                        all = λ _ j l. absurd (omega arith);
                      }) in
                  let q = leave_block-Evicted st i b0 w found h s in
                  let v' = Evicted-IsValid v q in
                  rw (load, sweep_blocks, found, e, not_held, swept)
                    (go_on (is_enough w.release_len) v' q (
                      sweep_blocks-Clears rounds (i + 1) w.release_len (leave_block st i w) v' small
                        (omega arith) (omega arith)))
            ]
      ]

  -- On a valid cache of at most 2 GiB, `clear_buffer_for` ends with no fault and leaves it valid
  -- with its sizes; each piece stays as it was, or it has been freed, lies behind the first 2 MiB
  -- and is held by none of the positions.
  pub clear_buffer_for-Evicted :
      (st : MemStorage) (len : ℕ)
      → IsValid st
      → st.estimate_size ≤ 2 ^ 31
      → (st' : MemStorage) × (clear_buffer_for st len hold_pos ≡ ok st')
        × IsValid st'
        × Evicted st st'
  unfolding clear_buffer_for
  clear_buffer_for-Evicted st len v small =
      elim (Bool-cases (leb_int64 (add64 st.completed_size len) (hold_size (length hold_pos)))) [
        | inl within ↦ (st, rw (within, clear_buffer_for), v, Evicted-refl st)
        | inr beyond ↦
            rw (beyond, clear_buffer_for)
              (sweep_blocks-Clears (block_num st.estimate_size - 1) 1 (len % 2 ^ 32) st v small
                (omega arith) (omega arith))
      ]
