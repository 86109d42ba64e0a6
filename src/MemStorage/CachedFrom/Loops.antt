-- ===== src/MemStorage/CachedFrom/Loops.antt =====
-- The loops of `cached_from` keep what has been scanned, and end with a stretch or with nothing.
use libms.Base.{
  ℕ, zero, suc, ◌+◌, ◌-◌, ◌*◌, ◌/◌, ◌^◌, ◌≤◌, ◌<◌, ◌≡◌, refl, subst, true, false, none, some, ltb,
  Outcome, ok, ◌⊎◌, inl, inr, arith, Option-cases, dec_lt, ◌∙◌, ap, lt→ltb,
}
use libms.MemStorage.{Block, MemStorage, piece_unit_size, block_num, block_index}
use libms.MemStorage.View.{piece_at, byte_at, IsValid, piece_at-block, piece_at-none}
use libms.MemStorage.CachedFrom.{
  Scan, Exit, returned, went_on, clip, scan_pieces, first_piece, scan_blocks, cached_from,
}
use libms.MemStorage.CachedFrom.Finds.{
  Before, Within, Scanned, Stretch, Found, mark_piece-Within, Within-Stretch, clip-Stretch,
}

module _ (st : MemStorage) (from : ℕ) (v : IsValid st) (small : st.estimate_size ≤ 2 ^ 31)
    (lt : from < st.estimate_size) where
  Before-suc :
      (k : ℕ) (s : Scan) → piece_at st k ≡ none → Before st from k s → Before st from (k + 1) s
  Before-suc k s e q = record {
    fresh = q.fresh;
    at = q.at;
    none_yet = q.none_yet;
    missing = λ j h1 h2. elim (dec_lt j k) [
      | yes l ↦ q.missing j h1 l
      | no l ↦ let same : j ≡ k = omega arith in ap (piece_at st) same ∙ e
    ];
  }

  abbrev AfterBlock : ℕ → Exit → Type 0
  AfterBlock i (returned s) = Stretch st from s.pos s.len
  AfterBlock i (went_on s) = Scanned st from ((i + 1) * 128) s

  abbrev Ends : ℕ → Outcome Exit → Type 0
  Ends i r = (e : Exit) × (r ≡ ok e) × AfterBlock i e

  scan_pieces-Ends :
      (rounds i j k : ℕ) (b : Block) (s : Scan)
      → st.blocks i ≡ some b
      → j + rounds ≡ 128
      → k ≡ i * 128 + j
      → from / piece_unit_size ≤ k
      → Scanned st from k s
      → Ends i (scan_pieces st.estimate_size from rounds b i j s)
  unfolding scan_pieces
  scan_pieces-Ends zero i j k b s e r kk h q =
      let end : k ≡ (i + 1) * 128 = omega arith in
      (went_on s, refl, subst (λ n. Scanned st from n s) end q)
  scan_pieces-Ends (suc rounds) i j k b s e r kk h q = elim (Option-cases (b j)) [
    | inl gap ↦
        let missing = piece_at-block st i j k b e (omega arith) kk ∙ gap in
        elim q [
          | inl before ↦
              rw (gap, scan_pieces, before.fresh)
                (scan_pieces-Ends rounds i (j + 1) (k + 1) b s e (omega arith) (omega arith)
                  (omega arith) (inl (Before-suc k s missing before)))
          | inr within ↦
              let (s', c, stretch) = clip-Stretch st from k s (inr missing) within in
              rw (gap, scan_pieces, within.begun, c) (returned s', refl, stretch)
        ]
    | inr (p, found) ↦
        let here = piece_at-block st i j k b e (omega arith) kk ∙ found in
        let (s', c, within) = mark_piece-Within st from i j k s p v small lt kk h here q in
        rw (found, scan_pieces, c)
          (scan_pieces-Ends rounds i (j + 1) (k + 1) b s' e (omega arith) (omega arith)
            (omega arith) (inr within))
  ]

  -- The piece at which the scan of the block `i` begins.
  abbrev entry : ℕ → ℕ
  entry i = i * 128 + first_piece from i

  abbrev AtBlock : ℕ → Scan → Type 0
  AtBlock i s = Before st from (entry i) s ⊎ (Within st from (i * 128) s × (block_index from < i))

  abbrev Finds : Outcome Scan → Type 0
  Finds r = (s : Scan) × (r ≡ ok s) × Found st from s.pos s.len

  byte_at-none : (p : ℕ) → piece_at st (p / piece_unit_size) ≡ none → byte_at st p ≡ none
  unfolding byte_at
  byte_at-none p e = ground (arith, e)

  Before-Nothing :
      (k : ℕ) (s : Scan)
      → st.estimate_size ≤ k * piece_unit_size
      → Before st from k s
      → Finds (clip st.estimate_size s)
  unfolding clip
  Before-Nothing k s h q = (
    s,
    ground (arith, q.at, q.none_yet),
    inr (
      q.at,
      q.none_yet,
      λ p h1 h2. byte_at-none p (q.missing (p / piece_unit_size) (omega arith) (omega arith)),
    ),
  )

  -- A block that has not been allocated has no cached piece.
  Before-block :
      (i : ℕ) (s : Scan)
      → block_index from ≤ i
      → st.blocks i ≡ none
      → Before st from (entry i) s
      → Before st from (entry (i + 1)) s
  Before-block i s h e q = record {
    fresh = q.fresh;
    at = q.at;
    none_yet = q.none_yet;
    missing = λ j h1 h2. elim (dec_lt j (entry i)) [
      | yes l ↦ q.missing j h1 l
      | no l ↦ piece_at-none st i j e (ground arith)
    ];
  }

  Scanned-AtBlock :
      (i : ℕ) (s : Scan)
      → block_index from ≤ i
      → Scanned st from ((i + 1) * 128) s
      → AtBlock (i + 1) s
  Scanned-AtBlock i s h (inl q) =
      let e : (i + 1) * 128 ≡ entry (i + 1) = ground arith in
      inl (subst (λ n. Before st from n s) e q)
  Scanned-AtBlock i s h (inr q) = inr (q, omega arith)

  AtBlock-Scanned : (i : ℕ) (s : Scan) → AtBlock i s → Scanned st from (entry i) s
  AtBlock-Scanned i s (inl q) = inl q
  AtBlock-Scanned i s (inr (q, h)) =
      let e : i * 128 ≡ entry i = ground arith in inr (subst (λ n. Within st from n s) e q)

  resume :
      (next : Scan → Outcome Scan) (i : ℕ) (e : Exit)
      → AfterBlock i e
      → ((s : Scan) → Scanned st from ((i + 1) * 128) s → Finds (next s))
      → Finds (elim e [ returned s ↦ ok s | went_on s ↦ next s ])
  resume next i (returned s) h f = (s, refl, inl h)
  resume next i (went_on s) h f = f s h

  scan_blocks-Finds :
      (rounds i : ℕ) (s : Scan)
      → i + rounds ≡ block_num st.estimate_size
      → block_index from ≤ i
      → AtBlock i s
      → Finds (scan_blocks st.estimate_size from rounds st i s)
  unfolding scan_blocks
  scan_blocks-Finds zero i s r h (inl q) = Before-Nothing (entry i) s (ground arith) q
  scan_blocks-Finds zero i s r h (inr (q, _)) =
      let (s', c, stretch) = clip-Stretch st from (i * 128) s (inl (omega arith)) q in
      (s', c, inl stretch)
  scan_blocks-Finds (suc rounds) i s r h q = elim (Option-cases (st.blocks i)) [
    | inl gap ↦
        let load : ltb i st.allocated ≡ true = lt→ltb i st.allocated (omega (arith, v.entries)) in
        elim q [
          | inl before ↦
              rw (load, scan_blocks, gap, before.fresh)
                (scan_blocks-Finds rounds (i + 1) s (omega arith) (omega arith)
                  (inl (Before-block i s h gap before)))
          | inr (within, _) ↦
              let fits : s.pos + s.len ≤ st.estimate_size = omega (arith, within.reaches) in
              let end = piece_at-none st i (i * 128) gap (omega arith) in
              (
                s,
                ground (arith, load, gap, within.begun, fits),
                inl (Within-Stretch st from (i * 128) s (inr end) fits within),
              )
        ]
    | inr (b, found) ↦
        let load : ltb i st.allocated ≡ true = lt→ltb i st.allocated (omega (arith, v.entries)) in
        let (e, eq, after) =
          scan_pieces-Ends (128 - first_piece from i) i (first_piece from i) (entry i) b s found
            (ground arith) refl (ground arith) (AtBlock-Scanned i s q) in
        rw (load, scan_blocks, found, eq)
          (resume (scan_blocks st.estimate_size from rounds st (i + 1)) i e after (λ s' q'.
            scan_blocks-Finds rounds (i + 1) s' (omega arith) (omega arith)
              (Scanned-AtBlock i s' h q')))
  ]

module _ (st : MemStorage) (from : ℕ) where
  -- On a valid cache of at most 2 GiB, `cached_from` at a position inside the estimated size ends
  -- with no fault; its answer is the first cached stretch at or after the position, or is empty
  -- if nothing is cached from there on.
  pub cached_from-Found :
      IsValid st
      → st.estimate_size ≤ 2 ^ 31
      → from < st.estimate_size
      → (pos : ℕ) × (len : ℕ) × (cached_from st from ≡ ok (pos, len)) × Found st from pos len
  unfolding cached_from
  cached_from-Found v small lt =
      let start : Scan = record { pos = 0; len = 0; find_first = false } in
      let (s, e, f) =
        scan_blocks-Finds st from v small lt (block_num st.estimate_size - block_index from)
          (block_index from) start (omega arith) (omega arith)
          (inl (record {
            fresh = refl;
            at = refl;
            none_yet = refl;
            missing = λ j h1 h2. absurd (ground arith);
          })) in
      (s.pos, s.len, ground (arith, e), f)
