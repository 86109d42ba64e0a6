-- ===== src/MemStorage/CachedFrom/Finds.antt =====
-- What `cached_from` finds.
use libms.Base.{
  ℕ, ◌+◌, ◌-◌, ◌*◌, ◌/◌, ◌^◌, ◌≤◌, ◌<◌, ◌≡◌, refl, subst, true, false, none, some, ok, ◌≢◌, ◌⊎◌,
  inl, inr, arith, dec_lt, ap, le→leb, lt→ltb, le→ltb,
}
use libms.MemStorage.{Buf, MemStorage, piece_unit_size}
use libms.MemStorage.View.{piece_at, byte_at, IsValid}
use libms.MemStorage.CachedFrom.{Scan, clip, mark_piece}

module _ (st : MemStorage) (from : ℕ) where
  -- No piece is cached from the one with `from` on up to the piece `k`.
  abbrev pub Missing : ℕ → Type 0
  Missing k = (j : ℕ) → from / piece_unit_size ≤ j → j < k → piece_at st j ≡ none

  -- Every piece from `lo` on up to `k` is cached.
  abbrev pub Cached : ℕ → ℕ → Type 0
  Cached lo k = (j : ℕ) → lo ≤ j → j < k → piece_at st j ≢ none

  Cached-suc :
      (lo k : ℕ) (b : Buf) → piece_at st k ≡ some b → (lo ≡ k ⊎ Cached lo k) → Cached lo (k + 1)
  Cached-suc lo k b e c j h1 h2 n = elim (dec_lt j k) [
    | yes l ↦ elim c [ inl same ↦ omega arith | inr before ↦ before j h1 l n ]
    | no l ↦ let same : j ≡ k = omega arith in cc (ap (piece_at st) same)
  ]

  -- The pieces before `k` have been looked at, and none was cached.
  pub record Before (k : ℕ) (s : Scan) : Type 0 where
    pub fresh : s.find_first ≡ false
    pub at : s.pos ≡ 0
    pub none_yet : s.len ≡ 0
    pub missing : Missing k

  -- Or the stretch has begun and reaches `k`.
  pub record Within (k : ℕ) (s : Scan) : Type 0 where
    pub begun : s.find_first ≡ true
    pub after : from ≤ s.pos
    pub inside : s.pos < st.estimate_size
    pub missing : Missing (s.pos / piece_unit_size)
    pub cached : Cached (s.pos / piece_unit_size) k
    pub reaches : s.pos + s.len ≡ k * piece_unit_size
    pub nonempty : 0 < s.len

  abbrev pub Scanned : ℕ → Scan → Type 0
  Scanned k s = Before k s ⊎ Within k s

  -- The stretch of `len` bytes at `pos` is the first one cached at or after `from`: the pieces
  -- before it are missing, its own are cached, and it ends at the end of the estimated size or
  -- at a missing piece.
  pub record Stretch (pos len : ℕ) : Type 0 where
    pub after : from ≤ pos
    pub nonempty : 0 < len
    pub fits : pos + len ≤ st.estimate_size
    pub missing : Missing (pos / piece_unit_size)
    pub cached : (p : ℕ) → pos ≤ p → p < pos + len → byte_at st p ≢ none
    pub maximal :
        (pos + len ≡ st.estimate_size) ⊎ (piece_at st ((pos + len) / piece_unit_size) ≡ none)

  -- No byte of the file is cached from `from` on, and the answer is empty.
  abbrev pub Nothing : ℕ → ℕ → Type 0
  Nothing pos len =
      (pos ≡ 0) × (len ≡ 0) × ((p : ℕ) → from ≤ p → p < st.estimate_size → byte_at st p ≡ none)

  abbrev pub Found : ℕ → ℕ → Type 0
  Found pos len = Stretch pos len ⊎ Nothing pos len

  pub mark_piece-Within :
      (i j k : ℕ) (s : Scan) (b : Buf)
      → IsValid st
      → st.estimate_size ≤ 2 ^ 31
      → from < st.estimate_size
      → k ≡ i * 128 + j
      → from / piece_unit_size ≤ k
      → piece_at st k ≡ some b
      → Scanned k s
      → (s' : Scan) × (mark_piece from i j s ≡ ok s') × Within (k + 1) s'
  unfolding mark_piece
  mark_piece-Within i j k s b v small lt e h c (inl q) =
      let p : ℕ = 2097152 * i + 16384 * j in
      let pk : p ≡ k * piece_unit_size = omega arith in
      let small' : p ≤ 2147483647 = omega (arith, v.inside k b c) in
      elim (dec_lt p from) [
        | yes l ↦ (
          record { pos = from; len = piece_unit_size - (from - p); find_first = true },
          rw (q.fresh, mark_piece, le→leb p 2147483647 small', lt→ltb p from l),
          record {
            begun = refl;
            after = omega arith;
            inside = lt;
            missing = λ j' h1 h2. absurd (omega arith);
            cached = Cached-suc (from / piece_unit_size) k b c (inl (omega arith));
            reaches = omega arith;
            nonempty = omega arith;
          },
        )
        | no l ↦ (
          record { pos = p; len = piece_unit_size; find_first = true },
          rw (q.fresh, mark_piece, le→leb p 2147483647 small', le→ltb p from (omega arith)),
          record {
            begun = refl;
            after = omega arith;
            inside = omega (arith, v.inside k b c);
            missing = λ j' h1 h2. q.missing j' h1 (omega arith);
            cached = Cached-suc (p / piece_unit_size) k b c (inl (omega arith));
            reaches = omega arith;
            nonempty = omega arith;
          },
        )
      ]
  mark_piece-Within i j k s b v small lt e h c (inr q) = (
    record s { len = s.len + piece_unit_size },
    ground (arith, q.begun),
    record {
      begun = q.begun;
      after = q.after;
      inside = q.inside;
      missing = q.missing;
      cached = Cached-suc (s.pos / piece_unit_size) k b c (inr q.cached);
      reaches = omega (arith, q.reaches);
      nonempty = omega arith;
    },
  )

  byte_at-ne-none : (p : ℕ) → piece_at st (p / piece_unit_size) ≢ none → byte_at st p ≢ none
  unfolding byte_at
  byte_at-ne-none p h e = ground (arith, h)

  pub Within-Stretch :
      (k : ℕ) (s : Scan)
      → (st.estimate_size ≤ k * piece_unit_size) ⊎ (piece_at st k ≡ none)
      → s.pos + s.len ≤ st.estimate_size
      → Within k s
      → Stretch s.pos s.len
  Within-Stretch k s h l q = record {
    after = q.after;
    nonempty = q.nonempty;
    fits = l;
    missing = q.missing;
    cached = λ p h1 h2.
        byte_at-ne-none p (q.cached (p / piece_unit_size) (omega arith) (omega (arith, q.reaches)));
    maximal = elim h [
      | inl end ↦ inl (omega (arith, q.reaches))
      | inr gap ↦
          let e : k ≡ (s.pos + s.len) / piece_unit_size = omega (arith, q.reaches) in
          inr (subst (λ n. piece_at st n ≡ none) e gap)
    ];
  }

  -- The stretch ends where it is cut off.
  pub clip-Stretch :
      (k : ℕ) (s : Scan)
      → (st.estimate_size ≤ k * piece_unit_size) ⊎ (piece_at st k ≡ none)
      → Within k s
      → (s' : Scan) × (clip st.estimate_size s ≡ ok s') × Stretch s'.pos s'.len
  unfolding clip
  clip-Stretch k s h q = elim (dec_lt st.estimate_size (s.pos + s.len)) [
    | yes l ↦ (
      record s { len = st.estimate_size - s.pos },
      ground (arith, q.inside),
      record {
        after = q.after;
        nonempty = omega (arith, q.inside);
        fits = omega (arith, q.inside);
        missing = q.missing;
        cached = λ p h1 h2.
            byte_at-ne-none p
              (q.cached (p / piece_unit_size) (omega arith) (omega (arith, q.reaches, q.inside)));
        maximal = inl (omega (arith, q.inside));
      },
    )
    | no l ↦ (s, ground (arith, q.inside), Within-Stretch k s h (omega arith) q)
  ]
