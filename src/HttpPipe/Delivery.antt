-- ===== src/HttpPipe/Delivery.antt =====
-- The body of one chunk goes through the buffer in whole pieces.
use mathlib.Core.List.{append-nil}
use libms.Base.{
  ℕ, zero, suc, ◌+◌, ◌-◌, ◌%◌, ◌≤◌, ◌<◌, ◌≡◌, ◌⊎◌, inl, inr, ap, ◌∙◌, subst, Bool, List, [], ◌∷◌,
  length, take, drop, take-drop, length-take, length-drop, ltb, lt→ltb, ◌==◌, if◌then◌else◌, ok,
  arith, Bool-cases, dec_lt, ◌||◌,
}
use libms.MemStorage.{piece_unit_size}
use libms.HttpPipe.{
  Mbuf, Call, HttpPipe, callback, buf_bytes, buf_len, deliver, deliver_buf, append_buf, fill_size,
  fill_buf, pass_pieces, pass_rest, finish, recv_body,
}
use libms.HttpPipe.Chunks.{IsMbuf, Moved, Moved-trans, Ready, Ended, Waiting}
use libms.HttpPipe.Moves.{
  length-zero, stay, append_buf-Moved, deliver_buf-Moved, deliver-Moved, buf_len-append,
  deliver_buf-empty, finish-Moved,
}

module _ {M : Type 0} (mbuf : Mbuf M) (react : Call → Bool) (laws : IsMbuf mbuf) where
  fill_size-fits :
      (st : HttpPipe M) (body : List ℕ)
      → Ready mbuf react st
      → (fill_size mbuf react st body ≤ length body)
        × (buf_len mbuf react st + fill_size mbuf react st body ≤ piece_unit_size)
        × ((buf_len mbuf react st + fill_size mbuf react st body ≡ piece_unit_size)
            ⊎ (fill_size mbuf react st body ≡ length body))
  fill_size-fits st body (_, l, s) =
      elim (dec_lt (length body) (Mbuf.size mbuf st.buf - buf_len mbuf react st)) [
        | yes k ↦ (ground arith, ground arith, inr (ground arith))
        | no k ↦ (ground arith, ground arith, inl (ground arith))
      ]

  -- Behind the first part the buffer is empty or the body is used up.
  abbrev Filled : HttpPipe M → List ℕ → HttpPipe M → Type 0
  Filled st body st' =
      Moved mbuf react st (take (fill_size mbuf react st body) body) st'
      × Ready mbuf react st'
      × ((buf_bytes mbuf react st' ≡ []) ⊎ (fill_size mbuf react st body ≡ length body))

  fill_buf-Filled :
      (st : HttpPipe M) (body : List ℕ)
      → Ready mbuf react st
      → Filled st body (fill_buf mbuf react st body)
  unfolding fill_buf
  fill_buf-Filled st body ready =
      let n = fill_size mbuf react st body in
      let st' = append_buf mbuf react (take n body) st in
      let (al, l, s) = ready in
      let (le, fits, or) = fill_size-fits st body ready in
      let taken = length-take n body le in
      let len' = buf_len-append mbuf react laws st (take n body) in
      let size' = laws.size-append st.buf (take n body) (omega arith) in
      elim (Bool-cases (Mbuf.size mbuf st'.buf == buf_len mbuf react st')) [
        | inl e ↦
            let (empty, size, pos, _, _) = deliver_buf-empty mbuf react laws st' in
            rw e (
              subst (λ xs. Moved mbuf react st xs (deliver_buf mbuf react st'))
                  (append-nil (take n body))
                  (Moved-trans mbuf react st st' (deliver_buf mbuf react st') (take n body) []
                    (append_buf-Moved mbuf react laws st (take n body))
                    (deliver_buf-Moved mbuf react laws st' (inl (ground arith)))),
              (ground arith, ground (arith, ap length empty), ground arith),
              inl empty,
            )
        | inr e ↦ rw e (
          append_buf-Moved mbuf react laws st (take n body),
          (al, ground arith, ground arith),
          inr (ground arith),
        )
      ]

  -- A pipe between two pieces, with nothing in its buffer.
  abbrev Between : HttpPipe M → Type 0
  Between st =
      (st.pos % piece_unit_size ≡ 0)
      × (buf_bytes mbuf react st ≡ [])
      × (Mbuf.size mbuf st.buf ≡ piece_unit_size)

  deliver-Between :
      (st : HttpPipe M) (bytes : List ℕ)
      → Between st
      → length bytes % piece_unit_size ≡ 0
      → Between (deliver mbuf react bytes st)
  unfolding deliver callback
  deliver-Between st bytes (al, empty, s) whole = (omega arith, empty, s)

  -- The whole pieces of the rest.
  deliver_pieces :
      (st : HttpPipe M) (rest : List ℕ) (recv : ℕ)
      → Between st
      → recv ≤ length rest
      → recv % piece_unit_size ≡ 0
      → Moved mbuf react st
          (take recv rest)
          (if ltb 0 recv then deliver mbuf react (take recv rest) st else st)
        × Between (if ltb 0 recv then deliver mbuf react (take recv rest) st else st)
  deliver_pieces st rest zero b _ _ = (stay mbuf react laws st, b)
  deliver_pieces st rest (suc n) b le whole =
      let taken = length-take (suc n) rest le in
      let (_, empty, _) = b in
      rw (lt→ltb 0 (suc n) (omega arith)) (
        deliver-Moved mbuf react laws st (take (suc n) rest) empty (omega arith),
        deliver-Between st (take (suc n) rest) b (omega arith),
      )

  append_rest :
      (st st' : HttpPipe M) (rest : List ℕ) (recv : ℕ)
      → recv ≤ length rest
      → length rest < recv + piece_unit_size
      → Moved mbuf react st (take recv rest) st'
      → Between st'
      → Moved mbuf react st rest (append_buf mbuf react (drop recv rest) st')
        × Ready mbuf react (append_buf mbuf react (drop recv rest) st')
  append_rest st st' rest recv le few m (al, empty, s) =
      let st'' = append_buf mbuf react (drop recv rest) st' in
      let dropped = length-drop recv rest le in
      let len' = buf_len-append mbuf react laws st' (drop recv rest) in
      let none = ap length empty in
      (
        subst (λ xs. Moved mbuf react st xs st'') (take-drop recv rest)
            (Moved-trans mbuf react st st' st'' (take recv rest) (drop recv rest) m
              (append_buf-Moved mbuf react laws st' (drop recv rest))),
        (al, omega arith, laws.size-append st'.buf (drop recv rest) (omega arith) ∙ s),
      )

  pass_pieces-Moved :
      (st : HttpPipe M) (rest : List ℕ)
      → Between st
      → Moved mbuf react st rest (pass_pieces mbuf react st rest)
        × Ready mbuf react (pass_pieces mbuf react st rest)
  unfolding pass_pieces
  pass_pieces-Moved st rest b =
      let recv : ℕ = length rest - length rest % piece_unit_size in
      let (m, b') = deliver_pieces st rest recv b (omega arith) (omega arith) in
      append_rest st (if ltb 0 recv then deliver mbuf react (take recv rest) st else st) rest recv
        (omega arith) (omega arith) m b'

  pass_rest-Moved :
      (st : HttpPipe M) (rest : List ℕ)
      → Ready mbuf react st
      → (buf_bytes mbuf react st ≡ []) ⊎ (length rest ≡ 0)
      → Moved mbuf react st rest (pass_rest mbuf react st rest)
        × Ready mbuf react (pass_rest mbuf react st rest)
  unfolding pass_rest
  pass_rest-Moved st [] ready _ = (stay mbuf react laws st, ready)
  pass_rest-Moved st (x ∷ rest) _ (inr z) = absurd (omega arith)
  pass_rest-Moved st (x ∷ rest) (al, _, s) (inl empty) =
      rw (lt→ltb 0 (length (x ∷ rest)) (omega arith))
        (pass_pieces-Moved st (x ∷ rest) (al, empty, s))

  rest_or :
      (st' : HttpPipe M) (body : List ℕ) (n : ℕ)
      → n ≤ length body
      → (buf_bytes mbuf react st' ≡ []) ⊎ (n ≡ length body)
      → (buf_bytes mbuf react st' ≡ []) ⊎ (length (drop n body) ≡ 0)
  rest_or st' body n le (inl e) = inl e
  rest_or st' body n le (inr e) = inr (omega (arith, length-drop n body le))

  -- Both parts of the body, up to the test for the end.
  abbrev passed : HttpPipe M → List ℕ → HttpPipe M
  passed st body =
      if ltb 0 (buf_len mbuf react st) || ltb (length body) piece_unit_size
      then pass_rest mbuf react (fill_buf mbuf react st body)
          (drop (fill_size mbuf react st body) body)
      else pass_rest mbuf react st body

  passed-Moved :
      (st : HttpPipe M) (body : List ℕ)
      → Ready mbuf react st
      → Moved mbuf react st body (passed st body) × Ready mbuf react (passed st body)
  passed-Moved st body ready =
      elim (Bool-cases (ltb 0 (buf_len mbuf react st) || ltb (length body) piece_unit_size)) [
        | inr e ↦ rw e (
            pass_rest-Moved st body ready
              (inl (length-zero (buf_bytes mbuf react st) (ground arith))))
        | inl e ↦
            let n = fill_size mbuf react st body in
            let st' = fill_buf mbuf react st body in
            let (le, _, _) = fill_size-fits st body ready in
            let (m, ready', or) = fill_buf-Filled st body ready in
            let (m', ready'') =
              pass_rest-Moved st' (drop n body) ready' (rest_or st' body n le or) in
            rw e (
              subst (λ xs. Moved mbuf react st xs (pass_rest mbuf react st' (drop n body)))
                  (take-drop n body)
                  (Moved-trans mbuf react st st' (pass_rest mbuf react st' (drop n body))
                    (take n body) (drop n body) m m'),
              ready'',
            )
      ]

  pub recv_body-Moved :
      (st : HttpPipe M) (body : List ℕ)
      → Ready mbuf react st
      → (st' : HttpPipe M) × (recv_body mbuf react st body ≡ ok st')
        × Moved mbuf react st body st'
        × (Waiting mbuf react st' ⊎ Ended mbuf react st')
  unfolding recv_body
  recv_body-Moved st body ready =
      let (al, _, _) = ready in
      let (m, ready') = passed-Moved st body ready in
      let (m', end) = finish-Moved mbuf react laws (passed st body) ready' in
      (
        finish mbuf react (passed st body),
        ground arith,
        subst (λ xs. Moved mbuf react st xs (finish mbuf react (passed st body))) (append-nil body)
            (Moved-trans mbuf react st (passed st body) (finish mbuf react (passed st body)) body []
              m m'),
        end,
      )
