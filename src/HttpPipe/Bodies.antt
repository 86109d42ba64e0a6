-- ===== src/HttpPipe/Bodies.antt =====
-- `pipe_handler` hands the bodies on in order and in whole pieces.
use libms.Base.{
  ℕ, ◌+◌, ◌≤◌, ◌<◌, ◌≡◌, ◌⊎◌, inl, inr, refl, ap, Bool, List, [], ◌∷◌, ◌++◌, length, length-append,
  Outcome, ok, ◌>>=◌, All, arith,
}
use libms.HttpPipe.{Mbuf, Call, HttpPipe, buf_bytes, buf_len, recv_body}
use libms.HttpPipe.Chunks.{IsMbuf, content, Moved, Moved-trans, Ended, Waiting}
use libms.HttpPipe.Moves.{stay}
use libms.HttpPipe.Delivery.{recv_body-Moved}

module _ {M : Type 0} (mbuf : Mbuf M) (react : Call → Bool) (laws : IsMbuf mbuf) where
  -- The bodies of the chunks, one after the other.
  abbrev pub concat_bodies : List (List ℕ) → List ℕ
  concat_bodies [] = []
  concat_bodies (body ∷ bodies) = body ++ concat_bodies bodies

  abbrev pub recv_bodies : HttpPipe M → List (List ℕ) → Outcome (HttpPipe M)
  recv_bodies st [] = ok st
  recv_bodies st (body ∷ bodies) = recv_body mbuf react st body >>= λ st'. recv_bodies st' bodies

  -- How far the bytes reach that arrived.
  abbrev pub reach : HttpPipe M → ℕ
  reach st = st.pos + buf_len mbuf react st

  Moved-reach :
      (st st' : HttpPipe M) (body : List ℕ)
      → Moved mbuf react st body st'
      → reach st' ≡ reach st + length body
  Moved-reach st st' body m = omega (
    arith,
    m.pos_moved,
    ap length m.bytes_kept,
    length-append (content m.made) (buf_bytes mbuf react st'),
    length-append (buf_bytes mbuf react st) body,
  )

  abbrev pub Received : HttpPipe M → List (List ℕ) → Type 0
  Received st bodies =
      (st' : HttpPipe M) × (recv_bodies st bodies ≡ ok st')
      × Moved mbuf react st (concat_bodies bodies) st'
      × ((Waiting mbuf react st' × (reach st' < st'.req_pos + st'.len)) ⊎ Ended mbuf react st')

  chunk_first :
      (st st' : HttpPipe M) (body : List ℕ) (bodies : List (List ℕ))
      → recv_body mbuf react st body ≡ ok st'
      → Moved mbuf react st body st'
      → Received st' bodies
      → Received st (body ∷ bodies)
  chunk_first st st' body bodies e m (st'', e', m', end) =
      rw e (st'', e', Moved-trans mbuf react st st' st'' body (concat_bodies bodies) m m', end)

  -- At the end of the request no bytes are left.
  at_end :
      (st : HttpPipe M) (bodies : List (List ℕ))
      → Ended mbuf react st
      → All (λ body. 0 < length body) bodies
      → length (concat_bodies bodies) ≡ 0
      → Received st bodies
  at_end st [] ended _ _ = (st, refl, stay mbuf react laws st, inr ended)
  at_end st (body ∷ bodies) _ (pos, _) z =
      absurd (omega (arith, length-append body (concat_bodies bodies)))

  -- With buffers as documented: from a pipe that waits inside its request for the rest of a
  -- piece, chunks that are not empty and together stay inside the request are received with no
  -- fault. The owner is called with one range behind the other, each of whole pieces or up to the
  -- end of the request; what it gets, with what stays in the buffer, is what was in the buffer
  -- and the chunks; and at the end of the request nothing stays in the buffer.
  pub recv_bodies-Received :
      (st : HttpPipe M) (bodies : List (List ℕ))
      → Waiting mbuf react st
      → All (λ body. 0 < length body) bodies
      → reach st + length (concat_bodies bodies) ≤ st.req_pos + st.len
      → Received st bodies
  recv_bodies-Received st [] (ready, w) _ le =
      (st, refl, stay mbuf react laws st, inl ((ready, w), ground arith))
  recv_bodies-Received st (body ∷ bodies) (ready, w) (pos, all) le =
      let (st', e, m, end) = recv_body-Moved mbuf react laws st body ready in
      let reach' = Moved-reach st st' body m in
      let sum = length-append body (concat_bodies bodies) in
      chunk_first st st' body bodies e m (elim end [
        | inl w' ↦ recv_bodies-Received st' bodies w' all (omega (arith, m.same_end))
        | inr (done, empty) ↦
            at_end st' bodies (done, empty) all (omega (arith, m.same_end, ap length empty))
      ])
