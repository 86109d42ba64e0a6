-- ===== src/HttpPipe/Moves.antt =====
-- The steps that move bytes through a pipe's buffer.
use mathlib.Core.List.{append-nil}
use libms.Base.{
  ℕ, ◌+◌, ◌%◌, ◌≡◌, ◌⊎◌, inl, inr, refl, sym, ap, ◌∙◌, Bool, List, [], ◌∷◌, ◌++◌, length,
  length-append, ◌==◌, arith, Bool-cases,
}
use libms.MemStorage.{piece_unit_size}
use libms.HttpPipe.{
  Mbuf, Call, on_recv, HttpPipe, callback, buf_bytes, buf_len, deliver, deliver_buf, append_buf,
  finish,
}
use libms.HttpPipe.Chunks.{IsMbuf, Moved, Ready, Ended, Waiting}

pub length-zero : (xs : List ℕ) → length xs ≡ 0 → xs ≡ []
length-zero [] h = refl
length-zero (x ∷ xs) h = absurd (omega arith)

module _ {M : Type 0} (mbuf : Mbuf M) (react : Call → Bool) (laws : IsMbuf mbuf) where
  pub stay : (st : HttpPipe M) → Moved mbuf react st [] st
  stay st = record {
    made = [];
    calls_made = sym (append-nil st.calls);
    consecutive = tt;
    bytes_kept = sym (append-nil (buf_bytes mbuf react st));
    pos_moved = omega arith;
    same_end = refl;
  }

  pub append_buf-Moved :
      (st : HttpPipe M) (bytes : List ℕ)
      → Moved mbuf react st bytes (append_buf mbuf react bytes st)
  append_buf-Moved st bytes = record {
    made = [];
    calls_made = sym (append-nil st.calls);
    consecutive = tt;
    bytes_kept = laws.bytes-append st.buf bytes;
    pos_moved = omega arith;
    same_end = refl;
  }

  pub deliver_buf-Moved :
      (st : HttpPipe M)
      → (buf_len mbuf react st % piece_unit_size ≡ 0)
        ⊎ (st.pos + buf_len mbuf react st ≡ st.req_pos + st.len)
      → Moved mbuf react st [] (deliver_buf mbuf react st)
  unfolding deliver_buf deliver callback
  deliver_buf-Moved st whole = record {
    made = on_recv (buf_bytes mbuf react st) st.pos ∷ [];
    calls_made = refl;
    consecutive = (refl, whole, tt);
    bytes_kept =
        ap (λ zs. (buf_bytes mbuf react st ++ []) ++ zs) (laws.bytes-remove st.buf)
        ∙ append-nil (buf_bytes mbuf react st ++ []);
    pos_moved = ap (λ zs. st.pos + length zs) (sym (append-nil (buf_bytes mbuf react st)));
    same_end = refl;
  }

  pub deliver-Moved :
      (st : HttpPipe M) (bytes : List ℕ)
      → buf_bytes mbuf react st ≡ []
      → length bytes % piece_unit_size ≡ 0
      → Moved mbuf react st bytes (deliver mbuf react bytes st)
  unfolding deliver callback
  deliver-Moved st bytes empty whole = record {
    made = on_recv bytes st.pos ∷ [];
    calls_made = refl;
    consecutive = (refl, inl whole, tt);
    bytes_kept =
        ap (λ zs. (bytes ++ []) ++ zs) empty
        ∙ append-nil (bytes ++ [])
        ∙ append-nil bytes
        ∙ ap (λ zs. zs ++ bytes) (sym empty);
    pos_moved = ap (λ zs. st.pos + length zs) (sym (append-nil bytes));
    same_end = refl;
  }

  pub buf_len-append :
      (st : HttpPipe M) (bytes : List ℕ)
      → buf_len mbuf react (append_buf mbuf react bytes st) ≡ buf_len mbuf react st + length bytes
  buf_len-append st bytes =
      ap length (laws.bytes-append st.buf bytes) ∙ length-append (buf_bytes mbuf react st) bytes

  -- The buffer is empty behind a delivery, and the position moved by what it had.
  pub deliver_buf-empty :
      (st : HttpPipe M)
      → (buf_bytes mbuf react (deliver_buf mbuf react st) ≡ [])
        × (Mbuf.size mbuf (deliver_buf mbuf react st).buf ≡ Mbuf.size mbuf st.buf)
        × ((deliver_buf mbuf react st).pos ≡ st.pos + buf_len mbuf react st)
        × ((deliver_buf mbuf react st).req_pos ≡ st.req_pos)
        × ((deliver_buf mbuf react st).len ≡ st.len)
  unfolding deliver_buf deliver callback
  deliver_buf-empty st =
      (laws.bytes-remove st.buf, laws.size-remove st.buf (buf_len mbuf react st), refl, refl, refl)

  pub finish-Moved :
      (st : HttpPipe M)
      → Ready mbuf react st
      → Moved mbuf react st [] (finish mbuf react st)
        × (Waiting mbuf react (finish mbuf react st) ⊎ Ended mbuf react (finish mbuf react st))
  unfolding finish
  finish-Moved st ready =
      elim (Bool-cases (st.pos + buf_len mbuf react st == st.req_pos + st.len)) [
        | inl e ↦
            let (empty, _, pos, req, len) = deliver_buf-empty st in
            rw e (deliver_buf-Moved st (inr (ground arith)), inr (ground arith, empty))
        | inr e ↦ rw e (stay st, inl (ready, λ k. ground arith))
      ]
