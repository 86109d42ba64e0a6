-- ===== src/HttpPipe/Handler/Requests.antt =====
-- The steps of `pipe_handler` that make no request and take no redirect.
use libms.Base.{
  ℕ, suc, ◌+◌, ◌%◌, ◌≡◌, refl, ◌∙◌, Bool, true, false, ◌||◌, List, [], ◌∷◌, ◌++◌, take, drop,
  length, ltb, ◌==◌, if◌then◌else◌, Outcome, ok, fault, ◌>>=◌, ms_assert, arith,
}
use libms.MemStorage.{piece_unit_size}
use libms.HttpPipe.{
  Mbuf, Call, on_header, on_filesize, on_content_size, on_recv, on_redirect, on_complete, on_close,
  connect_http, HttpPipe, HttpMessage, callback, buf_bytes, buf_len, deliver, deliver_buf,
  append_buf, fill_size, fill_buf, pass_pieces, pass_rest, finish, recv_body, is_success,
}
use libms.HttpPipe.Handler.{content_range_of, asserted, take_sizes, on_first_chunk, on_chunk}

-- The requests among the calls.
abbrev pub requests : List Call → ℕ
requests [] = 0
requests (connect_http _ _ _ ∷ calls) = suc (requests calls)
requests (_ ∷ calls) = requests calls

pub requests-append : (xs ys : List Call) → requests (xs ++ ys) ≡ requests xs + requests ys
requests-append [] ys = omega arith
requests-append (connect_http _ _ _ ∷ xs) ys = omega (arith, requests-append xs ys)
requests-append (on_recv _ _ ∷ xs) ys = requests-append xs ys
requests-append (on_header ∷ xs) ys = requests-append xs ys
requests-append (on_filesize _ ∷ xs) ys = requests-append xs ys
requests-append (on_content_size _ _ ∷ xs) ys = requests-append xs ys
requests-append (on_redirect _ ∷ xs) ys = requests-append xs ys
requests-append (on_complete ∷ xs) ys = requests-append xs ys
requests-append (on_close _ ∷ xs) ys = requests-append xs ys

module _ {M : Type 0} (mbuf : Mbuf M) (react : Call → Bool) where
  -- No request was made, and no redirect was taken.
  abbrev pub Same : HttpPipe M → HttpPipe M → Type 0
  Same st st' =
      (requests st'.calls ≡ requests st.calls)
      × (st'.redirecting ≡ st.redirecting)
      × (st'.redirect_time ≡ st.redirect_time)

  Same-trans : (a b c : HttpPipe M) → Same a b → Same b c → Same a c
  Same-trans a b c (h, i, j) (k, l, m) = (k ∙ h, l ∙ i, m ∙ j)

  pub Same-if : (a x y : HttpPipe M) (b : Bool) → Same a x → Same a y → Same a (if b then x else y)
  Same-if a x y true h k = h
  Same-if a x y false h k = k

  pub callback-Same :
      (c : Call) (st : HttpPipe M) → requests (c ∷ []) ≡ 0 → Same st (callback mbuf react c st)
  unfolding callback
  callback-Same c st z = (omega (arith, requests-append st.calls (c ∷ [])), refl, refl)

  deliver-Same : (bytes : List ℕ) (st : HttpPipe M) → Same st (deliver mbuf react bytes st)
  unfolding deliver
  deliver-Same bytes st =
      callback-Same (on_recv bytes st.pos) (record st { pos = st.pos + length bytes }) refl

  deliver_buf-Same : (st : HttpPipe M) → Same st (deliver_buf mbuf react st)
  unfolding deliver_buf
  deliver_buf-Same st = deliver-Same (buf_bytes mbuf react st) st

  fill_buf-Same : (st : HttpPipe M) (body : List ℕ) → Same st (fill_buf mbuf react st body)
  unfolding fill_buf
  fill_buf-Same st body =
      let st' = append_buf mbuf react (take (fill_size mbuf react st body) body) st in
      Same-if st (deliver_buf mbuf react st') st' (Mbuf.size mbuf st'.buf == buf_len mbuf react st')
        (deliver_buf-Same st') (refl, refl, refl)

  pass_pieces-Same : (st : HttpPipe M) (rest : List ℕ) → Same st (pass_pieces mbuf react st rest)
  unfolding pass_pieces
  pass_pieces-Same st rest =
      Same-if st (deliver mbuf react _ st) st (ltb 0 _) (deliver-Same _ st) (refl, refl, refl)

  pass_rest-Same : (st : HttpPipe M) (rest : List ℕ) → Same st (pass_rest mbuf react st rest)
  unfolding pass_rest
  pass_rest-Same st rest =
      Same-if st (pass_pieces mbuf react st rest) st (ltb 0 (length rest))
        (pass_pieces-Same st rest) (refl, refl, refl)

  finish-Same : (st : HttpPipe M) → Same st (finish mbuf react st)
  unfolding finish
  finish-Same st =
      Same-if st (deliver_buf mbuf react st) st
        (st.pos + buf_len mbuf react st == st.req_pos + st.len) (deliver_buf-Same st)
        (refl, refl, refl)

  -- What a call comes to is the same as the state, if it comes to one.
  abbrev pub SameOk : HttpPipe M → Outcome (HttpPipe M) → Type 0
  SameOk st (ok st') = Same st st'
  SameOk st (fault e) = Unit

  after :
      (st st' : HttpPipe M) (m : Outcome (HttpPipe M)) → Same st st' → SameOk st' m → SameOk st m
  after st st' (ok st'') h k = Same-trans st st' st'' h k
  after st st' (fault e) h k = tt

  pub SameOk-bind :
      {A : Type 0} (st : HttpPipe M) (m : Outcome A) (f : A → Outcome (HttpPipe M))
      → ((a : A) → SameOk st (f a))
      → SameOk st (m >>= f)
  SameOk-bind st (ok a) f h = h a
  SameOk-bind st (fault e) f h = tt

  SameOk-then :
      (st : HttpPipe M) (m : Outcome (HttpPipe M)) (f : HttpPipe M → Outcome (HttpPipe M))
      → SameOk st m
      → ((a : HttpPipe M) → SameOk a (f a))
      → SameOk st (m >>= f)
  SameOk-then st (ok a) f s h = after st a (f a) s (h a)
  SameOk-then st (fault e) f s h = tt

  SameOk-if :
      (st : HttpPipe M) (x y : Outcome (HttpPipe M)) (b : Bool)
      → SameOk st x
      → SameOk st y
      → SameOk st (if b then x else y)
  SameOk-if st x y true h k = h
  SameOk-if st x y false h k = k

  recv_body-Same : (st : HttpPipe M) (body : List ℕ) → SameOk st (recv_body mbuf react st body)
  unfolding recv_body
  recv_body-Same st body = SameOk-bind st (ms_assert (st.pos % piece_unit_size == 0)) _ (λ _.
      let rest = drop (fill_size mbuf react st body) body in
      let st' : HttpPipe M =
        if ltb 0 (buf_len mbuf react st) || ltb (length body) piece_unit_size
        then pass_rest mbuf react (fill_buf mbuf react st body) rest
        else pass_rest mbuf react st body in
      Same-trans st st' (finish mbuf react st')
        (Same-if st _ _ (ltb 0 (buf_len mbuf react st) || ltb (length body) piece_unit_size)
          (Same-trans st (fill_buf mbuf react st body)
            (pass_rest mbuf react (fill_buf mbuf react st body) rest) (fill_buf-Same st body)
            (pass_rest-Same (fill_buf mbuf react st body) rest))
          (pass_rest-Same st body))
        (finish-Same st'))

  body-Same :
      (st : HttpPipe M) (body : List ℕ)
      → SameOk st (elim body [ [] ↦ ok st | x ∷ rest ↦ recv_body mbuf react st (x ∷ rest) ])
  body-Same st [] = (refl, refl, refl)
  body-Same st (x ∷ rest) = recv_body-Same st (x ∷ rest)

  take_sizes-Same : (st : HttpPipe M) (hm : HttpMessage) → SameOk st (take_sizes mbuf react st hm)
  unfolding take_sizes
  take_sizes-Same st hm = SameOk-bind st (content_range_of hm) _ (λ filesize.
      SameOk-bind st (asserted hm.content_length) _ (λ size.
        let st' : HttpPipe M =
          if ltb 0 filesize then callback mbuf react (on_filesize filesize) st else st in
        let st'' : HttpPipe M =
          callback mbuf react (on_content_size st'.req_pos size) (record st' { len = size }) in
        Same-trans st st' st''
          (Same-if st (callback mbuf react (on_filesize filesize) st) st (ltb 0 filesize)
            (callback-Same (on_filesize filesize) st refl) (refl, refl, refl))
          (callback-Same (on_content_size st'.req_pos size) (record st' { len = size }) refl)))

  on_first_chunk-Same :
      (filesize : ℕ) (st : HttpPipe M) (hm : HttpMessage)
      → SameOk st (on_first_chunk mbuf react filesize st hm)
  unfolding on_first_chunk
  on_first_chunk-Same filesize st hm =
      let st' : HttpPipe M = record (callback mbuf react on_header st) {
        on_content_called = true;
      } in
      let same = callback-Same on_header st refl in
      SameOk-if st (take_sizes mbuf react st' hm) (ok st') (filesize == 0 || st'.len == 0)
        (after st st' (take_sizes mbuf react st' hm) same (take_sizes-Same st' hm)) same

  pub on_chunk-Same :
      (filesize : ℕ) (st : HttpPipe M) (hm : HttpMessage)
      → SameOk st (on_chunk mbuf react filesize st hm)
  unfolding on_chunk
  on_chunk-Same filesize st hm =
      SameOk-if st _ (ok st) (is_success hm.resp_code)
        (SameOk-then st
          (if st.on_content_called then ok st else on_first_chunk mbuf react filesize st hm) _
          (SameOk-if st (ok st) (on_first_chunk mbuf react filesize st hm) st.on_content_called
            (refl, refl, refl) (on_first_chunk-Same filesize st hm))
          (λ st'. body-Same st' hm.body))
        (refl, refl, refl)
