-- ===== src/HttpPipe/Chunks.antt =====
-- What the owner of a pipe gets of the body.
use mathlib.Core.List.{append_assoc}
use libms.Base.{
  ℕ, ◌+◌, ◌%◌, ◌≤◌, ◌<◌, ◌≡◌, ◌≢◌, ◌⊎◌, refl, sym, ap, ◌∙◌, subst, Bool, List, [], ◌∷◌, ◌++◌,
  length, length-append, arith,
}
use libms.MemStorage.{piece_unit_size}
use libms.HttpPipe.{
  Mbuf, Call, on_header, on_filesize, on_content_size, on_recv, on_redirect, on_complete, on_close,
  connect_http, HttpPipe, buf_bytes, buf_len,
}

-- What the network library documents of its buffers.
pub record IsMbuf {M : Type 0} (mbuf : Mbuf M) : Type 0 where
  pub bytes-append :
      (m : M) (xs : List ℕ) → Mbuf.bytes mbuf (Mbuf.append mbuf m xs) ≡ Mbuf.bytes mbuf m ++ xs
  pub size-append :
      (m : M) (xs : List ℕ)
      → length (Mbuf.bytes mbuf m) + length xs ≤ Mbuf.size mbuf m
      → Mbuf.size mbuf (Mbuf.append mbuf m xs) ≡ Mbuf.size mbuf m
  pub bytes-remove :
      (m : M) → Mbuf.bytes mbuf (Mbuf.remove mbuf m (length (Mbuf.bytes mbuf m))) ≡ []
  pub size-remove : (m : M) (n : ℕ) → Mbuf.size mbuf (Mbuf.remove mbuf m n) ≡ Mbuf.size mbuf m

-- The bytes that the owner gets in the calls.
abbrev pub content : List Call → List ℕ
content [] = []
content (on_recv bytes _ ∷ calls) = bytes ++ content calls
content (_ ∷ calls) = content calls

-- The calls are `on_recv`, each from where the one before ended, and each of whole pieces or up to
-- `end`.
abbrev pub Consecutive : ℕ → ℕ → List Call → Type 0
Consecutive end pos [] = Unit
Consecutive end pos (on_recv bytes p ∷ calls) =
    (p ≡ pos)
    × ((length bytes % piece_unit_size ≡ 0) ⊎ (pos + length bytes ≡ end))
    × Consecutive end (pos + length bytes) calls
Consecutive end pos (_ ∷ calls) = ⊥

content-append : (xs ys : List Call) → content (xs ++ ys) ≡ content xs ++ content ys
content-append [] ys = refl
content-append (on_recv bytes p ∷ xs) ys =
    ap (λ zs. bytes ++ zs) (content-append xs ys)
    ∙ sym (append_assoc bytes (content xs) (content ys))
content-append (on_header ∷ xs) ys = content-append xs ys
content-append (on_filesize _ ∷ xs) ys = content-append xs ys
content-append (on_content_size _ _ ∷ xs) ys = content-append xs ys
content-append (on_redirect _ ∷ xs) ys = content-append xs ys
content-append (on_complete ∷ xs) ys = content-append xs ys
content-append (on_close _ ∷ xs) ys = content-append xs ys
content-append (connect_http _ _ _ ∷ xs) ys = content-append xs ys

Consecutive-append :
    (end pos : ℕ) (xs ys : List Call)
    → Consecutive end pos xs
    → Consecutive end (pos + length (content xs)) ys
    → Consecutive end pos (xs ++ ys)
Consecutive-append end pos [] ys _ k = subst (λ p. Consecutive end p ys) (omega arith) k
Consecutive-append end pos (on_recv bytes p ∷ xs) ys (e, w, h) k = (
  e,
  w,
  Consecutive-append end (pos + length bytes) xs ys h
      (subst (λ p. Consecutive end p ys) (omega (arith, length-append bytes (content xs))) k),
)
Consecutive-append end pos (on_header ∷ xs) ys h k = absurd h
Consecutive-append end pos (on_filesize _ ∷ xs) ys h k = absurd h
Consecutive-append end pos (on_content_size _ _ ∷ xs) ys h k = absurd h
Consecutive-append end pos (on_redirect _ ∷ xs) ys h k = absurd h
Consecutive-append end pos (on_complete ∷ xs) ys h k = absurd h
Consecutive-append end pos (on_close _ ∷ xs) ys h k = absurd h
Consecutive-append end pos (connect_http _ _ _ ∷ xs) ys h k = absurd h

module _ {M : Type 0} (mbuf : Mbuf M) (react : Call → Bool) where
  -- The pipe waits for the rest of a piece.
  abbrev pub Ready : HttpPipe M → Type 0
  Ready st =
      (st.pos % piece_unit_size ≡ 0)
      × (buf_len mbuf react st < piece_unit_size)
      × (Mbuf.size mbuf st.buf ≡ piece_unit_size)

  -- Everything that was requested was handed on.
  abbrev pub Ended : HttpPipe M → Type 0
  Ended st = (st.pos ≡ st.req_pos + st.len) × (buf_bytes mbuf react st ≡ [])

  -- More is to come.
  abbrev pub Waiting : HttpPipe M → Type 0
  Waiting st = Ready st × (st.pos + buf_len mbuf react st ≢ st.req_pos + st.len)

  -- From one state to another with some bytes of the body.
  pub record Moved (st : HttpPipe M) (body : List ℕ) (st' : HttpPipe M) : Type 0 where
    pub made : List Call
    pub calls_made : st'.calls ≡ st.calls ++ made
    pub consecutive : Consecutive (st.req_pos + st.len) st.pos made
    pub bytes_kept : content made ++ buf_bytes mbuf react st' ≡ buf_bytes mbuf react st ++ body
    pub pos_moved : st'.pos ≡ st.pos + length (content made)
    pub same_end : st'.req_pos + st'.len ≡ st.req_pos + st.len

  pub Moved-trans :
      (a b c : HttpPipe M) (xs ys : List ℕ) → Moved a xs b → Moved b ys c → Moved a (xs ++ ys) c
  Moved-trans a b c xs ys f g = record {
    made = f.made ++ g.made;
    calls_made =
        g.calls_made ∙ ap (λ cs. cs ++ g.made) f.calls_made ∙ append_assoc a.calls f.made g.made;
    consecutive = Consecutive-append (a.req_pos + a.len) a.pos f.made g.made f.consecutive (
        subst (λ e. Consecutive e (a.pos + length (content f.made)) g.made) f.same_end
          (subst (λ p. Consecutive (b.req_pos + b.len) p g.made) f.pos_moved g.consecutive));
    bytes_kept =
        ap (λ cs. cs ++ buf_bytes mbuf react c) (content-append f.made g.made)
        ∙ append_assoc (content f.made) (content g.made) (buf_bytes mbuf react c)
        ∙ ap (λ zs. content f.made ++ zs) g.bytes_kept
        ∙ sym (append_assoc (content f.made) (buf_bytes mbuf react b) ys)
        ∙ ap (λ zs. zs ++ ys) f.bytes_kept
        ∙ append_assoc (buf_bytes mbuf react a) xs ys;
    pos_moved = omega (
      arith,
      f.pos_moved,
      g.pos_moved,
      ap length (content-append f.made g.made),
      length-append (content f.made) (content g.made),
    );
    same_end = g.same_end ∙ f.same_end;
  }
