-- ===== src/Session/Validity.antt =====
-- What holds of a session between two events, and the steps of a transfer that keep it.
use mathlib.Core.List.{append_assoc}
use libms.Base.{
  ℕ, ◌+◌, ◌-◌, ◌*◌, ◌^◌, ◌≤◌, ◌<◌, ◌≡◌, ◌≢◌, ◌⊎◌, refl, sym, ap, ◌∙◌, false, List, [], ◌∷◌, ◌++◌,
  length, slice,
}
use libms.TaskOps.{TaskOps, IsTask}
use libms.Session.{Output, head, body, error_response, Session, http_head, filesize}

-- The bytes of the body that were handed over.
abbrev pub body_of : List Output → List ℕ
body_of [] = []
body_of (body bytes ∷ out) = bytes ++ body_of out
body_of (head _ _ _ _ _ ∷ out) = body_of out
body_of (error_response _ ∷ out) = body_of out

pub body_of-append : (xs ys : List Output) → body_of (xs ++ ys) ≡ body_of xs ++ body_of ys
body_of-append [] ys = refl
body_of-append (body bytes ∷ xs) ys =
    ap (λ zs. bytes ++ zs) (body_of-append xs ys)
    ∙ sym (append_assoc bytes (body_of xs) (body_of ys))
body_of-append (head _ _ _ _ _ ∷ xs) ys = body_of-append xs ys
body_of-append (error_response _ ∷ xs) ys = body_of-append xs ys

module _ {T : Type 0} (ops : TaskOps T) (f : ℕ → ℕ) (laws : IsTask ops f) (limit : ℕ) where
  -- The body handed over is the file from the requested position on, the buffer goes on from there,
  -- both stay inside what was asked for, and the bytes that the connection has not sent are counted.
  pub record IsValid (st : Session T) : Type 0 where
    pub in_order : IsTask.InOrder laws st.task
    pub getting : st.method ≢ http_head
    pub begun : st.req_pos ≤ st.pos
    pub delivered : body_of st.conn.out ≡ slice f st.req_pos (st.pos + st.sending - st.req_pos)
    pub buffered : st.buf ≡ slice f (st.pos + st.sending) (length st.buf)
    pub queued : st.sending + length st.buf ≤ st.len
    pub fits : length st.buf ≤ limit
    pub counted : st.sending + st.header_sending ≡ st.conn.send_len
    pub head_small : st.header_sending * 2 ≤ limit
    pub before_head : st.conn.header_send ≡ false → (st.header_sending ≡ 0) × (st.sending ≡ 0)
    pub small : st.pos + st.len + limit < 2 ^ 61
    pub asked : (st.req_len ≡ 0) ⊎ (st.pos + st.len ≡ st.req_pos + st.req_len)

  -- The rest of the range lies in the file, and ends with it if no end was asked for.
  abbrev pub InFile : Session T → Type 0
  InFile st =
      (st.pos + st.len ≤ filesize ops st)
      × (filesize ops st < 2 ^ 62)
      × ((st.req_len ≡ 0) → st.pos + st.len ≡ filesize ops st)
