-- ===== src/Session/Keeps.antt =====
-- What every operation of a session keeps of its task, whether its bytes are right or not.
use libms.Base.{
  ℕ, ◌+◌, ◌/◌, ◌≡◌, ◌⊎◌, inl, inr, refl, ◌∙◌, Bool, true, false, not, ◌&&◌, ◌||◌, List, ◌++◌,
  length, ltb, ◌==◌, if◌then◌else◌, Outcome, ok, fault, ◌>>=◌, ◌>>◌, ms_assert, add64, leb_int64,
  is_nonneg, if_cases,
}
use libms.Task.{Reader}
use libms.TaskOps.{TaskOps}
use libms.Session.{
  Output, Session, http_get, http_head, reader_of, shared, filesize, read_media, read_from, wanted,
  is_asked, send_len_of, send_buf, send_header, transfer_body, transfer, try_transfer_data,
  ms_session_close_if_need, finish, count_head, count_body, after_send, on_send, on_recv,
  on_content_size_from,
}

-- What holds of a value, if there is one.
abbrev pub Holds : {A : Type 0} → (A → Type 0) → Outcome A → Type 0
Holds P (ok a) = P a
Holds P (fault _) = Unit

pub Holds-bind :
    {A B : Type 0} (P : A → Type 0) (Q : B → Type 0) (m : Outcome A) (k : A → Outcome B)
    → Holds P m
    → ((a : A) → P a → Holds Q (k a))
    → Holds Q (m >>= k)
Holds-bind P Q (ok a) k h f = f a h
Holds-bind P Q (fault e) k h f = tt

pub Holds-map :
    {A : Type 0} (P Q : A → Type 0) (m : Outcome A) → Holds P m → ((a : A) → P a → Q a) → Holds Q m
Holds-map P Q (ok a) h f = f a h
Holds-map P Q (fault e) h f = tt

pub Holds-assert :
    {B : Type 0} (Q : B → Type 0) (b : Bool) (k : Outcome B)
    → Holds Q k
    → Holds Q (ms_assert b >> k)
Holds-assert Q true k h = h
Holds-assert Q false k h = tt

pub Holds-any : {A : Type 0} (m : Outcome A) → Holds (λ _. Unit) m
Holds-any (ok a) = tt
Holds-any (fault e) = tt

-- A predicate on tasks that reading does not change.
pub record IsKept {T : Type 0} (ops : TaskOps T) (Q : T → Type 0) : Type 0 where
  pub sync-kept : (t : T) (r : Reader) → Q t → Q (TaskOps.sync ops t r)
  pub read-kept :
      (t : T) (pos len : ℕ) → Q t → Holds (λ (z : T × List ℕ). Q z.0) (TaskOps.read ops t pos len)

module _ {T : Type 0} (ops : TaskOps T) (Q : T → Type 0) (kept : IsKept ops Q) where
  -- The session is the same one, and its task as the predicate says.
  abbrev pub SameOn : Session T → Session T → Type 0
  SameOn st st' = Q st'.task × (st'.id ≡ st.id) × (st'.closed ≡ st.closed)

  read_media-SameOn : (st : Session T) → Q st.task → Holds (SameOn st) (read_media ops st)
  unfolding read_media
  read_media-SameOn st q =
      if_cases (Holds (SameOn st)) (st.method == http_get && not st.meta && st.req_pos == 0) _
        (ok st)
        (λ _.
          Holds-bind (λ z. Q z.0) (SameOn st) _ _
            (kept.read-kept (shared ops st) 0
              (if ltb (filesize ops st) 1024 then filesize ops st else 1024)
              (kept.sync-kept st.task (reader_of st) q))
            (λ z h. (h, refl, refl)))
        (λ _. (q, refl, refl))

  module _ (limit : ℕ) where
    send_buf-SameOn : (st : Session T) → Q st.task → Holds (SameOn st) (send_buf ops limit st)
    unfolding send_buf
    send_buf-SameOn st q =
        if_cases (Holds (SameOn st)) (length st.buf == 0) (ok st) _ (λ _. (q, refl, refl))
          (λ _.
            Holds-bind (λ _. Unit) (SameOn st) (send_len_of ops limit st) _
              (Holds-any (send_len_of ops limit st))
              (λ n _.
                Holds-assert (SameOn st) (is_asked st (add64 (st.pos + st.sending) n)) _
                  (q, refl, refl)))

    transfer_body-SameOn :
        (st : Session T) → Q st.task → Holds (SameOn st) (transfer_body ops limit st)
    unfolding transfer_body
    transfer_body-SameOn st q =
        Holds-assert (SameOn st) (is_asked st (add64 (read_from st) (wanted ops limit st))) _ (
          Holds-bind (λ z. Q z.0) (SameOn st) _ _
            (kept.read-kept (shared ops st) (read_from st) (wanted ops limit st)
              (kept.sync-kept st.task (reader_of st) q))
            (λ z h.
              Holds-map (SameOn (record st { task = z.0; buf = st.buf ++ z.1 })) (SameOn st) _
                (send_buf-SameOn (record st { task = z.0; buf = st.buf ++ z.1 }) h)
                (λ st' (a, b, c). (a, b, c))))

    module _ (size_of : Output → ℕ) where
      send_header-SameOn :
          (st : Session T) → Q st.task → SameOn st (send_header ops limit size_of st)
      unfolding send_header
      send_header-SameOn st q =
          if_cases (SameOn st) st.conn.header_send st _ (λ _. (q, refl, refl))
            (λ _. (q, refl, refl))

      SameOn-trans :
          (st st' : Session T) (m : Outcome (Session T))
          → SameOn st st'
          → (Q st'.task → Holds (SameOn st') m)
          → Holds (SameOn st) m
      SameOn-trans st st' m (q, i, c) h =
          Holds-map (SameOn st') (SameOn st) m (h q) (λ s (q', j, d). (q', j ∙ i, d ∙ c))

      headed-SameOn :
          (st : Session T)
          → Q st.task
          → Holds (SameOn st) (
              let st' : Session T = send_header ops limit size_of st in
              if st'.method == http_head
              then ok (record st' { conn = record st'.conn { send_and_close = true } })
              else transfer_body ops limit st')
      headed-SameOn st q =
          let st' = send_header ops limit size_of st in
          SameOn-trans st st' _ (send_header-SameOn st q) (λ q'.
            if_cases (Holds (SameOn st')) (st'.method == http_head) _ (transfer_body ops limit st')
              (λ _. (q', refl, refl)) (λ _. transfer_body-SameOn st' q'))

      pub try_transfer_data-SameOn :
          (st : Session T) → Q st.task → Holds (SameOn st) (try_transfer_data ops limit size_of st)
      unfolding try_transfer_data transfer
      try_transfer_data-SameOn st q =
          Holds-assert (SameOn st) (st.sending + st.header_sending == st.conn.send_len) _ (
            if_cases (Holds (SameOn st))
              (ltb (limit / 2) st.sending || st.len == 0 || filesize ops st == 0) (ok st) _
              (λ _. (q, refl, refl))
              (λ _.
                Holds-bind (SameOn st) (SameOn st) (read_media ops st) _ (read_media-SameOn st q)
                  (λ st' h. SameOn-trans st st' _ h (headed-SameOn st'))))

      pub close_if_need-SameOn :
          (st : Session T) → Q st.task → SameOn st (ms_session_close_if_need ops limit size_of st)
      unfolding ms_session_close_if_need
      close_if_need-SameOn st q =
          let same : Session T → Type 0 = SameOn st in
          let code : ℕ = TaskOps.get_errno ops st.task in
          if_cases same (code == 0 || ltb 0 st.sending || ltb 0 st.header_sending) st _
            (λ _. (q, refl, refl))
            (λ _.
              if_cases same st.conn.header_send _ _ (λ _. (q, refl, refl))
                (λ _.
                  if_cases same st.conn.send_and_close st _ (λ _. (q, refl, refl))
                    (λ _. (q, refl, refl))))

      pub on_recv-SameOn :
          (st : Session T) → Q st.task → Holds (SameOn st) (on_recv ops limit size_of st)
      unfolding on_recv
      on_recv-SameOn st q =
          Holds-bind (SameOn st) (SameOn st) (try_transfer_data ops limit size_of st) _
            (try_transfer_data-SameOn st q)
            (λ st' h.
              SameOn-trans st st' (ok (ms_session_close_if_need ops limit size_of st')) h
                (close_if_need-SameOn st'))

      -- It left its task, and was freed.
      abbrev pub Gone : Session T → Session T → Type 0
      Gone st st' =
          (st'.closed ≡ true)
          × ((t : T) × (r : Reader) × Q t
              × (r.id ≡ st.id)
              × (st'.task ≡ TaskOps.remove_reader ops t r))

      abbrev pub SameOrGone : Session T → Session T → Type 0
      SameOrGone st st' = SameOn st st' ⊎ Gone st st'

      pub finish-Gone : (st : Session T) → Q st.task → Gone st (finish ops st)
      unfolding finish
      finish-Gone st q =
          (refl, (shared ops st, reader_of st, kept.sync-kept st.task (reader_of st) q, refl, refl))

      after_send-SameOrGone :
          (st : Session T) → Q st.task → Holds (SameOrGone st) (after_send ops limit size_of st)
      unfolding after_send on_recv
      after_send-SameOrGone st q =
          if_cases (Holds (SameOrGone st)) (st.len == 0 && st.sending == 0) (ok (finish ops st))
            (on_recv ops limit size_of st) (λ _. inr (finish-Gone st q))
            (λ _.
              Holds-map (SameOn st) (SameOrGone st) (on_recv ops limit size_of st)
                (on_recv-SameOn st q) (λ st' h. inl h))

      pub on_send-SameOrGone :
          (st : Session T) (n : ℕ)
          → Q st.task
          → Holds (SameOrGone st) (on_send ops limit size_of st n)
      unfolding on_send count_body
      on_send-SameOrGone st n q =
          let header : ℕ = (count_head st.header_sending n).0 in
          let len : ℕ = (count_head st.header_sending n).1 in
          let st' : Session T = record st { header_sending = header } in
          if_cases (Holds (SameOrGone st)) st.conn.send_and_close (ok st) _
            (λ _. inl (q, refl, refl))
            (λ _.
              if_cases (Holds (SameOrGone st)) (st.len == 0) (ok st') _ (λ _. inl (q, refl, refl))
                (λ _.
                  Holds-assert (SameOrGone st) (not (is_nonneg st.len) || leb_int64 len st.len) _
                    (after_send-SameOrGone (count_body st' len) q)))

  pub on_content_size_from-SameOn :
      (st : Session T) → Q st.task → SameOn st (on_content_size_from ops st)
  unfolding on_content_size_from
  on_content_size_from-SameOn st q =
      if_cases (SameOn st) ((ltb 0 st.len && is_nonneg st.len) || filesize ops st == 0) st _
        (λ _. (q, refl, refl)) (λ _. (q, refl, refl))
