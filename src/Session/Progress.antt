-- ===== src/Session/Progress.antt =====
-- A transfer keeps a session valid.
use mathlib.Core.List.{append-nil}
use libms.Base.{
  ℕ, ◌+◌, ◌*◌, ◌/◌, ◌≤◌, ◌<◌, ◌≡◌, inl, inr, refl, sym, ◌∙◌, true, false, ◌||◌, [], ◌∷◌, ltb, ◌==◌,
  if◌then◌else◌, Outcome, ok, arith, if_cases,
}
use libms.TaskOps.{TaskOps, IsTask}
use libms.Session.{
  Output, Connection, Session, http_head, filesize, hand_over, head_of, send_header, transfer_body,
  transfer, try_transfer_data,
}
use libms.Session.Validity.{body_of, body_of-append}
use libms.Session.Transfer.{with_task, read_media-IsValid}
use libms.Session.{transfer, try_transfer_data}
use libms.Session.Delivery.{MayOverread, Kept, Transferred, transfer_body-Transferred}

module _ {T : Type 0} (ops : TaskOps T) (f : ℕ → ℕ) (laws : IsTask ops f) (limit : ℕ)
    (size_of : Output → ℕ) (heads : (o : Output) → size_of o * 2 ≤ limit) where
  -- The head was handed over.
  unfoldable pub with_head : Session T → Session T
  with_head st =
      let conn : Connection =
        hand_over (head_of ops st) (size_of (head_of ops st))
          (record st.conn { header_send = true }) in
      record st { conn = conn; header_sending = st.header_sending + conn.send_len }

  pub with_head-Kept :
      (st : Session T)
      → st.conn.header_send ≡ false
      → Kept ops f laws limit st
      → Kept ops f laws limit (with_head st)
  unfolding with_head
  with_head-Kept st e (v, i) =
      let (none_sent, none_queued) = v.before_head e in
      (
        record {
          in_order = v.in_order;
          getting = v.getting;
          begun = v.begun;
          delivered =
              body_of-append st.conn.out (head_of ops st ∷ [])
              ∙ append-nil (body_of st.conn.out)
              ∙ v.delivered;
          buffered = v.buffered;
          queued = v.queued;
          fits = v.fits;
          counted = omega arith;
          head_small = omega (arith, heads (head_of ops st));
          before_head = λ e. absurd (cc);
          small = v.small;
          asked = v.asked;
        },
        i,
      )

  -- What is the same behind the head.
  abbrev Headed : Session T → Session T → Type 0
  Headed st st' =
      Kept ops f laws limit st'
      × (st'.conn.header_send ≡ true)
      × (st'.buf ≡ st.buf)
      × (filesize ops st' ≡ filesize ops st)
      × (MayOverread ops f laws limit st' → MayOverread ops f laws limit st)
      × (st'.method ≡ st.method)

  send_header-Headed :
      (st : Session T) → Kept ops f laws limit st → Headed st (send_header ops limit size_of st)
  unfolding send_header with_head
  send_header-Headed st k =
      if_cases (Headed st) st.conn.header_send st (with_head st)
        (λ e. (k, e, refl, refl, (λ o. o), refl))
        (λ e. (with_head-Kept st e k, refl, refl, refl, (λ o. o), refl))

  Transferred-from :
      (st st' : Session T) (m : Outcome (Session T))
      → (MayOverread ops f laws limit st' → MayOverread ops f laws limit st)
      → Transferred ops f laws limit st' m
      → Transferred ops f laws limit st m
  Transferred-from st st' m over (inl k) = inl k
  Transferred-from st st' m over (inr (e, o)) = inr (e, over o)

  headed : Session T → Outcome (Session T)
  headed st =
      let st' : Session T = send_header ops limit size_of st in
      if st'.method == http_head
      then ok (record st' { conn = record st'.conn { send_and_close = true } })
      else transfer_body ops limit st'

  headed-Transferred :
      (st : Session T)
      → Kept ops f laws limit st
      → 0 < filesize ops st
      → Transferred ops f laws limit st (headed st)
  unfolding headed
  headed-Transferred st (v, i) known =
      let st' = send_header ops limit size_of st in
      let (k, sent, _, size, over, m) = send_header-Headed st (v, i) in
      if_cases (Transferred ops f laws limit st) (st'.method == http_head)
        (ok (record st' { conn = record st'.conn { send_and_close = true } }))
        (transfer_body ops limit st') (λ e. absurd (v.getting (ground arith)))
        (λ e.
          Transferred-from st st' (transfer_body ops limit st') over
            (transfer_body-Transferred ops f laws limit st' k (omega arith) sent))

  transfer-Transferred :
      (st : Session T)
      → Kept ops f laws limit st
      → 0 < filesize ops st
      → Transferred ops f laws limit st (transfer ops limit size_of st)
  unfolding transfer headed
  transfer-Transferred st (v, (inside, bound, open_end)) known =
      let (t, b, r, o, size) = read_media-IsValid ops f laws limit st v (inside, bound, open_end) in
      let st' : Session T = record st { task = t; meta = b } in
      rw r (
        Transferred-from st st' (headed st') (λ (a, b, c). (a, b, omega arith))
          (headed-Transferred st'
            (
              with_task ops f laws limit st t b v o,
              (omega arith, omega arith, λ e. open_end e ∙ sym size),
            )
            (omega arith)))

  -- A valid session whose range lies in the file transfers with no fault and stays so, or its
  -- assertion on the range fails.
  pub try_transfer_data-Transferred :
      (st : Session T)
      → Kept ops f laws limit st
      → Transferred ops f laws limit st (try_transfer_data ops limit size_of st)
  unfolding try_transfer_data
  try_transfer_data-Transferred st (v, i) =
      let even : (st.sending + st.header_sending == st.conn.send_len) ≡ true = ground arith in
      rw even (
        if_cases (Transferred ops f laws limit st)
          (ltb (limit / 2) st.sending || st.len == 0 || filesize ops st == 0) (ok st)
          (transfer ops limit size_of st) (λ e. inl (st, refl, (v, i)))
          (λ e. transfer-Transferred st (v, i) (ground arith)))
