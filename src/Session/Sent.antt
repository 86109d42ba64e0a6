-- ===== src/Session/Sent.antt =====
-- The events of a session: it goes on, ends with all of its range, or stops with an error.
use mathlib.Core.List.{append-nil}
use libms.Base.{
  ℕ, ◌+◌, ◌-◌, ◌*◌, ◌≤◌, ◌≡◌, ◌⊎◌, inl, inr, refl, ap, ◌∙◌, true, false, not, ◌&&◌, ◌||◌, [], ◌∷◌,
  slice, ltb, ◌==◌, if◌then◌else◌, Outcome, ok, fault, Fault, ◌>>=◌, leb_int64, leb_int64-exact,
  arith, if_cases, dec_lt, is_nonneg,
}
use libms.TaskOps.{TaskOps, IsTask}
use libms.Session.{Output, error_response, Session, hand_over, try_transfer_data}
use libms.Session.Validity.{body_of, body_of-append}
use libms.Session.{
  try_transfer_data, ms_session_close_if_need, finish, count_head, after_send, on_send, on_recv,
}
use libms.Session.Delivery.{MayOverread, Kept, Transferred}
use libms.Session.Counted.{
  drained, counted_off, counted_off-Kept, counted_off-MayOverread, drained-Kept, count_head_lem,
}
use libms.Session.Progress.{try_transfer_data-Transferred}

module _ {T : Type 0} (ops : TaskOps T) (f : ℕ → ℕ) (laws : IsTask ops f) (limit : ℕ) where
  -- It waits for the connection to close; a first part of the range was handed over.
  abbrev pub Stopped : Session T → Type 0
  Stopped st =
      (st.conn.send_and_close ≡ true) × ((n : ℕ) × (body_of st.conn.out ≡ slice f st.req_pos n))

  -- It was freed with all of the range handed over, up to `end`.
  abbrev pub Finished : ℕ → Session T → Type 0
  Finished end st =
      (st.closed ≡ true) × (body_of st.conn.out ≡ slice f st.req_pos (end - st.req_pos))

  abbrev pub GoesOn : Session T → Type 0
  GoesOn st = Kept ops f laws limit st ⊎ Stopped st

  -- What comes of an event.
  abbrev pub Served : Session T → Outcome (Session T) → Type 0
  Served st m =
      ((st' : Session T) × (m ≡ ok st') × (GoesOn st' ⊎ Finished (st.pos + st.len) st'))
      ⊎ ((m ≡ fault Fault.assert_failed) × MayOverread ops f laws limit st)

  module _ (size_of : Output → ℕ) (heads : (o : Output) → size_of o * 2 ≤ limit) where
    close_if_need-GoesOn :
        (st : Session T)
        → Kept ops f laws limit st
        → GoesOn (ms_session_close_if_need ops limit size_of st)
    unfolding ms_session_close_if_need
    close_if_need-GoesOn st (v, i) =
        let code : ℕ = TaskOps.get_errno ops st.task in
        let stopped : Session T = record st { conn = record st.conn { send_and_close = true } } in
        let failed : Session T = record st {
          conn = record (hand_over (error_response code) (size_of (error_response code)) st.conn) {
            send_and_close = true;
          };
        } in
        let told =
          body_of-append st.conn.out (error_response code ∷ [])
          ∙ append-nil (body_of st.conn.out)
          ∙ v.delivered in
        if_cases GoesOn (code == 0 || ltb 0 st.sending || ltb 0 st.header_sending) st
          (if st.conn.header_send then stopped else if st.conn.send_and_close then st else failed)
          (λ _. inl (v, i))
          (λ _.
            if_cases GoesOn st.conn.header_send stopped
              (if st.conn.send_and_close then st else failed)
              (λ _. inr (refl, (st.pos + st.sending - st.req_pos, v.delivered)))
              (λ _.
                if_cases GoesOn st.conn.send_and_close st failed (λ _. inl (v, i))
                  (λ _. inr (refl, (st.pos + st.sending - st.req_pos, told)))))

    go_on-Served :
        (st : Session T) (m : Outcome (Session T))
        → Transferred ops f laws limit st m
        → Served st (m >>= λ st'. ok (ms_session_close_if_need ops limit size_of st'))
    go_on-Served st m (inl (st', e, k)) = inl (
      ms_session_close_if_need ops limit size_of st',
      rw e refl,
      inl (close_if_need-GoesOn st' k),
    )
    go_on-Served st m (inr (e, o)) = inr (rw e refl, o)

    -- For a task that reads bytes of its file and heads of at most half the buffer: a valid GET
    -- session with its range inside the file, for which bytes arrive, goes on valid, with what it
    -- hands over being its range in order, or waits to be closed with a first part of the range
    -- handed over; or its assertion on the range fails, which needs a requested end before the end
    -- of the file and bytes left in the buffer.
    pub on_recv-Served :
        (st : Session T) → Kept ops f laws limit st → Served st (on_recv ops limit size_of st)
    unfolding on_recv
    on_recv-Served st k =
        go_on-Served st (try_transfer_data ops limit size_of st)
          (try_transfer_data-Transferred ops f laws limit size_of heads st k)

    after_send-Served :
        (st : Session T) → Kept ops f laws limit st → Served st (after_send ops limit size_of st)
    unfolding after_send finish
    after_send-Served st (v, i) =
        if_cases (Served st) (st.len == 0 && st.sending == 0) (ok (finish ops st))
          (try_transfer_data ops limit size_of st >>= λ st'.
            ok (ms_session_close_if_need ops limit size_of st'))
          (λ e.
            inl (
              finish ops st,
              refl,
              inr (refl, v.delivered ∙ ap (slice f st.req_pos) (ground arith)),
            ))
          (λ _.
            go_on-Served st (try_transfer_data ops limit size_of st)
              (try_transfer_data-Transferred ops f laws limit size_of heads st (v, i)))

    pub on_send-counted_off :
        (st : Session T) (n header_sending body_len : ℕ)
        → st.conn.send_and_close ≡ false
        → count_head st.header_sending n ≡ (header_sending, body_len)
        → (st.len == 0) ≡ false
        → (not (is_nonneg st.len) || leb_int64 body_len st.len) ≡ true
        → on_send ops limit size_of (drained n st) n
          ≡ after_send ops limit size_of (counted_off st n header_sending body_len)
    unfolding on_send counted_off
    on_send-counted_off st n h b live e more enough = simp (live, e, more, enough)

    Served-from :
        (st st' : Session T) (m : Outcome (Session T))
        → st'.pos + st'.len ≡ st.pos + st.len
        → (MayOverread ops f laws limit st' → MayOverread ops f laws limit st)
        → Served st' m
        → Served st m
    Served-from st st' m e over (inl (st'', r, inl g)) = inl (st'', r, inl g)
    Served-from st st' m e over (inl (st'', r, inr (c, d))) =
        inl (st'', r, inr (c, d ∙ ap (λ z. slice f st''.req_pos (z - st''.req_pos)) e))
    Served-from st st' m e over (inr (r, o)) = inr (r, over o)

    -- For a task that reads bytes of its file and heads of at most half the buffer: a valid GET
    -- session with its range inside the file, that is not to be closed and is told of bytes which
    -- the connection has sent, goes on valid, or waits to be closed with a first part of its range
    -- handed over, or is freed with all of the range handed over in order; or its assertion on the
    -- range fails, which needs a requested end before the end of the file and bytes left in the
    -- buffer.
    pub on_send-Served :
        (st : Session T) (n : ℕ)
        → Kept ops f laws limit st
        → st.conn.send_and_close ≡ false
        → n ≤ st.conn.send_len
        → Served st (on_send ops limit size_of (drained n st) n)
    unfolding on_send counted_off
    on_send-Served st n (v, i) live fits =
        let (h, b, e, le, sum, or) = count_head_lem st.header_sending n in
        elim (dec_lt 0 st.len) [
          | no z ↦ inl (
            record (drained n st) { header_sending = h },
            rw (live, e) (ground arith),
            inl (inl (drained-Kept ops f laws limit st n h (v, i) (omega arith))),
          )
          | yes l ↦
              let st' = counted_off st n h b in
              let (k, same) =
                counted_off-Kept ops f laws limit st n h b (v, i) le (omega arith) (omega arith) in
              let more : (st.len == 0) ≡ false = ground arith in
              let enough : (not (is_nonneg st.len) || leb_int64 b st.len) ≡ true =
                rw (leb_int64-exact b st.len (omega arith) (omega arith)) (ground arith) in
              rw (on_send-counted_off st n h b live e more enough) (
                Served-from st st' (after_send ops limit size_of st') same
                  (counted_off-MayOverread ops f laws limit st n h b (omega arith) (omega arith))
                  (after_send-Served st' k))
        ]
