-- ===== src/Session/Liveness.antt =====
-- A session on a task that has all of its file ends, with all of its range handed over: the rounds of
-- `try_transfer_data` and `on_send` of src/ms_session.c.
mod Tests
use libms.Base.{
  ℕ, zero, suc, ◌+◌, ◌-◌, ◌*◌, ◌/◌, ◌≤◌, ◌<◌, ◌≡◌, inl, inr, refl, sym, ap, ◌∙◌, Bool, true, false,
  not, ◌&&◌, ◌||◌, slice, ltb, leb, ◌==◌, if◌then◌else◌, Outcome, ok, fault, ◌>>=◌, leb_int64,
  leb_int64-exact, sub64-exact, add64-exact, arith, if_cases, Bool-cases, dec_lt, is_nonneg, subst,
}
use libms.Task.{Reader}
use libms.TaskOps.{TaskOps, IsTask}
use libms.Session.{
  Output, Connection, Session, http_get, http_head, reader_of, shared, filesize, hand_over,
  read_media, parse_media, head_of, transfer_body, transfer, try_transfer_data, send_header,
  ms_session_close_if_need, count_head, count_body, after_send, finish, on_send, on_recv,
}
use libms.Session.Validity.{IsValid, InFile, body_of}
use libms.Session.Transfer.{shared-InOrder, with_task}
use libms.Session.Delivery.{MayOverread, Kept, Transferred}
use libms.Session.Progress.{with_head, with_head-Kept, try_transfer_data-Transferred}
use libms.Session.Counted.{drained, counted_off, counted_off-Kept, len_left}
use libms.Session.Sent.{on_send-counted_off}
use libms.Session.Complete.{IsComplete, Ready, Moving, transfer_body-Moving}
use libms.Session.Rounds.{Both, transferred, counted_off-Both}

-- The socket takes all that the connection holds, and the session is told, until it is freed.
unfoldable pub drain_all :
    {T : Type 0} (ops : TaskOps T) (limit : ℕ) (size_of : Output → ℕ)
    → ℕ
    → Session T
    → Outcome (Session T)
drain_all ops limit size_of zero st = ok st
drain_all ops limit size_of (suc rounds) st =
    if st.closed
    then ok st
    else on_send ops limit size_of (drained st.conn.send_len st) st.conn.send_len
      >>= drain_all ops limit size_of rounds

module _ {T : Type 0} (ops : TaskOps T) (f : ℕ → ℕ) (laws : IsTask ops f)
    (all : IsComplete ops f laws) (limit : ℕ) (size_of : Output → ℕ)
    (heads : (o : Output) → size_of o * 2 ≤ limit) where
  -- The session is freed, and its range was handed over.
  abbrev pub Done : ℕ → ℕ → Outcome (Session T) → Type 0
  Done first end m =
      (st' : Session T) × (m ≡ ok st')
      × (st'.closed ≡ true)
      × (body_of st'.conn.out ≡ slice f first (end - first))

  drain_all-closed :
      (rounds : ℕ) (st : Session T)
      → st.closed ≡ true
      → drain_all ops limit size_of rounds st ≡ ok st
  unfolding drain_all
  drain_all-closed zero st e = refl
  drain_all-closed (suc rounds) st e = rw e refl

  after_send-Done :
      (first end rounds : ℕ) (st : Session T)
      → Both ops f laws all limit size_of heads first end st
      → st.len ≡ 0
      → st.sending ≡ 0
      → Done first end (after_send ops limit size_of st >>= drain_all ops limit size_of rounds)
  unfolding after_send finish
  after_send-Done first end rounds st ((v, i), r) none_left none_sending =
      let over : (st.len == 0 && st.sending == 0) ≡ true = ground arith in
      let begins : st.req_pos ≡ first = r.begins in
      (
        finish ops st,
        simp (over, drain_all-closed rounds (finish ops st) refl),
        refl,
        v.delivered
            ∙ ap (λ p. slice f p (st.pos + st.sending - p)) begins
            ∙ ap (slice f first) (omega (arith, r.ends)),
      )

  -- What a round comes to.
  round :
      (first end rounds : ℕ) (st : Session T)
      → Both ops f laws all limit size_of heads first end st
      → 0 < st.sending
      → drain_all ops limit size_of (suc rounds) st ≡ (
          after_send ops limit size_of (counted_off st st.conn.send_len 0 st.sending)
          >>= drain_all ops limit size_of rounds)
  unfolding count_head drain_all
  round first end rounds st ((v, i), r) moving =
      let sum : st.sending + st.header_sending ≡ st.conn.send_len = v.counted in
      let heads_off : count_head st.header_sending st.conn.send_len ≡ (0, st.sending) =
        ground arith in
      let more : (st.len == 0) ≡ false = ground (arith, v.queued) in
      let small : leb_int64 st.sending st.len ≡ leb st.sending st.len =
        leb_int64-exact st.sending st.len (omega (arith, v.queued, v.small))
          (omega (arith, v.small)) in
      let enough : (not (is_nonneg st.len) || leb_int64 st.sending st.len) ≡ true =
        rw small (ground (arith, v.queued)) in
      let opened : st.closed ≡ false = r.opened in
      let sent =
        on_send-counted_off ops f laws limit size_of heads st st.conn.send_len 0 st.sending r.live
          heads_off more enough in
      let next : Outcome (Session T) =
        on_send ops limit size_of (drained st.conn.send_len st) st.conn.send_len
        >>= drain_all ops limit size_of rounds in
      ap (λ b. if b then ok st else next) opened
      ∙ ap (λ m. m >>= drain_all ops limit size_of rounds) sent

  drain_all-Done :
      (first end rounds : ℕ) (st : Session T)
      → 0 < limit
      → Both ops f laws all limit size_of heads first end st
      → 0 < st.sending
      → st.len ≤ rounds
      → Done first end (drain_all ops limit size_of rounds st)
  unfolding after_send
  drain_all-Done first end zero st positive ((v, i), r) moving fuel =
      absurd (omega (arith, v.queued))
  drain_all-Done first end (suc rounds) st positive ((v, i), r) moving fuel =
      let st' = counted_off st st.conn.send_len 0 st.sending in
      let (both, len, none) =
        counted_off-Both ops f laws all limit size_of heads first end st ((v, i), r) in
      rw (round first end rounds st ((v, i), r) moving) (elim (dec_lt 0 st'.len) [
        | no l ↦ after_send-Done first end rounds st' both (omega arith) none
        | yes l ↦
            let (st'', done, both', moving', same) =
              transferred ops f laws all limit size_of heads first end st' positive both l in
            let on : (st'.len == 0 && st'.sending == 0) ≡ false = ground arith in
            let (s, e, c, d) =
              drain_all-Done first end rounds st'' positive both' moving' (omega arith) in
            (s, simp (on, done, e), c, d)
      ])

  -- On a task that reads all that is asked of it and reports no error, with heads of at most
  -- half the buffer: a valid GET session, not to be closed, with a range up to the end of the
  -- file that is not empty, transfers what it can when bytes arrive; if the socket then takes
  -- all that the connection holds and the session is told, again and again, it is freed after at
  -- most as many rounds as the range has bytes, with no fault, and all of the range was handed
  -- over in order.
  pub drain_all-on_recv :
      (st : Session T) (rounds : ℕ)
      → 0 < limit
      → Kept ops f laws limit st
      → IsComplete.Complete all st.task
      → (st.pos + st.len ≡ filesize ops st) × (0 < st.len)
      → (st.conn.send_and_close ≡ false) × (st.closed ≡ false)
      → st.len ≤ rounds
      → (st' : Session T) × (on_recv ops limit size_of st >>= drain_all ops limit size_of rounds
          ≡ ok st')
        × (st'.closed ≡ true)
        × (body_of st'.conn.out ≡ slice f st.req_pos (filesize ops st - st.req_pos))
  unfolding on_recv
  drain_all-on_recv st rounds positive k complete (ends, more) (live, opened) fuel =
      let r : Ready ops f laws all limit st.req_pos (filesize ops st) st = record {
        complete = complete;
        ends = ends;
        size = refl;
        begins = refl;
        live = live;
        opened = opened;
      } in
      let (st', done, both, moving, same) =
        transferred ops f laws all limit size_of heads st.req_pos (filesize ops st) st positive
          (k, r) more in
      let (s, e, c, d) =
        drain_all-Done st.req_pos (filesize ops st) rounds st' positive both moving (omega arith) in
      (s, simp (done, e), c, d)
