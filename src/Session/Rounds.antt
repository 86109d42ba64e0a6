-- ===== src/Session/Rounds.antt =====
-- One round of a session on a task that has all of its file: `try_transfer_data` of src/ms_session.c, and
-- what is counted off in `on_send`.
use libms.Base.{
  ℕ, ◌+◌, ◌-◌, ◌*◌, ◌/◌, ◌≤◌, ◌<◌, ◌≡◌, inl, inr, refl, sym, ap, ◌∙◌, Bool, true, false, not, ◌&&◌,
  ◌||◌, slice, ltb, ◌==◌, if◌then◌else◌, Outcome, ok, fault, ◌>>=◌, sub64-exact, arith, if_cases,
  Bool-cases, dec_lt, subst,
}
use libms.TaskOps.{TaskOps, IsTask}
use libms.Session.{
  Output, Session, http_get, http_head, reader_of, shared, filesize, read_media, parse_media,
  transfer_body, transfer, try_transfer_data, send_header, ms_session_close_if_need, count_body,
}
use libms.Session.Transfer.{shared-InOrder, with_task}
use libms.Session.Delivery.{Kept}
use libms.Session.Progress.{with_head, with_head-Kept, try_transfer_data-Transferred}
use libms.Session.Counted.{counted_off, counted_off-Kept, len_left}
use libms.Session.Complete.{IsComplete, Ready, Moving, transfer_body-Moving}

pub ok-injective : {A : Type 0} (d a b : A) → ok a ≡ ok b → a ≡ b
ok-injective d a b e = ap (λ m. elim m [ ok x ↦ x | fault _ ↦ d ]) e

module _ {T : Type 0} (ops : TaskOps T) (f : ℕ → ℕ) (laws : IsTask ops f)
    (all : IsComplete ops f laws) (limit : ℕ) (size_of : Output → ℕ)
    (heads : (o : Output) → size_of o * 2 ≤ limit) where
  abbrev pub Both : ℕ → ℕ → Session T → Type 0
  Both first end st = Kept ops f laws limit st × Ready ops f laws all limit first end st

  with_task-Both :
      (first end : ℕ) (st : Session T) (t : T) (b : Bool)
      → Both first end st
      → IsComplete.Complete all t
      → IsTask.InOrder laws t
      → TaskOps.get_filesize ops t ≡ filesize ops st
      → Both first end (record st { task = t; meta = b })
  with_task-Both first end st t b ((v, (inside, bound, open_end)), r) c o e = (
    (with_task ops f laws limit st t b v o, (omega arith, omega arith, λ z. open_end z ∙ sym e)),
    record {
      complete = c;
      ends = r.ends;
      size = e ∙ r.size;
      begins = r.begins;
      live = r.live;
      opened = r.opened;
    },
  )

  read_media-Both :
      (first end : ℕ) (st : Session T)
      → Both first end st
      → (t : T) × (b : Bool) × (read_media ops st ≡ ok (record st { task = t; meta = b }))
        × Both first end (record st { task = t; meta = b })
  unfolding read_media
  read_media-Both first end st ((v, i), r) =
      elim (Bool-cases (st.method == http_get && not st.meta && st.req_pos == 0)) [
        | inr e ↦ (st.task, st.meta, rw e refl, ((v, i), r))
        | inl e ↦
            let size = IsTask.sync-filesize laws st.task (reader_of st) in
            let n : ℕ = if ltb (filesize ops st) 1024 then filesize ops st else 1024 in
            let (t, read, complete, o, same) =
              IsComplete.read-all all (shared ops st) 0 n
                (IsComplete.sync-Complete all st.task (reader_of st) r.complete)
                (shared-InOrder ops f laws limit st v i) (ground arith) in
            let b : Bool = parse_media st.meta (slice f 0 n) in
            (
              t,
              b,
              rw (e, read) refl,
              with_task-Both first end st t b ((v, i), r) complete o (same ∙ size),
            )
      ]

  send_header-Both :
      (first end : ℕ) (st : Session T)
      → Both first end st
      → Both first end (send_header ops limit size_of st)
        × ((send_header ops limit size_of st).conn.header_send ≡ true)
        × ((send_header ops limit size_of st).len ≡ st.len)
  unfolding send_header with_head
  send_header-Both first end st (k, r) =
      if_cases (λ st'. Both first end st' × (st'.conn.header_send ≡ true) × (st'.len ≡ st.len))
        st.conn.header_send st (with_head ops f laws limit size_of heads st)
        (λ e. ((k, r), e, refl))
        (λ e. (
          (
            with_head-Kept ops f laws limit size_of heads st e k,
            record {
              complete = r.complete;
              ends = r.ends;
              size = r.size;
              begins = r.begins;
              live = r.live;
              opened = r.opened;
            },
          ),
          refl,
          refl,
        ))

  headed-Moving :
      (first end : ℕ) (st : Session T)
      → 0 < limit
      → Both first end st
      → 0 < st.len
      → Moving ops f laws all limit first end st (
          let st' : Session T = send_header ops limit size_of st in
          if st'.method == http_head
          then ok (record st' { conn = record st'.conn { send_and_close = true } })
          else transfer_body ops limit st')
  headed-Moving first end st positive both more =
      let st' = send_header ops limit size_of st in
      let (((v, i), r), sent, len) = send_header-Both first end st both in
      let get : (st'.method == http_head) ≡ false = elim (Bool-cases (st'.method == http_head)) [
        | inl e ↦ absurd (v.getting (ground arith))
        | inr e ↦ e
      ] in
      let (st'', done, r', moving, same) =
        transfer_body-Moving ops f laws all limit first end st' positive (v, i) r (omega arith) in
      (st'', simp (get, done), r', moving, same ∙ len)

  -- A transfer has bytes on their way, or finds some there.
  try_transfer_data-Moving :
      (first end : ℕ) (st : Session T)
      → 0 < limit
      → Both first end st
      → 0 < st.len
      → Moving ops f laws all limit first end st (try_transfer_data ops limit size_of st)
  unfolding try_transfer_data transfer
  try_transfer_data-Moving first end st positive ((v, i), r) more =
      let even : (st.sending + st.header_sending == st.conn.send_len) ≡ true =
        ground (arith, v.counted) in
      elim (dec_lt (limit / 2) st.sending) [
        | yes l ↦ (st, ground arith, r, omega arith, refl)
        | no l ↦
            let (t, b, read, both) = read_media-Both first end st ((v, i), r) in
            let (st', done, r', moving, same) =
              headed-Moving first end (record st { task = t; meta = b }) positive both more in
            let on : (ltb (limit / 2) st.sending || st.len == 0 || filesize ops st == 0) ≡ false =
              ground (arith, r.ends, r.size) in
            (st', simp (even, on, read, done), r', moving, same)
      ]

  -- No error is reported.
  close_if_need-Complete :
      (first end : ℕ) (st : Session T)
      → Ready ops f laws all limit first end st
      → ms_session_close_if_need ops limit size_of st ≡ st
  unfolding ms_session_close_if_need
  close_if_need-Complete first end st r =
      let none : TaskOps.get_errno ops st.task ≡ 0 = IsComplete.no_error all st.task r.complete in
      rw none refl

  -- After the step the session is as it was, with bytes on their way and as much to send.
  abbrev pub OnItsWay : ℕ → ℕ → ℕ → Outcome (Session T) → Type 0
  OnItsWay first end len m =
      (st' : Session T) × (m ≡ ok st') × Both first end st' × (0 < st'.sending) × (st'.len ≡ len)

  pub transferred :
      (first end : ℕ) (st : Session T)
      → 0 < limit
      → Both first end st
      → 0 < st.len
      → OnItsWay first end st.len (
          try_transfer_data ops limit size_of st >>= λ st'.
          ok (ms_session_close_if_need ops limit size_of st'))
  transferred first end st positive (k, r) more =
      let (st', done, r', moving, same) =
        try_transfer_data-Moving first end st positive (k, r) more in
      let goes : Kept ops f laws limit st' =
        elim (try_transfer_data-Transferred ops f laws limit size_of heads st k) [
          | inl (s, e, k') ↦ subst (Kept ops f laws limit) (ok-injective st s st' (sym e ∙ done)) k'
          | inr (_, (_, _, over)) ↦ absurd (omega (arith, r.ends, r.size))
        ] in
      (st', simp (done, close_if_need-Complete first end st' r'), (goes, r'), moving, same)

  pub counted_off-Both :
      (first end : ℕ) (st : Session T)
      → Both first end st
      → Both first end (counted_off st st.conn.send_len 0 st.sending)
        × ((counted_off st st.conn.send_len 0 st.sending).len ≡ st.len - st.sending)
        × ((counted_off st st.conn.send_len 0 st.sending).sending ≡ 0)
  unfolding counted_off count_body
  counted_off-Both first end st ((v, i), r) =
      let (k, sum) =
        counted_off-Kept ops f laws limit st st.conn.send_len 0 st.sending (v, i) (omega arith)
          (omega arith) (omega (arith, v.counted)) in
      let left = len_left st.len st.sending (omega arith) (omega arith) in
      let sending = sub64-exact st.sending st.sending (omega arith) (omega arith) in
      (
        (
          k,
          record {
            complete = r.complete;
            ends = sum ∙ r.ends;
            size = r.size;
            begins = r.begins;
            live = r.live;
            opened = r.opened;
          },
        ),
        left,
        omega arith,
      )
