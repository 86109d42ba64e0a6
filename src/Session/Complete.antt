-- ===== src/Session/Complete.antt =====
-- A task that has all of its file lets a session go on: after a transfer something is handed over.
use libms.Base.{
  ℕ, ◌+◌, ◌-◌, ◌^◌, ◌≤◌, ◌<◌, ◌≡◌, inl, inr, refl, ap, ◌∙◌, false, ◌++◌, length, length-append,
  slice, length-slice, ◌==◌, Outcome, ok, sub64-exact, add64, add64-exact, leb_int64-exact, arith,
  Bool-cases, dec_lt, take, drop,
}
use libms.Task.{Reader}
use libms.TaskOps.{TaskOps, IsTask}
use libms.Session.{
  Session, body, reader_of, shared, filesize, hand_over, read_from, room, wanted, cut_at,
  send_len_of, send_buf, transfer_body,
}
use libms.Session.Validity.{IsValid}
use libms.Session.Transfer.{
  shared-InOrder, is_asked-inside, read_from_lem, wanted_bounds, known_size-filesize, room_bounds,
}
use libms.Session.Delivery.{Kept, buffered_more, is_asked-cases}

-- A task reads all that is asked of it inside its file, and reports no error.
pub record IsComplete {T : Type 0} (ops : TaskOps T) (f : ℕ → ℕ) (laws : IsTask ops f)
    : Type 1 where
  pub Complete : T → Type 0
  pub sync-Complete : (t : T) (r : Reader) → Complete t → Complete (TaskOps.sync ops t r)
  pub no_error : (t : T) → Complete t → TaskOps.get_errno ops t ≡ 0
  pub read-all :
      (t : T) (pos len : ℕ)
      → Complete t
      → IsTask.InOrder laws t
      → pos + len ≤ TaskOps.get_filesize ops t
      → (t' : T) × (TaskOps.read ops t pos len ≡ ok (t', slice f pos len))
        × Complete t'
        × IsTask.InOrder laws t'
        × (TaskOps.get_filesize ops t' ≡ TaskOps.get_filesize ops t)

-- Something is left before the end of the file.
cut_at_pos :
    (size from room : ℕ)
    → size < 2 ^ 62
    → from < size
    → 0 < room
    → room < 2 ^ 62
    → 0 < cut_at size from room
unfolding cut_at
cut_at_pos size from room small le some h =
    let sum = add64-exact from room (omega arith) in
    let order = leb_int64-exact (from + room) size (omega arith) (omega arith) in
    let rest = sub64-exact size from (omega arith) (omega arith) in
    rw (sum, order, rest) (ground arith)

module _ {T : Type 0} (ops : TaskOps T) (f : ℕ → ℕ) (laws : IsTask ops f)
    (all : IsComplete ops f laws) (limit : ℕ) where
  -- The session serves the range from `first` to the end of the file.
  pub record Ready (first end : ℕ) (st : Session T) : Type 0 where
    pub complete : IsComplete.Complete all st.task
    pub ends : st.pos + st.len ≡ end
    pub size : filesize ops st ≡ end
    pub begins : st.req_pos ≡ first
    pub live : st.conn.send_and_close ≡ false
    pub opened : st.closed ≡ false

  room-pos :
      (st : Session T)
      → IsValid ops f laws limit st
      → length st.buf < limit
      → st.sending < st.len
      → 0 < room ops limit st
  unfolding room
  room-pos st v l h =
      let free = sub64-exact limit (length st.buf) v.fits (omega arith) in
      let left = sub64-exact st.len st.sending (omega arith) (omega arith) in
      rw (free, left) (ground arith)

  wanted-pos :
      (st : Session T)
      → Kept ops f laws limit st
      → length st.buf < limit
      → st.sending + length st.buf < st.len
      → 0 < wanted ops limit st
  unfolding wanted
  wanted-pos st (v, (inside, bound, _)) l h =
      let (left, free) = room_bounds ops f laws limit st v in
      let from = read_from_lem ops f laws limit st v in
      rw (known_size-filesize ops f laws limit st (omega arith)) (
        cut_at_pos (filesize ops st) (read_from st) (room ops limit st) bound (omega arith)
          (room-pos st v l (omega arith)) (omega arith))

  send_len_of-pos :
      (st : Session T)
      → IsValid ops f laws limit st
      → 0 < length st.buf
      → (n : ℕ) × (send_len_of ops limit st ≡ ok n) × (0 < n) × (n ≤ length st.buf)
  unfolding send_len_of
  send_len_of-pos st v some = elim (dec_lt limit (length st.buf + st.header_sending)) [
    | yes h ↦ (length st.buf - st.header_sending, ground arith, omega arith, omega arith)
    | no h ↦ (length st.buf, ground arith, omega arith, omega arith)
  ]

  -- What is the same behind a step, with bytes on their way.
  abbrev pub Moving : ℕ → ℕ → Session T → Outcome (Session T) → Type 0
  Moving first end st m =
      (st' : Session T) × (m ≡ ok st')
      × Ready first end st'
      × (0 < st'.sending)
      × (st'.len ≡ st.len)

  send_buf-Moving :
      (first end : ℕ) (st : Session T)
      → IsValid ops f laws limit st
      → Ready first end st
      → 0 < st.sending + length st.buf
      → Moving first end st (send_buf ops limit st)
  unfolding send_buf
  send_buf-Moving first end st v r some = elim (Bool-cases (length st.buf == 0)) [
    | inl e ↦ (st, rw e refl, r, ground arith, refl)
    | inr e ↦
        let (n, len, pos, le) = send_len_of-pos st v (ground arith) in
        let total = add64-exact st.sending n (omega arith) in
        (
          record st {
            conn = hand_over (body (take n st.buf)) n st.conn;
            sending = add64 st.sending n;
            buf = drop n st.buf;
          },
          rw (e, len, is_asked-inside ops f laws limit st (st.pos + st.sending) n v (omega arith))
              refl,
          record {
            complete = r.complete;
            ends = r.ends;
            size = r.size;
            begins = r.begins;
            live = r.live;
            opened = r.opened;
          },
          omega arith,
          refl,
        )
  ]

  pub transfer_body-Moving :
      (first end : ℕ) (st : Session T)
      → 0 < limit
      → Kept ops f laws limit st
      → Ready first end st
      → 0 < st.len
      → Moving first end st (transfer_body ops limit st)
  unfolding transfer_body
  transfer_body-Moving first end st positive (v, i) r more =
      let known : 0 < filesize ops st = omega (arith, r.ends, r.size) in
      let (left, most, fits) = wanted_bounds ops f laws limit st v i known in
      elim (is_asked-cases ops f laws limit st (v, i) known) [
        | inr (e, (_, _, over)) ↦ absurd (omega (arith, r.ends, r.size))
        | inl (e, le) ↦
            let size = IsTask.sync-filesize laws st.task (reader_of st) in
            let (t, read, complete, o, same) =
              IsComplete.read-all all (shared ops st) (read_from st) (wanted ops limit st)
                (IsComplete.sync-Complete all st.task (reader_of st) r.complete)
                (shared-InOrder ops f laws limit st v i) (omega arith) in
            let n : ℕ = wanted ops limit st in
            let st' : Session T = record st {
              task = t;
              buf = st.buf ++ slice f (read_from st) n;
            } in
            let (v', _) =
              buffered_more ops f laws limit st t n (v, i) o (same ∙ size) (omega arith)
                (omega arith) in
            let longer : length (st.buf ++ slice f (read_from st) n) ≡ length st.buf + n =
              length-append st.buf (slice f (read_from st) n)
              ∙ ap (λ k. length st.buf + k) (length-slice f (read_from st) n) in
            let some : 0 < st.sending + length (st.buf ++ slice f (read_from st) n) =
              elim (dec_lt 0 (st.sending + length st.buf)) [
                | yes l ↦ omega arith
                | no l ↦
                    let fresh : 0 < n = wanted-pos st (v, i) (omega arith) (omega arith) in
                    omega arith
              ] in
            let ready : Ready first end st' = record {
              complete = complete;
              ends = r.ends;
              size = same ∙ size ∙ r.size;
              begins = r.begins;
              live = r.live;
              opened = r.opened;
            } in
            let (st'', done, r'', sent, len) = send_buf-Moving first end st' v' ready some in
            (st'', rw (e, read) done, r'', sent, len)
      ]
