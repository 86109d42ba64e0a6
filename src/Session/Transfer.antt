-- ===== src/Session/Transfer.antt =====
-- `try_transfer_data` keeps a session valid.
use mathlib.Core.List.{append-nil}
use libms.Base.{
  ℕ, ◌+◌, ◌-◌, ◌^◌, ◌≤◌, ◌<◌, ◌≡◌, inl, inr, refl, sym, ap, ap₂, ◌∙◌, Bool, true, not, ◌&&◌, List,
  [], ◌∷◌, ◌++◌, length, take, drop, slice, slice-add, take-slice, drop-slice, length-drop, ltb,
  ◌==◌, if◌then◌else◌, ok, add64, sub64-exact, add64-exact, leb_int64-exact, arith, Bool-cases,
  dec_lt,
}
use libms.TaskOps.{TaskOps, IsTask}
use libms.Session.{
  body, Session, http_get, parse_media, reader_of, shared, filesize, hand_over, read_media,
  read_from, room, known_size, cut_at, wanted, send_len_of, send_buf, is_asked,
}
use libms.Session.Validity.{body_of, body_of-append, IsValid, InFile}

-- The cut at the end of the file.
pub cut_at_bounds :
    (size from room : ℕ)
    → 0 < size
    → size < 2 ^ 62
    → from ≤ size
    → room < 2 ^ 62
    → (cut_at size from room ≤ room) × (from + cut_at size from room ≤ size)
unfolding cut_at
cut_at_bounds size from room known small le h =
    let sum = add64-exact from room (omega arith) in
    let order = leb_int64-exact (from + room) size (omega arith) (omega arith) in
    let rest = sub64-exact size from le (omega arith) in rw (sum, order, rest) (ground arith)

module _ {T : Type 0} (ops : TaskOps T) (f : ℕ → ℕ) (laws : IsTask ops f) (limit : ℕ) where
  -- The slices of two neighbouring stretches.
  pub slices :
      (xs ys : List ℕ) (p m q n : ℕ)
      → xs ≡ slice f p m
      → ys ≡ slice f q n
      → q ≡ p + m
      → xs ++ ys ≡ slice f p (m + n)
  slices xs ys p m q n h k e =
      ap₂ (λ us vs. us ++ vs) h (k ∙ ap (λ z. slice f z n) e) ∙ sym (slice-add f p m n)

  pub with_task :
      (st : Session T) (t : T) (b : Bool)
      → IsValid ops f laws limit st
      → IsTask.InOrder laws t
      → IsValid ops f laws limit (record st { task = t; meta = b })
  with_task st t b v o = record {
    in_order = o;
    getting = v.getting;
    begun = v.begun;
    delivered = v.delivered;
    buffered = v.buffered;
    queued = v.queued;
    fits = v.fits;
    counted = v.counted;
    head_small = v.head_small;
    before_head = v.before_head;
    small = v.small;
    asked = v.asked;
  }

  pub shared-InOrder :
      (st : Session T)
      → IsValid ops f laws limit st
      → InFile ops f laws limit st
      → IsTask.InOrder laws (shared ops st)
  shared-InOrder st v (inside, _, _) =
      IsTask.sync-InOrder laws st.task (reader_of st) v.in_order (omega (arith, v.queued))

  pub read_media-IsValid :
      (st : Session T)
      → IsValid ops f laws limit st
      → InFile ops f laws limit st
      → (t : T) × (b : Bool) × (read_media ops st ≡ ok (record st { task = t; meta = b }))
        × IsTask.InOrder laws t
        × (TaskOps.get_filesize ops t ≡ filesize ops st)
  unfolding read_media
  read_media-IsValid st v i =
      elim (Bool-cases (st.method == http_get && not st.meta && st.req_pos == 0)) [
        | inr e ↦ (st.task, st.meta, rw e refl, v.in_order, refl)
        | inl e ↦
            let size = IsTask.sync-filesize laws st.task (reader_of st) in
            let (t, n, r, _, o, same) =
              IsTask.read-slice laws (shared ops st) 0
                (if ltb (filesize ops st) 1024 then filesize ops st else 1024)
                (shared-InOrder st v i) (ground arith) in
            (t, parse_media st.meta (slice f 0 n), rw (e, r) refl, o, same ∙ size)
      ]

  pub send_len_of-ok :
      (st : Session T)
      → IsValid ops f laws limit st
      → (n : ℕ) × (send_len_of ops limit st ≡ ok n) × (n ≤ length st.buf)
  unfolding send_len_of
  send_len_of-ok st v = elim (dec_lt limit (length st.buf + st.header_sending)) [
    | yes h ↦ (length st.buf - st.header_sending, ground arith, omega arith)
    | no h ↦ (length st.buf, ground arith, omega arith)
  ]

  -- Inside the range the assertion holds.
  pub is_asked-inside :
      (st : Session T) (a n : ℕ)
      → IsValid ops f laws limit st
      → a + n ≤ st.pos + st.len
      → is_asked st (add64 a n) ≡ true
  unfolding is_asked
  is_asked-inside st a n v h = elim v.asked [ inl e ↦ ground arith | inr e ↦ ground arith ]

  pub handed_over :
      (st : Session T) (n : ℕ)
      → IsValid ops f laws limit st
      → n ≤ length st.buf
      → st.conn.header_send ≡ true
      → IsValid ops f laws limit (record st {
        conn = hand_over (body (take n st.buf)) n st.conn;
        sending = add64 st.sending n;
        buf = drop n st.buf;
      })
  handed_over st n v le sent =
      let total = add64-exact st.sending n (omega arith) in
      let first =
        ap (take n) v.buffered ∙ take-slice f (st.pos + st.sending) n (length st.buf) le in
      let after =
        ap (drop n) v.buffered ∙ drop-slice f (st.pos + st.sending) n (length st.buf) le in
      record {
        in_order = v.in_order;
        getting = v.getting;
        begun = v.begun;
        delivered =
            body_of-append st.conn.out (body (take n st.buf) ∷ [])
            ∙ ap (λ zs. body_of st.conn.out ++ zs) (append-nil (take n st.buf))
            ∙ slices (body_of st.conn.out) (take n st.buf) st.req_pos
                (st.pos + st.sending - st.req_pos) (st.pos + st.sending) n v.delivered first
                (omega arith)
            ∙ ap (slice f st.req_pos) (omega arith);
        buffered = after ∙ ap₂ (slice f) (omega arith) (omega (arith, length-drop n st.buf le));
        queued = omega (arith, length-drop n st.buf le);
        fits = omega (arith, length-drop n st.buf le);
        counted = omega arith;
        head_small = v.head_small;
        before_head = λ e. absurd (cc);
        small = v.small;
        asked = v.asked;
      }

  pub send_buf-IsValid :
      (st : Session T)
      → IsValid ops f laws limit st
      → st.conn.header_send ≡ true
      → (st' : Session T) × (send_buf ops limit st ≡ ok st')
        × IsValid ops f laws limit st'
        × (InFile ops f laws limit st → InFile ops f laws limit st')
  unfolding send_buf
  send_buf-IsValid st v sent = elim (Bool-cases (length st.buf == 0)) [
    | inl e ↦ (st, rw e refl, v, λ i. i)
    | inr e ↦
        let (n, len, le) = send_len_of-ok st v in
        (
          _,
          rw (e, len, is_asked-inside st (st.pos + st.sending) n v (omega arith)) refl,
          handed_over st n v le sent,
          λ i. i,
        )
  ]

  pub read_from_lem :
      (st : Session T)
      → IsValid ops f laws limit st
      → read_from st ≡ st.pos + length st.buf + st.sending
  unfolding read_from
  read_from_lem st v = omega arith

  pub room_bounds :
      (st : Session T)
      → IsValid ops f laws limit st
      → (room ops limit st + st.sending ≤ st.len) × (room ops limit st + length st.buf ≤ limit)
  unfolding room
  room_bounds st v =
      let free = sub64-exact limit (length st.buf) v.fits (omega arith) in
      let left = sub64-exact st.len st.sending (omega arith) (omega arith) in
      rw (free, left) (ground arith)

  pub known_size-filesize :
      (st : Session T) → 0 < filesize ops st → known_size ops st ≡ filesize ops st
  unfolding known_size
  known_size-filesize st h = ground arith

  pub wanted_bounds :
      (st : Session T)
      → IsValid ops f laws limit st
      → InFile ops f laws limit st
      → 0 < filesize ops st
      → (wanted ops limit st + st.sending ≤ st.len)
        × (wanted ops limit st + length st.buf ≤ limit)
        × (read_from st + wanted ops limit st ≤ filesize ops st)
  unfolding wanted
  wanted_bounds st v (inside, bound, _) known =
      let (left, free) = room_bounds st v in
      let from = read_from_lem st v in
      rw (known_size-filesize st known) (
        let (le, fits) =
          cut_at_bounds (filesize ops st) (read_from st) (room ops limit st) known bound
            (omega arith) (omega arith) in
        (omega arith, omega arith, fits))
