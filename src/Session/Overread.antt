-- ===== src/Session/Overread.antt =====
-- `try_transfer_data` of src/ms_session.c where a pending head left bytes in the buffer.
use libms.Base.{
  ℕ, ◌+◌, ◌-◌, ◌*◌, ◌/◌, ◌^◌, ◌≤◌, ◌<◌, ◌≡◌, ◌≢◌, inl, inr, refl, true, false, not, ◌&&◌, ◌||◌,
  length, ltb, ◌==◌, fault, Fault, add64, sub64-exact, add64-exact, if_cases, leb_int64-exact,
  arith,
}
use libms.TaskOps.{TaskOps, IsTask}
use libms.Session.{
  Output, Session, http_get, http_head, filesize, read_media, read_from, room, cut_at, wanted,
  send_header, is_asked, transfer_body, transfer, try_transfer_data,
}
use libms.Session.Validity.{IsValid}
use libms.Session.Transfer.{read_from_lem, known_size-filesize}
use libms.Session.Delivery.{Kept}

module _ {T : Type 0} (ops : TaskOps T) (f : ℕ → ℕ) (laws : IsTask ops f) (limit : ℕ) where
  -- The rest of the range fits into the buffer, and the bytes in the buffer lie between its end and
  -- the end of the file.
  abbrev pub Overreads : Session T → Type 0
  Overreads st =
      (st.req_len ≢ 0)
      × (0 < length st.buf)
      × (st.len + length st.buf ≤ limit + st.sending)
      × (st.pos + st.len + length st.buf ≤ filesize ops st)

  room-all :
      (st : Session T)
      → Kept ops f laws limit st
      → Overreads st
      → room ops limit st ≡ st.len - st.sending
  unfolding room
  room-all st (v, i) (asked, some_left, fits, le) =
      let free = sub64-exact limit (length st.buf) v.fits (omega arith) in
      let left = sub64-exact st.len st.sending (omega arith) (omega arith) in
      rw (free, left) (ground arith)

  cut_at-inside : (size from n : ℕ) → from + n ≤ size → size < 2 ^ 62 → cut_at size from n ≡ n
  unfolding cut_at
  cut_at-inside size from n le small =
      let sum = add64-exact from n (omega arith) in
      rw (sum, leb_int64-exact (from + n) size (omega arith) (omega arith)) (ground arith)

  wanted-all :
      (st : Session T)
      → Kept ops f laws limit st
      → Overreads st
      → wanted ops limit st ≡ st.len - st.sending
  unfolding wanted
  wanted-all st (v, (inside, bound, open_end)) (asked, some_left, fits, le) =
      let from = read_from_lem ops f laws limit st v in
      rw
        (
          known_size-filesize ops f laws limit st (omega arith),
          room-all st (v, (inside, bound, open_end)) (asked, some_left, fits, le),
        )
        (cut_at-inside (filesize ops st) (read_from st) (st.len - st.sending) (omega arith) bound)

  is_asked-outside :
      (st : Session T) (end : ℕ)
      → IsValid ops f laws limit st
      → st.req_len ≢ 0
      → st.pos + st.len < end
      → end < 2 ^ 63
      → is_asked st end ≡ false
  unfolding is_asked
  is_asked-outside st end v asked h small = elim v.asked [
    | inl z ↦ absurd (asked z)
    | inr e ↦ ground arith
  ]

  transfer_body-Overreads :
      (st : Session T)
      → Kept ops f laws limit st
      → Overreads st
      → transfer_body ops limit st ≡ fault Fault.assert_failed
  unfolding transfer_body
  transfer_body-Overreads st (v, (inside, bound, open_end)) (asked, some_left, fits, le) =
      let from = read_from_lem ops f laws limit st v in
      let all = wanted-all st (v, (inside, bound, open_end)) (asked, some_left, fits, le) in
      let sum = add64-exact (read_from st) (wanted ops limit st) (omega arith) in
      let end : is_asked st (add64 (read_from st) (wanted ops limit st)) ≡ false =
        is_asked-outside st (add64 (read_from st) (wanted ops limit st)) v asked (omega arith)
          (omega arith) in
      rw end refl

  send_header-sent :
      (size_of : Output → ℕ) (st : Session T)
      → st.conn.header_send ≡ true
      → send_header ops limit size_of st ≡ st
  unfolding send_header
  send_header-sent size_of st sent =
      if_cases (λ st'. st' ≡ st) st.conn.header_send st _ (λ _. refl) (λ e. absurd (cc))

  -- The assertion that a session reads inside the range of the request fails in
  -- `try_transfer_data`, for a valid session behind its head, known to be for a playlist, with less
  -- than half of the limit on its way, where a pending head left bytes in the buffer, the rest of
  -- the range fits into the buffer and the file goes on behind it by as many bytes.
  pub try_transfer_data-Overreads :
      (size_of : Output → ℕ) (st : Session T)
      → Kept ops f laws limit st
      → Overreads st
      → (st.conn.header_send ≡ true) × (st.meta ≡ true) × (st.sending * 2 < limit) × (0 < st.len)
      → try_transfer_data ops limit size_of st ≡ fault Fault.assert_failed
  unfolding try_transfer_data transfer read_media
  try_transfer_data-Overreads size_of st (v, (inside, bound, open_end)) over
        (sent, known, few, more) =
      let even : (st.sending + st.header_sending == st.conn.send_len) ≡ true = ground arith in
      let on : (ltb (limit / 2) st.sending || st.len == 0 || filesize ops st == 0) ≡ false =
        ground arith in
      let skip : (st.method == http_get && not st.meta && st.req_pos == 0) ≡ false = ground arith in
      let get : (st.method == http_head) ≡ false = ground (arith, v.getting) in
      rw (even, on, skip, send_header-sent size_of st sent, get)
        (transfer_body-Overreads st (v, (inside, bound, open_end)) over)
