-- ===== src/Session/Delivery.antt =====
-- What a player gets of the file.
use libms.Base.{
  ℕ, ◌+◌, ◌≤◌, ◌<◌, ◌≡◌, ◌≢◌, ◌⊎◌, inl, inr, refl, sym, ap, ◌∙◌, true, false, ◌++◌, length,
  length-append, slice, length-slice, Outcome, ok, fault, Fault, add64, arith, dec_lt,
}
use libms.TaskOps.{TaskOps, IsTask}
use libms.Session.{Session, reader_of, shared, filesize, read_from, wanted, is_asked, transfer_body}
use libms.Session.Validity.{IsValid, InFile}
use libms.Session.Transfer.{
  slices, shared-InOrder, is_asked-inside, send_buf-IsValid, read_from_lem, wanted_bounds,
}

module _ {T : Type 0} (ops : TaskOps T) (f : ℕ → ℕ) (laws : IsTask ops f) (limit : ℕ) where
  -- A head that was pending left bytes in the buffer, and the range ends before the file.
  abbrev pub MayOverread : Session T → Type 0
  MayOverread st = (st.req_len ≢ 0) × (0 < length st.buf) × (st.pos + st.len < filesize ops st)

  abbrev pub Kept : Session T → Type 0
  Kept st = IsValid ops f laws limit st × InFile ops f laws limit st

  -- What comes of a transfer.
  abbrev pub Transferred : Session T → Outcome (Session T) → Type 0
  Transferred st m =
      ((st' : Session T) × (m ≡ ok st') × Kept st')
      ⊎ ((m ≡ fault Fault.assert_failed) × MayOverread st)

  -- The bytes that were read go to the end of the buffer.
  pub buffered_more :
      (st : Session T) (t : T) (n : ℕ)
      → Kept st
      → IsTask.InOrder laws t
      → TaskOps.get_filesize ops t ≡ filesize ops st
      → n + length st.buf ≤ limit
      → read_from st + n ≤ st.pos + st.len
      → Kept (record st { task = t; buf = st.buf ++ slice f (read_from st) n })
  buffered_more st t n (v, (inside, bound, open_end)) o size most le =
      let from = read_from_lem ops f laws limit st v in
      let both = length-append st.buf (slice f (read_from st) n) in
      let more = length-slice f (read_from st) n in
      (
        record {
          in_order = o;
          getting = v.getting;
          begun = v.begun;
          delivered = v.delivered;
          buffered =
              slices ops f laws limit st.buf (slice f (read_from st) n) (st.pos + st.sending)
                (length st.buf) (read_from st) n v.buffered refl (omega arith)
              ∙ ap (slice f (st.pos + st.sending)) (omega arith);
          queued = omega arith;
          fits = omega arith;
          counted = v.counted;
          head_small = v.head_small;
          before_head = v.before_head;
          small = v.small;
          asked = v.asked;
        },
        (omega arith, omega arith, λ e. open_end e ∙ sym size),
      )

  -- The assertion behind which the bytes are read.
  pub is_asked-cases :
      (st : Session T)
      → Kept st
      → 0 < filesize ops st
      → ((is_asked st (add64 (read_from st) (wanted ops limit st)) ≡ true)
          × (read_from st + wanted ops limit st ≤ st.pos + st.len))
        ⊎ ((is_asked st (add64 (read_from st) (wanted ops limit st)) ≡ false) × MayOverread st)
  unfolding is_asked
  is_asked-cases st (v, (inside, bound, open_end)) known =
      let from = read_from_lem ops f laws limit st v in
      let (left, most, fits) =
        wanted_bounds ops f laws limit st v (inside, bound, open_end) known in
      elim (dec_lt (st.pos + st.len) (read_from st + wanted ops limit st)) [
        | no h ↦ inl (
          is_asked-inside ops f laws limit st (read_from st) (wanted ops limit st) v (omega arith),
          omega arith,
        )
        | yes h ↦
            let some_end : st.req_len ≢ 0 = λ z. absurd (omega (arith, open_end z)) in
            inr (
              elim v.asked [ inl z ↦ absurd (some_end z) | inr e ↦ ground arith ],
              (some_end, omega arith, omega arith),
            )
      ]

  pub transfer_body-Transferred :
      (st : Session T)
      → Kept st
      → 0 < filesize ops st
      → st.conn.header_send ≡ true
      → Transferred st (transfer_body ops limit st)
  unfolding transfer_body
  transfer_body-Transferred st (v, i) known sent =
      let (left, most, fits) = wanted_bounds ops f laws limit st v i known in
      elim (is_asked-cases st (v, i) known) [
        | inr (e, over) ↦ inr (rw e refl, over)
        | inl (e, le) ↦
            let size = IsTask.sync-filesize laws st.task (reader_of st) in
            let (t, n, r, few, o, same) =
              IsTask.read-slice laws (shared ops st) (read_from st) (wanted ops limit st)
                (shared-InOrder ops f laws limit st v i) (omega arith) in
            let (v', i') =
              buffered_more st t n (v, i) o (same ∙ size) (omega arith) (omega arith) in
            let (st'', done, v'', keep) =
              send_buf-IsValid ops f laws limit
                (record st { task = t; buf = st.buf ++ slice f (read_from st) n }) v' sent in
            inl (st'', rw (e, r) done, (v'', keep i'))
      ]
