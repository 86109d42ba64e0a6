-- ===== src/Session/Counted.antt =====
-- What the connection took of a session is counted off: `on_send` of src/ms_session.c.
use libms.Base.{
  ℕ, ◌+◌, ◌-◌, ◌^◌, ◌≤◌, ◌<◌, ◌≡◌, ◌⊎◌, inl, inr, refl, ap, ◌∙◌, length, slice, if◌then◌else◌,
  sub64, sub64-exact, add64-exact, arith, dec_lt, is_nonneg,
}
use libms.TaskOps.{TaskOps, IsTask}
use libms.Session.{Session}
use libms.Session.{count_head, count_body}
use libms.Session.Delivery.{MayOverread, Kept}

-- The socket took bytes of the connection's buffer.
abbrev pub drained : {T : Type 0} → ℕ → Session T → Session T
drained n st = record st { conn = record st.conn { send_len = st.conn.send_len - n } }

pub len_left :
    (len body_len : ℕ)
    → body_len ≤ len
    → len < 2 ^ 63
    → (if is_nonneg len then sub64 len body_len else len) ≡ len - body_len
len_left len b le small = rw (sub64-exact len b le (omega arith)) (ground arith)

-- The head and the body that the socket took are counted off.
unfoldable pub counted_off : {T : Type 0} → Session T → ℕ → ℕ → ℕ → Session T
counted_off st n header_sending body_len =
    count_body (record (drained n st) { header_sending = header_sending }) body_len

pub count_head_lem :
    (header n : ℕ)
    → (h : ℕ) × (b : ℕ) × (count_head header n ≡ (h, b))
      × (h ≤ header)
      × (n + h ≡ header + b)
      × ((h ≡ 0) ⊎ (b ≡ 0))
unfolding count_head
count_head_lem header n = elim (dec_lt n header) [
  | yes l ↦ (header - n, 0, ground arith, omega arith, omega arith, inr refl)
  | no l ↦ (0, n - header, ground arith, omega arith, omega arith, inl refl)
]

module _ {T : Type 0} (ops : TaskOps T) (f : ℕ → ℕ) (laws : IsTask ops f) (limit : ℕ) where
  pub counted_off-Kept :
      (st : Session T) (n header_sending body_len : ℕ)
      → Kept ops f laws limit st
      → header_sending ≤ st.header_sending
      → body_len ≤ st.sending
      → n + header_sending ≡ st.header_sending + body_len
      → Kept ops f laws limit (counted_off st n header_sending body_len)
        × ((counted_off st n header_sending body_len).pos
              + (counted_off st n header_sending body_len).len
            ≡ st.pos + st.len)
  unfolding counted_off count_body
  counted_off-Kept st n h b (v, (inside, bound, open_end)) le few sum =
      let at = add64-exact st.pos b (omega arith) in
      let left = len_left st.len b (omega arith) (omega arith) in
      let sending = sub64-exact st.sending b few (omega arith) in
      (
        (
          record {
            in_order = v.in_order;
            getting = v.getting;
            begun = omega arith;
            delivered = v.delivered ∙ ap (slice f st.req_pos) (omega arith);
            buffered = v.buffered ∙ ap (λ p. slice f p (length st.buf)) (omega arith);
            queued = omega arith;
            fits = v.fits;
            counted = omega arith;
            head_small = omega arith;
            before_head = λ e. let (x, y) = v.before_head e in (omega arith, omega arith);
            small = omega arith;
            asked = ground arith;
          },
          (omega arith, bound, λ e. omega (arith, open_end e)),
        ),
        omega arith,
      )

  pub counted_off-MayOverread :
      (st : Session T) (n header_sending body_len : ℕ)
      → body_len ≤ st.len
      → st.pos + st.len < 2 ^ 63
      → MayOverread ops f laws limit (counted_off st n header_sending body_len)
      → MayOverread ops f laws limit st
  unfolding counted_off count_body
  counted_off-MayOverread st n h b le small (x, y, z) =
      let at = add64-exact st.pos b (omega arith) in
      let left = len_left st.len b le (omega arith) in (x, y, omega arith)

  -- Without a length nothing of the body was handed over.
  pub drained-Kept :
      (st : Session T) (n header_sending : ℕ)
      → Kept ops f laws limit st
      → n + header_sending ≡ st.header_sending
      → Kept ops f laws limit (record (drained n st) { header_sending = header_sending })
  drained-Kept st n h (v, i) sum = (
    record {
      in_order = v.in_order;
      getting = v.getting;
      begun = v.begun;
      delivered = v.delivered;
      buffered = v.buffered;
      queued = v.queued;
      fits = v.fits;
      counted = omega arith;
      head_small = omega arith;
      before_head = λ e. let (x, y) = v.before_head e in (omega arith, omega arith);
      small = v.small;
      asked = v.asked;
    },
    i,
  )
