-- ===== src/Session.antt =====
-- src/ms_session.c: a session answers one request of a player with a range of the file, which it
-- reads from its task and hands to the connection.
pub mod Opening
pub mod Validity
pub mod Transfer
pub mod Delivery
pub mod Progress
pub mod Counted
pub mod Sent
pub mod Begun
pub mod Overread
pub mod Complete
pub mod Rounds
pub mod Liveness
pub mod Keeps
mod Tests
use libms.Base.{
  starts_with, ℕ, ◌+◌, ◌-◌, ◌/◌, ◌^◌, Bool, true, false, not, ◌&&◌, ◌||◌, List, [], ◌∷◌, ◌++◌,
  length, take, drop, ltb, leb, ◌==◌, if◌then◌else◌, Outcome, ok, fault, Fault, ◌>>=◌, ◌>>◌,
  ms_assert, add64, sub64, leb_int64, is_nonneg,
}
use libms.Task.{Reader}
use libms.TaskOps.{TaskOps}

-- What is handed to the connection: the head of a response with its code, the content length, the
-- first and last position and the file size; bytes of the body; an error response.
pub data Output : Type 0 where
  head : ℕ → ℕ → ℕ → ℕ → ℕ → Output
  body : List ℕ → Output
  error_response : ℕ → Output

-- What a session uses of a `struct mg_connection`: the length of `send_mbuf`, the flags
-- MS_F_HEADER_SEND and MG_F_SEND_AND_CLOSE, and all that was handed over so far.
pub record Connection : Type 0 where
  pub send_len : ℕ
  pub header_send : Bool
  pub send_and_close : Bool
  pub out : List Output

-- `struct ms_session` with its reader; `meta` says that the file is known to be a playlist, and
-- `closed` that the session was freed. Lengths are `size_t` or `int64_t` patterns.
pub record Session (T : Type 0) : Type 0 where
  pub id : ℕ
  pub pos : ℕ
  pub len : ℕ
  pub sending : ℕ
  pub header_sending : ℕ
  pub req_pos : ℕ
  pub req_len : ℕ
  pub method : ℕ
  pub meta : Bool
  pub buf : List ℕ
  pub conn : Connection
  pub task : T
  pub closed : Bool

-- MS_HTTP_GET and MS_HTTP_HEAD
abbrev pub http_get : ℕ
http_get = 1

abbrev pub http_head : ℕ
http_head = 2

-- "#EXTM3U"
abbrev pub m3u8_header : List ℕ
m3u8_header = 35 ∷ 69 ∷ 88 ∷ 84 ∷ 77 ∷ 51 ∷ 85 ∷ []

-- `parse_media`
unfoldable pub parse_media : Bool → List ℕ → Bool
parse_media meta buf = meta || starts_with m3u8_header buf

abbrev pub reader_of : {T : Type 0} → Session T → Reader
reader_of st = record { id = st.id; pos = st.pos; len = st.len; sending = st.sending }

abbrev pub hand_over : Output → ℕ → Connection → Connection
hand_over o n c = record c { send_len = c.send_len + n; out = c.out ++ (o ∷ []) }

-- `header_sending` and `body_len` behind the sent bytes.
unfoldable pub count_head : ℕ → ℕ → ℕ × ℕ
count_head header_sending num_sent_bytes =
    if ltb num_sent_bytes header_sending
    then (header_sending - num_sent_bytes, 0)
    else (0, num_sent_bytes - header_sending)

-- `wanted`, cut where the file ends.
unfoldable pub cut_at : ℕ → ℕ → ℕ → ℕ
cut_at size read_from wanted =
    if ltb 0 size && not (leb_int64 (add64 read_from wanted) size)
    then sub64 size read_from
    else wanted

module _ {T : Type 0} where
  -- Where the next bytes are read.
  unfoldable pub read_from : Session T → ℕ
  read_from st = sub64 (st.pos + length st.buf + st.conn.send_len) st.header_sending

  -- The assertions on the range that was asked for.
  unfoldable pub is_asked : Session T → ℕ → Bool
  is_asked st end = st.req_len == 0 || leb_int64 end (add64 st.req_pos st.req_len)

  unfoldable pub count_body : Session T → ℕ → Session T
  count_body st body_len = record st {
    pos = add64 st.pos body_len;
    len = if is_nonneg st.len then sub64 st.len body_len else st.len;
    sending = sub64 st.sending body_len;
  }

module _ {T : Type 0} (ops : TaskOps T) where
  abbrev pub shared : Session T → T
  shared st = TaskOps.sync ops st.task (reader_of st)

  abbrev pub filesize : Session T → ℕ
  filesize st = TaskOps.get_filesize ops st.task

  -- The first kilobyte tells whether the file is a playlist.
  unfoldable pub read_media : Session T → Outcome (Session T)
  read_media st =
      if st.method == http_get && not st.meta && st.req_pos == 0
      then (do
        (t, bytes) ←
            TaskOps.read ops (shared st) 0 (if ltb (filesize st) 1024 then filesize st else 1024)
        ok (record st { task = t; meta = parse_media st.meta bytes }))
      else ok st

  abbrev pub head_of : Session T → Output
  head_of st =
      head (if st.method == http_head then 200 else 206) st.len st.pos (sub64 (st.len + st.pos) 1)
        (filesize st)

  unfoldable pub known_size : Session T → ℕ
  known_size st = if filesize st == 0 then TaskOps.get_estimate_size ops st.task else filesize st

  -- The session leaves its task and is freed.
  unfoldable pub finish : Session T → Session T
  finish st = record st {
    task = TaskOps.remove_reader ops (shared st) (reader_of st);
    closed = true;
  }

  unfoldable pub on_content_size_from : Session T → Session T
  on_content_size_from st =
      if (ltb 0 st.len && is_nonneg st.len) || filesize st == 0
      then st
      else record st { len = sub64 (filesize st) st.pos }

  -- `limit` is MS_SEND_BUF_LIMIT, the capacity of `session->buf`.
  module _ (limit : ℕ) where
    -- `wanted` before it is cut at the end of the file.
    unfoldable pub room : Session T → ℕ
    room st =
        let free : ℕ = sub64 limit (length st.buf) in
        let left : ℕ = sub64 st.len st.sending in if ltb left free then left else free

    unfoldable pub wanted : Session T → ℕ
    wanted st = cut_at (known_size st) (read_from st) (room st)

    -- How much of the buffer is handed over; a pending head makes it less.
    unfoldable pub send_len_of : Session T → Outcome ℕ
    send_len_of st =
        if ltb limit (length st.buf + st.header_sending)
        then if ltb (length st.buf) st.header_sending
          then fault Fault.out_of_bounds
          else ok (length st.buf - st.header_sending)
        else ok (length st.buf)

    unfoldable pub send_buf : Session T → Outcome (Session T)
    send_buf st = if length st.buf == 0 then ok st else (do
      len ← send_len_of st
      ms_assert (is_asked st (add64 (st.pos + st.sending) len))
      ok (record st {
        conn = hand_over (body (take len st.buf)) len st.conn;
        sending = add64 st.sending len;
        buf = drop len st.buf;
      }))

    -- The part of `try_transfer_data` behind the head.
    unfoldable pub transfer_body : Session T → Outcome (Session T)
    transfer_body st = do
      ms_assert (is_asked st (add64 (read_from st) (wanted st)))
      (t, bytes) ← TaskOps.read ops (shared st) (read_from st) (wanted st)
      send_buf (record st { task = t; buf = st.buf ++ bytes })

    -- The connection's library appends to `send_mbuf`; `size_of` gives the length of what it writes
    -- for a head or an error.
    module _ (size_of : Output → ℕ) where
      unfoldable pub send_header : Session T → Session T
      send_header st =
          if st.conn.header_send
          then st
          else let conn : Connection =
              hand_over (head_of st) (size_of (head_of st))
                (record st.conn { header_send = true }) in
            record st { conn = conn; header_sending = st.header_sending + conn.send_len }

      -- Behind the early returns. A HEAD request is done with the head.
      unfoldable pub transfer : Session T → Outcome (Session T)
      transfer st = do
        st' ← read_media st
        let st'' : Session T = send_header st'
        if st''.method == http_head
            then ok (record st'' { conn = record st''.conn { send_and_close = true } })
            else transfer_body st''

      -- Nobody uses the count that it returns.
      unfoldable pub try_transfer_data : Session T → Outcome (Session T)
      try_transfer_data st = do
        ms_assert (st.sending + st.header_sending == st.conn.send_len)
        if ltb (limit / 2) st.sending || st.len == 0 || filesize st == 0 then ok st else transfer st

      unfoldable pub ms_session_close_if_need : Session T → Session T
      ms_session_close_if_need st =
          let code : ℕ = TaskOps.get_errno ops st.task in
          if code == 0 || ltb 0 st.sending || ltb 0 st.header_sending
          then st
          else if st.conn.header_send
          then record st { conn = record st.conn { send_and_close = true } }
          else if st.conn.send_and_close
          then st
          else record st {
            conn =
                record (hand_over (error_response code) (size_of (error_response code)) st.conn) {
                  send_and_close = true;
                };
          }

      -- The bytes of the body are counted; the session ends with the last, or goes on.
      unfoldable pub after_send : Session T → Outcome (Session T)
      after_send st =
          if st.len == 0 && st.sending == 0
          then ok (finish st)
          else (do st' ← try_transfer_data st; ok (ms_session_close_if_need st'))

      unfoldable pub on_send : Session T → ℕ → Outcome (Session T)
      on_send st num_sent_bytes =
          if st.conn.send_and_close
          then ok st
          else let (header_sending, body_len) = count_head st.header_sending num_sent_bytes in
            let st' : Session T = record st { header_sending = header_sending } in
            if st.len == 0 then ok st' else (do
              ms_assert (not (is_nonneg st.len) || leb_int64 body_len st.len)
              after_send (count_body st' body_len))

      unfoldable pub on_recv : Session T → Outcome (Session T)
      on_recv st = do st' ← try_transfer_data st; ok (ms_session_close_if_need st')

      unfoldable pub on_error : Session T → Session T
      on_error st = ms_session_close_if_need st
