-- ===== src/Session/Tests.antt =====
-- A session on a task that has all of its file, and the theorems at concrete inputs.
use libms.Base.{
  ℕ, ◌≡◌, refl, inr, true, false, Option, some, [], ◌∷◌, slice, ok, fault, Fault, ◌>>=◌, arith,
}
use libms.TaskOps.{TaskOps, IsTask}
use libms.Session.{
  Output, head, body, Connection, Session, try_transfer_data, on_send, on_recv, read_media,
  send_header, transfer, transfer_body, send_buf, send_len_of, is_asked, wanted, known_size, cut_at,
  room, read_from, ms_session_close_if_need, after_send, count_body, count_head, parse_media,
}
use libms.Session.Opening.{Scanned, range_of, ms_session_open}
use libms.Session.Delivery.{Kept}
use libms.Session.Counted.{drained}
use libms.Session.Sent.{Served, on_recv-Served, on_send-Served}
use libms.Session.Begun.{ms_session_open-reversed, ms_session_open-Kept}
use libms.Session.Overread.{try_transfer_data-Overreads}

-- The byte at a position.
abbrev pub f : ℕ → ℕ
f i = i

-- The task is the size of its file.
abbrev pub ops : TaskOps ℕ
ops = record {
  sync = λ t r. t;
  get_filesize = λ t. t;
  get_estimate_size = λ t. t;
  get_errno = λ t. 0;
  read = λ t pos len. ok (t, slice f pos len);
  remove_reader = λ t r. t;
}

abbrev pub laws : IsTask ops f
laws = record {
  InOrder = λ t. Unit;
  sync-InOrder = λ t r o le. tt;
  sync-filesize = λ t r. refl;
  read-slice = λ t pos len o le. (t, len, refl, omega arith, tt, refl);
}

-- A head is written as ten bytes, into a buffer of forty.
abbrev pub size_of : Output → ℕ
size_of o = 10

abbrev pub limit : ℕ
limit = 40

abbrev fresh : Connection
fresh = record { send_len = 0; header_send = false; send_and_close = false; out = [] }

-- "bytes=0-49" and "bytes=10-5" and "bytes=-500"
abbrev fifty : Option Scanned
fifty = some (record { count = 2; first = 0; second = 49 })

abbrev reversed : Scanned
reversed = record { count = 2; first = 10; second = 5 }

abbrev suffix : Scanned
suffix = record { count = 1; first = 18446744073709551116; second = 0 }

-- The head and twenty bytes wait in the connection.
abbrev serving : Session ℕ
serving = record {
  id = 3;
  pos = 0;
  len = 50;
  sending = 20;
  header_sending = 10;
  req_pos = 0;
  req_len = 50;
  method = 1;
  meta = true;
  buf = [];
  conn = record {
    send_len = 30;
    header_send = true;
    send_and_close = false;
    out = head 206 50 0 49 100 ∷ body (slice f 0 20) ∷ [];
  };
  task = 100;
  closed = false;
}

serving-Kept : Kept ops f laws limit serving
serving-Kept = (
  record {
    in_order = tt;
    getting = λ e. omega arith;
    begun = omega arith;
    delivered = refl;
    buffered = refl;
    queued = omega arith;
    fits = omega arith;
    counted = refl;
    head_small = omega arith;
    before_head = λ e. absurd (cc);
    small = omega arith;
    asked = inr refl;
  },
  (omega arith, omega arith, λ e. omega arith),
)

on_send-Served_example :
    Served ops f laws limit serving (on_send ops limit size_of (drained 25 serving) 25)
on_send-Served_example =
    on_send-Served ops f laws limit size_of (λ o. omega arith) serving 25 serving-Kept refl
      (omega arith)

on_recv-Served_example : Served ops f laws limit serving (on_recv ops limit size_of serving)
on_recv-Served_example =
    on_recv-Served ops f laws limit size_of (λ o. omega arith) serving serving-Kept

ms_session_open-reversed_example :
    ms_session_open ops 3 1 100 fresh (some reversed) ≡ fault Fault.assert_failed
ms_session_open-reversed_example =
    ms_session_open-reversed ops 3 1 100 fresh reversed refl (omega arith) (omega arith)

ms_session_open-Kept_example :
    (st : Session ℕ) × (ms_session_open ops 3 1 100 fresh fifty ≡ ok st) × Kept ops f laws limit st
ms_session_open-Kept_example =
    ms_session_open-Kept ops f laws limit 3 1 100 fresh fifty tt (λ e. omega arith) (refl, refl)
      (omega arith, omega arith) (omega arith, inr (refl, omega arith, omega arith))

-- Behind the head and thirty bytes, which were sent, ten bytes are in the buffer.
abbrev behind_head : Session ℕ
behind_head = record serving {
  pos = 30;
  len = 20;
  sending = 0;
  header_sending = 0;
  buf = slice f 30 10;
  conn = record {
    send_len = 0;
    header_send = true;
    send_and_close = false;
    out = head 206 50 0 49 100 ∷ body (slice f 0 30) ∷ [];
  };
}

behind_head-Kept : Kept ops f laws limit behind_head
behind_head-Kept = (
  record {
    in_order = tt;
    getting = λ e. omega arith;
    begun = omega arith;
    delivered = refl;
    buffered = refl;
    queued = omega arith;
    fits = omega arith;
    counted = refl;
    head_small = omega arith;
    before_head = λ e. absurd (cc);
    small = omega arith;
    asked = inr refl;
  },
  (omega arith, omega arith, λ e. omega arith),
)

try_transfer_data-Overreads_example :
    try_transfer_data ops limit size_of behind_head ≡ fault Fault.assert_failed
try_transfer_data-Overreads_example =
    try_transfer_data-Overreads ops f laws limit size_of behind_head behind_head-Kept
      ((λ e. omega arith), omega arith, omega arith, omega arith)
      (refl, refl, omega arith, omega arith)

-- From its request on: the range "bytes=0-49" is opened, the head and thirty bytes are handed over,
-- and the assertion fails when they were sent.
overread_run :
    (ms_session_open ops 3 1 100 fresh fifty >>= λ st.
    on_recv ops limit size_of st >>= λ st'. on_send ops limit size_of (drained 40 st') 40)
    ≡ fault Fault.assert_failed
unfolding ms_session_open range_of on_recv on_send try_transfer_data read_media send_header transfer
    transfer_body send_buf send_len_of is_asked wanted known_size cut_at room read_from
    ms_session_close_if_need after_send count_body count_head parse_media
overread_run = refl
