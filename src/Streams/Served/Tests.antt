-- ===== src/Streams/Served/Tests.antt =====
-- A file of 10,000 bytes that is cached, and the theorem at a request for it.
use libms.Base.{
  ℕ, ◌%◌, ◌/◌, ◌≡◌, ◌<◌, refl, inl, true, false, none, some, Option, [], slice, ok, ◌>>=◌, arith,
}
use libms.Task.{Task}
use libms.MemStorage.{MemStorage, get_filesize}
use libms.MemStorage.View.{byte_at, piece_at}
use libms.MemStorage.Interface.{mem_storage}
use libms.MemStorage.Tests.{zeros, counting, with_piece, with_piece-IsValid}
use libms.Session.{Connection, Session, on_recv}
use libms.Session.Opening.{Scanned, range_of, ms_session_open}
use libms.Session.Validity.{body_of}
use libms.Session.Liveness.{drain_all}
use libms.Streams.{task_ops}
use libms.Streams.Backed.{IsBacked}
use libms.Streams.Served.{IsStored, drain_all-ms_session_open}

abbrev stored : Task MemStorage
stored = record {
  storage = with_piece 10000 0 0;
  url = 7;
  redirect_url = none;
  readers = [];
  pipes = [];
  close_ts = 0;
  code = 0;
  fresh = 0;
}

-- "bytes=100-"
abbrev from_hundred : Option Scanned
from_hundred = some (record { count = 1; first = 100; second = 0 })

abbrev silent : Connection
silent = record { send_len = 0; header_send = false; send_and_close = false; out = [] }

stored-byte : (i : ℕ) → i < 10000 → byte_at stored.storage i ≡ some (counting i)
unfolding byte_at piece_at
stored-byte i l =
    let block : i / 16384 / 128 ≡ 0 = omega arith in
    let piece : i / 16384 % 128 ≡ 0 = omega arith in
    let inside : i % 16384 ≡ i = omega arith in rw (byte_at, piece_at, block, piece, inside) refl

stored-IsBacked : IsBacked zeros counting 30 counting stored
stored-IsBacked = record {
  valid = with_piece-IsValid 10000 0 0 (omega arith) (omega arith);
  small = omega arith;
  bytes = λ i b l e. let here = stored-byte i l in cc;
  inside = tt;
}

stored-IsStored : IsStored stored
stored-IsStored = (refl, λ i l. (counting i, stored-byte i l))

from_hundred-range : range_of from_hundred ≡ ok (100, 0)
unfolding range_of
from_hundred-range = refl

-- Heads of ten bytes and a buffer of forty.
drain_all-ms_session_open_example :
    (st : Session (Task MemStorage)) × ((ms_session_open
            (task_ops (mem_storage zeros) counting 30)
            3
            1
            stored
            silent
            from_hundred
          >>= λ opened. on_recv (task_ops (mem_storage zeros) counting 30) 40 (λ o. 10) opened)
        >>= drain_all (task_ops (mem_storage zeros) counting 30) 40 (λ o. 10) 10000
      ≡ ok st)
    × (st.closed ≡ true)
    × (body_of st.conn.out ≡ slice counting 100 9900)
unfolding get_filesize
drain_all-ms_session_open_example =
    drain_all-ms_session_open zeros counting 30 counting 40 (λ o. 10) (λ o. omega arith) 3 1 stored
      silent from_hundred 100 10000 stored-IsBacked stored-IsStored (λ e. omega arith)
      (refl, refl, refl) (omega arith, omega arith) (omega arith, (omega arith, inl (refl, refl)))
      from_hundred-range (omega arith)
