-- ===== src/Session/Liveness/Tests.antt =====
-- A session that serves all of a file, and the theorem at it.
use libms.Base.{◌≡◌, refl, inl, false, true, [], slice, ok, ◌>>=◌, arith}
use libms.Session.{Session, on_recv}
use libms.Session.Tests.{f, ops, laws, size_of, limit}
use libms.Session.Validity.{body_of}
use libms.Session.Delivery.{Kept}
use libms.Session.Complete.{IsComplete}
use libms.Session.Liveness.{drain_all, drain_all-on_recv}
use libms.Base.{ℕ}

-- The task has its file.
abbrev all : IsComplete ops f laws
all = record {
  Complete = λ t. Unit;
  sync-Complete = λ t r c. tt;
  no_error = λ t c. refl;
  read-all = λ t pos len c o le. (t, refl, tt, tt, refl);
}

-- A request for the bytes from 10 on, of 100.
abbrev asked : Session ℕ
asked = record {
  id = 3;
  pos = 10;
  len = 90;
  sending = 0;
  header_sending = 0;
  req_pos = 10;
  req_len = 0;
  method = 1;
  meta = false;
  buf = [];
  conn = record { send_len = 0; header_send = false; send_and_close = false; out = [] };
  task = 100;
  closed = false;
}

asked-Kept : Kept ops f laws limit asked
asked-Kept = (
  record {
    in_order = tt;
    getting = λ e. omega arith;
    begun = omega arith;
    delivered = refl;
    buffered = refl;
    queued = omega arith;
    fits = omega arith;
    counted = refl;
    head_small = omega arith;
    before_head = λ e. (refl, refl);
    small = omega arith;
    asked = inl refl;
  },
  (omega arith, omega arith, λ e. omega arith),
)

drain_all-on_recv_example :
    (st' : Session ℕ) × (on_recv ops limit size_of asked >>= drain_all ops limit size_of 90
      ≡ ok st')
    × (st'.closed ≡ true)
    × (body_of st'.conn.out ≡ slice f 10 90)
drain_all-on_recv_example =
    drain_all-on_recv ops f laws all limit size_of (λ o. omega arith) asked 90 (omega arith)
      asked-Kept tt (refl, omega arith) (refl, refl) (omega arith)
