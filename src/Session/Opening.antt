-- ===== src/Session/Opening.antt =====
-- `ms_session_open` of src/ms_session.c: how a session begins with the range of the request.
use libms.Base.{
  ℕ, false, ◌&&◌, Option, none, some, [], ltb, ◌==◌, if◌then◌else◌, Outcome, ok, ◌>>=◌, ◌>>◌,
  ms_assert, add64, sub64, is_nonneg,
}
use libms.TaskOps.{TaskOps}
use libms.Session.{Connection, Session}

-- What `sscanf` makes of a `Range` header: how many numbers it read, and the variables `r1` and `r2`
-- behind it, 0 where nothing was read, as 64-bit patterns.
pub record Scanned : Type 0 where
  pub count : ℕ
  pub first : ℕ
  pub second : ℕ

-- `r1` and `r2`, at last a position and a length. Where the test fails they stay as they were read.
unfoldable pub range_of : Option Scanned → Outcome (ℕ × ℕ)
range_of none = ok (0, 0)
range_of (some s) =
    if ltb 0 s.count && is_nonneg s.first && is_nonneg s.second
    then (let len : ℕ = if s.count == 1 then 0 else add64 (sub64 s.second s.first) 1 in
        ms_assert (is_nonneg len) >> ok (s.first, len))
    else ok (s.first, s.second)

module _ {T : Type 0} (ops : TaskOps T) where
  unfoldable pub ms_session_open : ℕ → ℕ → T → Connection → Option Scanned → Outcome (Session T)
  ms_session_open id method task conn range = do
    (pos, len) ← range_of range
    let filesize : ℕ = TaskOps.get_filesize ops task
    ok (record {
      id = id;
      pos = pos;
      len = if len == 0 && ltb 0 filesize then sub64 filesize pos else len;
      sending = 0;
      header_sending = 0;
      req_pos = pos;
      req_len = len;
      method = method;
      meta = false;
      buf = [];
      conn = record conn { header_send = false };
      task = task;
      closed = false;
    })
