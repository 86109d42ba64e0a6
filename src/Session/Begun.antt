-- ===== src/Session/Begun.antt =====
-- How a session begins, with ranges that can be met and with others.
use libms.Base.{
  ℕ, zero, suc, ◌+◌, ◌-◌, ◌^◌, ◌≤◌, ◌<◌, ◌≡◌, ◌≢◌, ◌⊎◌, inl, inr, refl, ap, false, ◌&&◌, [], slice,
  ltb, ◌==◌, if◌then◌else◌, ok, fault, Fault, sub64, arith,
}
use libms.TaskOps.{TaskOps, IsTask}
use libms.Session.{Connection, Session, http_head}
use libms.Session.Delivery.{Kept}
use libms.Base.{Option, none, some}
use libms.Session.Opening.{Scanned, range_of, ms_session_open}

-- A range of a file of that size: none, one from a position on, or one from a position to another.
abbrev pub IsSatisfiable : ℕ → Option Scanned → Type 0
IsSatisfiable size none = Unit
IsSatisfiable size (some s) =
    (s.first < size)
    × (((s.count ≡ 1) × (s.second ≡ 0))
        ⊎ ((s.count ≡ 2) × (s.first ≤ s.second) × (s.second < size)))

-- What `range_of` makes of it: the length is 0 if no end was given.
range_of-IsSatisfiable :
    (size : ℕ) (range : Option Scanned)
    → 0 < size
    → size < 2 ^ 60
    → IsSatisfiable size range
    → (pos : ℕ) × (len : ℕ) × (range_of range ≡ ok (pos, len)) × (pos < size) × (pos + len ≤ size)
unfolding range_of
range_of-IsSatisfiable size none known small _ = (0, 0, refl, known, omega arith)
range_of-IsSatisfiable size (some s) known small (l, inl (e, z)) =
    (s.first, 0, ground arith, l, omega arith)
range_of-IsSatisfiable size (some s) known small (l, inr (e, le, h)) =
    (s.first, s.second - s.first + 1, ground arith, l, omega arith)

-- A request for a range that ends at least two bytes before it begins fails an assertion in
-- `ms_session_open`, whatever the file is.
pub ms_session_open-reversed :
    {T : Type 0} (ops : TaskOps T) (id method : ℕ) (t : T) (conn : Connection) (s : Scanned)
    → s.count ≡ 2
    → s.second + 1 < s.first
    → s.first < 2 ^ 63
    → ms_session_open ops id method t conn (some s) ≡ fault Fault.assert_failed
unfolding ms_session_open range_of
ms_session_open-reversed ops id method t conn s two h small = ground arith

range_of-negative : (s : Scanned) → 2 ^ 63 ≤ s.first → range_of (some s) ≡ ok (s.first, s.second)
unfolding range_of
range_of-negative s h = ground arith

-- A request whose range begins at a negative position opens a session at that position, though a
-- test refuses such ranges.
pub ms_session_open-negative :
    {T : Type 0} (ops : TaskOps T) (id method : ℕ) (t : T) (conn : Connection) (s : Scanned)
    → 2 ^ 63 ≤ s.first
    → (st : Session T) × (ms_session_open ops id method t conn (some s) ≡ ok st)
      × (st.pos ≡ s.first)
      × (st.req_pos ≡ s.first)
unfolding ms_session_open
ms_session_open-negative ops id method t conn s h =
    let e : range_of (some s) ≡ ok (s.first, s.second) = range_of-negative s h in
    (
      record {
        id = id;
        pos = s.first;
        len =
            if s.second == 0 && ltb 0 (TaskOps.get_filesize ops t)
            then sub64 (TaskOps.get_filesize ops t) s.first
            else s.second;
        sending = 0;
        header_sending = 0;
        req_pos = s.first;
        req_len = s.second;
        method = method;
        meta = false;
        buf = [];
        conn = record conn { header_send = false };
        task = t;
        closed = false;
      },
      rw e refl,
      refl,
      refl,
    )

-- The length that a session begins with.
begin_len : ℕ → ℕ → ℕ → ℕ
begin_len size pos len = if len == 0 && ltb 0 size then sub64 size pos else len

begin_len_lem :
    (size pos len : ℕ)
    → pos < size
    → size < 2 ^ 60
    → pos + len ≤ size
    → (pos + begin_len size pos len ≤ size)
      × (((len ≡ 0) × (pos + begin_len size pos len ≡ size))
          ⊎ ((len ≢ 0) × (begin_len size pos len ≡ len)))
unfolding begin_len
begin_len_lem size pos zero h small le = (ground arith, inl (refl, ground arith))
begin_len_lem size pos (suc n) h small le = (ground arith, inr ((λ z. cc), ground arith))

module _ {T : Type 0} (ops : TaskOps T) (f : ℕ → ℕ) (laws : IsTask ops f) (limit : ℕ) where
  -- A request that is not HEAD, for all of a file of known size, from a position in it on, or from
  -- one to another that does not come before, opens a session that is valid and whose range lies in
  -- the file, on a connection to which nothing was handed.
  pub ms_session_open-Kept :
      (id method : ℕ) (t : T) (conn : Connection) (range : Option Scanned)
      → IsTask.InOrder laws t
      → method ≢ http_head
      → (conn.out ≡ []) × (conn.send_len ≡ 0)
      → (0 < TaskOps.get_filesize ops t) × (TaskOps.get_filesize ops t + limit < 2 ^ 60)
      → IsSatisfiable (TaskOps.get_filesize ops t) range
      → (st : Session T) × (ms_session_open ops id method t conn range ≡ ok st)
        × Kept ops f laws limit st
  unfolding ms_session_open begin_len
  ms_session_open-Kept id method t conn range o get (empty, none_queued) (known, small) sat =
      let (pos, len, e, inside, le) =
        range_of-IsSatisfiable (TaskOps.get_filesize ops t) range known (omega arith) sat in
      let size : ℕ = TaskOps.get_filesize ops t in
      let none_sent : 0 ≡ pos + 0 - pos = omega arith in
      let (inside', ends) = begin_len_lem size pos len inside (omega arith) le in
      (
        record {
          id = id;
          pos = pos;
          len = begin_len size pos len;
          sending = 0;
          header_sending = 0;
          req_pos = pos;
          req_len = len;
          method = method;
          meta = false;
          buf = [];
          conn = record conn { header_send = false };
          task = t;
          closed = false;
        },
        rw e refl,
        (
          record {
            in_order = o;
            getting = get;
            begun = omega arith;
            delivered = rw empty (ap (slice f pos) none_sent);
            buffered = refl;
            queued = omega arith;
            fits = omega arith;
            counted = omega arith;
            head_small = omega arith;
            before_head = λ _. (refl, refl);
            small = omega arith;
            asked = elim ends [ inl (z, _) ↦ inl z | inr (_, same) ↦ inr (omega arith) ];
          },
          (
            inside',
            omega arith,
            λ z. elim ends [ inl (_, all) ↦ all | inr (nz, _) ↦ absurd (nz z) ],
          ),
        ),
      )
