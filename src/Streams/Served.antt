-- ===== src/Streams/Served.antt =====
-- A session of src/ms_session.c on a task of src/ms_task.c whose memory storage has all of the file:
-- from the request to its end.
mod Tests
use libms.Base.{
  ℕ, ◌+◌, ◌-◌, ◌/◌, ◌^◌, ◌*◌, ◌≤◌, ◌<◌, ◌≡◌, ◌≢◌, inl, inr, refl, sym, ap, ◌∙◌, subst, true, false,
  none, some, Option, [], slice, ltb, ◌&&◌, ◌==◌, if◌then◌else◌, Outcome, ok, ◌>>=◌, sub64, arith,
  dec_lt,
}
use libms.Task.{Task}
use libms.Task.Ops.{get_errno, get_task_filesize}
use libms.TaskOps.{TaskOps, IsTask}
use libms.MemStorage.{Buf, MemStorage, piece_unit_size, get_filesize}
use libms.MemStorage.View.{byte_at, piece_at}
use libms.MemStorage.Interface.{mem_storage}
use libms.Session.{Output, Connection, Session, http_head, on_recv}
use libms.Session.Opening.{Scanned, range_of, ms_session_open}
use libms.Session.Begun.{IsSatisfiable, ms_session_open-Kept}
use libms.Session.Validity.{body_of}
use libms.Session.Delivery.{Kept}
use libms.Session.Complete.{IsComplete}
use libms.Session.Rounds.{ok-injective}
use libms.Session.Liveness.{drain_all, drain_all-on_recv}
use libms.Streams.{task_ops}
use libms.Streams.Backed.{
  IsBacked, IsPrefix, SameBut, filesize-estimate, read-slice, task_ops-IsTask,
}

-- Every byte is cached, and the task keeps no error.
abbrev pub IsStored : Task MemStorage → Type 0
IsStored t =
    (t.code ≡ 0)
    × ((i : ℕ) → i < t.storage.estimate_size → (b : ℕ) × (byte_at t.storage i ≡ some b))

-- Of a piece that is not cached there is no byte.
not_cached :
    (st : MemStorage) (i b : ℕ)
    → piece_at st (i / piece_unit_size) ≡ none
    → byte_at st i ≡ some b
    → ⊥
unfolding byte_at
not_cached st i b e h = let gone : byte_at st i ≡ none = rw (byte_at, e) refl in cc

-- A request that asks for all from a position on.
opened_at :
    {T : Type 0} (ops : TaskOps T) (id method : ℕ) (t : T) (conn : Connection)
    (range : Option Scanned) (first : ℕ) (st : Session T)
    → range_of range ≡ ok (first, 0)
    → ms_session_open ops id method t conn range ≡ ok st
    → (st.pos ≡ first)
      × (st.req_pos ≡ first)
      × (st.req_len ≡ 0)
      × (st.task ≡ t)
      × (st.conn.send_and_close ≡ conn.send_and_close)
      × (st.closed ≡ false)
unfolding ms_session_open
opened_at {T} ops id method t conn range first st e h =
    let size : ℕ = TaskOps.get_filesize ops t in
    let begun : Session T = record {
      id = id;
      pos = first;
      len = if 0 == 0 && ltb 0 size then sub64 size first else 0;
      sending = 0;
      header_sending = 0;
      req_pos = first;
      req_len = 0;
      method = method;
      meta = false;
      buf = [];
      conn = record conn { header_send = false };
      task = t;
      closed = false;
    } in
    let whole : ms_session_open ops id method t conn range ≡ ok begun =
      rw (ms_session_open, e) refl in
    let same : st ≡ begun = ok-injective begun st begun (sym h ∙ whole) in
    (
      ap (λ s. s.pos) same,
      ap (λ s. s.req_pos) same,
      ap (λ s. s.req_len) same,
      ap (λ s. s.task) same,
      ap (λ s. s.conn.send_and_close) same,
      ap (λ s. s.closed) same,
    )

module _ (malloc : ℕ → Buf) (buf : Buf) (now : ℕ) (f : ℕ → ℕ) where
  abbrev ops : TaskOps (Task MemStorage)
  ops = task_ops (mem_storage malloc) buf now

  IsStored-SameBut :
      (t t' : Task MemStorage) → IsStored t → SameBut malloc buf now f t t' → IsStored t'
  IsStored-SameBut t t' (c, all) (s, _, c') = (
    c' ∙ c,
    subst (λ (st : MemStorage). (i : ℕ) → i < st.estimate_size → (b : ℕ) × (byte_at st i ≡ some b))
        (sym s) all,
  )

  prefix-all :
      (t : Task MemStorage) (pos len n : ℕ)
      → IsBacked malloc buf now f t
      → IsStored t
      → pos + len ≤ get_filesize t.storage
      → IsPrefix malloc buf now f t.storage pos len n
      → n ≡ len
  prefix-all t pos len n b (_, all) fits (le, _, inl e) = e
  prefix-all t pos len n b (_, all) fits (le, _, inr gone) = elim (dec_lt n len) [
    | no l ↦ omega arith
    | yes l ↦
        let inside = filesize-estimate malloc buf now f t.storage b.valid in
        let (c, there) = all (pos + n) (omega (arith, fits, inside, l)) in
        absurd (not_cached t.storage (pos + n) c gone there)
  ]

  -- Such a task reads all that is asked of it.
  task_ops-IsComplete : IsComplete ops f (task_ops-IsTask malloc buf now f)
  unfolding task_ops get_errno get_task_filesize task_ops-IsTask
  task_ops-IsComplete = record {
    Complete = IsStored;
    sync-Complete = λ t r c. c;
    no_error = λ t c. c.0;
    read-all = λ t pos len c b fits.
        let (t', n, e, prefix, b', same) = read-slice malloc buf now f t pos len b fits in
        let (s, _, _) = same in
        let whole : n ≡ len = prefix-all t pos len n b c fits prefix in
        (
          t',
          e ∙ ap (λ k. ok (t', slice f pos k)) whole,
          IsStored-SameBut t t' c same,
          b',
          ap get_filesize s,
        );
  }

  module _ (limit : ℕ) (size_of : Output → ℕ) (heads : (o : Output) → size_of o * 2 ≤ limit) where
    abbrev laws : IsTask ops f
    laws = task_ops-IsTask malloc buf now f

    -- On a task without error whose valid storage of at most 2 GiB has every byte cached,
    -- bytes of the file, with no reader beyond its size, and with heads of at most half the
    -- buffer: a request that is not HEAD, for all from a position in the file on, opens a
    -- session on a connection to which nothing was handed and that is not to be closed. It
    -- transfers what it can when bytes arrive; if the socket then takes all that the
    -- connection holds and the session is told, again and again, it is freed after at most as
    -- many rounds as the file has bytes, with no fault, and the file from that position to its
    -- end was handed over in order.
    pub drain_all-ms_session_open :
        (id method : ℕ) (t : Task MemStorage) (conn : Connection) (range : Option Scanned)
        (first rounds : ℕ)
        → IsBacked malloc buf now f t
        → IsStored t
        → method ≢ http_head
        → (conn.out ≡ []) × (conn.send_len ≡ 0) × (conn.send_and_close ≡ false)
        → (0 < limit) × (get_filesize t.storage + limit < 2 ^ 60)
        → (first < get_filesize t.storage) × IsSatisfiable (get_filesize t.storage) range
        → range_of range ≡ ok (first, 0)
        → get_filesize t.storage ≤ rounds
        → (st : Session (Task MemStorage)) × ((ms_session_open ops id method t conn range
                >>= λ opened. on_recv ops limit size_of opened)
              >>= drain_all ops limit size_of rounds
            ≡ ok st)
          × (st.closed ≡ true)
          × (body_of st.conn.out ≡ slice f first (get_filesize t.storage - first))
    unfolding task_ops get_task_filesize task_ops-IsTask task_ops-IsComplete
    drain_all-ms_session_open id method t conn range first rounds b stored get (out, len, live)
          (positive, small) (inside, sat) from enough =
        let (st, e, k) =
          ms_session_open-Kept ops f laws limit id method t conn range b get (out, len)
            (omega arith, small) sat in
        let (pos, req_pos, req_len, task, closing, opened) =
          opened_at ops id method t conn range first st from e in
        let complete : IsStored st.task = subst IsStored (sym task) stored in
        let size : get_filesize st.task.storage ≡ get_filesize t.storage =
          ap (λ (u : Task MemStorage). get_filesize u.storage) task in
        let (_, (_, _, open_end)) = k in
        let ends : st.pos + st.len ≡ get_filesize st.task.storage = open_end req_len in
        let (s, done, closed, bytes) =
          drain_all-on_recv ops f laws task_ops-IsComplete limit size_of heads st rounds positive k
            complete (ends, omega arith) (closing ∙ live, opened) (omega arith) in
        (
          s,
          simp (e, done),
          closed,
          bytes
              ∙ ap (λ p. slice f p (get_filesize st.task.storage - p)) req_pos
              ∙ ap (λ n. slice f first (n - first)) size,
        )
