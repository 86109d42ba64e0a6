-- ===== src/Streams/Opened.antt =====
-- `ms_stream_handler` of src/ms_stream_handler.c: the session that a request opens.
use text.Mathlib.Text.{◌==◌ as ◌=?◌}
use libms.Base.{
  ℕ, ◌+◌, ◌≡◌, refl, sym, ap, ◌∙◌, false, ◌||◌, List, [], ◌∷◌, ◌++◌, ◌==◌, if◌then◌else◌, arith,
  subst, Option,
}
use libms.Queue.{Found, find_at, with_node, without_node}
use libms.Storage.{Storage}
use libms.Task.{Reader, Task}
use libms.Task.Ops.{add_reader}
use libms.TaskManager.{is_for}
use libms.TaskOps.{TaskOps}
use libms.Methods.{ms_http_method_enum}
use libms.Session.{
  Output, Connection, Session, reader_of, try_transfer_data, ms_session_close_if_need,
}
use libms.Session.Opening.{Scanned, range_of, ms_session_open}
use libms.Session.Keeps.{
  Holds, Holds-bind, Holds-any, Holds-assert, SameOn, try_transfer_data-SameOn,
  close_if_need-SameOn,
}
use libms.Streams.{Stream, World, Request, unload, save, task_ops, with_reader}
use libms.Streams.Requests.{open_stream, ms_stream_handler, requested_url}
use libms.Streams.Counts.{
  count, count-append, count-set_reader, one_if, HasReaders, HasReaders-IsKept,
  add_reader-HasReaders,
}
use libms.Streams.Linked.{IsLinked, AreLinked}
use libms.Streams.Running.{set_task-found, Behind}
use libms.Streams.Joining.{join-AreLinked, ms_find_or_create_task-AreLinked, HasJoined}
use libms.Streams.Leaving.{IsIdle, others_of, leave_old-Left}

-- A session begins on its task, with its address.
ms_session_open-new :
    {T : Type 0} (ops : TaskOps T) (id method : ℕ) (t : T) (conn : Connection)
    (range : Option Scanned)
    → Holds
        (λ (st : Session T). (st.id ≡ id) × (st.closed ≡ false) × (st.task ≡ t))
        (ms_session_open ops id method t conn range)
unfolding ms_session_open
ms_session_open-new {T} ops id method t conn range =
    Holds-bind (λ (_ : ℕ × ℕ). Unit)
      (λ (st : Session T). (st.id ≡ id) × (st.closed ≡ false) × (st.task ≡ t)) (range_of range) _
      (Holds-any (range_of range)) (λ z _. (refl, refl, refl))

count-last :
    {S : Type 0} (k : ℕ) (readers : List Reader) (st : Session (Task S)) (id : ℕ)
    → id ≡ st.id
    → count k readers + count k (reader_of st ∷ []) ≡ count k readers + one_if (id == k)
unfolding count
count-last k readers st id e = omega (arith, ap (λ n. one_if (n == k)) e)

module _ {S : Type 0} (ops : Storage S) (buf : ℕ → ℕ) (limit : ℕ) (size_of : Output → ℕ)
    (now : ℕ) where
  -- The sessions are the ones before and a new one of the connection, on the task of the url.
  abbrev pub Joined : ℕ → ℕ → List Stream → World S → Type 0
  Joined nc url sessions w =
      IsLinked w
      × ((s : Stream) × (w.sessions ≡ sessions ++ (s ∷ [])) × (s.nc ≡ nc) × (s.url ≡ url))

  save-Joined :
      (w : World S) (nc url : ℕ) (zt : Found (Task S)) (s : Stream) (st : Session (Task S))
      → IsLinked w
      → Behind w.lists.tasks url zt
      → IsIdle nc w.sessions
      → (s.nc ≡ nc) × (s.url ≡ url)
      → st.closed ≡ false
      → HasJoined st.id zt.node st.task
      → Joined nc url w.sessions (save (record { before = w.sessions; node = s; after = [] }) st w)
  unfolding save
  save-Joined w nc url zt s st linked (whole, same, e) idle (c, on) live (u, r) =
      let t : Task S = with_reader (reader_of st) st.task in
      let s' : Stream = unload s.nc s.url st in
      let z : Found Stream = record { before = w.sessions; node = s; after = [] } in
      let put =
        set_task-found w.lists.tasks zt t (ap (λ k. find_at (is_for k) w.lists.tasks) same ∙ e) u in
      let joined =
        join-AreLinked w.lists.tasks url zt t w.sessions s' w.lists.preloaders linked
          (whole, same, e) on (subst (λ n. IsIdle n w.sessions) (sym c) idle)
          (u, λ id. count-set_reader id (reader_of st) st.task.readers ∙ r id) in
      let sessions : List Stream = if st.closed then without_node z else with_node z s' in
      let list : sessions ≡ w.sessions ++ (s' ∷ []) =
        ap (λ b. if b then without_node z else with_node z s') live in
      (
        subst (λ ts. AreLinked ts sessions w.lists.preloaders) (sym put)
            (subst (λ ss. AreLinked (with_node zt t) ss w.lists.preloaders) (sym list) joined),
        (s', list, c, on),
      )

  open_stream-Joined :
      (storage : S) (nc : ℕ) (w : World S) (url : ℕ) (r : Request)
      → IsLinked w
      → IsIdle nc w.sessions
      → Holds (Joined nc url w.sessions) (open_stream ops buf limit size_of now storage nc w url r)
  unfolding open_stream
  open_stream-Joined storage nc w url r linked idle =
      let goal : World S → Type 0 = Joined nc url w.sessions in
      let (zt, tasks, e, linked', at) =
        ms_find_or_create_task-AreLinked ops storage now url w.lists.tasks w.sessions
          w.lists.preloaders linked in
      let t : Task S = zt.node in
      let T : TaskOps (Task S) = task_ops ops buf now in
      let id : ℕ = w.lists.fresh in
      let w' : World S = record w {
        lists = record w.lists { tasks = tasks; fresh = w.lists.fresh + 1 };
      } in
      rw e (
        Holds-bind (λ (st : Session (Task S)). (st.id ≡ id) × (st.closed ≡ false) × (st.task ≡ t))
          goal (ms_session_open T id (ms_http_method_enum r.method) t (w.connections nc) r.range) _
          (ms_session_open-new T id (ms_http_method_enum r.method) t (w.connections nc) r.range)
          (λ st (i, live, _).
            Holds-bind
              (λ (t' : Task S). (t'.url ≡ t.url) × (t'.readers ≡ t.readers ++ (reader_of st ∷ [])))
              goal (add_reader ops t (reader_of st)) _ (add_reader-HasReaders ops t (reader_of st))
              (λ t' (u, rs).
                let Q : Task S → Type 0 = HasReaders t.url (λ k. count k t'.readers) in
                let kept = HasReaders-IsKept ops buf now t.url (λ k. count k t'.readers) in
                let s : Session (Task S) = record st { task = t' } in
                Holds-bind (SameOn T Q kept s) goal (try_transfer_data T limit size_of s) _
                  (try_transfer_data-SameOn T Q kept limit size_of s (u, λ k. refl))
                  (λ s' (q, i', c').
                    let (q'', i'', c'') = close_if_need-SameOn T Q kept limit size_of s' q in
                    save-Joined w' nc url zt (unload nc url st)
                      (ms_session_close_if_need T limit size_of s') linked' at idle (refl, refl)
                      (c'' ∙ c' ∙ live)
                      (
                        q''.0,
                        λ k.
                            q''.1 k
                            ∙ ap (count k) rs
                            ∙ count-append k t.readers (reader_of st ∷ [])
                            ∙ count-last k t.readers st
                                (ms_session_close_if_need T limit size_of s').id (i'' ∙ i'),
                      )))))

  -- Where the pointers between the tasks and their readers are right, a stream request that ends
  -- with no fault leaves the sessions of the other connections, as they were, and behind them
  -- one of this connection on the task of the requested url; the pointers are right again.
  pub ms_stream_handler-Joined :
      (decimal : ℕ → List ℕ) (atoi : List ℕ → ℕ) (storage : S) (nc : ℕ) (w : World S) (r : Request)
      → IsLinked w
      → Holds
          (Joined nc (requested_url decimal w r) (others_of nc w.sessions))
          (ms_stream_handler ops buf limit size_of now decimal atoi storage nc w r)
  unfolding ms_stream_handler
  ms_stream_handler-Joined decimal atoi storage nc w r linked =
      let url : ℕ = requested_url decimal w r in
      let (w', e, (linked', idle, sessions, _, _)) = leave_old-Left ops buf now w nc linked in
      Holds-assert (Joined nc url (others_of nc w.sessions))
        (r.method =? "GET" || r.method =? "HEAD") _
        (rw e (
          subst
            (λ ss.
              Holds (Joined nc url ss) (open_stream ops buf limit size_of now storage nc w' url r))
            sessions (open_stream-Joined storage nc w' url r linked' idle)))
