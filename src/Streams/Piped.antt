-- ===== src/Streams/Piped.antt =====
-- Every event of a pipe keeps the pointers to the tasks right.
use libms.Base.{
  ℕ, ◌+◌, inl, inr, refl, sym, ap, ◌∙◌, List, [], ◌∷◌, subst, ◌==◌, if_cases, if◌then◌else◌,
  Outcome, ok, ◌>>=◌,
}
use libms.Queue.{Found, find_at, find_at-cases, All-middle}
use libms.Storage.{Storage}
use libms.Task.{Reader, Pipe, Task}
use libms.Task.Dispatch.{dispatch_pipe, close_pipe}
use libms.Task.Events.{store, on_pipe_complete, on_redirect}
use libms.TaskManager.{is_for}
use libms.TaskOps.{TaskOps}
use libms.Session.{Output, Session}
use libms.Session.{on_recv, on_error, on_content_size_from}
use libms.Session.Keeps.{
  Holds, Holds-bind, Holds-map, Holds-any, Holds-assert, SameOn, SameOrGone, on_recv-SameOn,
  close_if_need-SameOn, on_content_size_from-SameOn,
}
use libms.Streams.{Stream, World, task_at, call, call_all, task_ops}
use libms.Streams.Pipes.{
  PipeEvent, header, filesize, pipe_header, pipe_filesize, content_size, received, redirected,
  completed, closed_with, put_task, set_pipe, move_pipe, pipe_content_size, pipe_recv,
  pipe_redirect, pipe_complete, pipe_close, pipe_handler,
}
use libms.Streams.Counts.{
  count, HasReaders, HasReaders-IsKept, SameReaders, dispatch_pipe-SameReaders, store-SameReaders,
  on_pipe_complete-SameReaders,
}
use libms.Streams.Linked.{IsLinked, AreLinked, IsBalanced, replace-AreLinked}
use libms.Streams.Running.{Keeping, run-IsLinked, task_at-cases, set_task-found, Behind}

module _ {S : Type 0} where
  -- The task changes, but its url and its readers.
  put_task-IsLinked :
      (w : World S) (url : ℕ) (z : Found (Task S)) (t : Task S)
      → IsLinked w
      → Behind w.lists.tasks url z
      → SameReaders z.node t
      → IsLinked (put_task t w)
  put_task-IsLinked w url z t linked (whole, same, e) (u, rs) =
      let put =
        set_task-found w.lists.tasks z t (ap (λ k. find_at (is_for k) w.lists.tasks) same ∙ e) u in
      let ss : List Stream = w.sessions in
      let ps = w.lists.preloaders in
      let (urls, players, balanced, homed, homed') =
        subst (λ ts. AreLinked ts ss ps) whole linked in
      let (_, b, _) = All-middle (IsBalanced ss ps) z.before z.node z.after balanced in
      subst (λ ts. AreLinked ts ss ps) (sym put)
        (replace-AreLinked z.before z.node t z.after ss ss ps ps
          (urls, players, balanced, homed, homed') u players (λ id v _. refl)
          (λ id. ap (count id) rs ∙ b id) homed homed')

  -- What is done with the task of a pipe, if it is there.
  task_at-Holds :
      {B : Type 0} (P : B → Type 0) (url : ℕ) (tasks : List (Task S)) (k : Task S → Outcome B)
      → ((z : Found (Task S)) → Behind tasks url z → Holds P (k z.node))
      → Holds P (task_at url tasks >>= k)
  task_at-Holds P url tasks k h = elim (task_at-cases url tasks) [
    | inl (e, _) ↦ rw e tt
    | inr (z, e, at) ↦ rw e (h z at)
  ]

  move_pipe-IsLinked :
      (w : World S) (url : ℕ) (pipe : Pipe) → IsLinked w → Holds IsLinked (move_pipe w url pipe)
  unfolding move_pipe
  move_pipe-IsLinked w url pipe linked = task_at-Holds IsLinked url w.lists.tasks _ (λ z at.
      put_task-IsLinked w url z (record z.node { pipes = set_pipe pipe z.node.pipes }) linked at
        (refl, refl))

module _ {S : Type 0} (ops : Storage S) (buf : ℕ → ℕ) (limit : ℕ) (size_of : Output → ℕ)
    (now : ℕ) where
  call_all-IsLinked :
      (f : Session (Task S) → Outcome (Session (Task S))) (readers : List Reader) (w : World S)
      → Keeping ops buf now limit size_of f
      → IsLinked w
      → Holds IsLinked (call_all f readers w)
  unfolding call_all call
  call_all-IsLinked f [] w keeps linked = linked
  call_all-IsLinked f (r ∷ readers) w keeps linked =
      Holds-bind IsLinked IsLinked (call f w r) _
        (elim (find_at-cases (λ s. s.id == r.id) w.sessions) [
          | inl (e, _) ↦ rw (call, e) linked
          | inr (z, e, (list, _, _)) ↦
              rw (call, e) (run-IsLinked ops buf now limit size_of f w z keeps linked list)
        ])
        (λ w' l. call_all-IsLinked f readers w' keeps l)

  abbrev T : TaskOps (Task S)
  T = task_ops ops buf now

  on_recv-Keeping : Keeping ops buf now limit size_of (on_recv T limit size_of)
  on_recv-Keeping url readers st q =
      let Q : Task S → Type 0 = HasReaders url readers in
      let kept = HasReaders-IsKept ops buf now url readers in
      Holds-map (SameOn T Q kept st) (SameOrGone T Q kept limit size_of st)
        (on_recv T limit size_of st) (on_recv-SameOn T Q kept limit size_of st q) (λ st' h. inl h)

  on_error-Keeping : Keeping ops buf now limit size_of (λ st. ok (on_error T limit size_of st))
  unfolding on_error
  on_error-Keeping url readers st q = inl (
      close_if_need-SameOn T (HasReaders url readers) (HasReaders-IsKept ops buf now url readers)
        limit size_of st q)

  on_content_size_from-Keeping :
      Keeping ops buf now limit size_of (λ st. ok (on_content_size_from T st))
  on_content_size_from-Keeping url readers st q = inl (
      on_content_size_from-SameOn T (HasReaders url readers)
        (HasReaders-IsKept ops buf now url readers) st q)

  content_size-IsLinked :
      (w : World S) (url : ℕ) (pipe : Pipe) (pos size : ℕ)
      → IsLinked w
      → Holds IsLinked (pipe_content_size ops buf limit size_of now w url pipe pos size)
  unfolding pipe_content_size
  content_size-IsLinked w url pipe pos size linked =
      task_at-Holds IsLinked url w.lists.tasks _ (λ z at.
        let m : Outcome S =
          if pipe.req_len == 0
          then Storage.set_filesize ops z.node.storage (pos + size)
          else Storage.set_content_size ops z.node.storage pos size in
        Holds-bind (λ (_ : S). Unit) IsLinked m _ (Holds-any m)
          (λ storage _.
            call_all-IsLinked (λ st. ok (on_content_size_from T st)) z.node.readers
              (put_task (record z.node { storage = storage }) w) on_content_size_from-Keeping
              (put_task-IsLinked w url z (record z.node { storage = storage }) linked at
                (refl, refl))))

  filesize-IsLinked :
      (w : World S) (url size : ℕ)
      → IsLinked w
      → Holds IsLinked (pipe_filesize ops buf limit size_of now w url size)
  unfolding pipe_filesize
  filesize-IsLinked w url size linked = task_at-Holds IsLinked url w.lists.tasks _ (λ z at.
      let m : Outcome S = Storage.set_filesize ops z.node.storage size in
      Holds-bind (λ (_ : S). Unit) IsLinked m _ (Holds-any m)
        (λ storage _.
          call_all-IsLinked (λ st. ok st) z.node.readers
            (put_task (record z.node { storage = storage }) w)
            (λ u readers st q. inl (q, refl, refl))
            (put_task-IsLinked w url z (record z.node { storage = storage }) linked at
              (refl, refl))))

  recv-IsLinked :
      (w : World S) (url : ℕ) (pipe : Pipe) (bytes : ℕ → ℕ) (pos len : ℕ)
      → IsLinked w
      → Holds IsLinked (pipe_recv ops buf limit size_of now w url pipe bytes pos len)
  unfolding pipe_recv
  recv-IsLinked w url pipe bytes pos len linked =
      task_at-Holds IsLinked url w.lists.tasks _ (λ z at.
        Holds-bind (SameReaders z.node) IsLinked (store ops z.node bytes pos len) _
          (store-SameReaders ops z.node bytes pos len)
          (λ t same.
            Holds-bind IsLinked IsLinked
              (call_all (on_recv T limit size_of) t.readers (put_task t w)) _
              (call_all-IsLinked (on_recv T limit size_of) t.readers (put_task t w) on_recv-Keeping
                (put_task-IsLinked w url z t linked at same))
              (λ w' linked'. task_at-Holds IsLinked url w'.lists.tasks _ (λ z' at'.
                put_task-IsLinked w' url z' (dispatch_pipe ops z'.node pipe).0 linked' at'
                  (dispatch_pipe-SameReaders ops z'.node pipe)))))

  close-IsLinked :
      (w : World S) (url : ℕ) (pipe : Pipe) (code : ℕ)
      → IsLinked w
      → Holds IsLinked (pipe_close ops buf limit size_of now w url pipe code)
  unfolding pipe_close close_pipe
  close-IsLinked w url pipe code linked = task_at-Holds IsLinked url w.lists.tasks _ (λ z at.
      let u : Task S = if code == 0 then z.node else record z.node { code = code } in
      let same : SameReaders z.node u =
        if_cases (SameReaders z.node) (code == 0) z.node (record z.node { code = code })
          (λ _. (refl, refl)) (λ _. (refl, refl)) in
      let t : Task S = close_pipe u pipe in
      let linked' = put_task-IsLinked w url z t linked at same in
      if_cases (Holds IsLinked) (t.code == 0) (ok (put_task t w)) _ (λ _. linked')
        (λ _.
          call_all-IsLinked (λ st. ok (on_error T limit size_of st)) t.readers (put_task t w)
            on_error-Keeping linked'))

  -- An event of a pipe, with all that the sessions do in their callbacks, keeps this if it ends
  -- with no fault: the urls of the tasks are different, and so are the connections of the
  -- sessions; each session and each preloader has its task in the list; and the readers of a
  -- task are the sessions and the preloaders that have it, each as often.
  pub pipe_handler-IsLinked :
      (w : World S) (url : ℕ) (pipe : Pipe) (ev : PipeEvent)
      → IsLinked w
      → Holds IsLinked (pipe_handler ops buf limit size_of now w url pipe ev)
  unfolding pipe_handler pipe_header pipe_redirect pipe_complete on_redirect
  pipe_handler-IsLinked w url pipe (header has_type) linked =
      Holds-assert IsLinked has_type (ok w) linked
  pipe_handler-IsLinked w url pipe (filesize size) linked = filesize-IsLinked w url size linked
  pipe_handler-IsLinked w url pipe (content_size pos size) linked =
      let sized : Pipe = record pipe { len = size } in
      Holds-bind IsLinked IsLinked (move_pipe w url sized) _ (move_pipe-IsLinked w url sized linked)
        (λ w' l. content_size-IsLinked w' url sized pos size l)
  pipe_handler-IsLinked w url pipe (received bytes pos len) linked =
      let moved : Pipe = record pipe { pos = pos + len } in
      Holds-bind IsLinked IsLinked (move_pipe w url moved) _ (move_pipe-IsLinked w url moved linked)
        (λ w' l. recv-IsLinked w' url moved bytes pos len l)
  pipe_handler-IsLinked w url pipe (redirected location) linked =
      task_at-Holds IsLinked url w.lists.tasks _
        (λ z at. put_task-IsLinked w url z (on_redirect z.node location) linked at (refl, refl))
  pipe_handler-IsLinked w url pipe completed linked =
      task_at-Holds IsLinked url w.lists.tasks _ (λ z at.
        Holds-bind (SameReaders z.node) IsLinked (on_pipe_complete ops z.node pipe) _
          (on_pipe_complete-SameReaders ops z.node pipe)
          (λ t same. put_task-IsLinked w url z t linked at same))
  pipe_handler-IsLinked w url pipe (closed_with code) linked = close-IsLinked w url pipe code linked
