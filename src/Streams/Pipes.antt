-- ===== src/Streams/Pipes.antt =====
-- The callbacks of src/ms_task.c that a pipe calls, with the sessions that are the readers of the
-- task.
use libms.Base.{
  ℕ, ◌+◌, List, [], ◌∷◌, Bool, ◌==◌, if◌then◌else◌, Outcome, ok, ◌>>=◌, ◌>>◌, ms_assert,
}
use libms.Storage.{Storage}
use libms.Task.{Pipe, Task}
use libms.Task.Dispatch.{close_pipe, dispatch_pipe}
use libms.Task.Events.{store, on_pipe_complete, on_redirect}
use libms.Session.{Output, on_recv, on_error, on_content_size_from}
use libms.Handlers.{set_task}
use libms.Streams.{World, task_ops, task_at, set_tasks, call_all}
use libms.Base.{Option}

-- What a pipe tells its task: that a head came, with a Content-Type or not; a file size; a range;
-- bytes; a redirection; that it is complete; that it closes with a code.
pub data PipeEvent : Type 0 where
  header : Bool → PipeEvent
  filesize : ℕ → PipeEvent
  content_size : ℕ → ℕ → PipeEvent
  received : (ℕ → ℕ) → ℕ → ℕ → PipeEvent
  redirected : Option ℕ → PipeEvent
  completed : PipeEvent
  closed_with : ℕ → PipeEvent

abbrev pub put_task : {S : Type 0} → Task S → World S → World S
put_task t w = set_tasks (set_task t w.lists.tasks) w

-- The pipe with that address, as it is now.
unfoldable pub set_pipe : Pipe → List Pipe → List Pipe
set_pipe pipe [] = []
set_pipe pipe (p ∷ pipes) =
    if p.id == pipe.id then pipe ∷ set_pipe pipe pipes else p ∷ set_pipe pipe pipes

-- src/ms_http_pipe.c changes a field of the pipe, which its task has in its list, before it calls.
unfoldable pub move_pipe : {S : Type 0} → World S → ℕ → Pipe → Outcome (World S)
move_pipe w url pipe = do
  t ← task_at url w.lists.tasks
  ok (put_task (record t { pipes = set_pipe pipe t.pipes }) w)

module _ {S : Type 0} (ops : Storage S) (buf : ℕ → ℕ) (limit : ℕ) (size_of : Output → ℕ)
    (now : ℕ) where
  -- The assertion of `on_header`. The fields that it sets are only printed into the heads of
  -- sessions.
  unfoldable pub pipe_header : World S → Bool → Outcome (World S)
  pipe_header w has_type = do ms_assert has_type; ok w

  -- The task of the pipe has that url. The callback of a session does nothing.
  unfoldable pub pipe_filesize : World S → ℕ → ℕ → Outcome (World S)
  pipe_filesize w url size = do
    t ← task_at url w.lists.tasks
    storage ← Storage.set_filesize ops t.storage size
    call_all (λ st. ok st) t.readers (put_task (record t { storage = storage }) w)

  unfoldable pub pipe_content_size : World S → ℕ → Pipe → ℕ → ℕ → Outcome (World S)
  pipe_content_size w url pipe pos size = do
    t ← task_at url w.lists.tasks
    storage ←
        (if pipe.req_len == 0
          then Storage.set_filesize ops t.storage (pos + size)
          else Storage.set_content_size ops t.storage pos size)
    call_all (λ st. ok (on_content_size_from (task_ops ops buf now) st)) t.readers
        (put_task (record t { storage = storage }) w)

  unfoldable pub pipe_recv : World S → ℕ → Pipe → (ℕ → ℕ) → ℕ → ℕ → Outcome (World S)
  pipe_recv w url pipe bytes pos len = do
    t ← task_at url w.lists.tasks
    t' ← store ops t bytes pos len
    w' ← call_all (λ st. on_recv (task_ops ops buf now) limit size_of st) t'.readers (put_task t' w)
    t'' ← task_at url w'.lists.tasks
    ok (put_task (dispatch_pipe ops t'' pipe).0 w')

  unfoldable pub pipe_redirect : World S → ℕ → Option ℕ → Outcome (World S)
  pipe_redirect w url location = do
    t ← task_at url w.lists.tasks
    ok (put_task (on_redirect t location) w)

  -- No reader is called.
  unfoldable pub pipe_complete : World S → ℕ → Pipe → Outcome (World S)
  pipe_complete w url pipe = do
    t ← task_at url w.lists.tasks
    t' ← on_pipe_complete ops t pipe
    ok (put_task t' w)

  unfoldable pub pipe_close : World S → ℕ → Pipe → ℕ → Outcome (World S)
  pipe_close w url pipe code = do
    t ← task_at url w.lists.tasks
    let t' : Task S = close_pipe (if code == 0 then t else record t { code = code }) pipe
    if t'.code == 0
        then ok (put_task t' w)
        else call_all (λ st. ok (on_error (task_ops ops buf now) limit size_of st)) t'.readers
            (put_task t' w)

  unfoldable pub pipe_handler : World S → ℕ → Pipe → PipeEvent → Outcome (World S)
  pipe_handler w url pipe (header has_type) = pipe_header w has_type
  pipe_handler w url pipe (filesize size) = pipe_filesize w url size
  pipe_handler w url pipe (content_size pos size) = do
    let sized : Pipe = record pipe { len = size }
    w' ← move_pipe w url sized
    pipe_content_size w' url sized pos size
  pipe_handler w url pipe (received bytes pos len) = do
    let moved : Pipe = record pipe { pos = pos + len }
    w' ← move_pipe w url moved
    pipe_recv w' url moved bytes pos len
  pipe_handler w url pipe (redirected location) = pipe_redirect w url location
  pipe_handler w url pipe completed = pipe_complete w url pipe
  pipe_handler w url pipe (closed_with code) = pipe_close w url pipe code
