-- ===== src/Streams.antt =====
-- src/ms_stream_handler.c, src/ms_session_manager.c and `server_handler` of src/ms_server.c: the
-- sessions of the server, the tasks that they share, and the events of the players' connections and
-- of the pipes.
pub mod Requests
pub mod Pipes
pub mod Counts
pub mod Linked
pub mod Changing
pub mod Running
pub mod Joining
pub mod Leaving
pub mod Opened
pub mod Requested
pub mod Handled
pub mod Piped
pub mod Reached
pub mod Backed
pub mod Stored
pub mod Served
mod Tests
use Prim.Native.String.{String}
use libms.Base.{
  ℕ, ◌+◌, ◌-◌, Bool, true, false, ◌||◌, Option, none, some, List, [], ◌∷◌, ◌++◌, slice, ◌==◌,
  if◌then◌else◌, Outcome, ok, fault, Fault, ◌>>=◌, ◌>>◌, ms_assert,
}
use libms.Queue.{Found, find_at, with_node, without_node}
use libms.Storage.{Storage}
use libms.Task.{Reader, Pipe, Task}
use libms.Task.Dispatch.{close_pipe, dispatch_pipe}
use libms.Task.Ops.{
  get_task_filesize, get_task_estimate_size, get_errno, task_read, add_reader, remove_reader,
}
use libms.Task.Events.{store}
use libms.TaskOps.{TaskOps}
use libms.TaskManager.{is_for, ms_find_or_create_task}
use libms.Server.{Resource, has_prefix, stream_prefix, ms_find_resource}
use libms.Methods.{ms_http_method_enum}
use libms.Session.{
  Output, Connection, Session, finish, reader_of, try_transfer_data, ms_session_close_if_need,
}
use libms.Session.{on_send, on_recv, on_error, on_content_size_from}
use libms.Session.Opening.{Scanned, ms_session_open}
use libms.Handlers.{Lists, Response, files, silent, set_task, ms_api_handler}

-- A reader object is seen by its owner and its task: what the owner set is set here.
unfoldable pub set_reader : Reader → List Reader → List Reader
set_reader r [] = []
set_reader r (q ∷ readers) =
    if q.id == r.id then r ∷ set_reader r readers else q ∷ set_reader r readers

-- `struct ms_itask` as src/ms_task.c fills it. The time is `now`, and `buf` what a buffer holds
-- before it is read into.
unfoldable pub task_ops : {S : Type 0} → Storage S → (ℕ → ℕ) → ℕ → TaskOps (Task S)
task_ops ops buf now = record {
  sync = λ t r. record t { readers = set_reader r t.readers };
  get_filesize = get_task_filesize ops;
  get_estimate_size = get_task_estimate_size ops;
  get_errno = get_errno;
  read = λ t pos len. task_read ops t buf pos len >>= λ (t', (out, n)). ok (t', slice out 0 n);
  remove_reader = remove_reader ops now;
}

-- A session in the server's list, with its connection `nc` and the url of its task, by which both
-- are found.
pub record Stream : Type 0 where
  pub nc : ℕ
  pub url : ℕ
  pub id : ℕ
  pub pos : ℕ
  pub len : ℕ
  pub sending : ℕ
  pub header_sending : ℕ
  pub req_pos : ℕ
  pub req_len : ℕ
  pub method : ℕ
  pub meta : Bool
  pub buf : List ℕ

-- The lists of the server, its sessions, the connections, and those that got
-- MG_F_CLOSE_IMMEDIATELY.
pub record World (S : Type 0) : Type 0 where
  pub lists : Lists S
  pub sessions : List Stream
  pub connections : ℕ → Connection
  pub closing : List ℕ

-- A request of a player: `query_url` is the variable `url`, if it is not empty, `range` what the
-- `Range` header was read as, and `body_id` the number in the body.
pub record Request : Type 0 where
  pub uri : List ℕ
  pub method : String
  pub query_url : Option ℕ
  pub range : Option Scanned
  pub body_id : ℕ

-- `ev` with its data. The count of sent bytes is `none` if it is negative.
pub data Event : Type 0 where
  http_request : Request → Event
  send : Option ℕ → Event
  close timer : Event

-- The url of a request that names no url and no resource.
abbrev pub empty_url : ℕ
empty_url = 0

abbrev pub is_of : ℕ → Stream → Bool
is_of nc s = s.nc == nc

-- `ms_find_session`
unfoldable pub ms_find_session : ℕ → List Stream → Option (Found Stream)
ms_find_session nc sessions = find_at (is_of nc) sessions

abbrev pub with_connection : ℕ → Connection → (ℕ → Connection) → ℕ → Connection
with_connection nc c connections n = if n == nc then c else connections n

module _ {S : Type 0} where
  -- A session with what its pointers point to.
  abbrev pub load : Stream → Connection → Task S → Session (Task S)
  load s c t = record {
    id = s.id;
    pos = s.pos;
    len = s.len;
    sending = s.sending;
    header_sending = s.header_sending;
    req_pos = s.req_pos;
    req_len = s.req_len;
    method = s.method;
    meta = s.meta;
    buf = s.buf;
    conn = c;
    task = t;
    closed = false;
  }

  abbrev pub unload : ℕ → ℕ → Session (Task S) → Stream
  unload nc url st = record {
    nc = nc;
    url = url;
    id = st.id;
    pos = st.pos;
    len = st.len;
    sending = st.sending;
    header_sending = st.header_sending;
    req_pos = st.req_pos;
    req_len = st.req_len;
    method = st.method;
    meta = st.meta;
    buf = st.buf;
  }

  abbrev pub set_tasks : List (Task S) → World S → World S
  set_tasks tasks w = record w { lists = record w.lists { tasks = tasks } }

  -- The task with the reader as its owner left it.
  abbrev pub with_reader : Reader → Task S → Task S
  with_reader r t = record t { readers = set_reader r t.readers }

  -- The objects are as the session left them. One that was closed is not in the list.
  unfoldable pub save : Found Stream → Session (Task S) → World S → World S
  save z st w = record (set_tasks (set_task (with_reader (reader_of st) st.task) w.lists.tasks) w) {
    sessions = if st.closed then without_node z else with_node z (unload z.node.nc z.node.url st);
    connections = with_connection z.node.nc st.conn w.connections;
  }

  -- The task of a pointer; a task that was freed is none.
  unfoldable pub task_at : ℕ → List (Task S) → Outcome (Task S)
  task_at url tasks = elim (find_at (is_for url) tasks) [
    | none ↦ fault Fault.null_pointer
    | some z ↦ ok z.node
  ]

  -- A function of a session in the list.
  unfoldable pub run :
      (Session (Task S) → Outcome (Session (Task S))) → World S → Found Stream → Outcome (World S)
  run f w z = do
    t ← task_at z.node.url w.lists.tasks
    st ← f (load z.node (w.connections z.node.nc) t)
    ok (save z st w)

  -- A callback of the reader with that address. The callbacks of a preloader do nothing.
  unfoldable pub call :
      (Session (Task S) → Outcome (Session (Task S))) → World S → Reader → Outcome (World S)
  call f w r = elim (find_at (λ s. s.id == r.id) w.sessions) [ none ↦ ok w | some z ↦ run f w z ]

  -- The loops of src/ms_task.c that call every reader.
  unfoldable pub call_all :
      (Session (Task S) → Outcome (Session (Task S))) → List Reader → World S → Outcome (World S)
  call_all f [] w = ok w
  call_all f (r ∷ readers) w = do w' ← call f w r; call_all f readers w'

module _ {S : Type 0} (ops : Storage S) (buf : ℕ → ℕ) where
  -- The session leaves its task and the list, and is freed.
  unfoldable pub leave : ℕ → World S → Found Stream → Outcome (World S)
  leave now w z = run (λ st. ok (finish (task_ops ops buf now) st)) w z

  -- The session that the connection had is gone.
  unfoldable pub leave_old : ℕ → ℕ → World S → Outcome (World S)
  leave_old now nc w = elim (ms_find_session nc w.sessions) [ none ↦ ok w | some z ↦ leave now w z ]
