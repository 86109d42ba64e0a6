-- ===== src/Streams/Requests.antt =====
-- The events of the players' connections: `ms_stream_handler` of src/ms_stream_handler.c and
-- `server_handler` of src/ms_server.c.
use text.Mathlib.Text.{◌==◌}
use libms.Base.{
  ℕ, ◌+◌, ◌||◌, Option, none, some, List, [], ◌∷◌, if◌then◌else◌, Outcome, ok, ◌>>=◌, ◌>>◌,
  ms_assert,
}
use libms.Queue.{Found}
use libms.Storage.{Storage}
use libms.Task.Ops.{add_reader}
use libms.TaskManager.{ms_find_or_create_task}
use libms.Server.{has_prefix, stream_prefix, ms_find_resource}
use libms.Methods.{ms_http_method_enum}
use libms.Session.{Output, reader_of, try_transfer_data, ms_session_close_if_need}
use libms.Session.{on_send}
use libms.Session.Opening.{ms_session_open}
use libms.Handlers.{Response, files, silent, ms_api_handler}
use libms.Streams.{
  Stream, World, Request, Event, http_request, send, close, timer, empty_url, ms_find_session,
  task_ops, unload, save, run, leave_old,
}

-- "/api/"
abbrev pub api_prefix : List ℕ
api_prefix = 47 ∷ 97 ∷ 112 ∷ 105 ∷ 47 ∷ []

-- `decimal` is what "%d" prints.
module _ {S : Type 0} where
  unfoldable pub requested_url : (ℕ → List ℕ) → World S → Request → ℕ
  requested_url decimal w r = elim r.query_url [
    | some url ↦ url
    | none ↦ elim (ms_find_resource decimal w.lists.server r.uri) [
      | some resource ↦ resource.origin_url
      | none ↦ empty_url
    ]
  ]

-- The arguments of Streams, and the time.
module _ {S : Type 0} (ops : Storage S) (buf : ℕ → ℕ) (limit : ℕ) (size_of : Output → ℕ)
    (now : ℕ) where
  -- The session of a request joins its task and the list, and sends what is there. `storage` is what
  -- a new task gets.
  unfoldable pub open_stream : S → ℕ → World S → ℕ → Request → Outcome (World S)
  open_stream storage nc w url r = do
    (t, tasks) ← ms_find_or_create_task ops storage now url w.lists.tasks
    st ←
        ms_session_open (task_ops ops buf now) w.lists.fresh (ms_http_method_enum r.method) t
          (w.connections nc) r.range
    t' ← add_reader ops t (reader_of st)
    st' ← try_transfer_data (task_ops ops buf now) limit size_of (record st { task = t' })
    let z : Found Stream = record { before = w.sessions; node = unload nc url st; after = [] }
    let w' : World S = record w {
      lists = record w.lists { tasks = tasks; fresh = w.lists.fresh + 1 };
    }
    ok (save z (ms_session_close_if_need (task_ops ops buf now) limit size_of st') w')

  -- A negative count is an error of the socket.
  unfoldable pub on_sent : ℕ → World S → Option ℕ → Outcome (World S)
  on_sent nc w sent = elim (ms_find_session nc w.sessions) [
    | none ↦ ok w
    | some z ↦ elim sent [
      | none ↦ ok (record w { closing = nc ∷ w.closing })
      | some n ↦ run (λ st. on_send (task_ops ops buf now) limit size_of st n) w z
    ]
  ]

  -- `atoi` is the C library's.
  module _ (decimal : ℕ → List ℕ) (atoi : List ℕ → ℕ) where
    unfoldable pub ms_stream_handler : S → ℕ → World S → Request → Outcome (World S)
    ms_stream_handler storage nc w r = do
      ms_assert (r.method == "GET" || r.method == "HEAD")
      let url : ℕ = requested_url decimal w r
      w' ← leave_old ops buf now nc w
      open_stream storage nc w' url r

    unfoldable pub on_request : S → ℕ → World S → Request → Outcome (World S × Response)
    on_request storage nc w r =
        if has_prefix r.uri stream_prefix
        then (do w' ← ms_stream_handler storage nc w r; ok (w', silent))
        else if has_prefix r.uri api_prefix
        then (do
          (lists, response) ← ms_api_handler ops atoi storage now w.lists r.uri r.method r.body_id
          ok (record w { lists = lists }, response))
        else ok (w, files)

    unfoldable pub server_handler : S → ℕ → World S → Event → Outcome (World S × Response)
    server_handler storage nc w (http_request r) = on_request storage nc w r
    server_handler storage nc w (send sent) = do w' ← on_sent nc w sent; ok (w', silent)
    server_handler storage nc w close = do w' ← leave_old ops buf now nc w; ok (w', silent)
    server_handler storage nc w timer = ok (w, silent)
