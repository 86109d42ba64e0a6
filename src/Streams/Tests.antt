-- ===== src/Streams/Tests.antt =====
-- Runs of the server, and the theorems at concrete inputs.
use libms.Base.{
  ℕ, ◌%◌, ◌+◌, ◌≤◌, ◌<◌, ◌≡◌, refl, inr, none, some, false, List, [], ◌∷◌, All, Outcome, ok, fault,
  slice, arith,
}
use libms.Queue.{find_at}
use libms.Storage.{Storage}
use libms.Task.{Reader, Pipe, Task, nearest_pipe, nearest_from}
use libms.Task.Dispatch.{dispatch_reader, fetch_from, open_at, create_pipe_for, http_pipe_create}
use libms.Task.Ops.{ms_task_open, add_reader, get_task_filesize, get_task_estimate_size, get_errno}
use libms.TaskManager.{ms_find_or_create_task, ms_remove_task_if_need}
use libms.MemStorage.{MemStorage, get_estimate_size, get_filesize, ms_mem_storage_open}
use libms.MemStorage.Interface.{mem_storage}
use libms.MemStorage.Tests.{zeros, counting}
use libms.Methods.{ms_http_method_enum}
use libms.Server.{Status, has_prefix}
use libms.Handlers.{Response, silent, set_task}
use libms.Session.{Output, Connection, try_transfer_data, ms_session_close_if_need}
use libms.Session.Opening.{ms_session_open, range_of}
use libms.Session.Keeps.{Holds}
use libms.Streams.{
  World, Request, http_request, send, ms_find_session, leave_old, save, set_reader, task_ops,
}
use libms.Streams.Requests.{
  requested_url, open_stream, ms_stream_handler, on_request, server_handler,
}
use libms.Streams.Pipes.{content_size, pipe_handler}
use libms.Streams.Linked.{IsLinked}
use libms.Streams.Reached.{
  Reaches, begin, then_step, handled, IsSafe, IsOwned, Reaches-IsLinked, Reaches-IsSafe,
}
use libms.Streams.Handled.{server_handler-IsLinked}
use libms.Streams.Piped.{pipe_handler-IsLinked}
use libms.TaskOps.{TaskOps}
use libms.Task.Events.{store}
use libms.MemStorage.View.{byte_at, piece_at}
use libms.Streams.Backed.{IsBacked, IsPrefix, read-sync}
use libms.Streams.Stored.{store-IsBacked}
use libms.Streams.Leaving.{Left, others_of, leave_old-Left}
use libms.Streams.Opened.{Joined, ms_stream_handler-Joined}

abbrev ops : Storage MemStorage
ops = mem_storage zeros

-- A head is written as ten bytes, into a buffer of forty; numbers are printed and read as nothing.
abbrev size_of : Output → ℕ
size_of _ = 10

abbrev limit : ℕ
limit = 40

abbrev decimal : ℕ → List ℕ
decimal _ = []

abbrev atoi : List ℕ → ℕ
atoi _ = 0

abbrev quiet : ℕ → Connection
quiet _ = record { send_len = 0; header_send = false; send_and_close = false; out = [] }

abbrev at_first : World MemStorage
at_first = record {
  lists = record {
    server = record { status = Status.running; port = 80; base_url_id = 0; resources = [] };
    tasks = [];
    preloaders = [];
    fresh = 1;
  };
  sessions = [];
  connections = quiet;
  closing = [];
}

-- "/stream/a?url=…" for url 7
abbrev film : Request
film = record {
  uri = 47 ∷ 115 ∷ 116 ∷ 114 ∷ 101 ∷ 97 ∷ 109 ∷ 47 ∷ 97 ∷ [];
  method = "GET";
  query_url = some 7;
  range = none;
  body_id = 0;
}

abbrev world_of : Outcome (World MemStorage × Response) → World MemStorage
world_of (ok (w, _)) = w
world_of (fault _) = at_first

abbrev pipe : Pipe
pipe = record { id = 0; url = 7; pos = 0; len = 0; req_len = 0 }

abbrev playing : World MemStorage
playing = world_of (
    server_handler ops counting limit size_of 30 decimal atoi ms_mem_storage_open 5 at_first
      (http_request film))

play_run :
    server_handler ops counting limit size_of 30 decimal atoi ms_mem_storage_open 5 at_first
      (http_request film)
    ≡ ok (playing, silent)
unfolding server_handler on_request ms_stream_handler requested_url leave_old ms_find_session
    open_stream save set_reader task_ops find_at has_prefix ms_find_or_create_task
    ms_remove_task_if_need ms_task_open ms_session_open range_of add_reader dispatch_reader
    fetch_from open_at create_pipe_for http_pipe_create nearest_pipe nearest_from try_transfer_data
    ms_session_close_if_need get_errno set_task get_task_filesize get_task_estimate_size
    ms_mem_storage_open get_estimate_size get_filesize ms_http_method_enum
play_run = refl

playing-Reaches :
    Reaches ops counting limit size_of decimal atoi ms_mem_storage_open at_first playing
playing-Reaches =
    then_step at_first playing begin
      (handled 30 5 (http_request film) at_first playing silent play_run)

playing-IsLinked : IsLinked playing
playing-IsLinked =
    Reaches-IsLinked ops counting limit size_of decimal atoi ms_mem_storage_open at_first playing
      (refl, refl, refl) playing-Reaches

Reaches-IsSafe_example :
    All (IsSafe playing) playing.sessions
    × All (λ t. All (IsOwned playing t) t.readers) playing.lists.tasks
Reaches-IsSafe_example =
    Reaches-IsSafe ops counting limit size_of decimal atoi ms_mem_storage_open at_first playing
      (refl, refl, refl) playing-Reaches

-- The same connection asks again, then closes; the socket took bytes; the pipe was redirected.
server_handler-IsLinked_example :
    Holds
      (λ (z : World MemStorage × Response). IsLinked z.0)
      (server_handler ops counting limit size_of 40 decimal atoi ms_mem_storage_open 5 playing
        (send (some 0)))
server_handler-IsLinked_example =
    server_handler-IsLinked ops counting limit size_of 40 decimal atoi ms_mem_storage_open 5 playing
      (send (some 0)) playing-IsLinked

pipe_handler-IsLinked_example :
    Holds IsLinked
      (pipe_handler ops counting limit size_of 40 playing 7 pipe (content_size 0 90000))
pipe_handler-IsLinked_example =
    pipe_handler-IsLinked ops counting limit size_of 40 playing 7 pipe (content_size 0 90000)
      playing-IsLinked

leave_old-Left_example :
    (w' : World MemStorage) × (leave_old ops counting 40 5 playing ≡ ok w')
    × Left ops counting 40 5 playing w'
leave_old-Left_example = leave_old-Left ops counting 40 playing 5 playing-IsLinked

ms_stream_handler-Joined_example :
    Holds
      (Joined ops counting limit size_of 40 5
        (requested_url decimal playing film)
        (others_of 5 playing.sessions))
      (ms_stream_handler ops counting limit size_of 40 decimal atoi ms_mem_storage_open 5 playing
        film)
ms_stream_handler-Joined_example =
    ms_stream_handler-Joined ops counting limit size_of 40 decimal atoi ms_mem_storage_open 5
      playing film playing-IsLinked

-- A file of 100,000 bytes, of which none is cached, with a reader at 20,000.
abbrev unread : Task MemStorage
unread = record {
  storage = record {
    filesize = 100000;
    estimate_size = 100000;
    completed_size = 0;
    blocks = λ _. none;
    allocated = 1;
    bitmap = none;
  };
  url = 7;
  redirect_url = none;
  readers = record { id = 1; pos = 20000; len = 80000; sending = 0 } ∷ [];
  pipes = [];
  close_ts = 0;
  code = 0;
  fresh = 0;
}

abbrev bytes_of : ℕ → ℕ
bytes_of i = i % 256

unread-IsBacked : IsBacked zeros counting 30 bytes_of unread
unfolding byte_at piece_at
unread-IsBacked = record {
  valid = record { entries = refl; known = inr refl; inside = λ k b e. absurd (cc) };
  small = omega arith;
  bytes = λ i b l e. absurd (cc);
  inside = (omega arith, tt);
}

store-IsBacked_example :
    (t' : Task MemStorage) × (store ops unread (λ i. bytes_of (16384 + i)) 16384 32768 ≡ ok t')
    × IsBacked zeros counting 30 bytes_of t'
    × ((i : ℕ) → 16384 ≤ i → i < 49152 → byte_at t'.storage i ≡ some (bytes_of i))
store-IsBacked_example =
    store-IsBacked zeros counting 30 bytes_of unread 16384 32768 unread-IsBacked refl (inr refl)
      (omega arith)

-- The reader moves on to 32,768 and reads.
abbrev moved : Reader
moved = record { id = 1; pos = 32768; len = 67232; sending = 0 }

read-sync_example :
    (t' : Task MemStorage) × (n : ℕ) × (TaskOps.read
        (task_ops ops counting 30)
        (TaskOps.sync (task_ops ops counting 30) unread moved)
        32768
        1000
      ≡ ok (t', slice bytes_of 32768 n))
    × IsPrefix zeros counting 30 bytes_of unread.storage 32768 1000 n
    × IsBacked zeros counting 30 bytes_of t'
    × (t'.storage ≡ unread.storage)
    × (t'.readers ≡ set_reader moved unread.readers)
unfolding get_filesize
read-sync_example =
    read-sync zeros counting 30 bytes_of unread moved 32768 1000 unread-IsBacked (omega arith)
      (omega arith)
