-- ===== src/Task/Ops.antt =====
-- `struct ms_itask` of src/ms_task.c: what a task does for its readers. The time is an argument.
pub mod Removal
pub mod Addresses
use libms.Base.{
  ℕ, Bool, true, false, Option, none, some, List, [], ◌∷◌, ◌++◌, ◌==◌, if◌then◌else◌, Outcome, ok,
  ◌>>=◌, ◌>>◌, ms_assert,
}
use libms.Storage.{Storage}
use libms.Task.{Reader, Pipe, Task}
use libms.Task.Dispatch.{dispatch_reader, dispatch_pipe, close_pipe}

-- QUEUE_EMPTY
abbrev pub is_empty {ℓ} : {A : Type ℓ} → List A → Bool
is_empty [] = true
is_empty (_ ∷ _) = false

-- `QUEUE_REMOVE` by the reader's address.
unfoldable pub unlink_reader : ℕ → List Reader → List Reader
unlink_reader id [] = []
unlink_reader id (r ∷ readers) = if r.id == id then readers else r ∷ unlink_reader id readers

unfoldable pub ms_task_open : {S : Type 0} → S → ℕ → Task S
ms_task_open storage url = record {
  storage = storage;
  url = url;
  redirect_url = none;
  readers = [];
  pipes = [];
  close_ts = 0;
  code = 0;
  fresh = 0;
}

unfoldable pub get_errno : {S : Type 0} → Task S → ℕ
get_errno t = t.code

-- The while loop of `task_close`, which closes the head of the list each time.
unfoldable pub close_pipes : {S : Type 0} → Task S → List Pipe → Task S
close_pipes t [] = t
close_pipes t (pipe ∷ rest) = close_pipes (close_pipe t pipe) rest

-- The reader leaves the list, and the time is kept once no reader is left.
unfoldable pub without_reader : {S : Type 0} → ℕ → Task S → Reader → Task S
without_reader now t reader =
    let readers : List Reader = unlink_reader reader.id t.readers in
    record t { readers = readers; close_ts = if is_empty readers then now else t.close_ts }

module _ {S : Type 0} (ops : Storage S) where
  unfoldable pub get_task_filesize : Task S → ℕ
  get_task_filesize t = Storage.get_filesize ops t.storage

  unfoldable pub get_task_estimate_size : Task S → ℕ
  get_task_estimate_size t = Storage.get_estimate_size ops t.storage

  unfoldable pub get_completed_length : Task S → ℕ
  get_completed_length t = Storage.get_completed_size ops t.storage

  -- The loops over the readers in `task_read` and `on_pipe_complete`.
  unfoldable pub dispatch_readers : Task S → List Reader → Outcome (Task S)
  dispatch_readers t [] = ok t
  dispatch_readers t (reader ∷ rest) = do
    t' ← dispatch_reader ops t reader
    dispatch_readers t' rest

  -- The loop over the pipes in `remove_reader`; `q` is behind the pipe before it may be closed.
  unfoldable pub dispatch_pipes : Task S → List Pipe → Task S
  dispatch_pipes t [] = t
  dispatch_pipes t (pipe ∷ rest) = let (t', _) = dispatch_pipe ops t pipe in dispatch_pipes t' rest

  unfoldable pub add_reader : Task S → Reader → Outcome (Task S)
  add_reader t reader =
      dispatch_reader ops (record t { readers = t.readers ++ (reader ∷ []) }) reader

  unfoldable pub task_read : Task S → (ℕ → ℕ) → ℕ → ℕ → Outcome (Task S × ((ℕ → ℕ) × ℕ))
  task_read t buf pos len = do
    t' ← dispatch_readers t t.readers
    r ← Storage.read ops t'.storage buf pos len
    ok (t', r)

  unfoldable pub remove_reader : ℕ → Task S → Reader → Task S
  remove_reader now t reader = dispatch_pipes (without_reader now t reader) t.pipes

  -- Afterwards the task is freed with its storage.
  unfoldable pub task_close : Task S → Outcome (Task S)
  task_close t = do ms_assert (is_empty t.readers); ok (close_pipes t t.pipes)
