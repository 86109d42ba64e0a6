-- ===== src/TaskOps.antt =====
-- `struct ms_itask` of src/ms_server.h: the operations that a reader has of its task, and what it
-- relies on of them.
use libms.Base.{ℕ, ◌+◌, ◌≤◌, ◌≡◌, List, slice, Outcome, ok}
use libms.Task.{Reader, reader_pos}

-- `read` gives the bytes that it copied. A reader is one object that its owner and its task both
-- see; `sync` writes what the owner set through to the task.
pub record TaskOps (T : Type 0) : Type 0 where
  pub sync : T → Reader → T
  pub get_filesize : T → ℕ
  pub get_estimate_size : T → ℕ
  pub get_errno : T → ℕ
  pub read : T → ℕ → ℕ → Outcome (T × List ℕ)
  pub remove_reader : T → Reader → T

-- What a task of the file `f` promises in a state that is in order, with its readers inside the
-- file: it reads inside the file, and
-- what it reads are bytes of the file from the position on.
pub record IsTask {T : Type 0} (ops : TaskOps T) (f : ℕ → ℕ) : Type 1 where
  pub InOrder : T → Type 0
  pub sync-InOrder :
      (t : T) (r : Reader)
      → InOrder t
      → reader_pos r ≤ TaskOps.get_filesize ops t
      → InOrder (TaskOps.sync ops t r)
  pub sync-filesize :
      (t : T) (r : Reader)
      → TaskOps.get_filesize ops (TaskOps.sync ops t r) ≡ TaskOps.get_filesize ops t
  pub read-slice :
      (t : T) (pos len : ℕ)
      → InOrder t
      → pos + len ≤ TaskOps.get_filesize ops t
      → (t' : T) × (n : ℕ) × (TaskOps.read ops t pos len ≡ ok (t', slice f pos n))
        × (n ≤ len)
        × InOrder t'
        × (TaskOps.get_filesize ops t' ≡ TaskOps.get_filesize ops t)
