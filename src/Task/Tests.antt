-- ===== src/Task/Tests.antt =====
-- Runs of a task on the memory storage, and the theorems at concrete inputs.
use libms.Base.{ℕ, ◌≡◌, refl, inr, none, ok, [], ◌∷◌, Any, arith, ◌⊎◌}
use libms.Storage.{Storage}
use libms.MemStorage.{MemStorage, get_estimate_size}
use libms.MemStorage.Interface.{mem_storage, mem_storage-IsStorage, mem_storage-InOrder}
use libms.MemStorage.Tests.{zeros, small, small-IsValid}
use libms.Task.{Reader, Pipe, Task}
use libms.Task.Dispatch.{max_cache, dispatch_reader}
use libms.Task.Dispatch.Pipes.{IsNeeded, Kept, Closed, dispatch_pipe-IsNeeded}
use libms.Task.Dispatch.Readers.{Cached}
use libms.Task.Dispatch.Served.{Served, dispatch_reader-Served}
use libms.Task.Ops.{without_reader, remove_reader, unlink_reader}
use libms.Task.Ops.Removal.{Distinct, Swept, remove_reader-Swept}

abbrev ops : Storage MemStorage
ops = mem_storage zeros

abbrev reader_at : ℕ → ℕ → Reader
reader_at id pos = record { id = id; pos = pos; len = 0; sending = 0 }

abbrev pipe_at : ℕ → ℕ → Pipe
pipe_at id pos = record { id = id; url = 7; pos = pos; len = 0; req_len = 0 }

-- 100,000 bytes with the second piece cached, two readers, and pipes at 0, 32768 and 32768.
abbrev task : Task MemStorage
task = record {
  storage = small;
  url = 7;
  redirect_url = none;
  readers = reader_at 0 5 ∷ reader_at 1 20000 ∷ [];
  pipes = pipe_at 0 16384 ∷ pipe_at 1 32768 ∷ pipe_at 2 32768 ∷ [];
  close_ts = 0;
  code = 0;
  fresh = 3;
}

task-Distinct : Distinct task.pipes
task-Distinct =
    (((λ e. omega arith), ((λ e. omega arith), tt)), (((λ e. omega arith), tt), (tt, tt)))

dispatch_pipe-IsNeeded_example : Kept ops task (pipe_at 1 32768) ⊎ Closed ops task (pipe_at 1 32768)
dispatch_pipe-IsNeeded_example = dispatch_pipe-IsNeeded ops task (pipe_at 1 32768)

dispatch_reader-Served_example :
    (len : ℕ) × (t' : Task MemStorage) × Cached ops task (reader_at 1 20000) len
    × (dispatch_reader ops task (reader_at 1 20000) ≡ ok t')
    × Served ops task (reader_at 1 20000) len t'
unfolding get_estimate_size
dispatch_reader-Served_example =
    dispatch_reader-Served ops task (reader_at 1 20000) (mem_storage-IsStorage zeros)
      (mem_storage-InOrder zeros small small-IsValid (omega arith)) (inr (omega arith))

remove_reader-Swept_example :
    Swept ops (without_reader 60 task (reader_at 0 5)) (remove_reader ops 60 task (reader_at 0 5))
    × ((q : Pipe)
        → Any (λ p. p ≡ q) task.pipes
        → IsNeeded (max_cache ops task) q task.pipes (unlink_reader 0 task.readers)
        → Any (λ p. p ≡ q) (remove_reader ops 60 task (reader_at 0 5)).pipes)
remove_reader-Swept_example = remove_reader-Swept ops 60 task (reader_at 0 5) task-Distinct

-- One reader is left.
abbrev last_task : Task MemStorage
last_task = record task { readers = reader_at 1 20000 ∷ [] }

unlink_last : unlink_reader 1 last_task.readers ≡ []
unfolding unlink_reader
unlink_last = refl
