-- ===== src/TaskManager/Tests.antt =====
-- Three tasks, and the theorem at concrete inputs.
use libms.Base.{ℕ, ◌≡◌, refl, none, List, [], ◌∷◌, All, Any, ok, arith}
use libms.Task.{Task}
use libms.Task.Ops.{ms_task_open, task_close, close_pipes}
use libms.Storage.{Storage}
use libms.MemStorage.{MemStorage}
use libms.MemStorage.Interface.{mem_storage}
use libms.MemStorage.Tests.{zeros, small}
use libms.Queue.{Apart, find_at}
use libms.TaskManager.{ms_find_or_create_task, ms_remove_task_if_need, remove_if_need, is_needless}
use libms.TaskManager.Kept.{KeptOrIdle, ms_find_or_create_task-KeptOrIdle}

abbrev pub ops : Storage MemStorage
ops = mem_storage zeros

-- A task of that url, which has a reader or was left at that time.
abbrev busy : ℕ → Task MemStorage
busy url = record {
  storage = small;
  url = url;
  redirect_url = none;
  readers = record { id = 0; pos = 0; len = 9; sending = 0 } ∷ [];
  pipes = [];
  close_ts = 0;
  code = 0;
  fresh = 0;
}

abbrev left_at : ℕ → ℕ → Task MemStorage
left_at url ts = record (busy url) { readers = []; close_ts = ts }

abbrev pub tasks : List (Task MemStorage)
tasks = busy 4 ∷ left_at 5 20 ∷ left_at 6 28 ∷ []

pub tasks-Apart : Apart (λ t. t.url) tasks
tasks-Apart = (((λ e. omega arith), ((λ e. omega arith), tt)), (((λ e. omega arith), tt), (tt, tt)))

ms_find_or_create_task-KeptOrIdle_example :
    (t : Task MemStorage) × (tasks' : List (Task MemStorage)) × (ms_find_or_create_task ops small 30
        7 tasks
      ≡ ok (t, tasks'))
    × (t.url ≡ 7)
    × Any (λ q. q ≡ t) tasks'
    × Apart (λ q. q.url) tasks'
    × All (KeptOrIdle ops 30 tasks') tasks
ms_find_or_create_task-KeptOrIdle_example =
    ms_find_or_create_task-KeptOrIdle ops small 30 7 tasks tasks-Apart

-- The task that was left ten seconds ago is closed.
create_run :
    ms_find_or_create_task ops small 30 7 tasks
    ≡ ok (ms_task_open small 7, busy 4 ∷ left_at 6 28 ∷ ms_task_open small 7 ∷ [])
unfolding ms_find_or_create_task ms_remove_task_if_need remove_if_need is_needless task_close
    close_pipes find_at ms_task_open
create_run = refl
