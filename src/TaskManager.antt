-- ===== src/TaskManager.antt =====
-- src/ms_task_manager.c: the tasks of the server, one for each url. The time is an argument.
pub mod Tests
pub mod Kept
use libms.Base.{
  ℕ, ◌+◌, Bool, true, false, ◌&&◌, Option, none, some, List, [], ◌∷◌, ◌++◌, leb, ◌==◌,
  if◌then◌else◌, Outcome, ok, ◌>>=◌,
}
use libms.Storage.{Storage}
use libms.Task.{Task}
use libms.Task.Ops.{is_empty, ms_task_open, task_close}
use libms.Queue.{Found, find_at}

module _ {S : Type 0} where
  -- No reader is left, and the last one went at least `ts` ago.
  unfoldable pub is_needless : ℕ → ℕ → Task S → Bool
  is_needless now ts t = is_empty t.readers && leb (t.close_ts + ts) now

  abbrev pub is_for : ℕ → Task S → Bool
  is_for url t = t.url == url

module _ {S : Type 0} (ops : Storage S) where
  -- A task that is closed leaves the list.
  unfoldable pub remove_if_need : ℕ → ℕ → Task S → Outcome (List (Task S))
  remove_if_need now ts t =
      if is_needless now ts t then (do t' ← task_close ops t; ok []) else ok (t ∷ [])

  unfoldable pub ms_remove_task_if_need : ℕ → ℕ → List (Task S) → Outcome (List (Task S))
  ms_remove_task_if_need now ts [] = ok []
  ms_remove_task_if_need now ts (t ∷ tasks) = do
    kept ← remove_if_need now ts t
    rest ← ms_remove_task_if_need now ts tasks
    ok (kept ++ rest)

  -- `storage` is what `open_storage` returns.
  unfoldable pub ms_find_or_create_task :
      S → ℕ → ℕ → List (Task S) → Outcome (Task S × List (Task S))
  ms_find_or_create_task storage now url tasks = elim (find_at (is_for url) tasks) [
    | some z ↦ ok (z.node, tasks)
    | none ↦ (do
      rest ← ms_remove_task_if_need now 5 tasks
      let t : Task S = ms_task_open storage url
      ok (t, rest ++ (t ∷ [])))
  ]
