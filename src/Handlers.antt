-- ===== src/Handlers.antt =====
-- src/ms_server_handler.c: the requests of the interface for tasks.
mod Tests
pub mod Unknown
pub mod Added
pub mod Removed
pub mod Json
use Prim.Native.String.{String}
use text.Mathlib.Text.{◌==◌}
use libms.Base.{
  ℕ, ◌+◌, ◌*◌, ◌-◌, Bool, true, false, ◌&&◌, Option, none, some, List, [], ◌∷◌, ◌++◌, length, drop,
  starts_with, leb, if◌then◌else◌, Outcome, ok, fault, Fault, ◌>>=◌,
}
use libms.Storage.{Storage}
use libms.Task.{Reader, Task}
use libms.Task.Ops.{add_reader, remove_reader}
use libms.Queue.{Found, find_at, with_node, without_node}
use libms.Server.{Resource, Server, ms_find_resource_by_id, has_prefix}
use libms.Preloader.{Preloader, is_on, ms_preloader_open}
use libms.TaskManager.{is_for, ms_find_or_create_task}

-- The lists of the server, and the next address of a reader.
pub record Lists (S : Type 0) : Type 0 where
  pub server : Server
  pub tasks : List (Task S)
  pub preloaders : List Preloader
  pub fresh : ℕ

-- An empty object with a status code, the list of tasks, what `mg_serve_http` makes of the request,
-- or nothing.
pub data Response : Type 0 where
  empty : ℕ → Response
  task_list files silent : Response

-- The `->` of a pointer that may be NULL.
abbrev pub deref : Option Resource → Outcome Resource
deref none = fault Fault.null_pointer
deref (some r) = ok r

-- "/api/tasks"
abbrev pub api_tasks : List ℕ
api_tasks = 47 ∷ 97 ∷ 112 ∷ 105 ∷ 47 ∷ 116 ∷ 97 ∷ 115 ∷ 107 ∷ 115 ∷ []

-- `is_equal`
abbrev pub is_equal : List ℕ → List ℕ → Bool
is_equal s1 s2 = leb (length s1) (length s2) && leb (length s2) (length s1) && starts_with s2 s1

-- The `int` -1 as a pattern.
abbrev pub minus_one : ℕ
minus_one = 4294967295

module _ {S : Type 0} where
  -- The task that a pointer points to is another one.
  unfoldable pub set_task : Task S → List (Task S) → List (Task S)
  set_task t tasks = elim (find_at (is_for t.url) tasks) [ none ↦ tasks | some z ↦ with_node z t ]

module _ {S : Type 0} (ops : Storage S) where
  -- POST: `id` is the number in the body, `storage` what a new task gets.
  unfoldable pub post_task : S → ℕ → Lists S → ℕ → Outcome (Lists S × Response)
  post_task storage now a id = do
    resource ← deref (ms_find_resource_by_id a.server id)
    (t, tasks) ← ms_find_or_create_task ops storage now resource.origin_url a.tasks
    let preloader : Preloader = ms_preloader_open ops a.fresh t (10 * 1024 * 1024)
    t' ← add_reader ops t preloader.reader
    ok (
      record a {
        tasks = set_task t' tasks;
        preloaders = a.preloaders ++ (preloader ∷ []);
        fresh = a.fresh + 1;
      },
      empty 200,
    )

  -- The reader of the preloader leaves its task.
  unfoldable pub unread : ℕ → Preloader → List (Task S) → List (Task S)
  unread now p tasks = elim (find_at (is_for p.url) tasks) [
    | none ↦ tasks
    | some z ↦ with_node z (remove_reader ops now z.node p.reader)
  ]

  -- The loop of DELETE; `resource` is first used for the first preloader.
  unfoldable pub delete_preloader : ℕ → Lists S → Resource → Lists S × Response
  delete_preloader now a resource = elim (find_at (is_on resource.origin_url) a.preloaders) [
    | none ↦ (a, empty 404)
    | some z ↦
        (record a { tasks = unread now z.node a.tasks; preloaders = without_node z }, empty 200)
  ]

  unfoldable pub delete_task : ℕ → Lists S → ℕ → Outcome (Lists S × Response)
  delete_task now a id = elim a.preloaders [
    | [] ↦ ok (a, empty 404)
    | (_ ∷ _) ↦ (do
      resource ← deref (ms_find_resource_by_id a.server id)
      ok (delete_preloader now a resource))
  ]

  -- `body_id` is the number in the body, and `resource_id` the one in the uri.
  unfoldable pub task_handler : S → ℕ → Lists S → String → ℕ → ℕ → Outcome (Lists S × Response)
  task_handler storage now a method body_id resource_id =
      if method == "GET"
      then ok (a, task_list)
      else if method == "POST"
      then post_task storage now a body_id
      else if method == "DELETE"
      then delete_task now a resource_id
      else ok (a, silent)

  -- `atoi` is the C library's, as a pattern.
  unfoldable pub ms_api_handler :
      (List ℕ → ℕ) → S → ℕ → Lists S → List ℕ → String → ℕ → Outcome (Lists S × Response)
  ms_api_handler atoi storage now a uri method body_id =
      if has_prefix uri api_tasks
      then task_handler storage now a method body_id (atoi (drop (length api_tasks + 1) uri))
      else if is_equal uri api_tasks
      then task_handler storage now a method body_id minus_one
      else ok (a, files)
