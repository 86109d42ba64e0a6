-- ===== src/Handlers/Json.antt =====
-- The list of tasks with which src/ms_server_handler.c answers: the text that `snprintf` writes, call
-- by call, into a buffer.
pub mod Printed
pub mod Objects
pub mod Whole
pub mod Asked
use Prim.Native.String.{String}
use Prim.Native.Char.{code}
use text.Mathlib.TextBridge.{to_list}
use mathlib.Core.List.{append_assoc, append-nil}
use libms.Base.{
  ℕ, zero, suc, ◌+◌, ◌-◌, ◌≤◌, ◌<◌, ◌≡◌, refl, sym, ap, ◌∙◌, Bool, true, false, ◌||◌, Option, none,
  some, List, [], ◌∷◌, ◌++◌, take, length, leb, ◌==◌, if◌then◌else◌, map, arith, if_cases, min,
}
use libms.Storage.{Storage}
use libms.Task.{Reader, Pipe, Task}
use libms.Task.Ops.{get_task_filesize, get_completed_length}
use libms.Handlers.{is_equal}

-- A text of the source; its characters are bytes.
unfoldable pub bytes : String → List ℕ
bytes s = map code (to_list s)

-- `snprintf(json + strlen(json), len - strlen(json), …)`: the text goes behind the one that is there,
-- as far as the buffer has room for it and a 0.
unfoldable pub print : ℕ → List ℕ → List ℕ → List ℕ
print capacity json text = json ++ take (capacity - 1 - length json) text

-- Several calls.
unfoldable pub print_all : ℕ → List ℕ → List (List ℕ) → List ℕ
print_all capacity json [] = json
print_all capacity json (text ∷ texts) = print_all capacity (print capacity json text) texts

abbrev padding : ℕ → List ℕ
padding zero = []
padding (suc n) = 0 ∷ padding n

-- `url_str`: `MG_MK_STR(url)` of an array takes all of the array but its last byte, so the zeros
-- behind the text are a part of it.
unfoldable pub url_str : ℕ → List ℕ → List ℕ
url_str request_size url = url ++ padding (request_size - 1 - length url)

-- `url` is the text of the parameter, [] where the request has none; `task_url` is that of a task.
unfoldable pub is_asked_for : ℕ → List ℕ → List ℕ → Bool
is_asked_for request_size url task_url =
    leb (length url) 0 || is_equal (url_str request_size url) task_url

-- What is not computed here: `decimal` is what INT64_FMT prints, `pointer` what "%p" does for an
-- address, `address` the one of the task of a url, `url_text` the url and `bitmap` what `get_bitmap`
-- returns.
pub record Texts (S : Type 0) : Type 0 where
  pub decimal : ℕ → List ℕ
  pub pointer : ℕ → List ℕ
  pub address : ℕ → ℕ
  pub url_text : ℕ → List ℕ
  pub bitmap : S → List ℕ

-- The members of a task before its readers.
abbrev pub task_members : {S : Type 0} → Storage S → Texts S → Task S → List (List ℕ)
task_members ops texts task =
    bytes "{"
    ∷ (bytes "\"id\": \"" ++ (texts.pointer (texts.address task.url) ++ bytes "\","))
    ∷ (bytes "\"url\": \"" ++ (texts.url_text task.url ++ bytes "\","))
    ∷ (bytes "\"totalLength\": " ++ (texts.decimal (get_task_filesize ops task) ++ bytes ","))
    ∷ (bytes "\"completedLength\": "
        ++ (texts.decimal (get_completed_length ops task) ++ bytes ","))
    ∷ bytes "\"speed\": 0,"
    ∷ (bytes "\"bitmap\": \"" ++ (texts.bitmap task.storage ++ bytes "\","))
    ∷ bytes "\"readers\":["
    ∷ []

module _ {S : Type 0} (ops : Storage S) (texts : Texts S) (capacity : ℕ) where
  unfoldable pub fill_pipe_json : List ℕ → Pipe → List ℕ
  fill_pipe_json json pipe = print_all capacity json (
      bytes "{"
      ∷ (bytes "\"id\": \"" ++ (texts.pointer pipe.id ++ bytes "\","))
      ∷ (bytes "\"pos\": " ++ (texts.decimal pipe.pos ++ bytes ","))
      ∷ (bytes "\"len\": " ++ texts.decimal pipe.len)
      ∷ bytes "}"
      ∷ [])

  unfoldable pub fill_reader_json : List ℕ → Reader → List ℕ
  fill_reader_json json reader = print_all capacity json (
      bytes "{"
      ∷ (bytes "\"id\": \"" ++ (texts.pointer reader.id ++ bytes "\","))
      ∷ (bytes "\"pos\": " ++ (texts.decimal reader.pos ++ bytes ","))
      ∷ (bytes "\"len\": " ++ texts.decimal reader.len)
      ∷ bytes "}"
      ∷ [])

  -- A loop with a comma before each but the first; `started` is `reader != NULL`.
  unfoldable pub fill_each : {A : Type 0} → (List ℕ → A → List ℕ) → Bool → List ℕ → List A → List ℕ
  fill_each fill started json [] = json
  fill_each fill started json (x ∷ xs) =
      fill_each fill true (fill (if started then print capacity json (bytes ",") else json) x) xs

  unfoldable pub fill_task_json : List ℕ → Task S → List ℕ
  fill_task_json json task =
      let head : List ℕ = print_all capacity json (task_members ops texts task) in
      let readers : List ℕ = fill_each fill_reader_json false head task.readers in
      let between : List ℕ = print_all capacity readers (bytes "]," ∷ bytes "\"pipes\":[" ∷ []) in
      let pipes : List ℕ = fill_each fill_pipe_json false between task.pipes in
      print_all capacity pipes (bytes "]" ∷ bytes "}" ∷ [])

  -- The loop over the tasks.
  unfoldable pub fill_tasks : (List ℕ → Bool) → ℕ → List ℕ → List (Task S) → List ℕ
  fill_tasks asked task_num response [] = response
  fill_tasks asked task_num response (task ∷ tasks) =
      if asked (texts.url_text task.url)
      then fill_tasks asked (task_num + 1)
          (fill_task_json (if task_num == 0 then response else print capacity response (bytes ","))
            task)
          tasks
      else fill_tasks asked task_num response tasks

  -- The body of the answer of `get_task_list_handler`; `request_size` is MG_MAX_HTTP_REQUEST_SIZE.
  unfoldable pub task_list_response : ℕ → List ℕ → List (Task S) → List ℕ
  task_list_response request_size url tasks =
      let first : List ℕ = print capacity [] (bytes "[") in
      print capacity (fill_tasks (is_asked_for request_size url) 0 first tasks) (bytes "]")
