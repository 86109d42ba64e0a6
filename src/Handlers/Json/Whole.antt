-- ===== src/Handlers/Json/Whole.antt =====
-- The answer with the list of tasks against the text that it means to be.
use mathlib.Core.List.{append_assoc, append-nil}
use libms.Base.{
  ℕ, ◌+◌, ◌-◌, ◌≡◌, refl, sym, ap, ◌∙◌, Bool, false, List, [], ◌∷◌, ◌++◌, take, ◌==◌, if◌then◌else◌,
  map, arith, Bool-cases, inl, inr,
}
use libms.Storage.{Storage}
use libms.Task.{Task}
use libms.Handlers.Json.{
  Texts, bytes, print, is_asked_for, fill_task_json, fill_tasks, task_list_response,
}
use libms.Handlers.Json.Printed.{commas, take-nil, cut, print-cut, behind, commas-map}
use libms.Handlers.Json.Objects.{task_text, fill_task_json-Prints}

-- The tasks with a url that passes.
abbrev pub selected : {S : Type 0} → (List ℕ → Bool) → (ℕ → List ℕ) → List (Task S) → List (Task S)
selected asked url_text [] = []
selected asked url_text (task ∷ tasks) =
    if asked (url_text task.url)
    then task ∷ selected asked url_text tasks
    else selected asked url_text tasks

module _ {S : Type 0} (ops : Storage S) (texts : Texts S) where
  abbrev pub list_text : List (Task S) → List ℕ
  list_text tasks = bytes "[" ++ (commas (map (task_text ops texts) tasks) ++ bytes "]")

  module _ (capacity : ℕ) where
    fill_tasks-behind :
        (asked : List ℕ → Bool) (n : ℕ) (xs : List ℕ) (tasks : List (Task S))
        → (n == 0) ≡ false
        → fill_tasks ops texts capacity asked n (cut capacity xs) tasks
          ≡ cut capacity (xs ++ behind (task_text ops texts) (selected asked texts.url_text tasks))
    unfolding fill_tasks behind
    fill_tasks-behind asked n xs [] started = ap (cut capacity) (sym (append-nil xs))
    fill_tasks-behind asked n xs (task ∷ tasks) started =
        elim (Bool-cases (asked (texts.url_text task.url))) [
          | inr e ↦ rw e (fill_tasks-behind asked n xs tasks started)
          | inl e ↦
              let c : List ℕ = bytes "," in
              let next : (n + 1 == 0) ≡ false = ground arith in
              rw (e, started)
                (ap
                    (λ js.
                      fill_tasks ops texts capacity asked (n + 1)
                        (fill_task_json ops texts capacity js task) tasks)
                    (print-cut capacity xs c)
                  ∙ ap (λ js. fill_tasks ops texts capacity asked (n + 1) js tasks)
                      (fill_task_json-Prints ops texts capacity (xs ++ c) task)
                  ∙ fill_tasks-behind asked (n + 1) ((xs ++ c) ++ (task_text ops texts) task) tasks
                      next
                  ∙ ap (cut capacity) (
                      append_assoc (xs ++ c) ((task_text ops texts) task)
                        (behind (task_text ops texts) (selected asked texts.url_text tasks))
                      ∙ append_assoc xs c (
                          (task_text ops texts) task
                          ++ behind (task_text ops texts) (selected asked texts.url_text tasks))))
        ]

    fill_tasks-commas :
        (asked : List ℕ → Bool) (xs : List ℕ) (tasks : List (Task S))
        → fill_tasks ops texts capacity asked 0 (cut capacity xs) tasks
          ≡ cut capacity
              (xs ++ commas (map (task_text ops texts) (selected asked texts.url_text tasks)))
    unfolding fill_tasks
    fill_tasks-commas asked xs [] = ap (cut capacity) (sym (append-nil xs))
    fill_tasks-commas asked xs (task ∷ tasks) =
        elim (Bool-cases (asked (texts.url_text task.url))) [
          | inr e ↦ rw e (fill_tasks-commas asked xs tasks)
          | inl e ↦
              let rest : List (Task S) = selected asked texts.url_text tasks in
              rw e (
                ap (λ js. fill_tasks ops texts capacity asked 1 js tasks)
                  (fill_task_json-Prints ops texts capacity xs task)
                ∙ fill_tasks-behind asked 1 (xs ++ (task_text ops texts) task) tasks refl
                ∙ ap (cut capacity) (
                    append_assoc xs ((task_text ops texts) task) (behind (task_text ops texts) rest)
                    ∙ ap (λ zs. xs ++ zs) (commas-map (task_text ops texts) task rest)))
        ]

    -- Printed call by call into a buffer, the answer with the list of tasks is an array of the
    -- texts of the tasks that are asked for, in their order, with commas between them, each
    -- with the arrays of its readers and its pipes, as far as the buffer has room for it and a
    -- 0.
    pub task_list_response-list_text :
        (request_size : ℕ) (url : List ℕ) (tasks : List (Task S))
        → task_list_response ops texts capacity request_size url tasks
          ≡ take
              (capacity - 1)
              (list_text (selected (is_asked_for request_size url) texts.url_text tasks))
    unfolding task_list_response
    task_list_response-list_text request_size url tasks =
        let asked : List ℕ → Bool = is_asked_for request_size url in
        let xs : List ℕ = bytes "[" in
        let ts : List ℕ =
          commas (map (task_text ops texts) (selected asked texts.url_text tasks)) in
        ap (λ js. print capacity (fill_tasks ops texts capacity asked 0 js tasks) (bytes "]"))
          (first xs)
        ∙ ap (λ js. print capacity js (bytes "]")) (fill_tasks-commas asked xs tasks)
        ∙ print-cut capacity (xs ++ ts) (bytes "]")
        ∙ ap (cut capacity) (append_assoc xs ts (bytes "]"))
      where
        first : (xs : List ℕ) → print capacity [] xs ≡ cut capacity xs
        first xs =
            ap (λ js. print capacity js xs) (sym (take-nil (capacity - 1)))
            ∙ print-cut capacity [] xs
