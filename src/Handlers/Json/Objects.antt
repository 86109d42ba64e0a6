-- ===== src/Handlers/Json/Objects.antt =====
-- The texts of readers, pipes and tasks in the answer of src/ms_server_handler.c.
use mathlib.Core.List.{append_assoc, append-nil}
use libms.Base.{ℕ, ◌≡◌, sym, ap, ◌∙◌, true, false, List, [], ◌∷◌, ◌++◌, map}
use libms.Storage.{Storage}
use libms.Task.{Reader, Pipe, Task}
use libms.Handlers.Json.{
  Texts, bytes, print_all, fill_pipe_json, fill_reader_json, fill_each, task_members,
  fill_task_json,
}
use libms.Handlers.Json.Printed.{
  commas, concat, cut, print-cut, print_all-cut, behind, commas-map, five, Prints,
}

module _ {S : Type 0} (ops : Storage S) (texts : Texts S) where
  -- The texts that are meant: an object with its members, and arrays of objects.
  abbrev pub pipe_text : Pipe → List ℕ
  pipe_text pipe = concat (
      bytes "{"
      ∷ (bytes "\"id\": \"" ++ (texts.pointer pipe.id ++ bytes "\","))
      ∷ (bytes "\"pos\": " ++ (texts.decimal pipe.pos ++ bytes ","))
      ∷ (bytes "\"len\": " ++ texts.decimal pipe.len)
      ∷ bytes "}"
      ∷ [])

  abbrev pub reader_text : Reader → List ℕ
  reader_text reader = concat (
      bytes "{"
      ∷ (bytes "\"id\": \"" ++ (texts.pointer reader.id ++ bytes "\","))
      ∷ (bytes "\"pos\": " ++ (texts.decimal reader.pos ++ bytes ","))
      ∷ (bytes "\"len\": " ++ texts.decimal reader.len)
      ∷ bytes "}"
      ∷ [])

  abbrev pub task_text : Task S → List ℕ
  task_text task =
      concat (task_members ops texts task)
      ++ (commas (map reader_text task.readers)
          ++ (concat (bytes "]," ∷ bytes "\"pipes\":[" ∷ [])
              ++ (commas (map pipe_text task.pipes) ++ concat (bytes "]" ∷ bytes "}" ∷ []))))

  module _ (capacity : ℕ) where
    fill_each-behind :
        {A : Type 0} (fill : List ℕ → A → List ℕ) (text : A → List ℕ)
        → Prints capacity fill text
        → (xs : List ℕ) (list : List A)
        → fill_each ops texts capacity fill true (cut capacity xs) list
          ≡ cut capacity (xs ++ behind text list)
    unfolding fill_each behind
    fill_each-behind fill text each xs [] = ap (cut capacity) (sym (append-nil xs))
    fill_each-behind fill text each xs (a ∷ list) =
        let c : List ℕ = bytes "," in
        ap (λ js. fill_each ops texts capacity fill true (fill js a) list) (print-cut capacity xs c)
        ∙ ap (λ js. fill_each ops texts capacity fill true js list) (each (xs ++ c) a)
        ∙ fill_each-behind fill text each ((xs ++ c) ++ text a) list
        ∙ ap (cut capacity) (
            append_assoc (xs ++ c) (text a) (behind text list)
            ∙ append_assoc xs c (text a ++ behind text list))

    fill_each-commas :
        {A : Type 0} (fill : List ℕ → A → List ℕ) (text : A → List ℕ)
        → Prints capacity fill text
        → (xs : List ℕ) (list : List A)
        → fill_each ops texts capacity fill false (cut capacity xs) list
          ≡ cut capacity (xs ++ commas (map text list))
    unfolding fill_each
    fill_each-commas fill text each xs [] = ap (cut capacity) (sym (append-nil xs))
    fill_each-commas fill text each xs (a ∷ list) =
        ap (λ js. fill_each ops texts capacity fill true js list) (each xs a)
        ∙ fill_each-behind fill text each (xs ++ text a) list
        ∙ ap (cut capacity) (
            append_assoc xs (text a) (behind text list)
            ∙ ap (λ zs. xs ++ zs) (commas-map text a list))

    fill_reader_json-Prints : Prints capacity (fill_reader_json ops texts capacity) reader_text
    unfolding fill_reader_json
    fill_reader_json-Prints xs r = print_all-cut capacity xs _

    fill_pipe_json-Prints : Prints capacity (fill_pipe_json ops texts capacity) pipe_text
    unfolding fill_pipe_json
    fill_pipe_json-Prints xs p = print_all-cut capacity xs _

    pub fill_task_json-Prints : Prints capacity (fill_task_json ops texts capacity) task_text
    unfolding fill_task_json
    fill_task_json-Prints xs task =
        let mid : List (List ℕ) = bytes "]," ∷ bytes "\"pipes\":[" ∷ [] in
        let end : List (List ℕ) = bytes "]" ∷ bytes "}" ∷ [] in
        let head : List (List ℕ) = task_members ops texts task in
        let a : List ℕ = concat head in
        let b : List ℕ = commas (map reader_text task.readers) in
        let c : List ℕ = concat mid in
        let d : List ℕ = commas (map pipe_text task.pipes) in
        ap
          (λ js.
            print_all capacity
              (fill_each ops texts capacity (fill_pipe_json ops texts capacity) false
                (print_all capacity
                  (fill_each ops texts capacity (fill_reader_json ops texts capacity) false js
                    task.readers)
                  mid)
                task.pipes)
              end)
          (print_all-cut capacity xs head)
        ∙ ap
            (λ js.
              print_all capacity
                (fill_each ops texts capacity (fill_pipe_json ops texts capacity) false
                  (print_all capacity js mid) task.pipes)
                end)
            (fill_each-commas (fill_reader_json ops texts capacity) reader_text
              fill_reader_json-Prints (xs ++ a) task.readers)
        ∙ ap
            (λ js.
              print_all capacity
                (fill_each ops texts capacity (fill_pipe_json ops texts capacity) false js
                  task.pipes)
                end)
            (print_all-cut capacity ((xs ++ a) ++ b) mid)
        ∙ ap (λ js. print_all capacity js end)
            (fill_each-commas (fill_pipe_json ops texts capacity) pipe_text fill_pipe_json-Prints
              (((xs ++ a) ++ b) ++ c) task.pipes)
        ∙ print_all-cut capacity ((((xs ++ a) ++ b) ++ c) ++ d) end
        ∙ ap (cut capacity) (five xs a b c d (concat end))
