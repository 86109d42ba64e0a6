-- ===== src/Handlers/Tests.antt =====
-- The lists of a server with two tasks, and the theorems at concrete inputs.
use libms.Base.{ℕ, List, ◌-◌, take, ◌≡◌, refl, some, [], ◌∷◌, ◌++◌, ok, arith}
use libms.Storage.{IsStorage}
use libms.MemStorage.{MemStorage}
use libms.MemStorage.Interface.{mem_storage-IsStorage, mem_storage-InOrder}
use libms.MemStorage.Tests.{zeros, small, small-IsValid}
use libms.TaskManager.Tests.{ops, tasks, tasks-Apart}
use libms.Queue.{Apart, find_at}
use libms.Server.{Resource, Status, ms_find_resource_by_id}
use libms.Preloader.{Preloader}
use libms.Handlers.{Lists, empty, post_task, task_handler}
use libms.Handlers.Unknown.{Posted, Deleted, task_handler-Answers}
use libms.Handlers.Added.{Joined, post_task-Joined}
use libms.Handlers.Removed.{task_handler-Removed}
use libms.Handlers.Json.{Texts, bytes, is_asked_for, task_list_response}
use libms.Handlers.Json.Whole.{selected, list_text, task_list_response-list_text}
use libms.Handlers.Json.Asked.{task_list_response-asked}

-- The server has a resource of number 9 for url 7.
abbrev film : Resource
film = record { id = 9; ref = 1; origin_url = 7 }

abbrev before : Lists MemStorage
before = record {
  server = record { status = Status.running; port = 80; base_url_id = 9; resources = film ∷ [] };
  tasks = tasks;
  preloaders = record { reader = record { id = 0; pos = 0; len = 9; sending = 0 }; url = 4 } ∷ [];
  fresh = 1;
}

film-found : ms_find_resource_by_id before.server 9 ≡ some film
unfolding ms_find_resource_by_id find_at
film-found = refl

small-InOrder : IsStorage.InOrder (mem_storage-IsStorage zeros) small
small-InOrder = mem_storage-InOrder zeros small small-IsValid (omega arith)

task_handler-Answers_example : Posted ops small 30 before 3 0 × Deleted ops small 30 before 3 0
task_handler-Answers_example =
    task_handler-Answers ops small 30 before 3 0 (mem_storage-IsStorage zeros) tasks-Apart
      (small-InOrder, (small-InOrder, (small-InOrder, tt))) small-InOrder

post_task-Joined_example :
    (a' : Lists MemStorage) × (p : Preloader) × (post_task ops small 30 before 9
      ≡ ok (a', empty 200))
    × (a'.preloaders ≡ before.preloaders ++ (p ∷ []))
    × (p.url ≡ 7)
    × Joined ops (mem_storage-IsStorage zeros) 7 p a'
    × Apart (λ t. t.url) a'.tasks
    × (a'.server ≡ before.server)
post_task-Joined_example =
    post_task-Joined ops (mem_storage-IsStorage zeros) small 30 before 9 film film-found tasks-Apart
      (small-InOrder, (small-InOrder, (small-InOrder, tt))) small-InOrder

task_handler-Removed_example :
    (a' : Lists MemStorage) × (a'' : Lists MemStorage) × (task_handler ops small 30 before "POST" 9
        0
      ≡ ok (a', empty 200))
    × (task_handler ops small 40 a' "DELETE" 0 9 ≡ ok (a'', empty 200))
    × (a''.preloaders ≡ before.preloaders)
    × (a''.server ≡ before.server)
task_handler-Removed_example =
    task_handler-Removed ops (mem_storage-IsStorage zeros) small 30 40 before 9 0 film film-found
      tasks-Apart (small-InOrder, (small-InOrder, (small-InOrder, tt))) small-InOrder (refl, tt)

abbrev title : ℕ → List ℕ
title n = n ∷ []

abbrev texts : Texts MemStorage
texts = record {
  decimal = title;
  pointer = title;
  address = λ u. u;
  url_text = title;
  bitmap = λ s. [];
}

task_list_response-list_text_example :
    task_list_response ops texts 1048576 8192 [] tasks
    ≡ take (1048576 - 1) (list_text ops texts (selected (is_asked_for 8192 []) title tasks))
task_list_response-list_text_example = task_list_response-list_text ops texts 1048576 8192 [] tasks

-- The second task is the one that is asked for.
task_list_response-asked_example :
    task_list_response ops texts 1048576 8192 (title 5) tasks
    ≡ take (1048576 - 1) (bytes "[" ++ bytes "]")
task_list_response-asked_example =
    task_list_response-asked ops texts 1048576 8192 (title 5) tasks (omega arith)
      (omega arith, (omega arith, (omega arith, tt)))
