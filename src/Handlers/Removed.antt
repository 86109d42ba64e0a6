-- ===== src/Handlers/Removed.antt =====
-- A request of src/ms_server_handler.c takes away what another one added.
use libms.Base.{ℕ, ◌≡◌, ◌⊎◌, inl, inr, refl, ap, ◌∙◌, false, some, List, [], ◌∷◌, All, ok, arith}
use mathlib.Core.List.{append-nil}
use libms.Storage.{Storage, IsStorage}
use libms.Queue.{Found, find_at, without_node, find_at-with_node, Apart}
use libms.Server.{Resource, ms_find_resource_by_id}
use libms.Preloader.{Preloader, is_on}
use libms.Handlers.{Lists, Response, empty, unread, delete_task, delete_preloader, task_handler}
use libms.Handlers.Added.{post_task-Joined}

pub List-cases :
    {A : Type 0} (xs : List A) → (xs ≡ []) ⊎ ((x : A) × (rest : List A) × (xs ≡ x ∷ rest))
List-cases [] = inl refl
List-cases (x ∷ rest) = inr (x, rest, refl)

module _ {S : Type 0} (ops : Storage S) (now : ℕ) where
  delete_preloader-found :
      (a : Lists S) (r : Resource) (z : Found Preloader)
      → find_at (is_on r.origin_url) a.preloaders ≡ some z
      → ◌≡◌ {A = Lists S × Response} (delete_preloader ops now a r) (
        record a { tasks = unread ops now z.node a.tasks; preloaders = without_node z },
        empty 200,
      )
  unfolding delete_preloader
  delete_preloader-found a r z there = rw (delete_preloader, there) refl

  delete_task-first :
      (a : Lists S) (id : ℕ) (r : Resource) (p : Preloader) (rest : List Preloader)
      → ms_find_resource_by_id a.server id ≡ some r
      → a.preloaders ≡ p ∷ rest
      → delete_task ops now a id ≡ ok (delete_preloader ops now a r)
  unfolding delete_task
  delete_task-first a id r p rest found e = simp (delete_task, e, found)

  delete_task-found :
      (a : Lists S) (id : ℕ) (r : Resource) (z : Found Preloader)
      → ms_find_resource_by_id a.server id ≡ some r
      → find_at (is_on r.origin_url) a.preloaders ≡ some z
      → delete_task ops now a id
        ≡ ok (
          record a { tasks = unread ops now z.node a.tasks; preloaders = without_node z },
          empty 200,
        )
  unfolding find_at
  delete_task-found a id r z found there = elim (List-cases a.preloaders) [
    | inl e ↦ absurd (cc)
    | inr (p, rest, e) ↦
        delete_task-first a id r p rest found e ∙ ap ok (delete_preloader-found a r z there)
  ]

module _ {S : Type 0} (ops : Storage S) (laws : IsStorage ops) where
  -- For storages in order and tasks with different urls: where no preloader is for the url of a
  -- resource, a POST request for its number and a DELETE request after it both end with 200, and
  -- leave the preloaders and the resources as they were.
  pub task_handler-Removed :
      (storage : S) (now later : ℕ) (a : Lists S) (id other : ℕ) (r : Resource)
      → ms_find_resource_by_id a.server id ≡ some r
      → Apart (λ t. t.url) a.tasks
      → All (λ t. IsStorage.InOrder laws t.storage) a.tasks
      → IsStorage.InOrder laws storage
      → All (λ p. is_on r.origin_url p ≡ false) a.preloaders
      → (a' : Lists S) × (a'' : Lists S) × (task_handler ops storage now a "POST" id other
          ≡ ok (a', empty 200))
        × (task_handler ops storage later a' "DELETE" other id ≡ ok (a'', empty 200))
        × (a''.preloaders ≡ a.preloaders)
        × (a''.server ≡ a.server)
  unfolding task_handler
  task_handler-Removed storage now later a id other r found apart orders order none_there =
      let (a', p, posted, list, same, _, _, server) =
        post_task-Joined ops laws storage now a id r found apart orders order in
      let z : Found Preloader = record { before = a.preloaders; node = p; after = [] } in
      let there : find_at (is_on r.origin_url) a'.preloaders ≡ some z =
        ap (find_at (is_on r.origin_url)) list
        ∙ find_at-with_node (is_on r.origin_url) a.preloaders p [] none_there (ground arith) in
      let found' : ms_find_resource_by_id a'.server id ≡ some r =
        ap (λ s. ms_find_resource_by_id s id) server ∙ found in
      (
        a',
        record a' { tasks = unread ops later p a'.tasks; preloaders = without_node z },
        posted,
        delete_task-found ops later a' id r z found' there,
        append-nil a.preloaders,
        server,
      )
