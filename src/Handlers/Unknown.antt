-- ===== src/Handlers/Unknown.antt =====
-- Which requests of src/ms_server_handler.c end the server: those that name no resource.
use libms.Base.{
  ℕ, ◌≡◌, ◌≢◌, ◌⊎◌, inl, inr, refl, ap, ◌∙◌, false, none, some, List, [], ◌∷◌, All, All-map, Any,
  ok, fault, Fault, arith,
}
use libms.Storage.{Storage, IsStorage}
use libms.Queue.{find_at-cases, without_node, Apart, Any-middle}
use libms.Server.{
  Resource, Server, Status, idle, starting, running, is_running, has_id, ms_find_resource_by_id,
}
use libms.Preloader.{Preloader, is_on}
use libms.Handlers.{Lists, empty, post_task, unread, delete_preloader, delete_task, task_handler}
use libms.Handlers.Added.{post_task-Joined}

-- A listed resource of a running server has the number, or there is none.
abbrev pub Knows : Server → ℕ → Resource → Type 0
Knows s id r = (s.status ≡ running) × Any (λ q. q ≡ r) s.resources × (r.id ≡ id)

abbrev pub IsUnknown : Server → ℕ → Type 0
IsUnknown s id = (s.status ≢ running) ⊎ All (λ r. r.id ≢ id) s.resources

is_running-cases : (s : Status) → (s ≡ running) ⊎ ((s ≢ running) × (is_running s ≡ false))
is_running-cases running = inl refl
is_running-cases idle = inr ((λ e. cc), refl)
is_running-cases starting = inr ((λ e. cc), refl)

ms_find_resource_by_id-cases :
    (s : Server) (id : ℕ)
    → ((r : Resource) × (ms_find_resource_by_id s id ≡ some r) × Knows s id r)
      ⊎ ((ms_find_resource_by_id s id ≡ none) × IsUnknown s id)
unfolding ms_find_resource_by_id
ms_find_resource_by_id-cases s id = elim (is_running-cases s.status) [
  | inr (off, e) ↦ inr (rw (ms_find_resource_by_id, e) refl, inl off)
  | inl on ↦ elim (find_at-cases (has_id id) s.resources) [
    | inl (e, others) ↦ inr (
      rw (ms_find_resource_by_id, on, e) refl,
      inr (All-map s.resources (λ r h. λ k. ground arith) others),
    )
    | inr (z, e, (whole, test, _)) ↦ inl (
      z.node,
      rw (ms_find_resource_by_id, on, e) refl,
      (on, rw whole (Any-middle (λ q. q ≡ z.node) z.before z.node z.after refl), ground arith),
    )
  ]
]

List-cases : {A : Type 0} (xs : List A) → (xs ≡ []) ⊎ ((x : A) × (rest : List A) × (xs ≡ x ∷ rest))
List-cases [] = inl refl
List-cases (x ∷ rest) = inr (x, rest, refl)

module _ {S : Type 0} (ops : Storage S) (storage : S) (now : ℕ) (a : Lists S) (id other : ℕ) where
  -- How a POST request for the number ends.
  abbrev pub Posted : Type 0
  Posted =
      ((r : Resource) × (a' : Lists S) × Knows a.server id r
        × (task_handler ops storage now a "POST" id other ≡ ok (a', empty 200)))
      ⊎ (IsUnknown a.server id
          × (task_handler ops storage now a "POST" id other ≡ fault Fault.null_pointer))

  -- Where the resource is known: whether it has a preloader.
  abbrev pub DeletedOf : Resource → Type 0
  DeletedOf r =
      (Any (λ p. p.url ≡ r.origin_url) a.preloaders
        × ((a' : Lists S) × (task_handler ops storage now a "DELETE" other id
              ≡ ok (a', empty 200))))
      ⊎ (All (λ p. p.url ≢ r.origin_url) a.preloaders
          × (task_handler ops storage now a "DELETE" other id ≡ ok (a, empty 404)))

  -- How a DELETE request for the number ends.
  abbrev pub Deleted : Type 0
  Deleted =
      ((a.preloaders ≡ []) × (task_handler ops storage now a "DELETE" other id ≡ ok (a, empty 404)))
      ⊎ (((r : Resource) × Knows a.server id r × DeletedOf r)
          ⊎ ((a.preloaders ≢ [])
              × IsUnknown a.server id
              × (task_handler ops storage now a "DELETE" other id ≡ fault Fault.null_pointer)))

  delete-Known :
      (p : Preloader) (rest : List Preloader) (r : Resource)
      → a.preloaders ≡ p ∷ rest
      → ms_find_resource_by_id a.server id ≡ some r
      → DeletedOf r
  unfolding task_handler delete_task delete_preloader
  delete-Known p rest r some_left found =
      let whole : task_handler ops storage now a "DELETE" other id
          ≡ ok (delete_preloader ops now a r) =
        simp (delete_task, some_left, found) in
      elim (find_at-cases (is_on r.origin_url) a.preloaders) [
        | inl (e, others) ↦ inr (
          All-map a.preloaders (λ q h. λ k. ground arith) others,
          whole ∙ ap ok (rw (delete_preloader, e) refl),
        )
        | inr (z, e, (parts, test, _)) ↦ inl (
          rw parts (Any-middle (λ q. q.url ≡ r.origin_url) z.before z.node z.after (ground arith)),
          (
            record a { tasks = unread ops now z.node a.tasks; preloaders = without_node z },
            whole ∙ ap ok (rw (delete_preloader, e) refl),
          ),
        )
      ]

  delete-Deleted : Deleted
  unfolding task_handler delete_task
  delete-Deleted = elim (List-cases a.preloaders) [
    | inl e ↦ inl (e, simp (delete_task, e))
    | inr (p, rest, e) ↦ elim (ms_find_resource_by_id-cases a.server id) [
      | inl (r, found, known) ↦ inr (inl (r, known, delete-Known p rest r e found))
      | inr (none_there, unknown) ↦
          inr (inr ((λ k. cc), unknown, simp (delete_task, e, none_there)))
    ]
  ]

  -- For storages in order and tasks with different urls: a POST request ends with no fault and
  -- with 200 if the server is running and a resource has the number, and else follows a null
  -- pointer. A DELETE request ends with 404 if there is no preloader at all; else, if the server
  -- is running and a resource has the number, it ends with no fault, with 200 if some preloader
  -- is for the url of that resource, and with 404 and nothing changed if none is; else it
  -- follows a null pointer.
  pub task_handler-Answers :
      (laws : IsStorage ops)
      → Apart (λ t. t.url) a.tasks
      → All (λ t. IsStorage.InOrder laws t.storage) a.tasks
      → IsStorage.InOrder laws storage
      → Posted × Deleted
  unfolding task_handler post_task
  task_handler-Answers laws apart orders order = (
    elim (ms_find_resource_by_id-cases a.server id) [
      | inl (r, found, known) ↦
          let (a', _, e, _, _, _, _, _) =
            post_task-Joined ops laws storage now a id r found apart orders order in
          inl (r, a', known, e)
      | inr (none_there, unknown) ↦ inr (unknown, rw none_there refl)
    ],
    delete-Deleted,
  )
