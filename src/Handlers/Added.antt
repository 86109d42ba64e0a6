-- ===== src/Handlers/Added.antt =====
-- A request of src/ms_server_handler.c adds a preloader, and another one takes it away.
use libms.Base.{
  ℕ, ◌+◌, ◌*◌, ◌≤◌, ◌≡◌, ◌⊎◌, inl, inr, refl, ap, ◌∙◌, false, some, List, [], ◌∷◌, ◌++◌, All,
  All-mem, Any, Any-map, ◌==◌, if_cases, ◌-◌, ok, arith, dec_lt,
}
use libms.Storage.{Storage, IsStorage}
use libms.Task.{Reader, Task, reader_pos}
use libms.Task.Dispatch.{estimate, end_of, create_pipe_for}
use libms.Task.Dispatch.Readers.{aligned, dispatch_reader-IsServed}
use libms.Task.Ops.{add_reader, ms_task_open}
use libms.Queue.{with_node, find_at-cases, Apart, Any-middle, Apart-with_node}
use libms.Server.{Resource, ms_find_resource_by_id}
use libms.Preloader.{Preloader, ms_preloader_open}
use libms.TaskManager.{is_for}
use libms.TaskManager.Kept.{ms_find_or_create_task-KeptOrIdle, ms_find_or_create_task-All}
use libms.Handlers.{Lists, empty, set_task, post_task}

create_pipe_for-same :
    {S : Type 0} (t : Task S) (pos len : ℕ)
    → ((create_pipe_for t pos len).url ≡ t.url) × ((create_pipe_for t pos len).readers ≡ t.readers)
unfolding create_pipe_for
create_pipe_for-same t pos len =
    if_cases (λ t'. (t'.url ≡ t.url) × (t'.readers ≡ t.readers)) (t.code == 0) _ t
      (λ _. (refl, refl)) (λ _. (refl, refl))

module _ {S : Type 0} (ops : Storage S) (laws : IsStorage ops) where
  -- A reader at the beginning of its file is added with no fault.
  add_reader-first :
      (t : Task S) (r : Reader)
      → IsStorage.InOrder laws t.storage
      → reader_pos r ≡ 0
      → (t' : Task S) × (add_reader ops t r ≡ ok t')
        × (t'.url ≡ t.url)
        × (t'.readers ≡ t.readers ++ (r ∷ []))
  unfolding add_reader
  add_reader-first t r o first =
      let joined : Task S = record t { readers = t.readers ++ (r ∷ []) } in
      let known : (estimate ops joined ≡ 0) ⊎ (reader_pos r ≤ estimate ops joined) =
        elim (dec_lt 0 (estimate ops joined)) [
          | yes l ↦ inr (omega arith)
          | no l ↦ inl (omega arith)
        ] in
      let (len, t', _, e, or) = dispatch_reader-IsServed ops joined r laws o known in
      let (url, readers) : (t'.url ≡ t.url) × (t'.readers ≡ t.readers ++ (r ∷ [])) = elim or [
        | inl (same, _) ↦ (ap (λ u. u.url) same, ap (λ u. u.readers) same)
        | inr (same, _) ↦
            let next = reader_pos r + len in
            let (u, rs) =
              create_pipe_for-same joined (aligned next) (end_of ops joined r - aligned next) in
            (ap (λ u. u.url) same ∙ u, ap (λ u. u.readers) same ∙ rs)
      ] in
      (t', e, url, readers)

  -- The list with the task behind a pointer changed.
  set_task-Found :
      (t t' : Task S) (tasks : List (Task S))
      → t'.url ≡ t.url
      → Any (λ q. q ≡ t) tasks
      → Apart (λ q. q.url) tasks
      → Any (λ q. q ≡ t') (set_task t' tasks) × Apart (λ q. q.url) (set_task t' tasks)
  unfolding set_task
  set_task-Found t t' tasks same m apart = elim (find_at-cases (is_for t'.url) tasks) [
    | inl (_, others) ↦
        let no : is_for t'.url t ≡ false =
          All-mem (λ q. is_for t'.url q ≡ false) t tasks m others in
        absurd (ground arith)
    | inr (z, e, (whole, there, _)) ↦
        let apart' : Apart (λ q. q.url) (with_node z z.node) = rw⁻¹ whole apart in
        rw (set_task, e)
          (
            Any-middle (λ q. q ≡ t') z.before t' z.after refl,
            Apart-with_node (λ q. q.url) z.before z.node t' z.after (ground arith) apart',
          )
  ]

  -- The preloader that a POST request adds is a reader of the task of the url.
  abbrev pub Joined : ℕ → Preloader → Lists S → Type 0
  Joined url p a =
      Any (λ t. (t.url ≡ url) × ((rs : List Reader) × (t.readers ≡ rs ++ (p.reader ∷ [])))) a.tasks

  -- For storages in order and tasks with different urls: a POST request for the number of a
  -- resource ends with no fault and with 200. A preloader is added behind the others, and its
  -- reader is the last one of the task of the url of the resource, which is opened if there is
  -- none; the urls of the tasks stay different, and the resources do not change.
  pub post_task-Joined :
      (storage : S) (now : ℕ) (a : Lists S) (id : ℕ) (r : Resource)
      → ms_find_resource_by_id a.server id ≡ some r
      → Apart (λ t. t.url) a.tasks
      → All (λ t. IsStorage.InOrder laws t.storage) a.tasks
      → IsStorage.InOrder laws storage
      → (a' : Lists S) × (p : Preloader) × (post_task ops storage now a id ≡ ok (a', empty 200))
        × (a'.preloaders ≡ a.preloaders ++ (p ∷ []))
        × (p.url ≡ r.origin_url)
        × Joined r.origin_url p a'
        × Apart (λ t. t.url) a'.tasks
        × (a'.server ≡ a.server)
  unfolding post_task ms_preloader_open ms_task_open
  post_task-Joined storage now a id r found apart orders order =
      let (t, tasks, e, same, m, apart', _) =
        ms_find_or_create_task-KeptOrIdle ops storage now r.origin_url a.tasks apart in
      let orders' =
        ms_find_or_create_task-All ops (λ q. IsStorage.InOrder laws q.storage) storage now
          r.origin_url a.tasks t tasks orders order e in
      let p : Preloader = ms_preloader_open ops a.fresh t (10 * 1024 * 1024) in
      let (t', added, url, readers) =
        add_reader-first t p.reader
          (All-mem (λ q. IsStorage.InOrder laws q.storage) t tasks m orders') refl in
      let (m', apart'') = set_task-Found t t' tasks url m apart' in
      (
        record a {
          tasks = set_task t' tasks;
          preloaders = a.preloaders ++ (p ∷ []);
          fresh = a.fresh + 1;
        },
        p,
        simp (post_task, found, e, added),
        refl,
        same,
        Any-map (set_task t' tasks)
            (λ q k. (ap (λ u. u.url) k ∙ url ∙ same, (t.readers, ap (λ u. u.readers) k ∙ readers)))
            m',
        apart'',
        refl,
      )
