-- ===== src/Streams/Requested.antt =====
-- The requests of the interface for tasks, of src/ms_server_handler.c, among the sessions.
use text.Mathlib.Text.{◌==◌ as ◌=?◌}
use libms.Base.{
  ℕ, ◌+◌, ◌*◌, ◌<◌, ◌≡◌, ◌≢◌, inl, inr, sym, ap, ◌∙◌, ◌&&◌, List, [], ◌∷◌, ◌++◌, Any-All, ◌==◌,
  if_cases, arith, subst, Outcome,
}
use Prim.Native.String.{String}
use libms.Queue.{Found, find_at, with_node, without_node, find_at-cases, All-middle}
use libms.Storage.{Storage}
use libms.Task.{Reader, Task}
use libms.Task.Ops.{add_reader, remove_reader}
use libms.TaskManager.{is_for}
use libms.Server.{Resource, has_prefix, ms_find_resource_by_id}
use libms.Preloader.{Preloader, is_on, ms_preloader_open}
use libms.Handlers.{
  Lists, Response, deref, post_task, unread, delete_preloader, delete_task, task_handler,
  ms_api_handler, api_tasks, is_equal, minus_one,
}
use libms.Handlers.Removed.{List-cases}
use libms.Session.Keeps.{Holds, Holds-bind, Holds-any}
use libms.Streams.{Stream}
use libms.Streams.Counts.{
  count, count-append, one_if, add_reader-HasReaders, remove_reader-HasReaders,
}
use libms.Streams.Linked.{
  preloading, preloading-append, IsBalanced, AreLinked, HasTask, replace-AreLinked,
}
use libms.Streams.Running.{set_task-found}
use libms.Streams.Changing.{All-cut}
use libms.Streams.Joining.{ms_find_or_create_task-AreLinked, preload-AreLinked}

preloading-middle :
    (id url : ℕ) (before : List Preloader) (p : Preloader) (after : List Preloader)
    → preloading id url (before ++ (p ∷ after))
      ≡ one_if (p.reader.id == id && p.url == url) + preloading id url (before ++ after)
unfolding preloading
preloading-middle id url before p after =
    omega
      (arith, preloading-append id url before (p ∷ after), preloading-append id url before after)

other_url :
    (p : Preloader) (id url : ℕ) → url ≢ p.url → one_if (p.reader.id == id && p.url == url) ≡ 0
other_url p id url n = ground arith

own_url :
    (p : Preloader) (id url : ℕ)
    → p.url ≡ url
    → one_if (p.reader.id == id && p.url == url) ≡ one_if (p.reader.id == id)
own_url p id url e = ground arith

own_once : (id : ℕ) → one_if (id == id) ≡ 1
own_once id = ground arith

count-once :
    (k id : ℕ) (rs : List Reader) (r : Reader)
    → count k (rs ++ (r ∷ [])) ≡ count k rs + one_if (r.id == k)
unfolding count
count-once k id rs r = omega (arith, count-append k rs (r ∷ []))

module _ {S : Type 0} (ops : Storage S) (ss : List Stream) where
  -- The lists fit the sessions.
  abbrev pub Fit : Lists S → Type 0
  Fit a = AreLinked a.tasks ss a.preloaders

  post_task-Fit :
      (storage : S) (now : ℕ) (a : Lists S) (id : ℕ)
      → Fit a
      → Holds (λ (z : Lists S × Response). Fit z.0) (post_task ops storage now a id)
  unfolding post_task ms_preloader_open
  post_task-Fit storage now a id linked =
      let goal : Lists S × Response → Type 0 = λ z. Fit z.0 in
      Holds-bind (λ (_ : Resource). Unit) goal (deref (ms_find_resource_by_id a.server id)) _
        (Holds-any (deref (ms_find_resource_by_id a.server id)))
        (λ resource _.
          let (z, tasks, e, linked', at) =
            ms_find_or_create_task-AreLinked ops storage now resource.origin_url a.tasks ss
              a.preloaders linked in
          let p : Preloader = ms_preloader_open ops a.fresh z.node (10 * 1024 * 1024) in
          rw e (
            Holds-bind
              (λ (t : Task S).
                (t.url ≡ z.node.url) × (t.readers ≡ z.node.readers ++ (p.reader ∷ [])))
              goal (add_reader ops z.node p.reader) _ (add_reader-HasReaders ops z.node p.reader)
              (λ t (u, rs).
                let (whole, same, there) = at in
                let put =
                  set_task-found tasks z t (ap (λ k. find_at (is_for k) tasks) same ∙ there) u in
                subst (λ ts. AreLinked ts ss (a.preloaders ++ (p ∷ []))) (sym put)
                  (preload-AreLinked tasks resource.origin_url z t ss a.preloaders p linked' at same
                    (u, λ k. ap (count k) rs ∙ count-once k 0 z.node.readers p.reader)))))

  -- A preloader leaves its task and the list.
  unread-AreLinked :
      (now : ℕ) (tasks : List (Task S)) (z : Found Preloader) (ps : List Preloader)
      → AreLinked tasks ss ps
      → ps ≡ with_node z z.node
      → AreLinked (unread ops now z.node tasks) ss (without_node z)
  unfolding unread
  unread-AreLinked now tasks z ps linked list =
      let (urls, players, balanced, homed, homed') =
        subst (λ qs. AreLinked tasks ss qs) list linked in
      let (_, m, _) = All-middle (λ p. HasTask p.url tasks) z.before z.node z.after homed' in
      elim (find_at-cases (is_for z.node.url) tasks) [
        | inl (_, others) ↦ let (t, a, b) = Any-All tasks m others in absurd (ground arith)
        | inr (zt, e, (whole, test, _)) ↦
            let same : z.node.url ≡ zt.node.url = ground arith in
            let ps' : List Preloader = with_node z z.node in
            let linked' : AreLinked (with_node zt zt.node) ss ps' =
              subst (λ ts. AreLinked ts ss ps') whole (urls, players, balanced, homed, homed') in
            let (urls', _, balanced', homes, homes') = linked' in
            let (_, b, _) = All-middle (IsBalanced ss ps') zt.before zt.node zt.after balanced' in
            let t : Task S = zt.node in
            let r : Reader = z.node.reader in
            let there : 0 < count r.id t.readers = omega (
              arith,
              b r.id,
              preloading-middle r.id t.url z.before z.node z.after,
              own_url z.node r.id t.url same,
              own_once r.id,
            ) in
            let (u, left) = remove_reader-HasReaders ops now t r there in
            rw (unread, e)
              (replace-AreLinked zt.before t (remove_reader ops now t r) zt.after ss ss ps'
                (without_node z) linked' u players
                (λ id url n. omega (
                  arith,
                  preloading-middle id url z.before z.node z.after,
                  other_url z.node id url (λ k. n (k ∙ same)),
                ))
                (λ id. omega (
                  arith,
                  left id,
                  b id,
                  preloading-middle id t.url z.before z.node z.after,
                  own_url z.node id t.url same,
                ))
                homes
                (All-cut (λ p. HasTask p.url (with_node zt t)) z.before z.node z.after homes'))
      ]

  delete_preloader-Fit :
      (now : ℕ) (a : Lists S) (r : Resource) → Fit a → Fit (delete_preloader ops now a r).0
  unfolding delete_preloader
  delete_preloader-Fit now a r linked = elim (find_at-cases (is_on r.origin_url) a.preloaders) [
    | inl (e, _) ↦ rw (delete_preloader, e) linked
    | inr (z, e, (list, _, _)) ↦
        rw (delete_preloader, e) (unread-AreLinked now a.tasks z a.preloaders linked list)
  ]

  delete_task-Fit :
      (now : ℕ) (a : Lists S) (id : ℕ)
      → Fit a
      → Holds (λ (z : Lists S × Response). Fit z.0) (delete_task ops now a id)
  unfolding delete_task
  delete_task-Fit now a id linked = elim (List-cases a.preloaders) [
    | inl e ↦ rw (delete_task, e) linked
    | inr (p, rest, e) ↦
        rw (delete_task, e)
          (Holds-bind (λ (_ : Resource). Unit) (λ (z : Lists S × Response). Fit z.0)
            (deref (ms_find_resource_by_id a.server id)) _
            (Holds-any (deref (ms_find_resource_by_id a.server id)))
            (λ resource _. delete_preloader-Fit now a resource linked))
  ]

  task_handler-Fit :
      (storage : S) (now : ℕ) (a : Lists S) (method : String) (body_id resource_id : ℕ)
      → Fit a
      → Holds
          (λ (z : Lists S × Response). Fit z.0)
          (task_handler ops storage now a method body_id resource_id)
  unfolding task_handler
  task_handler-Fit storage now a method body_id resource_id linked =
      let P : Outcome (Lists S × Response) → Type 0 = Holds (λ z. Fit z.0) in
      if_cases P (method =? "GET") _ _ (λ _. linked)
        (λ _.
          if_cases P (method =? "POST") _ _ (λ _. post_task-Fit storage now a body_id linked)
            (λ _.
              if_cases P (method =? "DELETE") _ _ (λ _. delete_task-Fit now a resource_id linked)
                (λ _. linked)))

  pub ms_api_handler-Fit :
      (atoi : List ℕ → ℕ) (storage : S) (now : ℕ) (a : Lists S) (uri : List ℕ) (method : String)
      (body_id : ℕ)
      → Fit a
      → Holds
          (λ (z : Lists S × Response). Fit z.0)
          (ms_api_handler ops atoi storage now a uri method body_id)
  unfolding ms_api_handler
  ms_api_handler-Fit atoi storage now a uri method body_id linked =
      let P : Outcome (Lists S × Response) → Type 0 = Holds (λ z. Fit z.0) in
      if_cases P (has_prefix uri api_tasks) _ _
        (λ _. task_handler-Fit storage now a method body_id _ linked)
        (λ _.
          if_cases P (is_equal uri api_tasks) _ _
            (λ _. task_handler-Fit storage now a method body_id minus_one linked) (λ _. linked))
