-- ===== src/Streams/Running.antt =====
-- What a function of a session does keeps the pointers to the tasks right.
use libms.Base.{
  ℕ, ◌+◌, ◌<◌, ◌≡◌, ◌⊎◌, inl, inr, refl, sym, ap, ◌∙◌, true, false, ◌&&◌, some, List, All, ◌==◌,
  if◌then◌else◌, arith, subst, Outcome, ok, Any-All, fault, Fault,
}
use libms.Queue.{Found, find_at, with_node, without_node, find_at-cases, All-middle}
use libms.Storage.{Storage}
use libms.Task.{Task}
use libms.TaskManager.{is_for}
use libms.Task.Ops.{remove_reader}
use libms.Handlers.{set_task}
use libms.Session.{Output, Session, reader_of}
use libms.Session.Keeps.{Holds, Holds-bind, SameOrGone}
use libms.Streams.{Stream, World, load, unload, save, task_at, run, with_reader, task_ops}
use libms.Streams.Counts.{
  count, one_if, count-set_reader, HasReaders, HasReaders-IsKept, remove_reader-HasReaders,
}
use libms.Streams.Linked.{held, IsBalanced, AreLinked, IsLinked, HasTask}
use libms.Streams.Changing.{held-middle, stay-AreLinked, go-AreLinked}

module _ {S : Type 0} where
  -- A task behind a pointer changes.
  pub set_task-found :
      (tasks : List (Task S)) (z : Found (Task S)) (t : Task S)
      → find_at (is_for z.node.url) tasks ≡ some z
      → t.url ≡ z.node.url
      → set_task t tasks ≡ with_node z t
  unfolding set_task
  set_task-found tasks z t e same =
      let found : find_at (is_for t.url) tasks ≡ some z =
        ap (λ u. find_at (is_for u) tasks) same ∙ e in
      rw (set_task, found) refl

  -- The task of a session in the list.
  abbrev pub Behind : List (Task S) → ℕ → Found (Task S) → Type 0
  Behind tasks url z =
      (tasks ≡ with_node z z.node) × (z.node.url ≡ url) × (find_at (is_for url) tasks ≡ some z)

  pub task_at-cases :
      (url : ℕ) (tasks : List (Task S))
      → ((task_at url tasks ≡ fault Fault.null_pointer) × ¬ HasTask url tasks)
        ⊎ ((z : Found (Task S)) × (task_at url tasks ≡ ok z.node) × Behind tasks url z)
  unfolding task_at
  task_at-cases url tasks = elim (find_at-cases (is_for url) tasks) [
    | inl (e, others) ↦
        inl (
          rw (task_at, e) refl,
          λ m. let (t, a, b) = Any-All tasks m others in absurd (ground arith),
        )
    | inr (z, e, (whole, test, _)) ↦ inr (z, rw (task_at, e) refl, (whole, ground arith, e))
  ]

  -- The session that was run is saved, with its task.
  save-stay :
      (w : World S) (z : Found Stream) (zt : Found (Task S)) (st : Session (Task S))
      → IsLinked w
      → w.sessions ≡ with_node z z.node
      → Behind w.lists.tasks z.node.url zt
      → st.closed ≡ false
      → st.id ≡ z.node.id
      → HasReaders zt.node.url (λ id. count id zt.node.readers) st.task
      → IsLinked (save z st w)
  unfolding save
  save-stay w z zt st linked list (whole, url, e) live same (u, c) =
      let t : Task S = with_reader (reader_of st) st.task in
      let put : set_task t w.lists.tasks ≡ with_node zt t =
        set_task-found w.lists.tasks zt t (ap (λ k. find_at (is_for k) w.lists.tasks) url ∙ e) u in
      let before = subst (λ ts. AreLinked ts w.sessions w.lists.preloaders) whole linked in
      let before' =
        subst (λ ss. AreLinked (with_node zt zt.node) ss w.lists.preloaders) list before in
      let s' : Stream = unload z.node.nc z.node.url st in
      let after =
        stay-AreLinked zt.before zt.node t zt.after z.before z.node s' z.after w.lists.preloaders
          before' (same, refl, refl) u
          (λ id. count-set_reader id (reader_of st) st.task.readers ∙ c id) in
      subst
        (λ ts.
          AreLinked ts (if st.closed then without_node z else with_node z s') w.lists.preloaders)
        (sym put)
        (subst
          (λ b.
            AreLinked (with_node zt t) (if b then without_node z else with_node z s')
              w.lists.preloaders)
          (sym live) after)

  save-go :
      (w : World S) (z : Found Stream) (zt : Found (Task S)) (st : Session (Task S))
      → IsLinked w
      → w.sessions ≡ with_node z z.node
      → Behind w.lists.tasks z.node.url zt
      → st.closed ≡ true
      → st.task.url ≡ zt.node.url
      → ((id : ℕ) → count id st.task.readers + one_if (z.node.id == id) ≡ count id zt.node.readers)
      → IsLinked (save z st w)
  unfolding save
  save-go w z zt st linked list (whole, url, e) gone u c =
      let t : Task S = with_reader (reader_of st) st.task in
      let put : set_task t w.lists.tasks ≡ with_node zt t =
        set_task-found w.lists.tasks zt t (ap (λ k. find_at (is_for k) w.lists.tasks) url ∙ e) u in
      let before = subst (λ ts. AreLinked ts w.sessions w.lists.preloaders) whole linked in
      let before' =
        subst (λ ss. AreLinked (with_node zt zt.node) ss w.lists.preloaders) list before in
      let s' : Stream = unload z.node.nc z.node.url st in
      let after =
        go-AreLinked zt.before zt.node t zt.after z.before z.node z.after w.lists.preloaders before'
          (sym url) u
          (λ id.
            ap (λ k. k + one_if (z.node.id == id))
              (count-set_reader id (reader_of st) st.task.readers)
            ∙ c id) in
      subst
        (λ ts.
          AreLinked ts (if st.closed then without_node z else with_node z s') w.lists.preloaders)
        (sym put)
        (subst
          (λ b.
            AreLinked (with_node zt t) (if b then without_node z else with_node z s')
              w.lists.preloaders)
          (sym gone) after)

  -- A session in the list is one of the readers of its task.
  pub is_reader :
      (w : World S) (z : Found Stream) (zt : Found (Task S))
      → IsLinked w
      → w.sessions ≡ with_node z z.node
      → Behind w.lists.tasks z.node.url zt
      → 0 < count z.node.id zt.node.readers
  is_reader w z zt (_, _, balanced, _, _) list (whole, url, _) =
      let all = subst (All (IsBalanced w.sessions w.lists.preloaders)) whole balanced in
      let (_, b, _) =
        All-middle (IsBalanced w.sessions w.lists.preloaders) zt.before zt.node zt.after all in
      omega (
        arith,
        b z.node.id,
        ap (held z.node.id zt.node.url) list,
        held-middle z.node.id zt.node.url z.before z.node z.after,
        own z.node zt.node.url (sym url),
      )
    where
      own : (s : Stream) (u : ℕ) → s.url ≡ u → one_if (s.id == s.id && s.url == u) ≡ 1
      own s u e = ground arith

module _ {S : Type 0} (ops : Storage S) (buf : ℕ → ℕ) (now limit : ℕ) (size_of : Output → ℕ) where
  -- A function of a session keeps the session and the readers of its task, or the session goes.
  abbrev pub Keeping : (Session (Task S) → Outcome (Session (Task S))) → Type 0
  Keeping f =
      (url : ℕ) (readers : ℕ → ℕ) (st : Session (Task S))
      → HasReaders url readers st.task
      → Holds
          (SameOrGone (task_ops ops buf now) (HasReaders url readers)
            (HasReaders-IsKept ops buf now url readers) limit size_of st)
          (f st)

  pub run-IsLinked :
      (f : Session (Task S) → Outcome (Session (Task S))) (w : World S) (z : Found Stream)
      → Keeping f
      → IsLinked w
      → w.sessions ≡ with_node z z.node
      → Holds IsLinked (run f w z)
  unfolding run task_ops
  run-IsLinked f w z keeps linked list = elim (task_at-cases z.node.url w.lists.tasks) [
    | inl (e, _) ↦ rw (run, e) tt
    | inr (zt, e, at) ↦
        let readers : ℕ → ℕ = λ id. count id zt.node.readers in
        let st : Session (Task S) = load z.node (w.connections z.node.nc) zt.node in
        rw (run, e)
          (Holds-bind
            (SameOrGone (task_ops ops buf now) (HasReaders zt.node.url readers)
              (HasReaders-IsKept ops buf now zt.node.url readers) limit size_of st)
            IsLinked (f st) _ (keeps zt.node.url readers st (refl, λ id. refl))
            (λ st' or. elim or [
              | inl (q, i, c) ↦ save-stay w z zt st' linked list at c i q
              | inr (c, (t, r, (u, q), i, task)) ↦
                  let there = is_reader w z zt linked list at in
                  let l : 0 < count r.id t.readers =
                    subst (λ k. 0 < count k t.readers) (sym i)
                      (subst (λ n. 0 < n) (sym (q z.node.id)) there) in
                  let (u', left) = remove_reader-HasReaders ops now t r l in
                  save-go w z zt st' linked list at c (ap (λ k. k.url) task ∙ u' ∙ u) (λ id.
                    ap (λ k. count id k.readers + one_if (z.node.id == id)) task
                    ∙ ap (λ k. count id (remove_reader ops now t r).readers + one_if (k == id))
                        (sym i)
                    ∙ left id
                    ∙ q id)
            ]))
  ]
