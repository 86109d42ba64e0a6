-- ===== src/TaskManager/Kept.antt =====
-- The tasks of src/ms_task_manager.c: which of them are closed.
use libms.Base.{
  ℕ, ◌+◌, ◌<◌, ◌≡◌, ◌≢◌, ◌⊎◌, inl, inr, refl, sym, ◌∙◌, true, List, [], ◌∷◌, ◌++◌, All, All-map,
  Any, if◌then◌else◌, if_cases, Bool-cases, Outcome, ok, subst, arith,
}
use libms.Storage.{Storage}
use libms.Task.{Task}
use libms.Task.Ops.{is_empty, ms_task_open, task_close, close_pipes}
use libms.Queue.{find_at-cases, All-join, Any-append, Any-last, Any-middle, Apart, Apart-snoc}
use libms.TaskManager.{
  is_needless, remove_if_need, ms_remove_task_if_need, is_for, ms_find_or_create_task,
}

empty_or_not : {A : Type 0} (xs : List A) → is_empty xs ≡ true → xs ≡ []
empty_or_not [] _ = refl
empty_or_not (x ∷ xs) e = absurd (cc)

module _ {S : Type 0} (ops : Storage S) where
  -- The assertion of `task_close` holds for a task that is closed.
  task_close-idle :
      (now ts : ℕ) (t : Task S)
      → is_needless now ts t ≡ true
      → (t' : Task S) × (task_close ops t ≡ ok t')
  unfolding is_needless task_close
  task_close-idle now ts t e =
      let idle : is_empty t.readers ≡ true = ground arith in (close_pipes t t.pipes, rw idle refl)

  -- The tasks that are not closed.
  abbrev pub kept : ℕ → ℕ → List (Task S) → List (Task S)
  kept now ts [] = []
  kept now ts (t ∷ tasks) =
      if is_needless now ts t then kept now ts tasks else t ∷ kept now ts tasks

  pub ms_remove_task_if_need-kept :
      (now ts : ℕ) (tasks : List (Task S))
      → ms_remove_task_if_need ops now ts tasks ≡ ok (kept now ts tasks)
  unfolding ms_remove_task_if_need remove_if_need
  ms_remove_task_if_need-kept now ts [] = refl
  ms_remove_task_if_need-kept now ts (t ∷ tasks) = elim (Bool-cases (is_needless now ts t)) [
    | inr e ↦ rw (e, ms_remove_task_if_need-kept now ts tasks) refl
    | inl e ↦
        let (t', c) = task_close-idle now ts t e in
        rw (e, c, ms_remove_task_if_need-kept now ts tasks) refl
  ]

  pub kept-All :
      (P : Task S → Type 0) (now ts : ℕ) (tasks : List (Task S))
      → All P tasks
      → All P (kept now ts tasks)
  kept-All P now ts [] _ = tt
  kept-All P now ts (t ∷ tasks) (h, hs) = elim (Bool-cases (is_needless now ts t)) [
    | inl e ↦ rw e (kept-All P now ts tasks hs)
    | inr e ↦ rw e (h, kept-All P now ts tasks hs)
  ]

  pub kept-Apart :
      (now ts : ℕ) (tasks : List (Task S))
      → Apart (λ t. t.url) tasks
      → Apart (λ t. t.url) (kept now ts tasks)
  kept-Apart now ts [] _ = tt
  kept-Apart now ts (t ∷ tasks) (h, hs) = elim (Bool-cases (is_needless now ts t)) [
    | inl e ↦ rw e (kept-Apart now ts tasks hs)
    | inr e ↦ rw e (kept-All (λ q. q.url ≢ t.url) now ts tasks h, kept-Apart now ts tasks hs)
  ]

  -- It is left, or had no reader for five seconds.
  abbrev pub KeptOrIdle : ℕ → List (Task S) → Task S → Type 0
  KeptOrIdle now tasks t = Any (λ q. q ≡ t) tasks ⊎ ((t.readers ≡ []) × (t.close_ts + 5 < now + 1))

  is_needless-idle :
      (now : ℕ) (t : Task S)
      → is_needless now 5 t ≡ true
      → (t.readers ≡ []) × (t.close_ts + 5 < now + 1)
  unfolding is_needless
  is_needless-idle now t e =
      let idle : is_empty t.readers ≡ true = ground arith in
      (empty_or_not t.readers idle, ground arith)

  pub kept-KeptOrIdle :
      (now : ℕ) (tasks : List (Task S)) → All (KeptOrIdle now (kept now 5 tasks)) tasks
  kept-KeptOrIdle now [] = tt
  kept-KeptOrIdle now (t ∷ tasks) =
      if_cases (λ ts. All (KeptOrIdle now ts) (t ∷ tasks)) (is_needless now 5 t) (kept now 5 tasks)
        (t ∷ kept now 5 tasks) (λ e. (inr (is_needless-idle now t e), kept-KeptOrIdle now tasks))
        (λ e. (
          inl (inl refl),
          All-map tasks (λ q k. elim k [ inl m ↦ inl (inr m) | inr i ↦ inr i ])
              (kept-KeptOrIdle now tasks),
        ))

  stay-KeptOrIdle : (now : ℕ) (tasks : List (Task S)) → All (KeptOrIdle now tasks) tasks
  stay-KeptOrIdle now [] = tt
  stay-KeptOrIdle now (t ∷ tasks) = (
    inl (inl refl),
    All-map tasks (λ q k. elim k [ inl m ↦ inl (inr m) | inr i ↦ inr i ])
        (stay-KeptOrIdle now tasks),
  )

  -- Of tasks with different urls, `ms_find_or_create_task` answers with no fault with one for
  -- the url that is in the list then. The urls in the list stay different, and a task has gone
  -- only if it had no reader, and none for five seconds.
  pub ms_find_or_create_task-KeptOrIdle :
      (storage : S) (now url : ℕ) (tasks : List (Task S))
      → Apart (λ t. t.url) tasks
      → (t : Task S) × (tasks' : List (Task S)) × (ms_find_or_create_task ops storage now url tasks
          ≡ ok (t, tasks'))
        × (t.url ≡ url)
        × Any (λ q. q ≡ t) tasks'
        × Apart (λ q. q.url) tasks'
        × All (KeptOrIdle now tasks') tasks
  unfolding ms_find_or_create_task ms_task_open
  ms_find_or_create_task-KeptOrIdle storage now url tasks apart =
      let new : Task S = ms_task_open storage url in
      elim (find_at-cases (is_for url) tasks) [
        | inr (z, e, (whole, same, _)) ↦ (
          z.node,
          tasks,
          rw (ms_find_or_create_task, e) refl,
          ground arith,
          rw whole (Any-middle (λ q. q ≡ z.node) z.before z.node z.after refl),
          apart,
          stay-KeptOrIdle now tasks,
        )
        | inl (e, others) ↦ (
          new,
          kept now 5 tasks ++ (new ∷ []),
          rw (ms_find_or_create_task, e, ms_remove_task_if_need-kept now 5 tasks) refl,
          refl,
          Any-last (λ q. q ≡ new) (kept now 5 tasks) new refl,
          Apart-snoc (λ q. q.url) (kept now 5 tasks) new
              (kept-All (λ q. q.url ≢ url) now 5 tasks
                (All-map tasks (λ q n same. ground (arith, n)) others))
              (kept-Apart now 5 tasks apart),
          All-map tasks
              (λ q k. elim k [
                | inl m ↦ inl (Any-append (λ p. p ≡ q) (kept now 5 tasks) (new ∷ []) m)
                | inr i ↦ inr i
              ])
              (kept-KeptOrIdle now tasks),
        )
      ]

  second_of :
      (t t' : Task S) (ts ts' : List (Task S))
      → ◌≡◌ {A = Outcome (Task S × List (Task S))} (ok (t, ts)) (ok (t', ts'))
      → ts ≡ ts'
  second_of t t' ts ts' e = cc

  -- What holds of the tasks, and of a new one, holds of those that the list has then.
  pub ms_find_or_create_task-All :
      (P : Task S → Type 0) (storage : S) (now url : ℕ) (tasks : List (Task S)) (t : Task S)
      (tasks' : List (Task S))
      → All P tasks
      → P (ms_task_open storage url)
      → ms_find_or_create_task ops storage now url tasks ≡ ok (t, tasks')
      → All P tasks'
  unfolding ms_find_or_create_task
  ms_find_or_create_task-All P storage now url tasks t tasks' all new e =
      elim (find_at-cases (is_for url) tasks) [
        | inr (z, f, _) ↦
            let found : ms_find_or_create_task ops storage now url tasks ≡ ok (z.node, tasks) =
              rw (ms_find_or_create_task, f) refl in
            subst (All P) (second_of z.node t tasks tasks' (sym found ∙ e)) all
        | inl (f, _) ↦
            let opened : Task S = ms_task_open storage url in
            let list : List (Task S) = kept now 5 tasks ++ (opened ∷ []) in
            let made : ms_find_or_create_task ops storage now url tasks ≡ ok (opened, list) =
              rw (ms_find_or_create_task, f, ms_remove_task_if_need-kept now 5 tasks) refl in
            subst (All P) (second_of opened t list tasks' (sym made ∙ e))
              (All-join P (kept now 5 tasks) (opened ∷ []) (kept-All P now 5 tasks all) (new, tt))
      ]
