-- ===== src/Task/Ops/Addresses.antt =====
-- The pipes of a task have different addresses.
use libms.Base.{
  ℕ, ◌+◌, ◌/◌, ltb, ◌<◌, ◌≡◌, ◌≢◌, inl, inr, sym, subst, Bool, true, false, List, [], ◌∷◌, ◌++◌,
  All, ◌==◌, if◌then◌else◌, Bool-cases, Outcome, ok, fault, ◌>>=◌, arith, leb, ◌&&◌,
}
use libms.Storage.{Storage}
use libms.Task.{Reader, Pipe, Task, reader_pos}
use libms.Task.Dispatch.{
  http_pipe_create, remove_pipe, close_pipe, create_pipe_for, pipe_url, max_cache, estimate,
  fetch_from, dispatch_reader, dispatch_pipe,
}
use libms.Task.Dispatch.Pipes.{dispatch_pipe-IsNeeded}
use libms.Task.Dispatch.Readers.{fetch_from-Lacks}
use libms.Task.Ops.{
  ms_task_open, dispatch_readers, dispatch_pipes, add_reader, without_reader, remove_reader,
}
use libms.Task.Ops.Removal.{Distinct}

-- The next address is free.
abbrev pub Below : ℕ → List Pipe → Type 0
Below fresh = All (λ p. p.id < fresh)

last_differs :
    (pipes : List Pipe) (new p : Pipe)
    → All (λ q. q.id ≢ p.id) pipes
    → new.id ≢ p.id
    → All (λ q. q.id ≢ p.id) (pipes ++ (new ∷ []))
last_differs [] new p _ n = (n, tt)
last_differs (q ∷ pipes) new p (d, ds) n = (d, last_differs pipes new p ds n)

Distinct-snoc :
    (pipes : List Pipe) (new : Pipe)
    → Distinct pipes
    → Below new.id pipes
    → Distinct (pipes ++ (new ∷ [])) × Below (new.id + 1) (pipes ++ (new ∷ []))
Distinct-snoc [] new _ _ = ((tt, tt), (omega arith, tt))
Distinct-snoc (p ∷ pipes) new (d, ds) (b, bs) =
    let (e, f) = Distinct-snoc pipes new ds bs in
    ((last_differs pipes new p d (λ k. omega arith), e), (omega arith, f))

All-remove :
    (P : Pipe → Type 0) (id : ℕ) (pipes : List Pipe) → All P pipes → All P (remove_pipe id pipes)
unfolding remove_pipe
All-remove P id [] _ = tt
All-remove P id (p ∷ pipes) (h, hs) = elim (Bool-cases (p.id == id)) [
  | inl e ↦ rw e hs
  | inr e ↦ rw e (h, All-remove P id pipes hs)
]

Distinct-remove : (id : ℕ) (pipes : List Pipe) → Distinct pipes → Distinct (remove_pipe id pipes)
unfolding remove_pipe
Distinct-remove id [] _ = tt
Distinct-remove id (p ∷ pipes) (d, ds) = elim (Bool-cases (p.id == id)) [
  | inl e ↦ rw e ds
  | inr e ↦ rw e (All-remove (λ q. q.id ≢ p.id) id pipes d, Distinct-remove id pipes ds)
]

module _ {S : Type 0} (ops : Storage S) where
  abbrev Tidy : Task S → Type 0
  Tidy t = Distinct t.pipes × Below t.fresh t.pipes

  abbrev TidyOk : Outcome (Task S) → Type 0
  TidyOk (ok t) = Tidy t
  TidyOk (fault e) = Unit

  create_pipe_for-Tidy : (t : Task S) (pos len : ℕ) → Tidy t → Tidy (create_pipe_for t pos len)
  unfolding create_pipe_for http_pipe_create
  create_pipe_for-Tidy t pos len (d, b) = elim (Bool-cases (t.code == 0)) [
    | inl e ↦ rw e (Distinct-snoc t.pipes (http_pipe_create t.fresh (pipe_url t) pos len) d b)
    | inr e ↦ rw e (d, b)
  ]

  close_pipe-Tidy : (t : Task S) (p : Pipe) → Tidy t → Tidy (close_pipe t p)
  unfolding close_pipe
  close_pipe-Tidy t p (d, b) =
      (Distinct-remove p.id t.pipes d, All-remove (λ q. q.id < t.fresh) p.id t.pipes b)

  dispatch_pipe-Tidy : (t : Task S) (p : Pipe) → Tidy t → Tidy (dispatch_pipe ops t p).0
  dispatch_pipe-Tidy t p h = elim (dispatch_pipe-IsNeeded ops t p) [
    | inl (e, _) ↦ subst (λ (z : Task S × Bool). Tidy z.0) (sym e) h
    | inr (e, _) ↦ subst (λ (z : Task S × Bool). Tidy z.0) (sym e) (close_pipe-Tidy t p h)
  ]

  dispatch_pipes-Tidy :
      (t : Task S) (pipes : List Pipe) → Tidy t → Tidy (dispatch_pipes ops t pipes)
  unfolding dispatch_pipes
  dispatch_pipes-Tidy t [] h = h
  dispatch_pipes-Tidy t (p ∷ pipes) h =
      dispatch_pipes-Tidy (dispatch_pipe ops t p).0 pipes (dispatch_pipe-Tidy t p h)

  fetch_from-Tidy : (t : Task S) (r : Reader) (next : ℕ) → Tidy t → Tidy (fetch_from ops t r next)
  fetch_from-Tidy t r next h = elim (fetch_from-Lacks ops t r next) [
    | inl (e, _) ↦ subst Tidy (sym e) (create_pipe_for-Tidy t _ _ h)
    | inr (e, _) ↦ subst Tidy (sym e) h
  ]

  Tidy-if : (x y : Task S) (b : Bool) → Tidy x → Tidy y → Tidy (if b then x else y)
  Tidy-if x y true h k = h
  Tidy-if x y false h k = k

  TidyOk-if :
      (x y : Outcome (Task S)) (b : Bool) → TidyOk x → TidyOk y → TidyOk (if b then x else y)
  TidyOk-if x y true h k = h
  TidyOk-if x y false h k = k

  TidyOk-bind :
      {A : Type 0} (m : Outcome A) (f : A → Outcome (Task S))
      → ((a : A) → TidyOk (f a))
      → TidyOk (m >>= f)
  TidyOk-bind (ok a) f h = h a
  TidyOk-bind (fault e) f h = tt

  -- Where `dispatch_reader` goes on behind an answer of the storage.
  abbrev is_enough : Task S → Reader → ℕ × ℕ → Bool
  is_enough t r (pos, len) = pos == reader_pos r && leb (max_cache ops t / 2) len

  abbrev next_pos : Reader → ℕ × ℕ → ℕ
  next_pos r (pos, len) =
      if pos == reader_pos r && ltb 0 len then reader_pos r + len else reader_pos r

  dispatch_reader-Tidy : (t : Task S) (r : Reader) → Tidy t → TidyOk (dispatch_reader ops t r)
  unfolding dispatch_reader
  dispatch_reader-Tidy t r h =
      TidyOk-if
        (Storage.cached_from ops t.storage (reader_pos r) >>= λ z.
          ok (if is_enough t r z then t else fetch_from ops t r (next_pos r z)))
        (ok (fetch_from ops t r (reader_pos r))) (ltb 0 (estimate ops t))
        (TidyOk-bind (Storage.cached_from ops t.storage (reader_pos r))
          (λ z. ok (if is_enough t r z then t else fetch_from ops t r (next_pos r z)))
          (λ z.
            Tidy-if t (fetch_from ops t r (next_pos r z)) (is_enough t r z) h
              (fetch_from-Tidy t r (next_pos r z) h)))
        (fetch_from-Tidy t r (reader_pos r) h)

  TidyOk-then :
      (m : Outcome (Task S)) (f : Task S → Outcome (Task S))
      → TidyOk m
      → ((t : Task S) → Tidy t → TidyOk (f t))
      → TidyOk (m >>= f)
  TidyOk-then (ok t) f h k = k t h
  TidyOk-then (fault e) f h k = tt

  dispatch_readers-Tidy :
      (t : Task S) (readers : List Reader) → Tidy t → TidyOk (dispatch_readers ops t readers)
  unfolding dispatch_readers
  dispatch_readers-Tidy t [] h = h
  dispatch_readers-Tidy t (r ∷ readers) h =
      TidyOk-then (dispatch_reader ops t r) (λ t'. dispatch_readers ops t' readers)
        (dispatch_reader-Tidy t r h) (λ t' h'. dispatch_readers-Tidy t' readers h')

  -- The states of a task between the bytes of its pipes: readers come, read and leave, and pipes are
  -- done or fail.
  pub data Reachable : Task S → Type 0 where
    opened_task : (storage : S) (url : ℕ) → Reachable (ms_task_open storage url)
    added : (t t' : Task S) (r : Reader) → Reachable t → add_reader ops t r ≡ ok t' → Reachable t'
    reading :
        (t t' : Task S) → Reachable t → dispatch_readers ops t t.readers ≡ ok t' → Reachable t'
    removed :
        (now : ℕ) (t : Task S) (r : Reader) → Reachable t → Reachable (remove_reader ops now t r)
    unlinked : (t : Task S) (pipe : Pipe) → Reachable t → Reachable (close_pipe t pipe)
    asked : (t : Task S) (pipe : Pipe) → Reachable t → Reachable (dispatch_pipe ops t pipe).0
    stored : (t : Task S) (storage : S) → Reachable t → Reachable (record t { storage = storage })
    failed : (t : Task S) (code : ℕ) → Reachable t → Reachable (record t { code = code })

  Reachable-Tidy : (t : Task S) → Reachable t → Tidy t
  unfolding ms_task_open add_reader remove_reader without_reader
  Reachable-Tidy t (opened_task storage url) = (tt, tt)
  Reachable-Tidy t (added t' t'' r s e) = subst TidyOk e (
      dispatch_reader-Tidy (record t' { readers = t'.readers ++ (r ∷ []) }) r (Reachable-Tidy t' s))
  Reachable-Tidy t (reading t' t'' s e) =
      subst TidyOk e (dispatch_readers-Tidy t' t'.readers (Reachable-Tidy t' s))
  Reachable-Tidy t (removed now t' r s) =
      dispatch_pipes-Tidy (without_reader now t' r) t'.pipes (Reachable-Tidy t' s)
  Reachable-Tidy t (unlinked t' p s) = close_pipe-Tidy t' p (Reachable-Tidy t' s)
  Reachable-Tidy t (asked t' p s) = dispatch_pipe-Tidy t' p (Reachable-Tidy t' s)
  Reachable-Tidy t (stored t' storage s) = Reachable-Tidy t' s
  Reachable-Tidy t (failed t' code s) = Reachable-Tidy t' s

  -- In every state that a task reaches from its opening, as readers are added, read and leave, pipes
  -- are closed or asked whether they are needed, bytes are stored and errors kept, the pipes have
  -- different addresses.
  pub Reachable-Distinct : (t : Task S) → Reachable t → Distinct t.pipes
  Reachable-Distinct t s = let (d, _) = Reachable-Tidy t s in d
