-- ===== src/Streams/Counts.antt =====
-- How often an address is among the readers of a task, and what the functions of src/ms_task.c do
-- to that.
use libms.Base.{
  ℕ, ◌+◌, ◌-◌, ◌/◌, ◌%◌, ◌<◌, ◌≡◌, inl, inr, refl, ap, ◌∙◌, Bool, true, false, ◌&&◌, not, List, [],
  ◌∷◌, ◌++◌, ltb, leb, ◌==◌, if◌then◌else◌, arith, if_cases, Bool-cases, Option-cases,
}
use libms.Storage.{Storage}
use libms.MemStorage.{piece_unit_size}
use libms.Task.{Reader, Pipe, Task, ahead, behind, reader_pos, nearest_pipe, nearest_reader}
use libms.Task.Dispatch.{
  create_pipe_for, open_at, fetch_from, dispatch_reader, dispatch_pipe, close_pipe, has_other_at,
  has_pipe_between, max_cache, estimate, end_of,
}
use libms.Task.Ops.{
  unlink_reader, dispatch_readers, dispatch_pipes, add_reader, task_read, remove_reader,
  without_reader,
}
use libms.Task.Events.{hold_pos, store, on_pipe_complete}
use libms.Session.Keeps.{Holds, Holds-bind, Holds-map, Holds-any, Holds-assert, IsKept}
use libms.Streams.{set_reader, task_ops}

abbrev pub one_if : Bool → ℕ
one_if true = 1
one_if false = 0

unfoldable pub count : ℕ → List Reader → ℕ
count id [] = 0
count id (r ∷ readers) = one_if (r.id == id) + count id readers

pub count-append : (id : ℕ) (xs ys : List Reader) → count id (xs ++ ys) ≡ count id xs + count id ys
unfolding count
count-append id [] ys = omega arith
count-append id (r ∷ xs) ys = omega (arith, count-append id xs ys)

one_if-same : (a b c : ℕ) → a ≡ b → one_if (a == c) ≡ one_if (b == c)
one_if-same a b c e = ap (λ n. one_if (n == c)) e

pub count-set_reader :
    (id : ℕ) (r : Reader) (readers : List Reader)
    → count id (set_reader r readers) ≡ count id readers
unfolding count set_reader
count-set_reader id r [] = refl
count-set_reader id r (q ∷ readers) =
    let rest = count-set_reader id r readers in
    if_cases (λ rs. count id rs ≡ one_if (q.id == id) + count id readers) (q.id == r.id)
      (r ∷ set_reader r readers) (q ∷ set_reader r readers)
      (λ e. omega (arith, rest, one_if-same q.id r.id id (ground arith))) (λ _. omega (arith, rest))

-- One address less, if it is there.
pub count-unlink_reader :
    (id other : ℕ) (readers : List Reader)
    → 0 < count other readers
    → count id (unlink_reader other readers) + one_if (other == id) ≡ count id readers
unfolding count unlink_reader
count-unlink_reader id other [] l = absurd (omega arith)
count-unlink_reader id other (q ∷ readers) l = elim (Bool-cases (q.id == other)) [
  | inl e ↦ rw e (omega (arith, one_if-same q.id other id (ground arith)))
  | inr e ↦
      let there : 0 < count other readers = omega (arith, l, ap one_if e) in
      rw e (omega (arith, count-unlink_reader id other readers there))
]

module _ {S : Type 0} where
  -- The task is for that url, and has so many readers of each address.
  abbrev pub HasReaders : ℕ → (ℕ → ℕ) → Task S → Type 0
  HasReaders url readers t = (t.url ≡ url) × ((id : ℕ) → count id t.readers ≡ readers id)

  -- The same url and the same readers.
  abbrev pub SameReaders : Task S → Task S → Type 0
  SameReaders t t' = (t'.url ≡ t.url) × (t'.readers ≡ t.readers)

  create_pipe_for-SameReaders :
      (t : Task S) (pos len : ℕ) → SameReaders t (create_pipe_for t pos len)
  unfolding create_pipe_for
  create_pipe_for-SameReaders t pos len =
      if_cases (SameReaders t) (t.code == 0) _ t (λ _. (refl, refl)) (λ _. (refl, refl))

  open_at-SameReaders : (t : Task S) (end pos : ℕ) → SameReaders t (open_at t end pos)
  unfolding open_at
  open_at-SameReaders t end pos =
      if_cases (SameReaders t) (leb end pos && not (end == 0)) t _ (λ _. (refl, refl))
        (λ _. create_pipe_for-SameReaders t pos (if ltb 0 end then end - pos else 0))

  module _ (ops : Storage S) where
    fetch_from-SameReaders :
        (t : Task S) (r : Reader) (pos : ℕ) → SameReaders t (fetch_from ops t r pos)
    unfolding fetch_from
    fetch_from-SameReaders t r pos =
        let end : ℕ = end_of ops t r in
        let aligned : ℕ = pos - pos % piece_unit_size in
        if_cases (SameReaders t) (ltb 0 pos && pos == end) t _ (λ _. (refl, refl))
          (λ _. elim (Option-cases (nearest_pipe t.pipes aligned ahead)) [
            | inl e ↦ rw e (open_at-SameReaders t end aligned)
            | inr (near, e) ↦ rw e (
                if_cases (SameReaders t) (near.pos == aligned) t _ (λ _. (refl, refl))
                  (λ _. open_at-SameReaders t end aligned))
          ])

    dispatch_reader-SameReaders :
        (t : Task S) (r : Reader) → Holds (SameReaders t) (dispatch_reader ops t r)
    unfolding dispatch_reader
    dispatch_reader-SameReaders t r =
        if_cases (Holds (SameReaders t)) (ltb 0 (estimate ops t)) _ _
          (λ _.
            Holds-bind (λ (_ : ℕ × ℕ). Unit) (SameReaders t)
              (Storage.cached_from ops t.storage (reader_pos r)) _
              (Holds-any (Storage.cached_from ops t.storage (reader_pos r)))
              (λ (pos, len) _.
                if_cases (SameReaders t) (pos == reader_pos r && leb (max_cache ops t / 2) len) t _
                  (λ _. (refl, refl)) (λ _. fetch_from-SameReaders t r _)))
          (λ _. fetch_from-SameReaders t r (reader_pos r))

    pub dispatch_pipe-SameReaders :
        (t : Task S) (pipe : Pipe) → SameReaders t (dispatch_pipe ops t pipe).0
    unfolding dispatch_pipe close_pipe
    dispatch_pipe-SameReaders t pipe =
        let P : Task S × Bool → Type 0 = λ z. SameReaders t z.0 in
        if_cases P (has_other_at pipe t.pipes) _ _ (λ _. (refl, refl))
          (λ _. elim (Option-cases (nearest_reader t.readers pipe.pos behind)) [
            | inl e ↦ rw e (refl, refl)
            | inr (r, e) ↦ rw e (
                if_cases P (leb (reader_pos r + max_cache ops t) pipe.pos) _ _ (λ _. (refl, refl))
                  (λ _.
                    if_cases P (has_pipe_between t pipe r) _ _ (λ _. (refl, refl))
                      (λ _. (refl, refl))))
          ])

    dispatch_readers-SameReaders :
        (t : Task S) (readers : List Reader)
        → Holds (SameReaders t) (dispatch_readers ops t readers)
    unfolding dispatch_readers
    dispatch_readers-SameReaders t [] = (refl, refl)
    dispatch_readers-SameReaders t (r ∷ readers) =
        Holds-bind (SameReaders t) (SameReaders t) (dispatch_reader ops t r) _
          (dispatch_reader-SameReaders t r)
          (λ t' (u, rs).
            Holds-map (SameReaders t') (SameReaders t) (dispatch_readers ops t' readers)
              (dispatch_readers-SameReaders t' readers) (λ t'' (u', rs'). (u' ∙ u, rs' ∙ rs)))

    dispatch_pipes-SameReaders :
        (t : Task S) (pipes : List Pipe) → SameReaders t (dispatch_pipes ops t pipes)
    unfolding dispatch_pipes
    dispatch_pipes-SameReaders t [] = (refl, refl)
    dispatch_pipes-SameReaders t (p ∷ pipes) =
        let t' : Task S = (dispatch_pipe ops t p).0 in
        let (u, rs) = dispatch_pipe-SameReaders t p in
        let (u', rs') = dispatch_pipes-SameReaders t' pipes in (u' ∙ u, rs' ∙ rs)

    pub HasReaders-Same :
        (url : ℕ) (readers : ℕ → ℕ) (t t' : Task S)
        → HasReaders url readers t
        → SameReaders t t'
        → HasReaders url readers t'
    HasReaders-Same url readers t t' (u, c) (u', rs) = (u' ∙ u, λ id. ap (count id) rs ∙ c id)

    -- What a session does with its task before it leaves.
    pub HasReaders-IsKept :
        (buf : ℕ → ℕ) (now url : ℕ) (readers : ℕ → ℕ)
        → IsKept (task_ops ops buf now) (HasReaders url readers)
    unfolding task_ops task_read
    HasReaders-IsKept buf now url readers = record {
      sync-kept = λ t r (u, c). (u, λ id. count-set_reader id r t.readers ∙ c id);
      read-kept = λ t pos len h.
          Holds-bind (λ (z : Task S × ((ℕ → ℕ) × ℕ)). HasReaders url readers z.0)
            (λ (z : Task S × List ℕ). HasReaders url readers z.0) (task_read ops t buf pos len) _
            (Holds-bind (HasReaders url readers)
              (λ (z : Task S × ((ℕ → ℕ) × ℕ)). HasReaders url readers z.0)
              (dispatch_readers ops t t.readers) _
              (Holds-map (SameReaders t) (HasReaders url readers) (dispatch_readers ops t t.readers)
                (dispatch_readers-SameReaders t t.readers)
                (λ t' s. HasReaders-Same url readers t t' h s))
              (λ t' h'.
                Holds-bind (λ (_ : (ℕ → ℕ) × ℕ). Unit)
                  (λ (z : Task S × ((ℕ → ℕ) × ℕ)). HasReaders url readers z.0)
                  (Storage.read ops t'.storage buf pos len) _
                  (Holds-any (Storage.read ops t'.storage buf pos len)) (λ r _. h')))
            (λ z h'. h');
    }

    pub add_reader-HasReaders :
        (t : Task S) (r : Reader)
        → Holds (λ t'. (t'.url ≡ t.url) × (t'.readers ≡ t.readers ++ (r ∷ []))) (add_reader ops t r)
    unfolding add_reader
    add_reader-HasReaders t r =
        dispatch_reader-SameReaders (record t { readers = t.readers ++ (r ∷ []) }) r

    pub remove_reader-HasReaders :
        (now : ℕ) (t : Task S) (r : Reader)
        → 0 < count r.id t.readers
        → ((remove_reader ops now t r).url ≡ t.url)
          × ((id : ℕ)
              → count id (remove_reader ops now t r).readers + one_if (r.id == id)
                ≡ count id t.readers)
    unfolding remove_reader without_reader
    remove_reader-HasReaders now t r l =
        let (u, rs) = dispatch_pipes-SameReaders (without_reader now t r) t.pipes in
        (
          u,
          λ id.
              ap (λ xs. count id xs + one_if (r.id == id)) rs
              ∙ count-unlink_reader id r.id t.readers l,
        )

    pub store-SameReaders :
        (t : Task S) (bytes : ℕ → ℕ) (pos len : ℕ)
        → Holds (SameReaders t) (store ops t bytes pos len)
    unfolding store
    store-SameReaders t bytes pos len =
        Holds-bind (λ (_ : S). Unit) (SameReaders t) _ _
          (Holds-any (Storage.clear_buffer_for ops t.storage len (hold_pos t.readers)))
          (λ cleared _.
            Holds-bind (λ (_ : S × ℕ). Unit) (SameReaders t) _ _
              (Holds-any (Storage.write ops cleared bytes pos len))
              (λ (storage, write) _. Holds-assert (SameReaders t) (write == len) _ (refl, refl)))

    pub on_pipe_complete-SameReaders :
        (t : Task S) (pipe : Pipe) → Holds (SameReaders t) (on_pipe_complete ops t pipe)
    unfolding on_pipe_complete close_pipe
    on_pipe_complete-SameReaders t pipe =
        Holds-map (SameReaders (close_pipe t pipe)) (SameReaders t) _
          (dispatch_readers-SameReaders (close_pipe t pipe) t.readers) (λ t' (u, rs). (u, rs))
