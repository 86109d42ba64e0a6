-- ===== src/Task/Dispatch/Served.antt =====
-- What `dispatch_reader` of src/ms_task.c does to the task: the pipe that it opens, field by field.
use libms.Base.{
  true, false, ℕ, ◌+◌, ◌-◌, ◌≤◌, ◌≡◌, ◌≢◌, refl, ◌∙◌, ap, ◌⊎◌, inl, inr, none, some, [], ◌∷◌, ◌++◌,
  ltb, ◌==◌, if◌then◌else◌, ok, arith, ℕ_discrete,
}
use libms.Storage.{Storage, IsStorage}
use libms.Task.{Reader, Pipe, Task, reader_pos}
use libms.Task.Dispatch.{http_pipe_create, create_pipe_for, estimate, end_of, dispatch_reader}
use libms.Task.Dispatch.Readers.{aligned, Cached, IsServed, dispatch_reader-IsServed}

http_pipe_create-len :
    (id url pos len : ℕ)
    → http_pipe_create id url pos len
      ≡ record { id = id; url = url; pos = pos; len = len; req_len = len }
unfolding http_pipe_create
http_pipe_create-len id url pos len =
    let same : (if ltb 0 len then len else 0) ≡ len = ground arith in rw same refl

module _ {S : Type 0} (ops : Storage S) (t : Task S) (r : Reader) where
  -- The pipe for what is missing from the piece with `next` on.
  abbrev pub missing : ℕ → Pipe
  missing next = record {
    id = t.fresh;
    url = elim t.redirect_url [ none ↦ t.url | some u ↦ u ];
    pos = aligned next;
    len = end_of ops t r - aligned next;
    req_len = end_of ops t r - aligned next;
  }

  abbrev pub with_pipe : Pipe → Task S
  with_pipe p = record t { pipes = t.pipes ++ (p ∷ []); fresh = t.fresh + 1 }

  create_pipe_for-cases :
      (next : ℕ)
      → ((t.code ≡ 0)
          × (create_pipe_for t (aligned next) (end_of ops t r - aligned next)
              ≡ with_pipe (missing next)))
        ⊎ ((t.code ≢ 0) × (create_pipe_for t (aligned next) (end_of ops t r - aligned next) ≡ t))
  unfolding create_pipe_for
  create_pipe_for-cases next =
      let pos = aligned next in
      let len = end_of ops t r - pos in
      elim (ℕ_discrete t.code 0) [
        | yes z ↦
            let healthy : (t.code == 0) ≡ true = ground arith in
            inl (
              z,
              rw healthy (ap with_pipe (http_pipe_create-len t.fresh (missing next).url pos len)),
            )
        | no z ↦ let failed : (t.code == 0) ≡ false = ground arith in inr (z, rw failed refl)
      ]

  -- What becomes of the task, where so many bytes are cached behind the reader.
  abbrev pub Served : ℕ → Task S → Type 0
  Served len t' =
      ((t' ≡ t) × (IsServed ops t r len ⊎ (t.code ≢ 0)))
      ⊎ ((t' ≡ with_pipe (missing (reader_pos r + len))) × (t.code ≡ 0) × ¬ IsServed ops t r len)

  -- For a storage in order whose estimated size is zero, or not before the reader,
  -- `dispatch_reader` ends with no fault. A reader is served if half of what the cache may hold
  -- is cached behind it, or the cached bytes reach the end, or a pipe stands at the piece where
  -- they end, or that piece begins at or beyond an end that is not zero. A task whose reader is
  -- not served, and which has no error, gets one more pipe behind the others, for its redirected
  -- url if there is one and else for its own, at that piece, with the length from there to the
  -- end; any other task stays as it is.
  pub dispatch_reader-Served :
      (laws : IsStorage ops)
      → IsStorage.InOrder laws t.storage
      → (estimate ops t ≡ 0) ⊎ (reader_pos r ≤ estimate ops t)
      → (len : ℕ) × (t' : Task S) × Cached ops t r len
        × (dispatch_reader ops t r ≡ ok t')
        × Served len t'
  dispatch_reader-Served laws v inside =
      let (len, t', c, e, or) = dispatch_reader-IsServed ops t r laws v inside in
      (
        len,
        t',
        c,
        e,
        elim or [
          | inl (same, h) ↦ inl (same, inl h)
          | inr (same, h) ↦ elim (create_pipe_for-cases (reader_pos r + len)) [
            | inl (z, o) ↦ inr (same ∙ o, z, h)
            | inr (z, o) ↦ inl (same ∙ o, inr z)
          ]
        ],
      )
