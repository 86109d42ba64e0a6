-- ===== src/Task/Dispatch/Readers.antt =====
-- When `dispatch_reader` opens a pipe for a reader, and which.
use libms.Base.{
  ℕ, ◌+◌, ◌-◌, ◌%◌, ◌/◌, ◌≤◌, ◌<◌, ◌≡◌, ◌≢◌, refl, ◌⊎◌, inl, inr, false, none, some, List, Any,
  Any-All, Any-map, ltb, ◌==◌, if◌then◌else◌, ok, arith, Bool-cases, Option-cases, subst, lt→ltb,
  lt→leb, le→leb, sym, ◌&&◌, dec_lt, ℕ_discrete,
}
use libms.Storage.{Storage, IsStorage}
use libms.MemStorage.{piece_unit_size}
use libms.Task.{Reader, Pipe, Task, ahead, reader_pos, pipe_pos, nearest_pipe}
use libms.Task.Nearest.{IsNearest, nearest_pipe-IsNearest}
use libms.Task.Dispatch.{
  create_pipe_for, open_at, max_cache, estimate, end_of, fetch_from, dispatch_reader,
}

abbrev pub HasPipeAt : ℕ → List Pipe → Type 0
HasPipeAt pos = Any (λ q. q.pos ≡ pos)

-- The start of the piece with the position.
abbrev pub aligned : ℕ → ℕ
aligned pos = pos - pos % piece_unit_size

-- The nearest pipe from a position on stands at it exactly if some pipe does.
nearest_pipe-HasPipeAt :
    (pipes : List Pipe) (pos : ℕ)
    → ((near : Pipe) × (nearest_pipe pipes pos ahead ≡ some near)
        × (near.pos ≡ pos)
        × HasPipeAt pos pipes)
      ⊎ (¬ HasPipeAt pos pipes
          × ((nearest_pipe pipes pos ahead ≡ none)
              ⊎ ((near : Pipe) × (nearest_pipe pipes pos ahead ≡ some near) × (near.pos ≢ pos))))
nearest_pipe-HasPipeAt pipes pos =
    let nearest = nearest_pipe-IsNearest pipes pos ahead in
    elim (Option-cases (nearest_pipe pipes pos ahead)) [
      | inl e ↦
          let before = subst (IsNearest pipe_pos pos ahead pipes) e nearest in
          inr ((λ a. let (q, at, far) = Any-All pipes a before in far (omega arith)), inl e)
      | inr (near, e) ↦
          let (mem, side, least) = subst (IsNearest pipe_pos pos ahead pipes) e nearest in
          elim (ℕ_discrete near.pos pos) [
            | yes at ↦ inl (
              near,
              e,
              at,
              Any-map pipes (λ q m. subst (λ (z : Pipe). z.pos ≡ pos) (sym m) at) mem,
            )
            | no off ↦ inr (
              (λ a.
                  let (q, at, far) = Any-All pipes a least in
                  off (omega (arith, far (omega arith)))),
              inr (near, e, off),
            )
          ]
    ]

==-off : (a b : ℕ) → a ≢ b → (a == b) ≡ false
==-off a b h = ground arith

add_zero : (a : ℕ) → a + 0 ≡ a
add_zero a = omega arith

go_on : (a len : ℕ) → (if ltb 0 len then a + len else a) ≡ a + len
go_on a len = ground arith

module _ {S : Type 0} (ops : Storage S) (t : Task S) (r : Reader) where
  -- Nothing is there behind the cached bytes, which end at `next`, though there is more to come.
  abbrev pub Lacks : ℕ → Type 0
  Lacks next =
      ¬ ((0 < next) × (next ≡ end_of ops t r))
      × ¬ HasPipeAt (aligned next) t.pipes
      × ((aligned next < end_of ops t r) ⊎ (end_of ops t r ≡ 0))

  abbrev pub opened : ℕ → Task S
  opened next = create_pipe_for t (aligned next) (end_of ops t r - aligned next)

  open_at-Lacks :
      (next : ℕ)
      → ¬ ((0 < next) × (next ≡ end_of ops t r))
      → ¬ HasPipeAt (aligned next) t.pipes
      → ((open_at t (end_of ops t r) (aligned next) ≡ opened next) × Lacks next)
        ⊎ ((open_at t (end_of ops t r) (aligned next) ≡ t) × ¬ Lacks next)
  unfolding open_at
  open_at-Lacks next more free = elim (dec_lt (aligned next) (end_of ops t r)) [
    | yes l ↦ inl (ground arith, (more, free, inl l))
    | no l ↦ elim (ℕ_discrete (end_of ops t r) 0) [
      | yes z ↦ inl (ground arith, (more, free, inr z))
      | no z ↦ inr (ground arith, λ (_, _, h). elim h [ inl k ↦ l k | inr k ↦ z k ])
    ]
  ]

  pub fetch_from-Lacks :
      (next : ℕ)
      → ((fetch_from ops t r next ≡ opened next) × Lacks next)
        ⊎ ((fetch_from ops t r next ≡ t) × ¬ Lacks next)
  unfolding fetch_from
  fetch_from-Lacks next = elim (Bool-cases (ltb 0 next && next == end_of ops t r)) [
    | inl e ↦ inr (rw (fetch_from, e) refl, λ (more, _, _). more (ground arith, ground arith))
    | inr e ↦ elim (nearest_pipe-HasPipeAt t.pipes (aligned next)) [
      | inl (near, n, at, h) ↦ inr (rw (fetch_from, e, n) (ground arith), λ (_, free, _). free h)
      | inr (free, inl n) ↦ rw (fetch_from, e, n) (open_at-Lacks next (λ (l, k). ground arith) free)
      | inr (free, inr (near, n, off)) ↦
          rw (fetch_from, e, n, ==-off near.pos (aligned next) off)
            (open_at-Lacks next (λ (l, k). ground arith) free)
    ]
  ]

  -- How far the cached bytes behind the reader reach.
  abbrev pub Cached : ℕ → Type 0
  Cached len =
      ((estimate ops t ≡ 0) × (len ≡ 0))
      ⊎ ((0 < estimate ops t)
          × ((len' : ℕ) × (pos : ℕ) × (Storage.cached_from ops t.storage (reader_pos r)
                ≡ ok (pos, len'))
              × (len ≡ (if pos == reader_pos r then len' else 0))))

  -- Half of what the cache may hold is there, or no pipe is missing.
  abbrev pub IsServed : ℕ → Type 0
  IsServed len = (max_cache ops t / 2 ≤ len) ⊎ ¬ Lacks (reader_pos r + len)

  abbrev pub Dispatched : Type 0
  Dispatched =
      (len : ℕ) × (t' : Task S) × Cached len
      × (dispatch_reader ops t r ≡ ok t')
      × (((t' ≡ t) × IsServed len) ⊎ ((t' ≡ opened (reader_pos r + len)) × ¬ IsServed len))

  fetch_from-IsServed :
      (len : ℕ)
      → len < max_cache ops t / 2
      → ((fetch_from ops t r (reader_pos r + len) ≡ t) × IsServed len)
        ⊎ ((fetch_from ops t r (reader_pos r + len) ≡ opened (reader_pos r + len)) × ¬ IsServed len)
  fetch_from-IsServed len few = elim (fetch_from-Lacks (reader_pos r + len)) [
    | inl (e, h) ↦ inr (e, λ s. elim s [ inl k ↦ omega arith | inr k ↦ k h ])
    | inr (e, h) ↦ inl (e, inr h)
  ]

  -- The few bytes cached are not enough, and the pipes are asked.
  dispatch_few :
      (len : ℕ)
      → Cached len
      → len < max_cache ops t / 2
      → dispatch_reader ops t r ≡ ok (fetch_from ops t r (reader_pos r + len))
      → Dispatched
  dispatch_few len c few e =
      (len, fetch_from ops t r (reader_pos r + len), c, e, fetch_from-IsServed len few)

  dispatch_unknown : 2 ≤ max_cache ops t → estimate ops t ≡ 0 → Dispatched
  unfolding dispatch_reader
  dispatch_unknown m z =
      dispatch_few 0 (inl (z, refl)) (omega arith)
        (rw (dispatch_reader, z, add_zero (reader_pos r)) refl)

  dispatch_known :
      (pos len : ℕ)
      → 2 ≤ max_cache ops t
      → 0 < estimate ops t
      → Storage.cached_from ops t.storage (reader_pos r) ≡ ok (pos, len)
      → Dispatched
  unfolding dispatch_reader
  dispatch_known pos len m known e = elim (Bool-cases (pos == reader_pos r)) [
    | inr off ↦ dispatch_few 0 (inr (known, (len, pos, e, rw off refl))) (omega arith) (
        rw (dispatch_reader, lt→ltb 0 (estimate ops t) known, e, off, add_zero (reader_pos r)) refl)
    | inl at ↦ elim (dec_lt len (max_cache ops t / 2)) [
      | yes few ↦ dispatch_few len (inr (known, (len, pos, e, rw at refl))) few (
          rw
            (
              dispatch_reader,
              lt→ltb 0 (estimate ops t) known,
              e,
              at,
              lt→leb (max_cache ops t / 2) len few,
              go_on (reader_pos r) len,
            )
            refl)
      | no enough ↦ (
        len,
        t,
        inr (known, (len, pos, e, rw at refl)),
        rw
            (
              dispatch_reader,
              lt→ltb 0 (estimate ops t) known,
              e,
              at,
              le→leb (max_cache ops t / 2) len (omega arith),
            )
            refl,
        inl (refl, inl (omega arith)),
      )
    ]
  ]

  -- For a storage in order whose estimated size is zero, or not before the reader,
  -- `dispatch_reader` ends with no fault. It leaves the task as it is if half of what the cache
  -- may hold is cached behind the reader, or the cached bytes reach the end, or a pipe stands at
  -- the piece where they end, or that piece begins at or beyond the end. Otherwise it calls
  -- `create_pipe_for` with the range from that piece to the end.
  pub dispatch_reader-IsServed :
      (laws : IsStorage ops)
      → IsStorage.InOrder laws t.storage
      → (estimate ops t ≡ 0) ⊎ (reader_pos r ≤ estimate ops t)
      → Dispatched
  dispatch_reader-IsServed laws v (inl z) =
      dispatch_unknown (IsStorage.max_cache_len-positive laws t.storage) z
  dispatch_reader-IsServed laws v (inr l) =
      let (pos, len, e) = IsStorage.cached_from-ok laws t.storage (reader_pos r) v l in
      elim (dec_lt 0 (estimate ops t)) [
        | yes h ↦ dispatch_known pos len (IsStorage.max_cache_len-positive laws t.storage) h e
        | no h ↦ dispatch_unknown (IsStorage.max_cache_len-positive laws t.storage) (omega arith)
      ]
