-- ===== src/Task/Dispatch/Pipes.antt =====
-- `dispatch_pipe` keeps exactly the pipes that a reader needs.
use libms.Base.{
  ℕ, ◌+◌, ◌-◌, ◌≤◌, ◌<◌, ◌≡◌, ◌≢◌, ◌↔◌, refl, ◌⊎◌, inl, inr, true, false, some, List, [], ◌∷◌, All,
  Any, All-map, All-mem, All-All, Any-All, Any-map, leb, ◌==◌, arith, Bool-cases, Option-cases,
  subst, sym, not, ◌&&◌, dec_lt,
}
use libms.Storage.{Storage}
use libms.Task.{Reader, Pipe, Task, behind, reader_pos, pipe_pos, nearest_pipe, nearest_reader}
use libms.Task.Nearest.{IsNearest, nearest_pipe-IsNearest, nearest_reader-IsNearest}
use libms.Task.Dispatch.{has_other_at, has_pipe_between, dispatch_pipe, close_pipe, max_cache}

-- No other pipe stands where this one stands.
abbrev pub Alone : Pipe → List Pipe → Type 0
Alone pipe = All (λ q. q.id ≢ pipe.id → q.pos ≢ pipe.pos)

-- No pipe stands at the reader or between it and the position.
abbrev pub Clear : ℕ → Reader → List Pipe → Type 0
Clear pos r = All (λ q. reader_pos r ≤ q.pos → pos ≤ q.pos)

-- The reader is at or behind the position, not further than what may be cached, and no pipe is
-- before it.
abbrev pub Wants : ℕ → ℕ → List Pipe → Reader → Type 0
Wants max pos pipes r = (reader_pos r ≤ pos) × (pos < reader_pos r + max) × Clear pos r pipes

abbrev pub IsNeeded : ℕ → Pipe → List Pipe → List Reader → Type 0
IsNeeded max pipe pipes readers = Alone pipe pipes × Any (Wants max pipe.pos pipes) readers

has_other_at-Alone :
    (pipe : Pipe) (pipes : List Pipe)
    → ((has_other_at pipe pipes ≡ true) × ¬ Alone pipe pipes)
      ⊎ ((has_other_at pipe pipes ≡ false) × Alone pipe pipes)
unfolding has_other_at
has_other_at-Alone pipe [] = inr (refl, tt)
has_other_at-Alone pipe (q ∷ pipes) =
    elim (Bool-cases (not (q.id == pipe.id) && q.pos == pipe.pos)) [
      | inl here ↦ inl (rw here, λ (h, _). h (ground arith) (ground arith))
      | inr other ↦ elim (has_other_at-Alone pipe pipes) [
        | inl (e, n) ↦ inl (rw other e, λ (_, h). n h)
        | inr (e, a) ↦ inr (rw other e, ((λ n p. ground arith), a))
      ]
    ]

-- A reader nearer behind the position wants what the other wants.
Wants-nearer :
    (max pos : ℕ) (pipes : List Pipe) (r n : Reader)
    → reader_pos r ≤ reader_pos n
    → reader_pos n ≤ pos
    → Wants max pos pipes r
    → Wants max pos pipes n
Wants-nearer max pos pipes r n h k (l, m, c) =
    (k, omega arith, All-map pipes (λ q f i. f (omega arith)) c)

-- Of the readers only the nearest one behind has to be asked.
nearest_reader-Wants :
    (max pos : ℕ) (pipes : List Pipe) (readers : List Reader) (n : Reader)
    → IsNearest reader_pos pos behind readers (some n)
    → Any (Wants max pos pipes) readers ↔ Wants max pos pipes n
nearest_reader-Wants max pos pipes readers n (at, side, nearest) = (
  (λ a.
      let (r, w, near) = Any-All readers a nearest in
      let (l, _, _) = w in Wants-nearer max pos pipes r n (near l) side w),
  (λ w. Any-map readers (λ r e. subst (Wants max pos pipes) (sym e) w) at),
)

module _ {S : Type 0} (t : Task S) (pipe : Pipe) where
  has_pipe_between-Clear :
      (r : Reader)
      → reader_pos r ≤ pipe.pos
      → ((has_pipe_between t pipe r ≡ true) × ¬ Clear pipe.pos r t.pipes)
        ⊎ ((has_pipe_between t pipe r ≡ false) × Clear pipe.pos r t.pipes)
  unfolding has_pipe_between
  has_pipe_between-Clear r h = elim (dec_lt 0 pipe.pos) [
    | no z ↦ inr (ground arith, All-All t.pipes (λ q k. omega arith))
    | yes p ↦ elim (Option-cases (nearest_pipe t.pipes (pipe.pos - 1) behind)) [
      | inl e ↦
          let none_before =
            subst (IsNearest pipe_pos (pipe.pos - 1) behind t.pipes) e
              (nearest_pipe-IsNearest t.pipes (pipe.pos - 1) behind) in
          inr (ground (arith, e), All-map t.pipes (λ q k l. omega arith) none_before)
      | inr (near, e) ↦
          let (at, side, nearest) =
            subst (IsNearest pipe_pos (pipe.pos - 1) behind t.pipes) e
              (nearest_pipe-IsNearest t.pipes (pipe.pos - 1) behind) in
          elim (dec_lt near.pos (reader_pos r)) [
            | yes l ↦ inr (ground (arith, e), All-map t.pipes (λ q k m. ground arith) nearest)
            | no l ↦ inl (
              ground (arith, e),
              λ c. absurd (
                  omega (
                    arith,
                    All-mem (λ q. reader_pos r ≤ q.pos → pipe.pos ≤ q.pos) near t.pipes at c,
                  )),
            )
          ]
    ]
  ]

module _ {S : Type 0} (ops : Storage S) (t : Task S) (pipe : Pipe) where
  abbrev pub Kept : Type 0
  Kept = (dispatch_pipe ops t pipe ≡ (t, false)) × IsNeeded (max_cache ops t) pipe t.pipes t.readers

  abbrev pub Closed : Type 0
  Closed =
      (dispatch_pipe ops t pipe ≡ (close_pipe t pipe, true))
      × ¬ IsNeeded (max_cache ops t) pipe t.pipes t.readers

  dispatch_near :
      (n : Reader)
      → has_other_at pipe t.pipes ≡ false
      → Alone pipe t.pipes
      → nearest_reader t.readers pipe.pos behind ≡ some n
      → IsNearest reader_pos pipe.pos behind t.readers (some n)
      → Kept ⊎ Closed
  unfolding dispatch_pipe
  dispatch_near n other alone e nearest =
      let (to, from) =
        nearest_reader-Wants (max_cache ops t) pipe.pos t.pipes t.readers n nearest in
      let (_, side, _) = nearest in
      elim (Bool-cases (leb (reader_pos n + max_cache ops t) pipe.pos)) [
        | inl far ↦ inr (
          rw (dispatch_pipe, other, e, far) refl,
          (λ (_, a). let (_, m, _) = to a in ground arith),
        )
        | inr close ↦ elim (has_pipe_between-Clear t pipe n side) [
          | inl (b, nc) ↦ inr (
            rw (dispatch_pipe, other, e, close, b) refl,
            (λ (_, a). let (_, _, c) = to a in nc c),
          )
          | inr (b, c) ↦
              inl
                (rw (dispatch_pipe, other, e, close, b) refl, (alone, from (side, ground arith, c)))
        ]
      ]

  -- `dispatch_pipe` keeps the pipe, and leaves the task as it is, exactly if no other pipe stands
  -- at its position and some reader wants it: one at or behind it, nearer than what the cache may
  -- hold, with no pipe from that reader on before it. Otherwise it closes the pipe.
  pub dispatch_pipe-IsNeeded : Kept ⊎ Closed
  unfolding dispatch_pipe
  dispatch_pipe-IsNeeded = elim (has_other_at-Alone pipe t.pipes) [
    | inl (e, n) ↦ inr (rw (dispatch_pipe, e) refl, (λ (a, _). n a))
    | inr (other, alone) ↦ elim (Option-cases (nearest_reader t.readers pipe.pos behind)) [
      | inl e ↦
          let none_behind =
            subst (IsNearest reader_pos pipe.pos behind t.readers) e
              (nearest_reader-IsNearest t.readers pipe.pos behind) in
          inr (
            rw (dispatch_pipe, other, e) refl,
            (λ (_, a). let (r, (l, _, _), far) = Any-All t.readers a none_behind in far l),
          )
      | inr (n, e) ↦ dispatch_near n other alone e (
          subst (IsNearest reader_pos pipe.pos behind t.readers) e
            (nearest_reader-IsNearest t.readers pipe.pos behind))
    ]
  ]
