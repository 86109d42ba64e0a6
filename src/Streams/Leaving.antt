-- ===== src/Streams/Leaving.antt =====
-- The session of a connection leaves: MG_EV_CLOSE, and a second request of the connection.
use libms.Base.{
  ℕ, ◌≡◌, ◌≢◌, inl, inr, refl, sym, ap, ◌∙◌, true, false, List, [], ◌∷◌, ◌++◌, All, All-map,
  if◌then◌else◌, arith, subst, ok,
}
use libms.Queue.{Found, without_node, find_at-cases, Apart, All-middle}
use libms.Storage.{Storage}
use libms.Task.{Task}
use libms.Session.{Output, Session, finish}
use libms.Session.Keeps.{Holds, finish-Gone}
use libms.Streams.{
  Stream, World, is_of, ms_find_session, load, save, run, leave, leave_old, task_ops,
}
use libms.Streams.Counts.{HasReaders, HasReaders-IsKept}
use libms.Streams.Linked.{IsLinked, HasTask}
use libms.Streams.Running.{Keeping, run-IsLinked, task_at-cases}

-- The connection has no session.
abbrev pub IsIdle : ℕ → List Stream → Type 0
IsIdle nc = All (λ s. s.nc ≢ nc)

off_test : (nc : ℕ) (s : Stream) → is_of nc s ≡ false → s.nc ≢ nc
off_test nc s e same = ground arith

-- The sessions of the other connections.
abbrev pub others_of : ℕ → List Stream → List Stream
others_of nc [] = []
others_of nc (s ∷ sessions) =
    if is_of nc s then others_of nc sessions else s ∷ others_of nc sessions

others_of-IsIdle :
    (nc : ℕ) (sessions : List Stream) → IsIdle nc sessions → others_of nc sessions ≡ sessions
others_of-IsIdle nc [] _ = refl
others_of-IsIdle nc (s ∷ sessions) (n, ns) =
    let e : is_of nc s ≡ false = ground arith in
    rw e (ap (λ xs. s ∷ xs) (others_of-IsIdle nc sessions ns))

-- With its session a connection loses the only one.
without_node-others_of :
    (nc : ℕ) (before : List Stream) (s : Stream) (after : List Stream)
    → s.nc ≡ nc
    → Apart (λ q. q.nc) (before ++ (s ∷ after))
    → IsIdle nc (before ++ after) × (before ++ after ≡ others_of nc (before ++ (s ∷ after)))
without_node-others_of nc [] s after same (h, _) =
    let idle : IsIdle nc after = subst (λ n. IsIdle n after) same h in
    let e : is_of nc s ≡ true = ground arith in (idle, rw e (sym (others_of-IsIdle nc after idle)))
without_node-others_of nc (x ∷ before) s after same (h, hs) =
    let (_, n, _) = All-middle (λ q. q.nc ≢ x.nc) before s after h in
    let off : x.nc ≢ nc = λ e. n (same ∙ sym e) in
    let e : is_of nc x ≡ false = ground arith in
    let (idle, rest) = without_node-others_of nc before s after same hs in
    ((off, idle), rw e (ap (λ xs. x ∷ xs) rest))

module _ {S : Type 0} (ops : Storage S) (buf : ℕ → ℕ) (now : ℕ) where
  leave-Keeping :
      (limit : ℕ) (size_of : Output → ℕ)
      → Keeping ops buf now limit size_of (λ st. ok (finish (task_ops ops buf now) st))
  leave-Keeping limit size_of url readers st q = inr (
      finish-Gone (task_ops ops buf now) (HasReaders url readers)
        (HasReaders-IsKept ops buf now url readers) limit size_of st q)

  -- It is not in the list any more, and the rest is as it was.
  abbrev pub Left : ℕ → World S → World S → Type 0
  Left nc w w' =
      IsLinked w'
      × IsIdle nc w'.sessions
      × (w'.sessions ≡ others_of nc w.sessions)
      × (w'.lists.preloaders ≡ w.lists.preloaders)
      × (w'.lists.server ≡ w.lists.server)

  run-finish :
      (w : World S) (z : Found Stream)
      → HasTask z.node.url w.lists.tasks
      → (st : Session (Task S)) × (leave ops buf now w z ≡ ok (save z st w)) × (st.closed ≡ true)
  unfolding leave run finish
  run-finish w z m = elim (task_at-cases z.node.url w.lists.tasks) [
    | inl (_, lost) ↦ absurd (lost m)
    | inr (zt, e, _) ↦ (
      finish (task_ops ops buf now) (load z.node (w.connections z.node.nc) zt.node),
      rw (run, e) refl,
      refl,
    )
  ]

  -- Where the pointers between the tasks and their readers are right, a connection that closes
  -- ends with no fault: the sessions left are those of the other connections, as they were, the
  -- pointers are right again, and the preloaders and the resources do not change.
  pub leave_old-Left :
      (w : World S) (nc : ℕ)
      → IsLinked w
      → (w' : World S) × (leave_old ops buf now nc w ≡ ok w') × Left nc w w'
  unfolding leave_old ms_find_session save leave
  leave_old-Left w nc (urls, players, balanced, homed, homed') =
      elim (find_at-cases (is_of nc) w.sessions) [
        | inl (e, others) ↦ (
          w,
          rw (ms_find_session, leave_old, e) refl,
          (
            (urls, players, balanced, homed, homed'),
            All-map w.sessions (off_test nc) others,
            sym (others_of-IsIdle nc w.sessions (All-map w.sessions (off_test nc) others)),
            refl,
            refl,
          ),
        )
        | inr (z, e, (list, test, _)) ↦
            let ours : z.node.nc ≡ nc = ground arith in
            let home = subst (All (λ s. HasTask s.url w.lists.tasks)) list homed in
            let (_, m, _) =
              All-middle (λ s. HasTask s.url w.lists.tasks) z.before z.node z.after home in
            let (st, left, gone) = run-finish w z m in
            let done : leave_old ops buf now nc w ≡ ok (save z st w) =
              rw (ms_find_session, leave_old, e) left in
            let linked : Holds IsLinked (leave ops buf now w z) =
              run-IsLinked ops buf now 0 (λ _. 0) (λ s. ok (finish (task_ops ops buf now) s)) w z
                (leave-Keeping 0 (λ _. 0)) (urls, players, balanced, homed, homed') list in
            let (idle, rest) =
              without_node-others_of nc z.before z.node z.after ours
                (subst (Apart (λ q. q.nc)) list players) in
            let list' : (save z st w).sessions ≡ without_node z = rw gone refl in
            (
              save z st w,
              done,
              (
                subst (Holds IsLinked) left linked,
                subst (IsIdle nc) (sym list') idle,
                list' ∙ rest ∙ ap (others_of nc) (sym list),
                refl,
                refl,
              ),
            )
      ]
