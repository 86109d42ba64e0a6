-- ===== src/Streams/Reached.antt =====
-- The steps of the server, and what holds after any of them.
use libms.Base.{
  ℕ, ◌<◌, ◌≡◌, ◌⊎◌, inl, inr, sym, ap, List, [], ◌∷◌, All, All-map, Any, subst, ◌==◌, ok, arith,
  Bool-cases, ◌&&◌, ℕ_discrete, dec_lt,
}
use libms.Queue.{All-middle}
use libms.Streams.Joining.{held-own, All-both}
use libms.Storage.{Storage}
use libms.Task.{Reader, Pipe, Task}
use libms.Handlers.{Response}
use libms.Server.{Server}
use libms.Preloader.{Preloader}
use libms.Session.{Output, Connection}
use libms.Session.Keeps.{Holds}
use libms.Streams.{Stream, World, Event, task_at}
use libms.Streams.Requests.{server_handler}
use libms.Streams.Pipes.{PipeEvent, pipe_handler}
use libms.Streams.Counts.{count, one_if}
use libms.Streams.Linked.{IsLinked, IsBalanced, HasTask, held, preloading}
use libms.Streams.Running.{task_at-cases}
use libms.Streams.Handled.{server_handler-IsLinked}
use libms.Streams.Piped.{pipe_handler-IsLinked}

count-Any : (id : ℕ) (rs : List Reader) → 0 < count id rs → Any (λ r. r.id ≡ id) rs
unfolding count
count-Any id [] l = absurd (omega arith)
count-Any id (r ∷ rs) l = elim (ℕ_discrete r.id id) [
  | yes e ↦ inl e
  | no n ↦ inr (count-Any id rs (ground arith))
]

count-member : (rs : List Reader) → All (λ r. 0 < count r.id rs) rs
unfolding count
count-member [] = tt
count-member (r ∷ rs) = (ground arith, All-map rs (λ q l. omega (arith, l)) (count-member rs))

held-Any :
    (id url : ℕ) (ss : List Stream) → 0 < held id url ss → Any (λ s. (s.id ≡ id) × (s.url ≡ url)) ss
unfolding held
held-Any id url [] l = absurd (omega arith)
held-Any id url (s ∷ ss) l = elim (Bool-cases (s.id == id && s.url == url)) [
  | inl e ↦ inl (ground arith, ground arith)
  | inr e ↦ inr (held-Any id url ss (omega (arith, l, ap one_if e)))
]

preloading-Any :
    (id url : ℕ) (ps : List Preloader)
    → 0 < preloading id url ps
    → Any (λ p. (p.reader.id ≡ id) × (p.url ≡ url)) ps
unfolding preloading
preloading-Any id url [] l = absurd (omega arith)
preloading-Any id url (p ∷ ps) l = elim (Bool-cases (p.reader.id == id && p.url == url)) [
  | inl e ↦ inl (ground arith, ground arith)
  | inr e ↦ inr (preloading-Any id url ps (omega (arith, l, ap one_if e)))
]

module _ {S : Type 0} where
  -- The pointer of a session to its task is right, and the task knows the session.
  abbrev pub IsSafe : World S → Stream → Type 0
  IsSafe w s =
      (t : Task S) × (task_at s.url w.lists.tasks ≡ ok t)
      × (t.url ≡ s.url)
      × Any (λ r. r.id ≡ s.id) t.readers

  -- A reader of a task is the reader of a session or a preloader that has the task.
  abbrev pub IsOwned : World S → Task S → Reader → Type 0
  IsOwned w t r =
      Any (λ s. (s.id ≡ r.id) × (s.url ≡ t.url)) w.sessions
      ⊎ Any (λ p. (p.reader.id ≡ r.id) × (p.url ≡ t.url)) w.lists.preloaders

  IsLinked-IsSafe : (w : World S) → IsLinked w → All (IsSafe w) w.sessions
  IsLinked-IsSafe w (urls, players, balanced, homed, homed') =
      All-map w.sessions
        (λ s (m, l). elim (task_at-cases s.url w.lists.tasks) [
          | inl (_, lost) ↦ absurd (lost m)
          | inr (z, e, (whole, same, _)) ↦
              let all = subst (All (IsBalanced w.sessions w.lists.preloaders)) whole balanced in
              let (_, b, _) =
                All-middle (IsBalanced w.sessions w.lists.preloaders) z.before z.node z.after all in
              let l' : 0 < held s.id z.node.url w.sessions =
                subst (λ u. 0 < held s.id u w.sessions) (sym same) l in
              (z.node, e, same, count-Any s.id z.node.readers (omega (arith, b s.id, l')))
        ])
        (All-both (λ s. HasTask s.url w.lists.tasks) (λ s. 0 < held s.id s.url w.sessions)
          w.sessions homed (held-own w.sessions))

  IsLinked-IsOwned :
      (w : World S) → IsLinked w → All (λ t. All (IsOwned w t) t.readers) w.lists.tasks
  IsLinked-IsOwned w (_, _, balanced, _, _) =
      All-map w.lists.tasks
        (λ t b.
          All-map t.readers
            (λ r l. elim (dec_lt 0 (held r.id t.url w.sessions)) [
              | yes h ↦ inl (held-Any r.id t.url w.sessions h)
              | no h ↦ inr (preloading-Any r.id t.url w.lists.preloaders (omega (arith, b r.id, l)))
            ])
            (count-member t.readers))
        balanced

-- `storage` is what `open_storage` returns.
module _ {S : Type 0} (ops : Storage S) (buf : ℕ → ℕ) (limit : ℕ) (size_of : Output → ℕ)
    (decimal : ℕ → List ℕ) (atoi : List ℕ → ℕ) (storage : S) where
  -- An event of a connection or of a pipe at some time that ends with no fault; what the library of
  -- the connections does with them; a change of the resources.
  pub data Step : World S → World S → Type 0 where
    handled :
        (now nc : ℕ) (ev : Event) (w w' : World S) (r : Response)
        → server_handler ops buf limit size_of now decimal atoi storage nc w ev ≡ ok (w', r)
        → Step w w'
    piped :
        (now url : ℕ) (pipe : Pipe) (ev : PipeEvent) (w w' : World S)
        → pipe_handler ops buf limit size_of now w url pipe ev ≡ ok w'
        → Step w w'
    transmitted :
        (w : World S) (connections : ℕ → Connection)
        → Step w (record w { connections = connections })
    resourced :
        (w : World S) (server : Server)
        → Step w (record w { lists = record w.lists { server = server } })

  pub data Reaches (start : World S) : World S → Type 0 where
    begin : Reaches start start
    then_step : (w w' : World S) → Reaches start w → Step w w' → Reaches start w'

  -- No player, task or preloader is there yet.
  abbrev pub IsFresh : World S → Type 0
  IsFresh w = (w.lists.tasks ≡ []) × (w.sessions ≡ []) × (w.lists.preloaders ≡ [])

  Step-IsLinked : (w w' : World S) → Step w w' → IsLinked w → IsLinked w'
  Step-IsLinked w w' (handled now nc ev _ _ r e) linked =
      subst (Holds (λ (z : World S × Response). IsLinked z.0)) e
        (server_handler-IsLinked ops buf limit size_of now decimal atoi storage nc w ev linked)
  Step-IsLinked w w' (piped now url pipe ev _ _ e) linked =
      subst (Holds IsLinked) e
        (pipe_handler-IsLinked ops buf limit size_of now w url pipe ev linked)
  Step-IsLinked w w' (transmitted _ connections) linked = linked
  Step-IsLinked w w' (resourced _ server) linked = linked

  IsFresh-IsLinked : (w : World S) → IsFresh w → IsLinked w
  IsFresh-IsLinked w (ts, ss, ps) = rw (ts, ss, ps) (tt, tt, tt, tt, tt)

  -- What holds of the pointers after any steps.
  pub Reaches-IsLinked : (start w : World S) → IsFresh start → Reaches start w → IsLinked w
  Reaches-IsLinked start w fresh begin = IsFresh-IsLinked start fresh
  Reaches-IsLinked start w fresh (then_step v _ path step) =
      Step-IsLinked v w step (Reaches-IsLinked start v fresh path)

  -- Whatever events of connections and pipes a server without tasks, sessions and preloaders
  -- handles with no fault, and whatever its connections and resources become in between: the
  -- pointer of each session leads to the task of its url, which has the session among its
  -- readers; and each reader of a task is that of a session or a preloader that has the task.
  pub Reaches-IsSafe :
      (start w : World S)
      → IsFresh start
      → Reaches start w
      → All (IsSafe w) w.sessions × All (λ t. All (IsOwned w t) t.readers) w.lists.tasks
  Reaches-IsSafe start w fresh path =
      let linked = Reaches-IsLinked start w fresh path in
      (IsLinked-IsSafe w linked, IsLinked-IsOwned w linked)
