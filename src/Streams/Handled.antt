-- ===== src/Streams/Handled.antt =====
-- Every event of a player's connection keeps the pointers to the tasks right.
use libms.Base.{ℕ, ◌≡◌, inl, inr, none, some, Option, List, ◌∷◌, if_cases, ok}
use libms.Queue.{Found, with_node, find_at-cases}
use libms.Storage.{Storage}
use libms.Server.{has_prefix, stream_prefix}
use libms.Handlers.{Lists, Response, ms_api_handler}
use libms.Session.{Output}
use libms.Session.{on_send}
use libms.Session.Keeps.{Holds, Holds-bind, on_send-SameOrGone}
use libms.Streams.{
  Stream, World, Request, Event, http_request, send, close, timer, is_of, ms_find_session, run,
  task_ops,
}
use libms.Streams.Requests.{
  api_prefix, ms_stream_handler, on_request, on_sent, server_handler, requested_url,
}
use libms.Streams.Counts.{HasReaders, HasReaders-IsKept}
use libms.Streams.Linked.{IsLinked}
use libms.Streams.Running.{Keeping, run-IsLinked}
use libms.Streams.Leaving.{leave_old-Left, others_of}
use libms.Streams.Opened.{ms_stream_handler-Joined, Joined}
use libms.Streams.Requested.{ms_api_handler-Fit, Fit}

module _ {S : Type 0} (ops : Storage S) (buf : ℕ → ℕ) (limit : ℕ) (size_of : Output → ℕ)
    (now : ℕ) where
  on_send-Keeping :
      (n : ℕ)
      → Keeping ops buf now limit size_of (λ st. on_send (task_ops ops buf now) limit size_of st n)
  on_send-Keeping n url readers st q =
      on_send-SameOrGone (task_ops ops buf now) (HasReaders url readers)
        (HasReaders-IsKept ops buf now url readers) limit size_of st n q

  on_sent-IsLinked :
      (nc : ℕ) (w : World S) (sent : Option ℕ)
      → IsLinked w
      → Holds IsLinked (on_sent ops buf limit size_of now nc w sent)
  unfolding on_sent ms_find_session
  on_sent-IsLinked nc w sent linked = elim (find_at-cases (is_of nc) w.sessions) [
    | inl (e, _) ↦ rw (on_sent, ms_find_session, e) linked
    | inr (z, e, (list, _, _)) ↦ rw (on_sent, ms_find_session, e) (found z list sent)
  ]
    where
      found :
          (z : Found Stream)
          → w.sessions ≡ with_node z z.node
          → (sent : Option ℕ)
          → Holds IsLinked (elim sent [
            | none ↦ ok (record w { closing = nc ∷ w.closing })
            | some n ↦ run (λ st. on_send (task_ops ops buf now) limit size_of st n) w z
          ])
      found z list none = linked
      found z list (some n) =
          run-IsLinked ops buf now limit size_of
            (λ st. on_send (task_ops ops buf now) limit size_of st n) w z (on_send-Keeping n) linked
            list

  module _ (decimal : ℕ → List ℕ) (atoi : List ℕ → ℕ) (storage : S) (nc : ℕ) where
    on_request-IsLinked :
        (w : World S) (r : Request)
        → IsLinked w
        → Holds
            (λ (z : World S × Response). IsLinked z.0)
            (on_request ops buf limit size_of now decimal atoi storage nc w r)
    unfolding on_request
    on_request-IsLinked w r linked =
        let goal : World S × Response → Type 0 = λ z. IsLinked z.0 in
        if_cases (Holds goal) (has_prefix r.uri stream_prefix) _ _
          (λ _.
            Holds-bind
              (Joined ops buf limit size_of now nc (requested_url decimal w r)
                (others_of nc w.sessions))
              goal (ms_stream_handler ops buf limit size_of now decimal atoi storage nc w r) _
              (ms_stream_handler-Joined ops buf limit size_of now decimal atoi storage nc w r
                linked)
              (λ w' (l, _). l))
          (λ _.
            if_cases (Holds goal) (has_prefix r.uri api_prefix) _ _
              (λ _.
                Holds-bind (λ (z : Lists S × Response). Fit ops w.sessions z.0) goal
                  (ms_api_handler ops atoi storage now w.lists r.uri r.method r.body_id) _
                  (ms_api_handler-Fit ops w.sessions atoi storage now w.lists r.uri r.method
                    r.body_id linked)
                  (λ z l. l))
              (λ _. linked))

    -- An event of a connection that ends with no fault keeps this: the urls of the tasks are
    -- different, and so are the connections of the sessions; each session and each preloader
    -- has its task in the list; and the readers of a task are the sessions and the preloaders
    -- that have it, each as often.
    pub server_handler-IsLinked :
        (w : World S) (ev : Event)
        → IsLinked w
        → Holds
            (λ (z : World S × Response). IsLinked z.0)
            (server_handler ops buf limit size_of now decimal atoi storage nc w ev)
    unfolding server_handler
    server_handler-IsLinked w (http_request r) linked = on_request-IsLinked w r linked
    server_handler-IsLinked w (send sent) linked =
        Holds-bind IsLinked (λ (z : World S × Response). IsLinked z.0)
          (on_sent ops buf limit size_of now nc w sent) _ (on_sent-IsLinked nc w sent linked)
          (λ w' l. l)
    server_handler-IsLinked w close linked =
        let (w', e, (l, _, _, _, _)) = leave_old-Left ops buf now w nc linked in rw e l
    server_handler-IsLinked w timer linked = linked
