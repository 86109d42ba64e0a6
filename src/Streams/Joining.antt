-- ===== src/Streams/Joining.antt =====
-- A session or a preloader joins a task, which is found or created.
use libms.Base.{
  ℕ, ◌+◌, ◌<◌, ◌≡◌, ◌≢◌, inl, inr, refl, sym, ap, ◌∙◌, false, ◌&&◌, List, [], ◌∷◌, ◌++◌, All,
  Any-map, Any-All, All-map, ◌==◌, arith, subst, ok,
}
use libms.Queue.{
  Found, with_node, find_at-cases, find_at-with_node, All-middle, All-join, Any-append, Any-middle,
  Apart-snoc,
}
use libms.Storage.{Storage}
use libms.Task.{Task}
use libms.Task.Ops.{ms_task_open}
use libms.Preloader.{Preloader}
use libms.TaskManager.{is_for, ms_find_or_create_task}
use libms.TaskManager.Kept.{
  kept, kept-All, kept-Apart, kept-KeptOrIdle, KeptOrIdle, ms_remove_task_if_need-kept,
}
use libms.Streams.{Stream}
use libms.Streams.Counts.{count, one_if}
use libms.Streams.Linked.{
  held, held-append, preloading, preloading-append, IsBalanced, AreLinked, HasTask,
  replace-AreLinked,
}
use libms.Streams.Running.{Behind}

held-none : (id url : ℕ) (ss : List Stream) → All (λ s. s.url ≢ url) ss → held id url ss ≡ 0
unfolding held
held-none id url [] _ = refl
held-none id url (s ∷ ss) (n, ns) = ground (arith, held-none id url ss ns)

preloading-none :
    (id url : ℕ) (ps : List Preloader) → All (λ p. p.url ≢ url) ps → preloading id url ps ≡ 0
unfolding preloading
preloading-none id url [] _ = refl
preloading-none id url (p ∷ ps) (n, ns) = ground (arith, preloading-none id url ps ns)

-- Each session of a list is counted in it.
pub held-own : (ss : List Stream) → All (λ s. 0 < held s.id s.url ss) ss
unfolding held
held-own [] = tt
held-own (s ∷ ss) = (ground arith, All-map ss (λ q l. omega (arith, l)) (held-own ss))

preloading-own : (ps : List Preloader) → All (λ p. 0 < preloading p.reader.id p.url ps) ps
unfolding preloading
preloading-own [] = tt
preloading-own (p ∷ ps) = (ground arith, All-map ps (λ q l. omega (arith, l)) (preloading-own ps))

pub All-both :
    {A : Type 0} (P R : A → Type 0) (xs : List A) → All P xs → All R xs → All (λ x. P x × R x) xs
All-both P R [] _ _ = tt
All-both P R (x ∷ xs) (p, ps) (r, rs) = ((p, r), All-both P R xs ps rs)

module _ {S : Type 0} (ops : Storage S) where
  -- No session has a task that is closed.
  kept-HasTask :
      (now id url : ℕ) (tasks : List (Task S)) (ss : List Stream) (ps : List Preloader)
      → All (IsBalanced ss ps) tasks
      → HasTask url tasks
      → 0 < held id url ss + preloading id url ps
      → HasTask url (kept ops now 5 tasks)
  unfolding count
  kept-HasTask now id url tasks ss ps balanced m l =
      let (t, same, (b, or)) = Any-All tasks m (
        All-both (IsBalanced ss ps) (KeptOrIdle ops now (kept ops now 5 tasks)) tasks balanced
          (kept-KeptOrIdle ops now tasks)) in
      elim or [
        | inl there ↦ Any-map (kept ops now 5 tasks) (λ q e. ap (λ k. k.url) e ∙ same) there
        | inr (idle, _) ↦
            let none : count id t.readers ≡ 0 = ap (count id) idle in
            let some : 0 < held id t.url ss + preloading id t.url ps =
              subst (λ u. 0 < held id u ss + preloading id u ps) (sym same) l in
            absurd (omega (arith, none, b id))
      ]

  -- The task that is found or created has that url, and the pointers stay right.
  pub ms_find_or_create_task-AreLinked :
      (storage : S) (now url : ℕ) (tasks : List (Task S)) (ss : List Stream) (ps : List Preloader)
      → AreLinked tasks ss ps
      → (z : Found (Task S)) × (tasks' : List (Task S)) × (ms_find_or_create_task ops storage now
            url tasks
          ≡ ok (z.node, tasks'))
        × AreLinked tasks' ss ps
        × Behind tasks' url z
  unfolding ms_find_or_create_task ms_task_open count
  ms_find_or_create_task-AreLinked storage now url tasks ss ps linked =
      let (urls, players, balanced, homed, homed') = linked in
      let new : Task S = ms_task_open storage url in
      let left : List (Task S) = kept ops now 5 tasks in
      elim (find_at-cases (is_for url) tasks) [
        | inr (z, e, (whole, test, _)) ↦
            (z, tasks, rw (ms_find_or_create_task, e) refl, linked, (whole, ground arith, e))
        | inl (e, others) ↦
            let z : Found (Task S) = record { before = left; node = new; after = [] } in
            let off : (u : ℕ) → HasTask u tasks → u ≢ url =
              λ u m same. let (t, a, b) = Any-All tasks m others in absurd (ground arith) in
            let unheld : (id : ℕ) → 0 ≡ held id url ss + preloading id url ps = λ id. omega (
              arith,
              held-none id url ss (All-map ss (λ s m. off s.url m) homed),
              preloading-none id url ps (All-map ps (λ p m. off p.url m) homed'),
            ) in
            (
              z,
              left ++ (new ∷ []),
              rw (ms_find_or_create_task, e, ms_remove_task_if_need-kept ops now 5 tasks) refl,
              (
                Apart-snoc (λ q. q.url) left new
                    (kept-All ops (λ q. q.url ≢ url) now 5 tasks
                      (All-map tasks (λ q n same. ground (arith, n)) others))
                    (kept-Apart ops now 5 tasks urls),
                players,
                All-join (IsBalanced ss ps) left (new ∷ [])
                    (kept-All ops (IsBalanced ss ps) now 5 tasks balanced) (unheld, tt),
                All-map ss
                    (λ s (m, l).
                      Any-append (λ t. t.url ≡ s.url) left (new ∷ [])
                        (kept-HasTask now s.id s.url tasks ss ps balanced m (omega (arith, l))))
                    (All-both (λ s. HasTask s.url tasks) (λ s. 0 < held s.id s.url ss) ss homed
                      (held-own ss)),
                All-map ps
                    (λ p (m, l).
                      Any-append (λ t. t.url ≡ p.url) left (new ∷ [])
                        (kept-HasTask now p.reader.id p.url tasks ss ps balanced m
                          (omega (arith, l))))
                    (All-both (λ p. HasTask p.url tasks) (λ p. 0 < preloading p.reader.id p.url ps)
                      ps homed' (preloading-own ps)),
              ),
              (
                refl,
                refl,
                find_at-with_node (is_for url) left new []
                    (kept-All ops (λ q. is_for url q ≡ false) now 5 tasks others) (ground arith),
              ),
            )
      ]

held-last :
    (id url : ℕ) (ss : List Stream) (s : Stream)
    → held id url (ss ++ (s ∷ [])) ≡ held id url ss + one_if (s.id == id && s.url == url)
unfolding held
held-last id url ss s = omega (arith, held-append id url ss (s ∷ []))

preloading-last :
    (id url : ℕ) (ps : List Preloader) (p : Preloader)
    → preloading id url (ps ++ (p ∷ []))
      ≡ preloading id url ps + one_if (p.reader.id == id && p.url == url)
unfolding preloading
preloading-last id url ps p = omega (arith, preloading-append id url ps (p ∷ []))

own : (a b u v : ℕ) → u ≡ v → one_if (a == b && u == v) ≡ one_if (a == b)
own a b u v e = ground arith

foreign : (a b u v : ℕ) → v ≢ u → one_if (a == b && u == v) ≡ 0
foreign a b u v n = ground arith

module _ {S : Type 0} where
  -- The task that was found, with one reader more.
  abbrev pub HasJoined : ℕ → Task S → Task S → Type 0
  HasJoined reader x y =
      (y.url ≡ x.url) × ((id : ℕ) → count id y.readers ≡ count id x.readers + one_if (reader == id))

  Behind-HasTask :
      (tasks : List (Task S)) (url : ℕ) (z : Found (Task S))
      → Behind tasks url z
      → HasTask url (with_node z z.node)
  Behind-HasTask tasks url z (_, same, _) =
      Any-middle (λ t. t.url ≡ url) z.before z.node z.after same

  pub join-AreLinked :
      (tasks : List (Task S)) (url : ℕ) (z : Found (Task S)) (y : Task S) (ss : List Stream)
      (s : Stream) (ps : List Preloader)
      → AreLinked tasks ss ps
      → Behind tasks url z
      → s.url ≡ url
      → All (λ q. q.nc ≢ s.nc) ss
      → HasJoined s.id z.node y
      → AreLinked (with_node z y) (ss ++ (s ∷ [])) ps
  join-AreLinked tasks url z y ss s ps linked (whole, same, e) on idle (u, c) =
      let (urls, players, balanced, homed, homed') =
        subst (λ ts. AreLinked ts ss ps) whole linked in
      let list : List (Task S) = with_node z z.node in
      let (_, b, _) = All-middle (IsBalanced ss ps) z.before z.node z.after balanced in
      let there : HasTask s.url list =
        subst (λ v. HasTask v list) (sym on) (Behind-HasTask tasks url z (whole, same, e)) in
      replace-AreLinked z.before z.node y z.after ss (ss ++ (s ∷ [])) ps ps
        (urls, players, balanced, homed, homed') u (Apart-snoc (λ q. q.nc) ss s idle players)
        (λ id v n.
          omega (arith, held-last id v ss s, foreign s.id id s.url v (λ k. n (k ∙ on ∙ sym same))))
        (λ id. omega (
          arith,
          c id,
          b id,
          held-last id z.node.url ss s,
          own s.id id s.url z.node.url (on ∙ sym same),
        ))
        (All-join (λ q. HasTask q.url list) ss (s ∷ []) homed (there, tt)) homed'

  pub preload-AreLinked :
      (tasks : List (Task S)) (url : ℕ) (z : Found (Task S)) (y : Task S) (ss : List Stream)
      (ps : List Preloader) (p : Preloader)
      → AreLinked tasks ss ps
      → Behind tasks url z
      → p.url ≡ url
      → HasJoined p.reader.id z.node y
      → AreLinked (with_node z y) ss (ps ++ (p ∷ []))
  preload-AreLinked tasks url z y ss ps p linked (whole, same, e) on (u, c) =
      let (urls, players, balanced, homed, homed') =
        subst (λ ts. AreLinked ts ss ps) whole linked in
      let list : List (Task S) = with_node z z.node in
      let (_, b, _) = All-middle (IsBalanced ss ps) z.before z.node z.after balanced in
      let there : HasTask p.url list =
        subst (λ v. HasTask v list) (sym on) (Behind-HasTask tasks url z (whole, same, e)) in
      replace-AreLinked z.before z.node y z.after ss ss ps (ps ++ (p ∷ []))
        (urls, players, balanced, homed, homed') u players
        (λ id v n. omega (
          arith,
          preloading-last id v ps p,
          foreign p.reader.id id p.url v (λ k. n (k ∙ on ∙ sym same)),
        ))
        (λ id. omega (
          arith,
          c id,
          b id,
          preloading-last id z.node.url ps p,
          own p.reader.id id p.url z.node.url (on ∙ sym same),
        ))
        homed (All-join (λ q. HasTask q.url list) ps (p ∷ []) homed' (there, tt))
