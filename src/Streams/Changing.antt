-- ===== src/Streams/Changing.antt =====
-- A session changes or goes, together with its task.
use libms.Base.{ℕ, ◌+◌, ◌≡◌, ◌≢◌, sym, ap, ap₂, ◌∙◌, ◌&&◌, List, ◌∷◌, ◌++◌, All, ◌==◌, arith, subst}
use libms.Queue.{All-middle, All-join, Apart-with_node, Apart-without_node}
use libms.Task.{Task}
use libms.Preloader.{Preloader}
use libms.Streams.{Stream}
use libms.Streams.Counts.{count, one_if}
use libms.Streams.Linked.{
  held, held-append, preloading, IsBalanced, AreLinked, HasTask, replace-AreLinked,
}

pub held-middle :
    (id url : ℕ) (before : List Stream) (s : Stream) (after : List Stream)
    → held id url (before ++ (s ∷ after))
      ≡ one_if (s.id == id && s.url == url) + held id url (before ++ after)
unfolding held
held-middle id url before s after =
    omega (arith, held-append id url before (s ∷ after), held-append id url before after)

other_url : (s : Stream) (id url : ℕ) → url ≢ s.url → one_if (s.id == id && s.url == url) ≡ 0
other_url s id url n = ground arith

pub own_url :
    (s : Stream) (id url : ℕ)
    → s.url ≡ url
    → one_if (s.id == id && s.url == url) ≡ one_if (s.id == id)
own_url s id url e = ground arith

held-replace :
    (id url : ℕ) (ahead : List Stream) (s s' : Stream) (behind : List Stream)
    → s'.id ≡ s.id
    → s'.url ≡ s.url
    → held id url (ahead ++ (s' ∷ behind)) ≡ held id url (ahead ++ (s ∷ behind))
held-replace id url ahead s s' behind i u =
    held-middle id url ahead s' behind
    ∙ ap₂ (λ a b. one_if (a == id && b == url) + held id url (ahead ++ behind)) i u
    ∙ sym (held-middle id url ahead s behind)

-- What holds of the members holds with another one of that kind at a place.
All-put :
    {A : Type 0} (P : A → Type 0) (ahead : List A) (s s' : A) (behind : List A)
    → (P s → P s')
    → All P (ahead ++ (s ∷ behind))
    → All P (ahead ++ (s' ∷ behind))
All-put P ahead s s' behind f all =
    let (h, p, k) = All-middle P ahead s behind all in All-join P ahead (s' ∷ behind) h (f p, k)

pub All-cut :
    {A : Type 0} (P : A → Type 0) (ahead : List A) (s : A) (behind : List A)
    → All P (ahead ++ (s ∷ behind))
    → All P (ahead ++ behind)
All-cut P ahead s behind all =
    let (h, p, k) = All-middle P ahead s behind all in All-join P ahead behind h k

module _ {S : Type 0} where
  -- The session stays, and so do the readers of its task.
  pub stay-AreLinked :
      (before : List (Task S)) (x y : Task S) (after : List (Task S)) (ahead : List Stream)
      (s s' : Stream) (behind : List Stream) (ps : List Preloader)
      → AreLinked (before ++ (x ∷ after)) (ahead ++ (s ∷ behind)) ps
      → (s'.id ≡ s.id) × (s'.url ≡ s.url) × (s'.nc ≡ s.nc)
      → y.url ≡ x.url
      → ((id : ℕ) → count id y.readers ≡ count id x.readers)
      → AreLinked (before ++ (y ∷ after)) (ahead ++ (s' ∷ behind)) ps
  stay-AreLinked before x y after ahead s s' behind ps linked (i, u, c) same readers =
      let (urls, players, balanced, homed, homed') = linked in
      let list : List Stream = ahead ++ (s ∷ behind) in
      let tasks : List (Task S) = before ++ (x ∷ after) in
      let (_, b, _) = All-middle (IsBalanced list ps) before x after balanced in
      replace-AreLinked before x y after list (ahead ++ (s' ∷ behind)) ps ps linked same
        (Apart-with_node (λ q. q.nc) ahead s s' behind c players)
        (λ id url n. ap (λ k. k + preloading id url ps) (held-replace id url ahead s s' behind i u))
        (λ id.
          readers id
          ∙ b id
          ∙ ap (λ k. k + preloading id x.url ps)
              (sym (held-replace id x.url ahead s s' behind i u)))
        (All-put (λ q. HasTask q.url tasks) ahead s s' behind
          (λ m. subst (λ v. HasTask v tasks) (sym u) m) homed)
        homed'

  -- The session goes, and leaves its task.
  pub go-AreLinked :
      (before : List (Task S)) (x y : Task S) (after : List (Task S)) (ahead : List Stream)
      (s : Stream) (behind : List Stream) (ps : List Preloader)
      → AreLinked (before ++ (x ∷ after)) (ahead ++ (s ∷ behind)) ps
      → s.url ≡ x.url
      → y.url ≡ x.url
      → ((id : ℕ) → count id y.readers + one_if (s.id == id) ≡ count id x.readers)
      → AreLinked (before ++ (y ∷ after)) (ahead ++ behind) ps
  go-AreLinked before x y after ahead s behind ps linked own same readers =
      let (urls, players, balanced, homed, homed') = linked in
      let list : List Stream = ahead ++ (s ∷ behind) in
      let tasks : List (Task S) = before ++ (x ∷ after) in
      let (_, b, _) = All-middle (IsBalanced list ps) before x after balanced in
      replace-AreLinked before x y after list (ahead ++ behind) ps ps linked same
        (Apart-without_node (λ q. q.nc) ahead s behind players)
        (λ id url n.
          omega (arith, held-middle id url ahead s behind, other_url s id url (λ e. n (e ∙ own))))
        (λ id.
          omega
            (arith, readers id, b id, held-middle id x.url ahead s behind, own_url s id x.url own))
        (All-cut (λ q. HasTask q.url tasks) ahead s behind homed) homed'
