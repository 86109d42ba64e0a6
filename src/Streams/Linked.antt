-- ===== src/Streams/Linked.antt =====
-- The invariant between the tasks and those who hold a pointer to one.
use libms.Base.{
  ℕ, ◌+◌, ◌≡◌, ◌≢◌, inl, inr, sym, ◌∙◌, ◌&&◌, List, [], ◌∷◌, ◌++◌, All, Any, All-map, ◌==◌, arith,
  subst,
}
use libms.Queue.{Apart, All-middle, Apart-with_node}
use libms.Task.{Task}
use libms.Preloader.{Preloader}
use libms.Streams.{Stream, World}
use libms.Streams.Counts.{count, one_if}

-- How many of the sessions with that address are on the task of that url.
unfoldable pub held : ℕ → ℕ → List Stream → ℕ
held id url [] = 0
held id url (s ∷ sessions) = one_if (s.id == id && s.url == url) + held id url sessions

-- The same for the preloaders.
unfoldable pub preloading : ℕ → ℕ → List Preloader → ℕ
preloading id url [] = 0
preloading id url (p ∷ preloaders) =
    one_if (p.reader.id == id && p.url == url) + preloading id url preloaders

pub held-append :
    (id url : ℕ) (xs ys : List Stream) → held id url (xs ++ ys) ≡ held id url xs + held id url ys
unfolding held
held-append id url [] ys = omega arith
held-append id url (s ∷ xs) ys = omega (arith, held-append id url xs ys)

pub preloading-append :
    (id url : ℕ) (xs ys : List Preloader)
    → preloading id url (xs ++ ys) ≡ preloading id url xs + preloading id url ys
unfolding preloading
preloading-append id url [] ys = omega arith
preloading-append id url (p ∷ xs) ys = omega (arith, preloading-append id url xs ys)

module _ {A : Type 0} where
  -- Another element stands at a place, where one with its key stood.
  pub All-replace :
      (P R : A → Type 0) (key : A → ℕ) (before : List A) (x y : A) (after : List A)
      → Apart key (before ++ (x ∷ after))
      → All P (before ++ (x ∷ after))
      → ((q : A) → key q ≢ key x → P q → R q)
      → R y
      → All R (before ++ (y ∷ after))
  All-replace P R key [] x y after (h, _) (_, ps) other here = (here, both after h ps)
    where
      both : (xs : List A) → All (λ q. key q ≢ key x) xs → All P xs → All R xs
      both [] _ _ = tt
      both (q ∷ xs) (n, ns) (p, ps') = (other q n p, both xs ns ps')
  All-replace P R key (z ∷ before) x y after (h, hs) (p, ps) other here =
      let (_, n, _) = All-middle (λ q. key q ≢ key z) before x after h in
      (other z (λ e. n (sym e)) p, All-replace P R key before x y after hs ps other here)

  pub Any-replace :
      (P : A → Type 0) (before : List A) (x y : A) (after : List A)
      → (P x → P y)
      → Any P (before ++ (x ∷ after))
      → Any P (before ++ (y ∷ after))
  Any-replace P [] x y after f (inl h) = inl (f h)
  Any-replace P [] x y after f (inr m) = inr m
  Any-replace P (z ∷ before) x y after f (inl h) = inl h
  Any-replace P (z ∷ before) x y after f (inr m) = inr (Any-replace P before x y after f m)

module _ {S : Type 0} where
  -- There is a task of that url.
  abbrev pub HasTask : ℕ → List (Task S) → Type 0
  HasTask url = Any (λ t. t.url ≡ url)

  -- The readers of a task are those who hold a pointer to it, each as often.
  abbrev pub IsBalanced : List Stream → List Preloader → Task S → Type 0
  IsBalanced sessions preloaders t =
      (id : ℕ) → count id t.readers ≡ held id t.url sessions + preloading id t.url preloaders

  abbrev pub AreLinked : List (Task S) → List Stream → List Preloader → Type 0
  AreLinked tasks sessions preloaders =
      Apart (λ t. t.url) tasks
      × Apart (λ s. s.nc) sessions
      × All (IsBalanced sessions preloaders) tasks
      × All (λ s. HasTask s.url tasks) sessions
      × All (λ p. HasTask p.url tasks) preloaders

  -- The urls of the tasks are different, and so are the connections of the sessions. Each session
  -- and each preloader has its task in the list; the readers of a task are the sessions and the
  -- preloaders that have it, each as often.
  abbrev pub IsLinked : World S → Type 0
  IsLinked w = AreLinked w.lists.tasks w.sessions w.lists.preloaders

  -- A task changes together with the pointers to it.
  pub replace-AreLinked :
      (before : List (Task S)) (x y : Task S) (after : List (Task S)) (ss ss' : List Stream)
      (ps ps' : List Preloader)
      → AreLinked (before ++ (x ∷ after)) ss ps
      → y.url ≡ x.url
      → Apart (λ s. s.nc) ss'
      → ((id url : ℕ)
          → url ≢ x.url
          → held id url ss' + preloading id url ps' ≡ held id url ss + preloading id url ps)
      → ((id : ℕ) → count id y.readers ≡ held id x.url ss' + preloading id x.url ps')
      → All (λ s. HasTask s.url (before ++ (x ∷ after))) ss'
      → All (λ p. HasTask p.url (before ++ (x ∷ after))) ps'
      → AreLinked (before ++ (y ∷ after)) ss' ps'
  replace-AreLinked before x y after ss ss' ps ps' (urls, _, balanced, _, _) same players other here
        homed homed' =
      (
        Apart-with_node (λ t. t.url) before x y after same urls,
        players,
        All-replace (IsBalanced ss ps) (IsBalanced ss' ps') (λ t. t.url) before x y after urls
            balanced (λ q n b id. b id ∙ sym (other id q.url n))
            (λ id.
              subst (λ u. count id y.readers ≡ held id u ss' + preloading id u ps') (sym same)
                (here id)),
        All-map ss' (λ s m. Any-replace (λ t. t.url ≡ s.url) before x y after (λ e. same ∙ e) m)
            homed,
        All-map ps' (λ p m. Any-replace (λ t. t.url ≡ p.url) before x y after (λ e. same ∙ e) m)
            homed',
      )
